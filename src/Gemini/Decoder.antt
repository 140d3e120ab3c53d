-- ===== src/Gemini/Decoder.antt =====
-- providers/gemini/response.go, `decoder`: a part becomes calls of the emitter. The decoder's
-- pointers to its writers are marks that it holds one: that is always the writer that the emitter
-- opened last.
use openresponses.Prelude.{
  ℕ, String, str_eq, str_append, if◌then◌else◌, Bool, true, false, not, ◌&&◌, Option, none, some,
  List, [], ◌∷◌, ℤ, pos, negsuc, get_elem?,
}
use openresponses.Item.{Item, Status}
use openresponses.EventSink.{EventSink}
use openresponses.Extensions.{set_issuer}
use openresponses.Emitter.Calls.{Call}
use openresponses.Adapter.Shapes.{UrlCitation, Usage}
use openresponses.Adapter.Steps.{
  AdapterError, server_error, model_error, Feed, Step, ◌>>◌, skip, stop, when, updates, each, calls,
  calls_new, message_text,
}
use openresponses.Gemini.Chunk.{
  Args, FunctionCall, Kind, Part, Segment, Support, Web, Grounding, FinishReason,
}
use openresponses.Gemini.Locate.{Texts, locate}

pub record Decoder : Type 0 where
  pub msg : Bool
  pub reasoning : Bool
  pub cited : ℕ
  pub seen : Bool

abbrev pub new_decoder : Decoder
new_decoder = record { msg = false; reasoning = false; cited = 0; seen = false }

-- What the decoder uses of the libraries: the identifiers of `NewID`; the JSON texts of a string, a
-- citation, the usage, and of an extension item, by its type, id and part; the clock; `ToLower`, and
-- the texts of the SDK's finish reasons.
pub record Externals : Type 0 where
  pub ids : ℕ → String
  pub quoted : String → String
  pub citation_text : UrlCitation → String
  pub usage_text : Usage → String
  pub raw_text : String → String → String → String
  pub now : ℕ
  pub to_lower : String → String
  pub reason_text : FinishReason → String
  pub texts : Texts

abbrev pub is_empty : String → Bool
is_empty s = str_eq s ""

abbrev pub slug : String
slug = "gemini."

abbrev pub issuer : String
issuer = "gemini"

abbrev pub kind_name : Kind → String
kind_name Kind.executable_code = "executable_code"
kind_name Kind.code_execution_result = "code_execution_result"
kind_name Kind.inline_data = "inline_data"
kind_name Kind.file_data = "file_data"

module _ {S : Type 0} (k : EventSink S) (x : Externals) where
  abbrev pub Decode : Type 0
  Decode = Step (Feed Decoder S)

  abbrev pub marks_message : Bool → Decode
  marks_message b = updates (λ (d : Decoder). record d { msg = b })

  abbrev pub marks_reasoning : Bool → Decode
  marks_reasoning b = updates (λ (d : Decoder). record d { reasoning = b })

  abbrev pub sets_cited : ℕ → Decode
  sets_cited n = updates (λ (d : Decoder). record d { cited = n })

  abbrev pub close_held : Bool → Bool → Decode
  close_held true _ = marks_message false >> calls k Call.closes
  close_held false true = marks_reasoning false >> calls k Call.closes
  close_held false false = skip

  -- `closeOpen`.
  unfoldable pub close_open : Decode
  close_open f = close_held f.decoder.msg f.decoder.reasoning f

  abbrev pub open_message_unless : Bool → Decode
  open_message_unless true = skip
  open_message_unless false =
      close_open
      >> calls_new k x.ids (λ id _. Call.message id "final_answer")
      >> marks_message true
      >> sets_cited 0

  -- `openMessage`.
  unfoldable pub open_message : Decode
  unfolding close_open
  open_message f = open_message_unless f.decoder.msg f

  abbrev pub open_reasoning_unless : Bool → Decode
  open_reasoning_unless true = skip
  open_reasoning_unless false =
      close_open
      >> calls_new k x.ids (λ id _. Call.reasoning id [])
      >> calls k (Call.changes_extra (set_issuer issuer (x.quoted issuer)))
      >> marks_reasoning true

  -- `openReasoning`.
  unfoldable pub open_reasoning : Decode
  unfolding close_open set_issuer
  open_reasoning f = open_reasoning_unless f.decoder.reasoning f

  abbrev pub item_with : String → Args → Decode
  item_with kind (Args.encoded part) = calls_new k x.ids (λ id _. Call.whole (
      Item.unknown_item (record {
        type = str_append slug kind;
        id = id;
        status = Status.completed;
        raw = x.raw_text (str_append slug kind) id part;
      })))
  item_with kind (Args.unencodable message) =
      stop
        (server_error "invalid_upstream_response" (str_append kind (str_append " part: " message)))
  item_with kind Args.absent = skip

  -- `extension`.
  unfoldable pub extension : String → Args → Decode
  unfolding close_open
  extension kind payload = close_open >> item_with kind payload

  abbrev pub write_call : FunctionCall → String → Decode
  write_call c args =
      calls_new k x.ids (λ id fresh. Call.function_call id fresh c.id c.name)
      >> calls k (Call.arguments args)
      >> calls k Call.closes

  abbrev pub call_with : FunctionCall → Args → Decode
  call_with c Args.absent = write_call c "{}"
  call_with c (Args.encoded args) = write_call c args
  call_with c (Args.unencodable message) =
      stop
        (server_error "invalid_upstream_response" (str_append "function call arguments: " message))

  abbrev pub think : Part → Decode
  think p =
      open_reasoning
      >> when (not (is_empty p.text)) (calls k (Call.summary p.text))
      >> when (not (is_empty p.signature)) (calls k (Call.encrypted_content p.signature))

  abbrev pub extend_with : Option Kind → Part → Decode
  extend_with none p = skip
  extend_with (some kind) p = extension (kind_name kind) p.encoded

  abbrev pub route : Option FunctionCall → Part → Decode
  route (some c) p = close_open >> call_with c c.args
  route none p =
      if p.thought
      then think p
      else if is_empty p.text
      then extend_with p.kind p
      else (open_message >> calls k (Call.text p.text))

  -- `part`. A signature on a part that is not a thought goes to a reasoning item before it.
  unfoldable pub part : Part → Decode
  unfolding open_message open_reasoning extension close_open
  part p =
      when (not (is_empty p.signature) && not p.thought)
        (open_reasoning >> calls k (Call.encrypted_content p.signature) >> close_open)
      >> route p.function_call p

  abbrev pub cite_web : Option (Option Web) → ℕ → ℕ → Decode
  cite_web (some (some web)) start end = calls k (
      Call.annotation (
        x.citation_text (record {
          url = web.uri;
          title = web.title;
          start_index = pos start;
          end_index = pos end;
        })))
  cite_web _ start end = skip

  -- A negative index is out of range.
  abbrev pub cite : List (Option Web) → ℕ → ℕ → ℤ → Decode
  cite chunks start end (pos i) = cite_web (get_elem? chunks i) start end
  cite chunks start end (negsuc _) = stop AdapterError.panicked

  abbrev pub cite_segment : List (Option Web) → String → Segment → List ℤ → ℕ → Decode
  cite_segment chunks text seg indices cited =
      let r = locate x.texts text seg cited in
      sets_cited r.cited >> each (cite chunks r.start r.end) indices

  abbrev pub support_with : List (Option Web) → String → Option Segment → List ℤ → Decode
  support_with chunks text none indices = skip
  support_with chunks text (some seg) indices =
      λ f. cite_segment chunks text seg indices f.decoder.cited f

  abbrev pub support : List (Option Web) → String → Option Support → Decode
  support chunks text none = skip
  support chunks text (some s) = support_with chunks text s.segment s.chunk_indices

  abbrev pub supports_of : List (Option Web) → List (Option Support) → String → Decode
  supports_of chunks supports text = each (support chunks text) supports

  abbrev pub ground_with : List (Option Web) → List (Option Support) → Decode
  ground_with chunks [] = skip
  ground_with chunks (s ∷ rest) =
      open_message >> (λ f. supports_of chunks (s ∷ rest) (message_text f.emitter.open_writer) f)

  -- `ground`.
  unfoldable pub ground_all : Option Grounding → Decode
  unfolding open_message each locate message_text
  ground_all none = skip
  ground_all (some g) = ground_with g.chunks g.supports

  abbrev pub add_logprobs : Option (List String) → Bool → Decode
  add_logprobs (some ls) true = calls k (Call.logprobs ls)
  add_logprobs _ _ = skip

  -- `finish`.
  unfoldable pub finish : FinishReason → String → Decode
  finish FinishReason.stop message = calls k (Call.completes x.now)
  finish FinishReason.max_tokens message = calls k (Call.incompletes x.now "max_output_tokens")
  finish (FinishReason.other reason) message = stop (
      model_error (x.to_lower (x.reason_text (FinishReason.other reason))) (
        if is_empty message
        then str_append "Gemini stopped generating: " (x.reason_text (FinishReason.other reason))
        else message))
  finish _ message = calls k (Call.incompletes x.now "content_filter")
