-- ===== src/ChatCompletions/Decoder.antt =====
-- chatcompletions/response.go, `decoder`: a chunk becomes calls of the emitter. The decoder's
-- pointers to its writers are marks that it holds one: that is always the writer that the emitter
-- opened last.
use openresponses.Prelude.{ℕ, String, str_eq, Bool, true, false, not, Option, none, some, [], ℤ}
use openresponses.EventSink.{EventSink}
use openresponses.Emitter.State.{Writer}
use openresponses.Emitter.Calls.{Call}
use openresponses.Adapter.Steps.{
  AdapterError, Feed, Step, ◌>>◌, skip, stop, when, updates, calls, calls_new,
}
use openresponses.Adapter.Shapes.{UrlCitation, Usage}

-- `opened` is whether `w` is set.
pub record CallState : Type 0 where
  pub index : ℤ
  pub id : String
  pub name : String
  pub buffered : String
  pub opened : Bool

pub record Decoder : Type 0 where
  pub msg : Bool
  pub reasoning : Bool
  pub call : Option CallState
  pub finished : String
  pub seen : Bool

abbrev pub new_decoder : Decoder
new_decoder = record { msg = false; reasoning = false; call = none; finished = ""; seen = false }

-- What the decoder uses of the libraries: the identifiers of `NewID`, `Itoa`, `Number.Int64`, and the
-- JSON texts of a citation and of the usage; and the clock.
pub record Externals : Type 0 where
  pub ids : ℕ → String
  pub itoa : ℤ → String
  pub int64 : String → Option ℤ
  pub citation_text : UrlCitation → String
  pub usage_text : Usage → String
  pub now : ℕ

-- `reasoningText`.
abbrev pub or_reasoning : Option String → Option String → String
or_reasoning (some s) _ = s
or_reasoning none (some s) = s
or_reasoning none none = ""

abbrev pub is_empty : String → Bool
is_empty s = str_eq s ""

abbrev pub text_or_empty : Option String → String
text_or_empty none = ""
text_or_empty (some s) = s

-- `w.Item().Arguments` of the emitter's open writer.
abbrev pub arguments_of : Option Writer → String
arguments_of (some (Writer.call w)) = w.call.arguments
arguments_of _ = ""

abbrev pub final_answer : String
final_answer = "final_answer"

module _ {S : Type 0} (k : EventSink S) (x : Externals) where
  abbrev pub Decode : Type 0
  Decode = Step (Feed Decoder S)

  abbrev pub sets_call : Option CallState → Decode
  sets_call c = updates (λ (d : Decoder). record d { call = c })

  abbrev pub marks_message : Bool → Decode
  marks_message b = updates (λ (d : Decoder). record d { msg = b })

  abbrev pub marks_reasoning : Bool → Decode
  marks_reasoning b = updates (λ (d : Decoder). record d { reasoning = b })

  abbrev pub sets_finished : String → Decode
  sets_finished s = updates (λ (d : Decoder). record d { finished = s })

  abbrev pub marks_seen : Decode
  marks_seen = updates (λ (d : Decoder). record d { seen = true })

  abbrev pub opening : Option CallState → Decode
  opening none = stop AdapterError.panicked
  opening (some c) =
      calls_new k x.ids (λ id fresh. Call.function_call id fresh c.id c.name)
      >> sets_call (some (record c { opened = true }))
      >> when (not (is_empty c.buffered)) (
          calls k (Call.arguments c.buffered)
          >> sets_call (some (record c { opened = true; buffered = "" })))

  -- `openCall`: it reads the decoder's call, and panics without one.
  unfoldable pub open_call : Decode
  open_call f = opening f.decoder.call f

  abbrev pub ending : Option CallState → Decode → Decode
  ending none after = skip
  ending (some c) after =
      sets_call none
      >> when (not c.opened) open_call
      >> (λ f.
          when (is_empty (arguments_of f.emitter.open_writer)) (calls k (Call.arguments "{}")) f)
      >> after

  -- `endCall`, and what is done with the writer that it returns.
  unfoldable pub end_call : Decode → Decode
  unfolding open_call
  end_call after f = ending f.decoder.call after f

  -- `closeCall`.
  unfoldable pub close_call : Decode
  unfolding end_call
  close_call = end_call (calls k Call.closes)

  abbrev pub close_held : Bool → Bool → Option CallState → Decode
  close_held true _ _ = marks_message false >> calls k Call.closes
  close_held false true _ = marks_reasoning false >> calls k Call.closes
  close_held false false none = skip
  close_held false false (some _) = close_call

  -- `closeOpen`.
  unfoldable pub close_open : Decode
  unfolding close_call
  close_open f = close_held f.decoder.msg f.decoder.reasoning f.decoder.call f

  abbrev pub open_message_unless : Bool → Decode
  open_message_unless true = skip
  open_message_unless false =
      close_open >> calls_new k x.ids (λ id _. Call.message id final_answer) >> marks_message true

  -- `openMessage`.
  unfoldable pub open_message : Decode
  unfolding close_open
  open_message f = open_message_unless f.decoder.msg f

  -- A call of the message, opened first if need be.
  abbrev pub on_message : Call → Decode
  on_message c = open_message >> calls k c

  abbrev pub open_reasoning_unless : Bool → Decode
  open_reasoning_unless true = skip
  open_reasoning_unless false =
      close_open >> calls_new k x.ids (λ id _. Call.reasoning id []) >> marks_reasoning true

  abbrev pub open_reasoning : Decode
  open_reasoning f = open_reasoning_unless f.decoder.reasoning f
