-- ===== src/Gemini/Kept.antt =====
-- providers/gemini/response.go: the properties of the emitter that its calls keep, through the
-- decoder.
use openresponses.Prelude.{
  ℕ, String, str_append, refl, Bool, true, false, not, ◌&&◌, Option, none, some, List, [], ◌∷◌, ℤ,
  pos, negsuc, get_elem?,
}
use openresponses.Item.{Item, Status}
use openresponses.EventSink.{EventSink}
use openresponses.Extensions.{set_issuer}
use openresponses.Emitter.State.{Emitter}
use openresponses.Emitter.Calls.{Call}
use openresponses.Adapter.Steps.{message_text}
use openresponses.Adapter.Keeps.{
  Lasting, Keeps, then-Keeps, when-Keeps, calls-Keeps, calls_new-Keeps, each-Keeps, skip-Keeps,
  stop-Keeps, updates-Keeps, if-Keeps, reads-Keeps,
}
use openresponses.Gemini.Chunk.{Args, FunctionCall, Kind, Part, Segment, Support, Web, Grounding}
use openresponses.Gemini.Locate.{locate}
use openresponses.Gemini.Decoder
use openresponses.Gemini.Decoder.{Decoder, Externals, Decode}

module _ {S : Type 0} {k : EventSink S} (x : Externals) {P : Emitter S → Type 0}
    (h : Lasting k P) where
  abbrev pub Kept : Decode k x → Type 0
  Kept m = Keeps h m

  marks_message-Kept : (b : Bool) → Kept (Decoder.marks_message k x b)
  marks_message-Kept b = updates-Keeps h (λ d. record d { msg = b })

  marks_reasoning-Kept : (b : Bool) → Kept (Decoder.marks_reasoning k x b)
  marks_reasoning-Kept b = updates-Keeps h (λ d. record d { reasoning = b })

  sets_cited-Kept : (n : ℕ) → Kept (Decoder.sets_cited k x n)
  sets_cited-Kept n = updates-Keeps h (λ d. record d { cited = n })

  close_held-Kept : (m r : Bool) → Kept (Decoder.close_held k x m r)
  close_held-Kept true r = then-Keeps h (marks_message-Kept false) (calls-Keeps h Call.closes refl)
  close_held-Kept false true =
      then-Keeps h (marks_reasoning-Kept false) (calls-Keeps h Call.closes refl)
  close_held-Kept false false = skip-Keeps h

  close_open-Kept : Kept (Decoder.close_open k x)
  unfolding Decoder.close_open
  close_open-Kept =
      reads-Keeps h (λ f. f.decoder) (λ d. Decoder.close_held k x d.msg d.reasoning)
        (λ d. close_held-Kept d.msg d.reasoning)

  open_message_unless-Kept : (b : Bool) → Kept (Decoder.open_message_unless k x b)
  open_message_unless-Kept true = skip-Keeps h
  open_message_unless-Kept false = then-Keeps h close_open-Kept (
      then-Keeps h (calls_new-Keeps h x.ids (λ id _. Call.message id "final_answer") (λ s t. refl))
        (then-Keeps h (marks_message-Kept true) (sets_cited-Kept 0)))

  open_message-Kept : Kept (Decoder.open_message k x)
  unfolding Decoder.open_message
  open_message-Kept =
      reads-Keeps h (λ f. f.decoder.msg) (Decoder.open_message_unless k x) open_message_unless-Kept

  open_reasoning_unless-Kept : (b : Bool) → Kept (Decoder.open_reasoning_unless k x b)
  open_reasoning_unless-Kept true = skip-Keeps h
  open_reasoning_unless-Kept false = then-Keeps h close_open-Kept (
      then-Keeps h (calls_new-Keeps h x.ids (λ id _. Call.reasoning id []) (λ s t. refl)) (
        then-Keeps h
          (calls-Keeps h (Call.changes_extra (set_issuer Decoder.issuer (x.quoted Decoder.issuer)))
            refl)
          (marks_reasoning-Kept true)))

  open_reasoning-Kept : Kept (Decoder.open_reasoning k x)
  unfolding Decoder.open_reasoning
  open_reasoning-Kept =
      reads-Keeps h (λ f. f.decoder.reasoning) (Decoder.open_reasoning_unless k x)
        open_reasoning_unless-Kept

  item_with-Kept : (kind : String) (a : Args) → Kept (Decoder.item_with k x kind a)
  item_with-Kept kind (Args.encoded part) =
      calls_new-Keeps h x.ids
        (λ id _. Call.whole (
          Item.unknown_item (record {
            type = str_append Decoder.slug kind;
            id = id;
            status = Status.completed;
            raw = x.raw_text (str_append Decoder.slug kind) id part;
          })))
        (λ s t. refl)
  item_with-Kept kind (Args.unencodable message) = stop-Keeps h _
  item_with-Kept kind Args.absent = skip-Keeps h

  extend_with-Kept : (o : Option Kind) (p : Part) → Kept (Decoder.extend_with k x o p)
  unfolding Decoder.extension
  extend_with-Kept none p = skip-Keeps h
  extend_with-Kept (some kind) p =
      then-Keeps h close_open-Kept (item_with-Kept (Decoder.kind_name kind) p.encoded)

  write_call-Kept : (c : FunctionCall) (args : String) → Kept (Decoder.write_call k x c args)
  write_call-Kept c args =
      then-Keeps h
        (calls_new-Keeps h x.ids (λ id fresh. Call.function_call id fresh c.id c.name)
          (λ s t. refl))
        (then-Keeps h (calls-Keeps h (Call.arguments args) refl) (calls-Keeps h Call.closes refl))

  call_with-Kept : (c : FunctionCall) (a : Args) → Kept (Decoder.call_with k x c a)
  call_with-Kept c Args.absent = write_call-Kept c "{}"
  call_with-Kept c (Args.encoded args) = write_call-Kept c args
  call_with-Kept c (Args.unencodable message) = stop-Keeps h _

  think-Kept : (p : Part) → Kept (Decoder.think k x p)
  think-Kept p = then-Keeps h open_reasoning-Kept (
      then-Keeps h
        (when-Keeps h (not (Decoder.is_empty p.text)) (calls-Keeps h (Call.summary p.text) refl))
        (when-Keeps h (not (Decoder.is_empty p.signature))
          (calls-Keeps h (Call.encrypted_content p.signature) refl)))

  route-Kept : (o : Option FunctionCall) (p : Part) → Kept (Decoder.route k x o p)
  route-Kept (some c) p = then-Keeps h close_open-Kept (call_with-Kept c c.args)
  route-Kept none p = if-Keeps h p.thought (think-Kept p) (
      if-Keeps h (Decoder.is_empty p.text) (extend_with-Kept p.kind p)
        (then-Keeps h open_message-Kept (calls-Keeps h (Call.text p.text) refl)))

  pub part-Kept : (p : Part) → Kept (Decoder.part k x p)
  unfolding Decoder.part
  part-Kept p =
      then-Keeps h
        (when-Keeps h (not (Decoder.is_empty p.signature) && not p.thought) (
          then-Keeps h open_reasoning-Kept (
            then-Keeps h (calls-Keeps h (Call.encrypted_content p.signature) refl)
              close_open-Kept)))
        (route-Kept p.function_call p)

  cite_web-Kept :
      (o : Option (Option Web)) (start end : ℕ) → Kept (Decoder.cite_web k x o start end)
  cite_web-Kept none start end = skip-Keeps h
  cite_web-Kept (some none) start end = skip-Keeps h
  cite_web-Kept (some (some web)) start end =
      calls-Keeps h
        (Call.annotation (
          x.citation_text (record {
            url = web.uri;
            title = web.title;
            start_index = pos start;
            end_index = pos end;
          })))
        refl

  cite-Kept :
      (chunks : List (Option Web)) (start end : ℕ) (i : ℤ)
      → Kept (Decoder.cite k x chunks start end i)
  cite-Kept chunks start end (pos i) = cite_web-Kept (get_elem? chunks i) start end
  cite-Kept chunks start end (negsuc _) = stop-Keeps h _

  support_with-Kept :
      (chunks : List (Option Web)) (text : String) (o : Option Segment) (indices : List ℤ)
      → Kept (Decoder.support_with k x chunks text o indices)
  support_with-Kept chunks text none indices = skip-Keeps h
  support_with-Kept chunks text (some seg) indices =
      reads-Keeps h (λ f. f.decoder.cited) (Decoder.cite_segment k x chunks text seg indices)
        (λ cited.
          let r = locate x.texts text seg cited in
          then-Keeps h (sets_cited-Kept r.cited) (
            each-Keeps h (Decoder.cite k x chunks r.start r.end) (cite-Kept chunks r.start r.end)
              indices))

  support-Kept :
      (chunks : List (Option Web)) (text : String) (o : Option Support)
      → Kept (Decoder.support k x chunks text o)
  support-Kept chunks text none = skip-Keeps h
  support-Kept chunks text (some s) = support_with-Kept chunks text s.segment s.chunk_indices

  ground_with-Kept :
      (chunks : List (Option Web)) (supports : List (Option Support))
      → Kept (Decoder.ground_with k x chunks supports)
  ground_with-Kept chunks [] = skip-Keeps h
  ground_with-Kept chunks (s ∷ rest) = then-Keeps h open_message-Kept (
      reads-Keeps h (λ f. message_text f.emitter.open_writer)
        (Decoder.supports_of k x chunks (s ∷ rest))
        (λ text.
          each-Keeps h (Decoder.support k x chunks text) (support-Kept chunks text) (s ∷ rest)))

  pub ground_all-Kept : (o : Option Grounding) → Kept (Decoder.ground_all k x o)
  unfolding Decoder.ground_all
  ground_all-Kept none = skip-Keeps h
  ground_all-Kept (some g) = ground_with-Kept g.chunks g.supports

  pub add_logprobs-Kept :
      (o : Option (List String)) (b : Bool) → Kept (Decoder.add_logprobs k x o b)
  add_logprobs-Kept none b = skip-Keeps h
  add_logprobs-Kept (some ls) true = calls-Keeps h (Call.logprobs ls) refl
  add_logprobs-Kept (some ls) false = skip-Keeps h
