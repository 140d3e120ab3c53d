-- ===== src/ChatCompletions/Kept.antt =====
-- chatcompletions/response.go: the properties of the emitter that its calls keep, through the
-- decoder.
use openresponses.Prelude.{
  String, str_append, str_eq, ◌≡◌, refl, Bool, true, false, not, Option, none, some, List, [], ◌∷◌,
  pos,
}
use openresponses.EventSink.{EventSink}
use openresponses.Int64.{ltb_ℤ, eq_ℤ}
use openresponses.Emitter.State.{Emitter}
use openresponses.Emitter.Calls.{Call}
use openresponses.Emitter.Running.{is_ending}
use openresponses.Adapter.Steps.{AdapterError, ◌>>◌, when, calls, calls_new}
use openresponses.Adapter.Keeps.{
  Lasting, Keeps, then-Keeps, when-Keeps, calls-Keeps, calls_new-Keeps, sets_model-Keeps,
  sets_usage-Keeps, each-Keeps, skip-Keeps, stop-Keeps, updates-Keeps, if-Keeps, reads-Keeps,
}
use openresponses.Adapter.Shapes.{UrlCitation}
use openresponses.ChatCompletions.Chunk.{Chunk, Choice, Delta, ToolCallDelta, Annotation, WireUsage}
use openresponses.ChatCompletions.Decoder
use openresponses.ChatCompletions.Deltas
use openresponses.ChatCompletions.Decoder.{Decoder, CallState, Externals, Decode}

-- Every step of the decoder keeps what the calls that do not end the response keep.
module _ {S : Type 0} {k : EventSink S} (x : Externals) {P : Emitter S → Type 0}
    (h : Lasting k P) where
  abbrev pub Kept : Decode k x → Type 0
  Kept m = Keeps h m

  sets_call-Kept : (c : Option CallState) → Kept (Decoder.sets_call k x c)
  sets_call-Kept c = updates-Keeps h (λ d. record d { call = c })

  marks_message-Kept : (b : Bool) → Kept (Decoder.marks_message k x b)
  marks_message-Kept b = updates-Keeps h (λ d. record d { msg = b })

  marks_reasoning-Kept : (b : Bool) → Kept (Decoder.marks_reasoning k x b)
  marks_reasoning-Kept b = updates-Keeps h (λ d. record d { reasoning = b })

  opening-Kept : (c : Option CallState) → Kept (Decoder.opening k x c)
  opening-Kept none = stop-Keeps h AdapterError.panicked
  opening-Kept (some c) =
      then-Keeps h
        (calls_new-Keeps h x.ids (λ id fresh. Call.function_call id fresh c.id c.name)
          (λ s t. refl))
        (then-Keeps h (sets_call-Kept (some (record c { opened = true }))) (
          when-Keeps h (not (Decoder.is_empty c.buffered)) (
            then-Keeps h (calls-Keeps h (Call.arguments c.buffered) refl)
              (sets_call-Kept (some (record c { opened = true; buffered = "" }))))))

  open_call-Kept : Kept (Decoder.open_call k x)
  unfolding Decoder.open_call
  open_call-Kept = reads-Keeps h (λ f. f.decoder.call) (Decoder.opening k x) opening-Kept

  ending-Kept :
      (c : Option CallState) {after : Decode k x} → Kept after → Kept (Decoder.ending k x c after)
  ending-Kept none a = skip-Keeps h
  ending-Kept (some c) a = then-Keeps h (sets_call-Kept none) (
      then-Keeps h (when-Keeps h (not c.opened) open_call-Kept) (
        then-Keeps h
          (reads-Keeps h (λ f. Decoder.is_empty (Decoder.arguments_of f.emitter.open_writer))
            (λ b. when b (calls k (Call.arguments "{}")))
            (λ b. when-Keeps h b (calls-Keeps h (Call.arguments "{}") refl)))
          a))

  pub end_call-Kept : {after : Decode k x} → Kept after → Kept (Decoder.end_call k x after)
  unfolding Decoder.end_call
  end_call-Kept {after} a =
      reads-Keeps h (λ f. f.decoder.call) (λ c. Decoder.ending k x c after) (λ c. ending-Kept c a)

  close_call-Kept : Kept (Decoder.close_call k x)
  unfolding Decoder.close_call
  close_call-Kept = end_call-Kept (calls-Keeps h Call.closes refl)

  close_held-Kept : (m r : Bool) (c : Option CallState) → Kept (Decoder.close_held k x m r c)
  close_held-Kept true r c =
      then-Keeps h (marks_message-Kept false) (calls-Keeps h Call.closes refl)
  close_held-Kept false true c =
      then-Keeps h (marks_reasoning-Kept false) (calls-Keeps h Call.closes refl)
  close_held-Kept false false none = skip-Keeps h
  close_held-Kept false false (some c) = close_call-Kept

  close_open-Kept : Kept (Decoder.close_open k x)
  unfolding Decoder.close_open
  close_open-Kept =
      reads-Keeps h (λ f. f.decoder) (λ d. Decoder.close_held k x d.msg d.reasoning d.call)
        (λ d. close_held-Kept d.msg d.reasoning d.call)

  -- Something is opened behind what was open.
  opened-Kept :
      (c : String → String → Call) {m : Decode k x}
      → ((s t : String) → is_ending (c s t) ≡ false)
      → Kept m
      → Kept (Decoder.close_open k x >> calls_new k x.ids c >> m)
  opened-Kept c e a = then-Keeps h close_open-Kept (then-Keeps h (calls_new-Keeps h x.ids c e) a)

  open_message_unless-Kept : (b : Bool) → Kept (Decoder.open_message_unless k x b)
  open_message_unless-Kept true = skip-Keeps h
  open_message_unless-Kept false =
      opened-Kept (λ id _. Call.message id Decoder.final_answer) (λ s t. refl)
        (marks_message-Kept true)

  open_message-Kept : Kept (Decoder.open_message k x)
  unfolding Decoder.open_message
  open_message-Kept =
      reads-Keeps h (λ f. f.decoder.msg) (Decoder.open_message_unless k x) open_message_unless-Kept

  on_message-Kept : (c : Call) → is_ending c ≡ false → Kept (Decoder.on_message k x c)
  on_message-Kept c e = then-Keeps h open_message-Kept (calls-Keeps h c e)

  open_reasoning_unless-Kept : (b : Bool) → Kept (Decoder.open_reasoning_unless k x b)
  open_reasoning_unless-Kept true = skip-Keeps h
  open_reasoning_unless-Kept false =
      opened-Kept (λ id _. Call.reasoning id []) (λ s t. refl) (marks_reasoning-Kept true)

  switch_call-Kept :
      (tc : ToolCallDelta) (c : Option CallState) → Kept (Deltas.switch_call k x c tc)
  switch_call-Kept tc none = skip-Keeps h
  switch_call-Kept tc (some c) =
      if-Keeps h (eq_ℤ tc.index c.index) (skip-Keeps h)
        (if-Keeps h (ltb_ℤ tc.index c.index) (stop-Keeps h _) close_call-Kept)

  begin_call-Kept : (tc : ToolCallDelta) (c : Option CallState) → Kept (Deltas.begin_call k x c tc)
  begin_call-Kept tc (some c) = skip-Keeps h
  begin_call-Kept tc none = then-Keeps h close_open-Kept (
      sets_call-Kept
        (some (record { index = tc.index; id = ""; name = ""; buffered = ""; opened = false })))

  extend_call-Kept :
      (b : Bool) (c : CallState) (tc : ToolCallDelta) → Kept (Deltas.extend_call k x b c tc)
  extend_call-Kept true c tc =
      when-Keeps h (not (Decoder.is_empty tc.arguments))
        (calls-Keeps h (Call.arguments tc.arguments) refl)
  extend_call-Kept false c tc =
      then-Keeps h
        (sets_call-Kept (some (record c { buffered = str_append c.buffered tc.arguments })))
        (when-Keeps h (not (Decoder.is_empty c.name)) open_call-Kept)

  continue_call-Kept :
      (tc : ToolCallDelta) (c : Option CallState) → Kept (Deltas.continue_call k x c tc)
  continue_call-Kept tc none = skip-Keeps h
  continue_call-Kept tc (some c) =
      then-Keeps h (sets_call-Kept (some (Deltas.named k x tc c)))
        (extend_call-Kept c.opened (Deltas.named k x tc c) tc)

  tool_call-Kept : (tc : ToolCallDelta) → Kept (Deltas.tool_call k x tc)
  unfolding Deltas.tool_call
  tool_call-Kept tc =
      then-Keeps h (on_call (λ c. Deltas.switch_call k x c tc) (switch_call-Kept tc)) (
        then-Keeps h (on_call (λ c. Deltas.begin_call k x c tc) (begin_call-Kept tc))
          (on_call (λ c. Deltas.continue_call k x c tc) (continue_call-Kept tc)))
    where
      on_call :
          (m : Option CallState → Decode k x)
          → ((c : Option CallState) → Kept (m c))
          → Kept (λ f. m f.decoder.call f)
      on_call m a = reads-Keeps h (λ f. f.decoder.call) m a

  annotate-Kept : (c : Option UrlCitation) → Kept (Deltas.annotate k x c)
  annotate-Kept none = skip-Keeps h
  annotate-Kept (some c) = on_message-Kept (Call.annotation (x.citation_text c)) refl

  annotation-Kept : (a : Annotation) → Kept (Deltas.annotation k x a)
  annotation-Kept a = when-Keeps h (str_eq a.type "url_citation") (annotate-Kept a.url_citation)

  reason-Kept : (text : String) → Kept (Deltas.reason k x text)
  reason-Kept text = when-Keeps h (not (Decoder.is_empty text)) (
      then-Keeps h
        (reads-Keeps h (λ f. f.decoder.reasoning) (Decoder.open_reasoning_unless k x)
          open_reasoning_unless-Kept)
        (calls-Keeps h (Call.reasoning_delta text) refl))

  write-Kept :
      (c : String → Call) (text : String)
      → is_ending (c text) ≡ false
      → Kept (Deltas.write k x c text)
  write-Kept c text e = when-Keeps h (not (Decoder.is_empty text)) (on_message-Kept (c text) e)

  delta-Kept : (dl : Delta) → Kept (Deltas.delta k x dl)
  unfolding Deltas.delta
  delta-Kept dl =
      then-Keeps h (reason-Kept (Decoder.or_reasoning dl.reasoning_content dl.reasoning)) (
        then-Keeps h (write-Kept (λ t. Call.text t) (Decoder.text_or_empty dl.content) refl) (
          then-Keeps h (write-Kept (λ t. Call.refusal t) (Decoder.text_or_empty dl.refusal) refl) (
            then-Keeps h (each-Keeps h (Deltas.tool_call k x) tool_call-Kept dl.tool_calls)
              (each-Keeps h (Deltas.annotation k x) annotation-Kept dl.annotations))))

  add_logprobs-Kept : (ls : Option (List String)) → Kept (Deltas.add_logprobs k x ls)
  add_logprobs-Kept none = skip-Keeps h
  add_logprobs-Kept (some []) = skip-Keeps h
  add_logprobs-Kept (some (l ∷ ls)) = on_message-Kept (Call.logprobs (l ∷ ls)) refl

  choice-Kept : (c : Choice) → Kept (Deltas.choice k x c)
  choice-Kept c = when-Keeps h (eq_ℤ c.index (pos 0)) (
      then-Keeps h (delta-Kept c.delta) (
        then-Keeps h (add_logprobs-Kept c.logprobs) (
          when-Keeps h (not (Decoder.is_empty c.finish_reason))
            (updates-Keeps h (λ d. record d { finished = c.finish_reason })))))

  first_chunk-Kept : (model : String) (b : Bool) → Kept (Deltas.first_chunk k x b model)
  first_chunk-Kept model true = skip-Keeps h
  first_chunk-Kept model false =
      then-Keeps h (updates-Keeps h (λ d. record d { seen = true }))
        (when-Keeps h (not (Decoder.is_empty model)) (sets_model-Keeps h model))

  count_usage-Kept : (u : Option WireUsage) → Kept (Deltas.count_usage k x u)
  count_usage-Kept none = skip-Keeps h
  count_usage-Kept (some u) = sets_usage-Keeps h _

  pub chunk-Kept : (c : Chunk) → Kept (Deltas.chunk k x c)
  unfolding Deltas.chunk
  chunk-Kept c =
      then-Keeps h
        (reads-Keeps h (λ f. f.decoder.seen) (λ b. Deltas.first_chunk k x b c.model)
          (first_chunk-Kept c.model))
        (then-Keeps h (count_usage-Kept c.usage)
          (each-Keeps h (Deltas.choice k x) choice-Kept c.choices))
