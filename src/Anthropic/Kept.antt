-- ===== src/Anthropic/Kept.antt =====
-- providers/anthropic/response.go: the properties of the emitter that its calls keep, through the
-- decoder.
use openresponses.Prelude.{
  ℕ, String, str_append, ◌≡◌, refl, Bool, true, false, not, ◌||◌, ◌++◌, Option, none, some, List,
  [], ◌∷◌,
}
use openresponses.EventSink.{EventSink}
use openresponses.Extensions.{set_issuer}
use openresponses.Emitter.State.{Writer, Emitter}
use openresponses.Emitter.Calls.{Call}
use openresponses.Emitter.Running.{is_ending}
use openresponses.Adapter.Steps.{when, calls, message_text, sets_usage}
use openresponses.Adapter.Keeps.{
  Lasting, Keeps, then-Keeps, when-Keeps, calls-Keeps, calls_new-Keeps, each-Keeps, skip-Keeps,
  stop-Keeps, updates-Keeps, if-Keeps, reads-Keeps, sets_model-Keeps, sets_usage-Keeps,
}
use openresponses.Anthropic.Shapes.{RawJson, Block, Citation, Delta, MessageEvent}
use openresponses.Anthropic.Counts.{usage, add_usage}
use openresponses.Anthropic.Decoder
use openresponses.Anthropic.Blocks
use openresponses.Anthropic.Decoder.{Decoder, Externals, Decode, RawBlock, Pending, rune_count}

module _ {S : Type 0} {k : EventSink S} (x : Externals) {P : Emitter S → Type 0}
    (h : Lasting k P) where
  abbrev pub Kept : Decode k x → Type 0
  Kept m = Keeps h m

  closes_if-Kept : (is : Option Writer → Bool) → Kept (Decoder.closes_if k x is)
  closes_if-Kept is =
      reads-Keeps h (λ f. is f.emitter.open_writer) (λ b. when b (calls k Call.closes))
        (λ b. when-Keeps h b (calls-Keeps h Call.closes refl))

  close_held-Kept : (m r c : Bool) → Kept (Decoder.close_held k x m r c)
  close_held-Kept true r c =
      then-Keeps h (updates-Keeps h (λ d. record d { msg = false; citations = [] }))
        (closes_if-Kept Decoder.is_message)
  close_held-Kept false true c =
      then-Keeps h (updates-Keeps h (λ d. record d { reasoning = false }))
        (closes_if-Kept Decoder.is_reasoning)
  close_held-Kept false false true =
      then-Keeps h (updates-Keeps h (λ d. record d { call = false }))
        (closes_if-Kept Decoder.is_call)
  close_held-Kept false false false = skip-Keeps h

  close_open-Kept : Kept (Decoder.close_open k x)
  unfolding Decoder.close_open
  close_open-Kept =
      reads-Keeps h (λ f. f.decoder) (λ d. Decoder.close_held k x d.msg d.reasoning d.call)
        (λ d. close_held-Kept d.msg d.reasoning d.call)

  open_message_unless-Kept : (b : Bool) → Kept (Decoder.open_message_unless k x b)
  open_message_unless-Kept true = skip-Keeps h
  open_message_unless-Kept false = then-Keeps h close_open-Kept (
      then-Keeps h (calls_new-Keeps h x.ids (λ id _. Call.message id "final_answer") (λ s t. refl))
        (updates-Keeps h (λ d. record d { msg = true; block_start = 0 })))

  pub open_message-Kept : Kept (Decoder.open_message k x)
  unfolding Decoder.open_message
  open_message-Kept =
      reads-Keeps h (λ f. f.decoder.msg) (Decoder.open_message_unless k x) open_message_unless-Kept

  new_reasoning-Kept : Kept (Blocks.new_reasoning k x)
  new_reasoning-Kept =
      then-Keeps h
        (calls_new-Keeps h x.ids
          (λ id _. Call.reasoning id (set_issuer Decoder.issuer (x.quoted Decoder.issuer) []))
          (λ s t. refl))
        (updates-Keeps h (λ d. record d { reasoning = true }))

  write-Kept :
      (c : String → Call) (text : String)
      → is_ending (c text) ≡ false
      → Kept (Blocks.write k x c text)
  write-Kept c text e = when-Keeps h (not (Decoder.is_empty text)) (calls-Keeps h (c text) e)

  sets_raw-Kept : (r : Option RawBlock) → Kept (Blocks.sets_raw k x r)
  sets_raw-Kept r = updates-Keeps h (λ d. record d { raw = r })

  begin_raw-Kept : (typ : String) (json : RawJson) → Kept (Blocks.begin_raw k x typ json)
  begin_raw-Kept typ (RawJson.fields text) =
      sets_raw-Kept (some (record { typ = typ; fields = text; input = ""; text = "" }))
  begin_raw-Kept typ (RawJson.malformed message) = stop-Keeps h _

  start_block-Kept : (b : Block) → Kept (Blocks.start_block k x b)
  unfolding Blocks.start_block
  start_block-Kept (Block.text text) = then-Keeps h open_message-Kept (
      then-Keeps h
        (reads-Keeps h (λ f. rune_count (message_text f.emitter.open_writer))
          (Blocks.sets_block_start k x) (λ n. updates-Keeps h (λ d. record d { block_start = n })))
        (write-Kept (λ t. Call.text t) text refl))
  start_block-Kept (Block.tool_use id name) = then-Keeps h close_open-Kept (
      then-Keeps h
        (calls_new-Keeps h x.ids (λ fc fresh. Call.function_call fc fresh id name) (λ s t. refl))
        (updates-Keeps h (λ d. record d { call = true; call_wrote = false })))
  start_block-Kept (Block.thinking thinking signature) = then-Keeps h close_open-Kept (
      then-Keeps h new_reasoning-Kept (
        then-Keeps h (write-Kept (λ t. Call.summary t) thinking refl)
          (write-Kept (λ t. Call.encrypted_content t) signature refl)))
  start_block-Kept (Block.other typ json) = then-Keeps h close_open-Kept (begin_raw-Kept typ json)

  text_delta-Kept : (text : String) (r : Option RawBlock) → Kept (Blocks.text_delta k x r text)
  text_delta-Kept text (some r) = sets_raw-Kept (some (record r { text = str_append r.text text }))
  text_delta-Kept text none = then-Keeps h open_message-Kept (calls-Keeps h (Call.text text) refl)

  marks_written-Kept : Kept (Blocks.marks_written k x)
  marks_written-Kept = updates-Keeps h (λ d. record d { call_wrote = true })

  input_delta-Kept :
      (json : String) (b : Bool) (r : Option RawBlock) → Kept (Blocks.input_delta k x b r json)
  input_delta-Kept json true r =
      then-Keeps h marks_written-Kept (calls-Keeps h (Call.arguments json) refl)
  input_delta-Kept json false (some r) =
      sets_raw-Kept (some (record r { input = str_append r.input json }))
  input_delta-Kept json false none = skip-Keeps h

  new_reasoning_unless-Kept : (b : Bool) → Kept (Blocks.new_reasoning_unless k x b)
  new_reasoning_unless-Kept true = skip-Keeps h
  new_reasoning_unless-Kept false = new_reasoning-Kept

  sign-Kept : (s : String) (b : Bool) → Kept (Blocks.sign k x b s)
  sign-Kept s false = skip-Keeps h
  sign-Kept s true =
      reads-Keeps h (λ f. str_append (Decoder.encrypted_of f.emitter.open_writer) s)
        (λ t. calls k (Call.encrypted_content t))
        (λ t. calls-Keeps h (Call.encrypted_content t) refl)

  adds_citation-Kept : (c : ℕ → Pending) → Kept (Blocks.adds_citation k x c)
  adds_citation-Kept c =
      updates-Keeps h (λ d. record d { citations = d.citations ++ c d.block_start ∷ [] })

  cite-Kept : (c : Citation) → Kept (Blocks.cite k x c)
  cite-Kept (Citation.web address title) =
      adds_citation-Kept (λ start. Pending.url address title start)
  cite-Kept (Citation.other (RawJson.fields text)) = adds_citation-Kept (λ _. Pending.other text)
  cite-Kept (Citation.other (RawJson.malformed message)) = stop-Keeps h _

  delta-Kept : (d : Delta) → Kept (Blocks.delta k x d)
  unfolding Blocks.delta
  delta-Kept (Delta.text t) =
      reads-Keeps h (λ f. f.decoder.raw) (λ r. Blocks.text_delta k x r t) (text_delta-Kept t)
  delta-Kept (Delta.input_json json) =
      reads-Keeps h (λ f. f.decoder) (λ d. Blocks.input_delta k x d.call d.raw json)
        (λ d. input_delta-Kept json d.call d.raw)
  delta-Kept (Delta.thinking t) =
      then-Keeps h
        (reads-Keeps h (λ f. f.decoder.reasoning) (Blocks.new_reasoning_unless k x)
          new_reasoning_unless-Kept)
        (calls-Keeps h (Call.summary t) refl)
  delta-Kept (Delta.signature s) =
      reads-Keeps h (λ f. f.decoder.reasoning) (λ b. Blocks.sign k x b s) (sign-Kept s)
  delta-Kept (Delta.citation c) = cite-Kept c
  delta-Kept Delta.other = skip-Keeps h

  extension-Kept : (r : RawBlock) → Kept (Blocks.extension k x r)
  extension-Kept r =
      if-Keeps h (Decoder.is_empty r.input || x.valid_json r.input)
        (calls_new-Keeps h x.ids (λ id _. Call.whole (Blocks.extension_item k x r id))
          (λ s t. refl))
        (stop-Keeps h _)

  cite_all-Kept : (cs : List Pending) (end : ℕ) → Kept (Blocks.cite_all k x cs end)
  cite_all-Kept cs end =
      each-Keeps h (λ c. calls k (Call.annotation (Blocks.annotation_of k x end c)))
        (λ c. calls-Keeps h (Call.annotation (Blocks.annotation_of k x end c)) refl) cs

  end_text-Kept : (b : Bool) (cs : List Pending) → Kept (Blocks.end_text k x b cs)
  end_text-Kept false cs = skip-Keeps h
  end_text-Kept true [] = skip-Keeps h
  end_text-Kept true (c ∷ cs) =
      then-Keeps h
        (reads-Keeps h (λ f. rune_count (message_text f.emitter.open_writer))
          (Blocks.cite_all k x (c ∷ cs)) (cite_all-Kept (c ∷ cs)))
        (updates-Keeps h (λ d. record d { citations = [] }))

  end_raw-Kept :
      (r : Option RawBlock) (m : Bool) (cs : List Pending) → Kept (Blocks.end_raw k x r m cs)
  end_raw-Kept (some r) m cs = then-Keeps h (sets_raw-Kept none) (extension-Kept r)
  end_raw-Kept none m cs = end_text-Kept m cs

  end_block-Kept :
      (c w r : Bool) (raw : Option RawBlock) (m : Bool) (cs : List Pending)
      → Kept (Blocks.end_block k x c w r raw m cs)
  end_block-Kept true true r raw m cs = skip-Keeps h
  end_block-Kept true false r raw m cs =
      then-Keeps h marks_written-Kept (calls-Keeps h (Call.arguments "{}") refl)
  end_block-Kept false w true raw m cs = skip-Keeps h
  end_block-Kept false w false raw m cs = end_raw-Kept raw m cs

  block_stop-Kept : Kept (Blocks.block_stop k x)
  unfolding Blocks.block_stop
  block_stop-Kept =
      reads-Keeps h (λ f. f.decoder)
        (λ d. Blocks.end_block k x d.call d.call_wrote d.reasoning d.raw d.msg d.citations)
        (λ d. end_block-Kept d.call d.call_wrote d.reasoning d.raw d.msg d.citations)

  first_event-Kept : (model : String) (b : Bool) → Kept (Blocks.first_event k x b model)
  first_event-Kept model true = skip-Keeps h
  first_event-Kept model false =
      then-Keeps h (updates-Keeps h (λ d. record d { seen = true }))
        (when-Keeps h (not (Decoder.is_empty model)) (sets_model-Keeps h model))

  pub on_event-Kept : (ev : MessageEvent) → Kept (Blocks.on_event k x ev)
  unfolding Blocks.on_event
  on_event-Kept (MessageEvent.message_start model c split) =
      then-Keeps h
        (reads-Keeps h (λ f. f.decoder.seen) (λ b. Blocks.first_event k x b model)
          (first_event-Kept model))
        (updates-Keeps h (λ d. record d { split = split; turn = usage split c }))
  on_event-Kept (MessageEvent.block_start b) = start_block-Kept b
  on_event-Kept (MessageEvent.block_delta d) = delta-Kept d
  on_event-Kept MessageEvent.block_stop = block_stop-Kept
  on_event-Kept (MessageEvent.message_delta reason explanation c) = updates-Keeps h (λ d. record d {
    stop = reason;
    explanation = explanation;
    turn = Blocks.changed_turn k x c d;
  })
  on_event-Kept MessageEvent.message_stop =
      then-Keeps h (updates-Keeps h (λ d. record d { usage = add_usage d.usage d.turn }))
        (reads-Keeps h (λ f. x.usage_text f.decoder.usage) (λ u. sets_usage u) (sets_usage-Keeps h))
  on_event-Kept MessageEvent.other = skip-Keeps h
