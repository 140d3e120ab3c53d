-- ===== src/Anthropic/Blocks.antt =====
-- providers/anthropic/response.go, `decoder`: the blocks of a message, from their start to their
-- stop.
use openresponses.Prelude.{
  ℕ, String, str_append, if◌then◌else◌, Bool, true, false, not, ◌||◌, ◌++◌, Option, none, some,
  List, [], ◌∷◌, pos,
}
use openresponses.Item.{Item, Status}
use openresponses.EventSink.{EventSink}
use openresponses.Int64.{add64, ltb_ℤ}
use openresponses.Extensions.{set_issuer}
use openresponses.Emitter.Calls.{Call}
use openresponses.Adapter.Steps.{
  server_error, ◌>>◌, skip, stop, when, updates, sets_model, sets_usage, each, calls, calls_new,
  message_text,
}
use openresponses.Anthropic.Shapes.{RawJson, TokenCounts, Block, Citation, Delta, MessageEvent}
use openresponses.Anthropic.Counts.{Counts, usage, add_usage}
use openresponses.Anthropic.Decoder.{
  Decode, close_open, open_message, is_empty, slug, issuer, rune_count, encrypted_of, RawBlock,
  Pending, Decoder, Externals,
}

module _ {S : Type 0} (k : EventSink S) (x : Externals) where
  -- `em.Reasoning()`, with the issuer that `annotate` sets on the item.
  abbrev pub holds_reasoning : Decode k x
  holds_reasoning = updates (λ (d : Decoder). record d { reasoning = true })

  abbrev pub new_reasoning : Decode k x
  new_reasoning =
      calls_new k x.ids (λ id _. Call.reasoning id (set_issuer issuer (x.quoted issuer) []))
      >> holds_reasoning

  abbrev pub write : (String → Call) → String → Decode k x
  write c text = when (not (is_empty text)) (calls k (c text))

  abbrev pub sets_block_start : ℕ → Decode k x
  sets_block_start n = updates (λ (d : Decoder). record d { block_start = n })

  abbrev pub sets_raw : Option RawBlock → Decode k x
  sets_raw r = updates (λ (d : Decoder). record d { raw = r })

  abbrev pub holds_call : Decode k x
  holds_call = updates (λ (d : Decoder). record d { call = true; call_wrote = false })

  abbrev pub begin_raw : String → RawJson → Decode k x
  begin_raw typ (RawJson.fields text) =
      sets_raw (some (record { typ = typ; fields = text; input = ""; text = "" }))
  begin_raw typ (RawJson.malformed message) =
      stop
        (server_error "invalid_upstream_response" (str_append typ (str_append " block: " message)))

  -- `startBlock`.
  unfoldable pub start_block : Block → Decode k x
  unfolding close_open open_message rune_count message_text set_issuer
  start_block (Block.text text) =
      open_message k x
      >> (λ f. sets_block_start (rune_count (message_text f.emitter.open_writer)) f)
      >> write (λ t. Call.text t) text
  start_block (Block.tool_use id name) =
      close_open k x
      >> calls_new k x.ids (λ fc fresh. Call.function_call fc fresh id name)
      >> holds_call
  start_block (Block.thinking thinking signature) =
      close_open k x
      >> new_reasoning
      >> write (λ t. Call.summary t) thinking
      >> write (λ t. Call.encrypted_content t) signature
  start_block (Block.other typ json) = close_open k x >> begin_raw typ json

  abbrev pub text_delta : Option RawBlock → String → Decode k x
  text_delta (some r) text = sets_raw (some (record r { text = str_append r.text text }))
  text_delta none text = open_message k x >> calls k (Call.text text)

  abbrev pub marks_written : Decode k x
  marks_written = updates (λ (d : Decoder). record d { call_wrote = true })

  abbrev pub input_delta : Bool → Option RawBlock → String → Decode k x
  input_delta true _ json = marks_written >> calls k (Call.arguments json)
  input_delta false (some r) json = sets_raw (some (record r { input = str_append r.input json }))
  input_delta false none json = skip

  abbrev pub new_reasoning_unless : Bool → Decode k x
  new_reasoning_unless true = skip
  new_reasoning_unless false = new_reasoning

  abbrev pub sign : Bool → String → Decode k x
  sign false signature = skip
  sign true signature = λ f.
      calls k (Call.encrypted_content (str_append (encrypted_of f.emitter.open_writer) signature)) f

  abbrev pub adds_citation : (ℕ → Pending) → Decode k x
  adds_citation c =
      updates (λ (d : Decoder). record d { citations = d.citations ++ c d.block_start ∷ [] })

  -- `cite`.
  abbrev pub cite : Citation → Decode k x
  cite (Citation.web address title) = adds_citation (λ start. Pending.url address title start)
  cite (Citation.other (RawJson.fields text)) = adds_citation (λ _. Pending.other text)
  cite (Citation.other (RawJson.malformed message)) =
      stop (server_error "invalid_upstream_response" (str_append "citation: " message))

  -- `delta`.
  unfoldable pub delta : Delta → Decode k x
  unfolding open_message set_issuer
  delta (Delta.text t) = λ f. text_delta f.decoder.raw t f
  delta (Delta.input_json json) = λ f. input_delta f.decoder.call f.decoder.raw json f
  delta (Delta.thinking t) =
      (λ f. new_reasoning_unless f.decoder.reasoning f) >> calls k (Call.summary t)
  delta (Delta.signature s) = λ f. sign f.decoder.reasoning s f
  delta (Delta.citation c) = cite c
  delta Delta.other = skip

  abbrev pub extension_item : RawBlock → String → Item
  extension_item r id = Item.unknown_item (record {
    type = str_append slug r.typ;
    id = id;
    status = Status.completed;
    raw = x.raw_text (str_append slug r.typ) id (x.block_text r);
  })

  -- `extension`.
  abbrev pub extension : RawBlock → Decode k x
  extension r =
      if is_empty r.input || x.valid_json r.input
      then calls_new k x.ids (λ id _. Call.whole (extension_item r id))
      else stop (
          server_error "invalid_upstream_response"
            (str_append r.typ " block: input is not valid JSON"))

  abbrev pub annotation_of : ℕ → Pending → String
  annotation_of end (Pending.url address title start) =
      x.citation_text
        (record { url = address; title = title; start_index = pos start; end_index = pos end })
  annotation_of end (Pending.other text) = text

  abbrev pub cite_all : List Pending → ℕ → Decode k x
  cite_all cs end = each (λ c. calls k (Call.annotation (annotation_of end c))) cs

  abbrev pub forgets_citations : Decode k x
  forgets_citations = updates (λ (d : Decoder). record d { citations = [] })

  abbrev pub end_text : Bool → List Pending → Decode k x
  end_text false cs = skip
  end_text true [] = skip
  end_text true (c ∷ cs) =
      (λ f. cite_all (c ∷ cs) (rune_count (message_text f.emitter.open_writer)) f)
      >> forgets_citations

  abbrev pub end_raw : Option RawBlock → Bool → List Pending → Decode k x
  end_raw (some r) m cs = sets_raw none >> extension r
  end_raw none m cs = end_text m cs

  abbrev pub end_block : Bool → Bool → Bool → Option RawBlock → Bool → List Pending → Decode k x
  end_block true true r raw m cs = skip
  end_block true false r raw m cs = marks_written >> calls k (Call.arguments "{}")
  end_block false w true raw m cs = skip
  end_block false w false raw m cs = end_raw raw m cs

  -- `blockStop`.
  unfoldable pub block_stop : Decode k x
  unfolding each rune_count message_text
  block_stop f =
      let d = f.decoder in end_block d.call d.call_wrote d.reasoning d.raw d.msg d.citations f

  abbrev pub first_event : Bool → String → Decode k x
  first_event true model = skip
  first_event false model =
      updates (λ (d : Decoder). record d { seen = true })
      >> when (not (is_empty model)) (sets_model model)

  abbrev pub changed_turn : TokenCounts → Decoder → Counts
  changed_turn c d = if ltb_ℤ (pos 0) c.input then usage d.split c else record d.turn {
    output = c.output;
    reasoning = c.thinking;
    total = add64 d.turn.input c.output;
  }

  -- `event`.
  unfoldable pub on_event : MessageEvent → Decode k x
  unfolding start_block delta block_stop usage add_usage add64
  on_event (MessageEvent.message_start model c split) =
      (λ f. first_event f.decoder.seen model f)
      >> updates (λ (d : Decoder). record d { split = split; turn = usage split c })
  on_event (MessageEvent.block_start b) = start_block b
  on_event (MessageEvent.block_delta d) = delta d
  on_event MessageEvent.block_stop = block_stop
  on_event (MessageEvent.message_delta reason explanation c) = updates (λ (d : Decoder). record d {
    stop = reason;
    explanation = explanation;
    turn = changed_turn c d;
  })
  on_event MessageEvent.message_stop =
      updates (λ (d : Decoder). record d { usage = add_usage d.usage d.turn })
      >> (λ f. sets_usage (x.usage_text f.decoder.usage) f)
  on_event MessageEvent.other = skip
