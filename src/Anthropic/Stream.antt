-- ===== src/Anthropic/Stream.antt =====
-- providers/anthropic/response.go, `consume`, `finish` and `Adapter.CreateStream`, from the answers
-- of the server on. The encoding of the request comes before.
use openresponses.Prelude.{ℕ, zero, suc, String, str_append, not, Option, none, some, List}
use openresponses.Response.{Response}
use openresponses.EventSink.{EventSink}
use openresponses.Emitter.State.{new_emitter}
use openresponses.Emitter.Calls.{Call}
use openresponses.Adapter.Steps.{
  AdapterError, server_error, model_error, Feed, ◌>>◌, skip, stop, when, updates, each, calls,
}
use openresponses.Anthropic.Shapes.{StopReason, MessageEvent}
use openresponses.Anthropic.Decoder.{
  Decoder, new_decoder, Externals, Decode, open_message, is_empty,
}
use openresponses.Anthropic.Blocks.{on_event}

-- The answer to one request: its events, then the SDK's error, given as what `mapError` makes of it;
-- and the error of `encodeInput` on what the turn produced.
pub record Turn : Type 0 where
  pub events : List MessageEvent
  pub failure : Option AdapterError
  pub encode_error : Option String

module _ {S : Type 0} (k : EventSink S) (x : Externals) where
  abbrev pub fails : Option AdapterError → Decode k x
  fails none = skip
  fails (some e) = stop e

  -- `consume`.
  unfoldable pub consume : Turn → Decode k x
  unfolding on_event each
  consume t = each (on_event k x) t.events >> fails t.failure

  -- The reasons that end a response as incomplete, a refusal with Claude's explanation.
  abbrev pub refuse : String → Decode k x
  refuse explanation =
      when (not (is_empty explanation)) (open_message k x >> calls k (Call.refusal explanation))
      >> calls k (Call.incompletes x.now "content_filter")

  -- `finish`.
  unfoldable pub finish : Option StopReason → String → Decode k x
  unfolding open_message
  finish none explanation =
      stop (server_error "truncated_stream" "the Messages stream ended without a stop reason")
  finish (some StopReason.end_turn) explanation = calls k (Call.completes x.now)
  finish (some StopReason.tool_use) explanation = calls k (Call.completes x.now)
  finish (some StopReason.stop_sequence) explanation = calls k (Call.completes x.now)
  finish (some StopReason.pause_turn) explanation = calls k (Call.completes x.now)
  finish (some StopReason.max_tokens) explanation =
      calls k (Call.incompletes x.now "max_output_tokens")
  finish (some StopReason.context_window_exceeded) explanation =
      calls k (Call.incompletes x.now "max_output_tokens")
  finish (some StopReason.refusal) explanation = refuse explanation
  finish (some (StopReason.other reason)) explanation =
      stop (model_error reason (str_append "Claude stopped generating: " reason))

  abbrev pub resume : Option String → Decode k x
  resume (some message) = stop (server_error "continuation_failed" message)
  resume none = updates (λ (d : Decoder). record d { stop = none })

  -- What follows a turn; `more` is the next one.
  abbrev pub after_turn : Option StopReason → String → Option String → Decode k x → Decode k x
  after_turn (some StopReason.pause_turn) explanation error more = resume error >> more
  after_turn reason explanation error more = finish reason explanation

  -- The loop over the turns; `left` of them may follow this one.
  unfoldable pub run_turns : ℕ → ℕ → (ℕ → Turn) → Decode k x
  unfolding consume finish
  run_turns zero n turns = consume (turns n) >> (λ f. finish f.decoder.stop f.decoder.explanation f)
  run_turns (suc left) n turns =
      let more = run_turns left (suc n) turns in
      consume (turns n)
      >> (λ f. after_turn f.decoder.stop f.decoder.explanation (turns n).encode_error more f)

  -- `continuations` is the number configured.
  unfoldable pub create_stream :
      S → String → Response → ℕ → (ℕ → Turn) → Feed Decoder S × Option AdapterError
  unfolding run_turns
  create_stream sink fresh r continuations turns =
      run_turns continuations 0 turns
        (record { decoder = new_decoder; emitter = new_emitter sink fresh r; made = 0 })
