-- ===== src/Anthropic/Outcome.antt =====
-- providers/anthropic/response.go: what the recording sink holds when `CreateStream` returns.
use openresponses.Prelude.{ℕ, zero, suc, String, ◌≡◌, refl, not, Option, none, some, []}
use openresponses.Response.{Response}
use openresponses.Event.{StreamEvent}
use openresponses.Streamtest.Sink.{new_sink, sink}
use openresponses.Emitter.Calls.{Call}
use openresponses.Adapter.Steps.{AdapterError}
use openresponses.Adapter.Keeps.{
  Keeps, then-Keeps, when-Keeps, calls-Keeps, each-Keeps, skip-Keeps, stop-Keeps, updates-Keeps,
}
use openresponses.Adapter.Outcome.{
  Ends, Outcome, sound-Lasting, new_emitter-Sound, completes-Ends, incompletes-Ends, stop-Ends,
  then-Ends, reads-Ends,
}
use openresponses.Anthropic.Shapes.{StopReason}
use openresponses.Anthropic.Decoder
use openresponses.Anthropic.Blocks
use openresponses.Anthropic.Decoder.{Decoder, Externals, Decode}
use openresponses.Anthropic.Stream.{
  Turn, fails, consume, refuse, finish, resume, after_turn, run_turns, create_stream,
}
use openresponses.Anthropic.Kept.{on_event-Kept, open_message-Kept}

module _ (wire : StreamEvent → Option StreamEvent) (kept : (ev : StreamEvent) → wire ev ≡ some ev)
    (x : Externals) where
  fails-Kept : (o : Option AdapterError) → Keeps (sound-Lasting wire kept) (fails (sink wire) x o)
  fails-Kept none = skip-Keeps (sound-Lasting wire kept)
  fails-Kept (some e) = stop-Keeps (sound-Lasting wire kept) e

  consume-Kept : (t : Turn) → Keeps (sound-Lasting wire kept) (consume (sink wire) x t)
  unfolding consume
  consume-Kept t =
      then-Keeps (sound-Lasting wire kept)
        (each-Keeps (sound-Lasting wire kept) (Blocks.on_event (sink wire) x)
          (on_event-Kept x (sound-Lasting wire kept)) t.events)
        (fails-Kept t.failure)

  refuse-Ends : (explanation : String) → Ends wire kept (refuse (sink wire) x explanation)
  refuse-Ends explanation =
      then-Ends wire kept
        (when-Keeps (sound-Lasting wire kept) (not (Decoder.is_empty explanation)) (
          then-Keeps (sound-Lasting wire kept) (open_message-Kept x (sound-Lasting wire kept))
            (calls-Keeps (sound-Lasting wire kept) (Call.refusal explanation) refl)))
        (incompletes-Ends wire kept x.now "content_filter")

  finish-Ends :
      (r : Option StopReason) (explanation : String)
      → Ends wire kept (finish (sink wire) x r explanation)
  unfolding finish
  finish-Ends none e = stop-Ends wire kept _
  finish-Ends (some StopReason.end_turn) e = completes-Ends wire kept x.now
  finish-Ends (some StopReason.tool_use) e = completes-Ends wire kept x.now
  finish-Ends (some StopReason.stop_sequence) e = completes-Ends wire kept x.now
  finish-Ends (some StopReason.pause_turn) e = completes-Ends wire kept x.now
  finish-Ends (some StopReason.max_tokens) e = incompletes-Ends wire kept x.now "max_output_tokens"
  finish-Ends (some StopReason.context_window_exceeded) e =
      incompletes-Ends wire kept x.now "max_output_tokens"
  finish-Ends (some StopReason.refusal) e = refuse-Ends e
  finish-Ends (some (StopReason.other reason)) e = stop-Ends wire kept _

  resume-Kept : (o : Option String) → Keeps (sound-Lasting wire kept) (resume (sink wire) x o)
  resume-Kept (some message) = stop-Keeps (sound-Lasting wire kept) _
  resume-Kept none = updates-Keeps (sound-Lasting wire kept) (λ d. record d { stop = none })

  after_turn-Ends :
      {more : Decode (sink wire) x} (r : Option StopReason) (explanation : String)
      (error : Option String)
      → Ends wire kept more
      → Ends wire kept (after_turn (sink wire) x r explanation error more)
  after_turn-Ends (some StopReason.pause_turn) e error m = then-Ends wire kept (resume-Kept error) m
  after_turn-Ends r e error m = finish-Ends r e

  run_turns-Ends :
      (left n : ℕ) (turns : ℕ → Turn) → Ends wire kept (run_turns (sink wire) x left n turns)
  unfolding run_turns
  run_turns-Ends zero n turns = then-Ends wire kept (consume-Kept (turns n)) (
      reads-Ends wire kept (λ f. f.decoder) (λ d. finish (sink wire) x d.stop d.explanation)
        (λ d. finish-Ends d.stop d.explanation))
  run_turns-Ends (suc left) n turns = then-Ends wire kept (consume-Kept (turns n)) (
      reads-Ends wire kept (λ f. f.decoder)
        (λ d.
          after_turn (sink wire) x d.stop d.explanation (turns n).encode_error
            (run_turns (sink wire) x left (suc n) turns))
        (λ d.
          after_turn-Ends d.stop d.explanation (turns n).encode_error
            (run_turns-Ends left (suc n) turns)))

  -- Whatever the Messages API answers, in the first turn and in those that continue it, from a
  -- response without output, if the wire form of an event loses nothing: when CreateStream returns
  -- without an error, `Validate` passes all that the sink recorded. When it returns an error, no
  -- terminal event was sent, and the checker accepts what was recorded.
  pub anthropic-Outcome :
      (fresh : String) (r : Response) (continuations : ℕ) (turns : ℕ → Turn)
      → r.output ≡ []
      → Outcome wire kept
          (create_stream (sink wire) x new_sink fresh r continuations turns).0.emitter
          (create_stream (sink wire) x new_sink fresh r continuations turns).1
  unfolding create_stream
  anthropic-Outcome fresh r continuations turns o =
      (run_turns-Ends continuations 0 turns).ended _ (new_emitter-Sound wire kept fresh r o)
