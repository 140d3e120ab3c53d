-- ===== src/ChatCompletions/Outcome.antt =====
-- chatcompletions/response.go: what the recording sink holds when `CreateStream` returns.
use openresponses.Prelude.{
  String, str_eq, ◌≡◌, Bool, true, false, ◌||◌, Option, none, some, List, [], ◌∷◌,
}
use openresponses.Response.{Response}
use openresponses.Event.{StreamEvent}
use openresponses.Streamtest.Sink.{new_sink, sink}
use openresponses.Client.EventStream.{Payload}
use openresponses.Adapter.Keeps.{Keeps, skip-Keeps, stop-Keeps}
use openresponses.Adapter.Outcome.{
  Ends, Outcome, sound-Lasting, new_emitter-Sound, completes-Ends, incompletes-Ends, stop-Ends,
  then-Ends, if-Ends, reads-Ends,
}
use openresponses.ChatCompletions.Chunk.{Chunk, ApiError}
use openresponses.ChatCompletions.Failure.{Texts}
use openresponses.ChatCompletions.Decoder
use openresponses.ChatCompletions.Deltas
use openresponses.ChatCompletions.Decoder.{Decoder, CallState, Externals, Decode}
use openresponses.ChatCompletions.Stream.{
  Decoded, Ending, invalid, valid, feed, create_stream, on_data, upstream, after_frames,
}
use openresponses.ChatCompletions.Kept.{end_call-Kept, chunk-Kept}

module _ (wire : StreamEvent → Option StreamEvent) (kept : (ev : StreamEvent) → wire ev ≡ some ev)
    (x : Externals) where
  finish_with-Ends : (reason : String) → Ends wire kept (Deltas.finish_with (sink wire) x reason)
  finish_with-Ends reason =
      if-Ends wire kept
        (str_eq reason "stop" || str_eq reason "tool_calls" || str_eq reason "function_call")
        (completes-Ends wire kept x.now)
        (if-Ends wire kept (str_eq reason "length")
          (incompletes-Ends wire kept x.now "max_output_tokens")
          (if-Ends wire kept (str_eq reason "content_filter")
            (incompletes-Ends wire kept x.now "content_filter")
            (if-Ends wire kept (Decoder.is_empty reason) (stop-Ends wire kept _)
              (stop-Ends wire kept _))))

  finish-Ends : Ends wire kept (Deltas.finish (sink wire) x)
  unfolding Deltas.finish
  finish-Ends =
      then-Ends wire kept
        (end_call-Kept x (sound-Lasting wire kept) (skip-Keeps (sound-Lasting wire kept)))
        (reads-Ends wire kept (λ f. f.decoder.finished) (Deltas.finish_with (sink wire) x)
          finish_with-Ends)

  module _ (t : Texts) (decode : String → Decoded) where
    upstream-Kept :
        (e : Option ApiError) (c : Chunk)
        → Keeps (sound-Lasting wire kept) (upstream (sink wire) x t decode e c)
    upstream-Kept none c = chunk-Kept x (sound-Lasting wire kept) c
    upstream-Kept (some e) c = stop-Keeps (sound-Lasting wire kept) _

    on_data-Kept :
        (d : Decoded) → Keeps (sound-Lasting wire kept) (on_data (sink wire) x t decode d)
    on_data-Kept (invalid m) = stop-Keeps (sound-Lasting wire kept) _
    on_data-Kept (valid c) = upstream-Kept c.error c

    after_frames-Ends :
        (o : Option String) (b : Bool) → Ends wire kept (after_frames (sink wire) x t decode o b)
    after_frames-Ends none b = finish-Ends
    after_frames-Ends (some m) true = stop-Ends wire kept _
    after_frames-Ends (some m) false = stop-Ends wire kept _

    feed-Ends :
        (payloads : List Payload) (end : Ending)
        → Ends wire kept (feed (sink wire) x t decode payloads end)
    unfolding feed
    feed-Ends [] end = after_frames-Ends end.read_error end.cancelled
    feed-Ends (Payload.sentinel ∷ rest) end = finish-Ends
    feed-Ends (Payload.event text ∷ rest) end =
        then-Ends wire kept (on_data-Kept (decode text)) (feed-Ends rest end)

    -- Whatever the server streams, from a response without output, if the wire form of an event
    -- loses nothing: when CreateStream returns without an error, `Validate` passes all that the
    -- sink recorded. When it returns an error, no terminal event was sent, and the checker accepts
    -- what was recorded.
    pub create_stream-Outcome :
        (fresh : String) (r : Response) (payloads : List Payload) (end : Ending)
        → r.output ≡ []
        → Outcome wire kept
            (create_stream (sink wire) x t decode new_sink fresh r payloads end).0.emitter
            (create_stream (sink wire) x t decode new_sink fresh r payloads end).1
    unfolding create_stream
    create_stream-Outcome fresh r payloads end o =
        (feed-Ends payloads end).ended _ (new_emitter-Sound wire kept fresh r o)
