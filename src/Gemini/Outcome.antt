-- ===== src/Gemini/Outcome.antt =====
-- providers/gemini/response.go: what the recording sink holds when `CreateStream` returns.
use openresponses.Prelude.{String, ◌≡◌, Bool, true, false, not, Option, none, some, List, [], ◌∷◌}
use openresponses.Response.{Response}
use openresponses.Event.{StreamEvent}
use openresponses.Streamtest.Sink.{new_sink, sink}
use openresponses.Adapter.Keeps.{
  Keeps, then-Keeps, when-Keeps, sets_model-Keeps, sets_usage-Keeps, each-Keeps, skip-Keeps,
  updates-Keeps, reads-Keeps,
}
use openresponses.Adapter.Outcome.{
  Ends, Outcome, sound-Lasting, new_emitter-Sound, completes-Ends, incompletes-Ends, stop-Ends,
  then-Ends,
}
use openresponses.Gemini.Chunk.{Chunk, Candidate, FinishReason, Metadata}
use openresponses.Gemini.Decoder
use openresponses.Gemini.Decoder.{Decoder, Externals, Decode}
use openresponses.Gemini.Stream.{
  Received, chunk, failed, first_chunk, count_usage, finish_or, candidate_then, unless_blocked,
  chunk_then, feed, create_stream,
}
use openresponses.Gemini.Kept.{part-Kept, ground_all-Kept, add_logprobs-Kept}

module _ (wire : StreamEvent → Option StreamEvent) (kept : (ev : StreamEvent) → wire ev ≡ some ev)
    (x : Externals) where
  finish-Ends :
      (r : FinishReason) (message : String)
      → Ends wire kept (Decoder.finish (sink wire) x r message)
  unfolding Decoder.finish
  finish-Ends FinishReason.stop message = completes-Ends wire kept x.now
  finish-Ends FinishReason.max_tokens message = incompletes-Ends wire kept x.now "max_output_tokens"
  finish-Ends (FinishReason.other reason) message = stop-Ends wire kept _
  finish-Ends _ message = incompletes-Ends wire kept x.now "content_filter"

  first_chunk-Kept :
      (model : String) (b : Bool)
      → Keeps (sound-Lasting wire kept) (first_chunk (sink wire) x b model)
  first_chunk-Kept model true = skip-Keeps (sound-Lasting wire kept)
  first_chunk-Kept model false =
      then-Keeps (sound-Lasting wire kept)
        (updates-Keeps (sound-Lasting wire kept) (λ d. record d { seen = true }))
        (when-Keeps (sound-Lasting wire kept) (not (Decoder.is_empty model))
          (sets_model-Keeps (sound-Lasting wire kept) model))

  count_usage-Kept :
      (u : Option Metadata) → Keeps (sound-Lasting wire kept) (count_usage (sink wire) x u)
  count_usage-Kept none = skip-Keeps (sound-Lasting wire kept)
  count_usage-Kept (some u) = sets_usage-Keeps (sound-Lasting wire kept) _

  module _ {more : Decode (sink wire) x} (ends : Ends wire kept more) where
    finish_or-Ends :
        (o : Option FinishReason) (message : String)
        → Ends wire kept (finish_or (sink wire) x o message more)
    finish_or-Ends none message = ends
    finish_or-Ends (some r) message = finish-Ends r message

    candidate-Ends : (cs : List Candidate) → Ends wire kept (candidate_then (sink wire) x cs more)
    candidate-Ends [] = ends
    candidate-Ends (c ∷ cs) =
        then-Ends wire kept
          (each-Keeps (sound-Lasting wire kept) (Decoder.part (sink wire) x)
            (part-Kept x (sound-Lasting wire kept)) c.parts)
          (then-Ends wire kept
            (reads-Keeps (sound-Lasting wire kept) (λ f. f.decoder.msg)
              (Decoder.add_logprobs (sink wire) x c.logprobs)
              (add_logprobs-Kept x (sound-Lasting wire kept) c.logprobs))
            (then-Ends wire kept (ground_all-Kept x (sound-Lasting wire kept) c.grounding)
              (finish_or-Ends c.finish_reason c.finish_message)))

    unless_blocked-Ends :
        (b : Bool) (cs : List Candidate) → Ends wire kept (unless_blocked (sink wire) x b cs more)
    unless_blocked-Ends true cs = incompletes-Ends wire kept x.now "content_filter"
    unless_blocked-Ends false cs = candidate-Ends cs

    chunk_then-Ends : (c : Chunk) → Ends wire kept (chunk_then (sink wire) x c more)
    unfolding chunk_then
    chunk_then-Ends c =
        then-Ends wire kept
          (reads-Keeps (sound-Lasting wire kept) (λ f. f.decoder.seen)
            (λ b. first_chunk (sink wire) x b c.model_version) (first_chunk-Kept c.model_version))
          (then-Ends wire kept (count_usage-Kept c.usage_metadata)
            (unless_blocked-Ends c.blocked c.candidates))

  feed-Ends : (received : List Received) → Ends wire kept (feed (sink wire) x received)
  unfolding feed
  feed-Ends [] = stop-Ends wire kept _
  feed-Ends (failed e ∷ rest) = stop-Ends wire kept e
  feed-Ends (chunk c ∷ rest) = chunk_then-Ends (feed-Ends rest) c

  -- Whatever the Gemini API streams, from a response without output, if the wire form of an event
  -- loses nothing: when CreateStream returns without an error, `Validate` passes all that the sink
  -- recorded. When it returns an error, no terminal event was sent, and the checker accepts what
  -- was recorded.
  pub gemini-Outcome :
      (fresh : String) (r : Response) (received : List Received)
      → r.output ≡ []
      → Outcome wire kept
          (create_stream (sink wire) x new_sink fresh r received).0.emitter
          (create_stream (sink wire) x new_sink fresh r received).1
  unfolding create_stream
  gemini-Outcome fresh r received o =
      (feed-Ends received).ended _ (new_emitter-Sound wire kept fresh r o)
