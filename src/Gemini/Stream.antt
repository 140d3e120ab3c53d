-- ===== src/Gemini/Stream.antt =====
-- providers/gemini/response.go, `decoder.chunk` and `Adapter.CreateStream`, from the answer of the
-- server on. A chunk either ends the response, and then the stream is not read any further, or goes
-- on.
use openresponses.Prelude.{String, Bool, true, false, not, Option, none, some, List, [], ◌∷◌}
use openresponses.Response.{Response}
use openresponses.EventSink.{EventSink}
use openresponses.Emitter.State.{new_emitter}
use openresponses.Emitter.Calls.{Call}
use openresponses.Adapter.Steps.{
  AdapterError, server_error, Feed, ◌>>◌, skip, stop, when, updates, sets_model, sets_usage, each,
  calls,
}
use openresponses.Gemini.Chunk.{Chunk, Candidate, FinishReason, Metadata}
use openresponses.Gemini.Locate.{usage}
use openresponses.Gemini.Decoder.{
  Decoder, new_decoder, Externals, Decode, part, ground_all, add_logprobs, finish, is_empty,
}

-- What the SDK's iterator yields: a chunk, or an error, given as what `mapError` makes of it.
pub data Received : Type 0 where
  chunk : Chunk → Received
  failed : AdapterError → Received

module _ {S : Type 0} (k : EventSink S) (x : Externals) where
  abbrev pub first_chunk : Bool → String → Decode k x
  first_chunk true model = skip
  first_chunk false model =
      updates (λ (d : Decoder). record d { seen = true })
      >> when (not (is_empty model)) (sets_model model)

  abbrev pub count_usage : Option Metadata → Decode k x
  count_usage none = skip
  count_usage (some u) = sets_usage (x.usage_text (usage u))

  -- The end of a chunk; `more` is what the caller does when the response goes on.
  abbrev pub finish_or : Option FinishReason → String → Decode k x → Decode k x
  finish_or none message more = more
  finish_or (some reason) message more = finish k x reason message

  abbrev pub candidate_then : List Candidate → Decode k x → Decode k x
  candidate_then [] more = more
  candidate_then (c ∷ _) more =
      each (part k x) c.parts
      >> (λ f. add_logprobs k x c.logprobs f.decoder.msg f)
      >> ground_all k x c.grounding
      >> finish_or c.finish_reason c.finish_message more

  abbrev pub unless_blocked : Bool → List Candidate → Decode k x → Decode k x
  unless_blocked true candidates more = calls k (Call.incompletes x.now "content_filter")
  unless_blocked false candidates more = candidate_then candidates more

  -- `decoder.chunk`.
  unfoldable pub chunk_then : Chunk → Decode k x → Decode k x
  unfolding part ground_all finish each usage
  chunk_then c more =
      (λ f. first_chunk f.decoder.seen c.model_version f)
      >> count_usage c.usage_metadata
      >> unless_blocked c.blocked c.candidates more

  unfoldable pub feed : List Received → Decode k x
  unfolding chunk_then
  feed [] = stop (server_error "truncated_stream" "the Gemini stream ended without a finish reason")
  feed (Received.failed e ∷ rest) = stop e
  feed (Received.chunk c ∷ rest) = chunk_then c (feed rest)

  unfoldable pub create_stream :
      S → String → Response → List Received → Feed Decoder S × Option AdapterError
  unfolding feed
  create_stream sink fresh r received =
      feed received (record { decoder = new_decoder; emitter = new_emitter sink fresh r; made = 0 })
