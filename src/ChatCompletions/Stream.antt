-- ===== src/ChatCompletions/Stream.antt =====
-- chatcompletions/response.go, `Adapter.CreateStream`, from the answer of the server on. The
-- encoding of the request and the HTTP call come before.
use openresponses.Prelude.{String, str_append, Bool, true, false, Option, none, some, List, [], ◌∷◌}
use openresponses.Response.{Response}
use openresponses.EventSink.{EventSink}
use openresponses.Emitter.State.{new_emitter}
use openresponses.Client.EventStream.{Payload}
use openresponses.Adapter.Steps.{AdapterError, server_error, Feed, ◌>>◌, stop}
use openresponses.ChatCompletions.Chunk.{Chunk, ApiError}
use openresponses.ChatCompletions.Failure.{Texts, status, to_error}
use openresponses.ChatCompletions.Decoder.{Decoder, new_decoder, Externals, Decode}
use openresponses.ChatCompletions.Deltas.{chunk, finish}

-- A frame's data, decoded, or the error's text.
pub data Decoded : Type 0 where
  invalid : String → Decoded
  valid : Chunk → Decoded

-- The scanner's error, if it stopped with one, and whether the context was cancelled by then.
pub record Ending : Type 0 where
  pub read_error : Option String
  pub cancelled : Bool

module _ {S : Type 0} (k : EventSink S) (x : Externals) (t : Texts)
    (decode : String → Decoded) where
  abbrev pub upstream : Option ApiError → Chunk → Decode k x
  upstream (some e) c = stop (AdapterError.of_adapter (to_error t e (status t e)))
  upstream none c = chunk k x c

  abbrev pub on_data : Decoded → Decode k x
  on_data (invalid message) =
      stop (server_error "invalid_upstream_response" (str_append "chunk: " message))
  on_data (valid c) = upstream c.error c

  abbrev pub after_frames : Option String → Bool → Decode k x
  after_frames none _ = finish k x
  after_frames (some message) true = stop AdapterError.cancelled
  after_frames (some message) false = stop (server_error "upstream_error" message)

  -- The loop over the frames, and what follows it.
  unfoldable pub feed : List Payload → Ending → Decode k x
  unfolding to_error status chunk finish
  feed [] end = after_frames end.read_error end.cancelled
  feed (Payload.sentinel ∷ rest) end = finish k x
  feed (Payload.event text ∷ rest) end = on_data (decode text) >> feed rest end

  unfoldable pub create_stream :
      S → String → Response → List Payload → Ending → Feed Decoder S × Option AdapterError
  unfolding feed
  create_stream sink fresh r payloads end =
      feed payloads end
        (record { decoder = new_decoder; emitter = new_emitter sink fresh r; made = 0 })
