-- ===== src/ChatCompletions/Nameless.antt =====
-- chatcompletions/response.go, `endCall`: it clears the decoder's call before `openCall` reads it.
use openresponses.Prelude.{
  String, ◌≡◌, subst, sym, false, none, some, [], ◌∷◌, ℤ, pos, inl, inr, Bool-cases,
}
use openresponses.Response.{Response}
use openresponses.EventSink.{EventSink}
use openresponses.Client.EventStream.{Payload}
use openresponses.Adapter.Steps.{AdapterError, Feed, each}
use openresponses.ChatCompletions.Chunk.{Chunk}
use openresponses.ChatCompletions.Failure.{Texts}
use openresponses.ChatCompletions.Decoder
use openresponses.ChatCompletions.Deltas
use openresponses.ChatCompletions.Decoder.{Decoder, CallState, Externals, Decode}
use openresponses.ChatCompletions.Stream.{Decoded, Ending, valid, feed, create_stream}

-- A chunk that begins a call of a function that it does not name.
abbrev pub nameless : ℤ → String → String → String → Chunk
nameless i id arguments reason = record {
  model = "";
  choices =
      record {
        index = pos 0;
        delta = record {
          content = none;
          refusal = none;
          reasoning_content = none;
          reasoning = none;
          tool_calls = record { index = i; id = id; name = ""; arguments = arguments } ∷ [];
          annotations = [];
        };
        finish_reason = reason;
        logprobs = none;
      }
      ∷ [];
  usage = none;
  error = none;
}

module _ {S : Type 0} (k : EventSink S) (x : Externals) where
  -- A call whose writer was not opened ends in a panic.
  end_call-unopened :
      (f : Feed Decoder S) (c : CallState) (after : Decode k x)
      → f.decoder.call ≡ some c
      → c.opened ≡ false
      → (Decoder.end_call k x after f).1 ≡ some AdapterError.panicked
  unfolding Decoder.end_call Decoder.open_call
  end_call-unopened f c after h o =
      subst (λ d. (Decoder.ending k x d after f).1 ≡ some AdapterError.panicked) (sym h)
        (unopened c o)
    where
      unopened :
          (d : CallState)
          → d.opened ≡ false
          → (Decoder.ending k x (some d) after f).1 ≡ some AdapterError.panicked
      unopened d e = rw e

  -- A stream whose one chunk begins a call without the name of its function makes CreateStream panic,
  -- whatever the call's index, id and arguments, the finish reason, the request and the sink.
  pub nameless-panics :
      (t : Texts) (decode : String → Decoded) (sink : S) (fresh : String) (r : Response)
      (text : String) (i : ℤ) (id arguments reason : String) (end : Ending)
      → decode text ≡ valid (nameless i id arguments reason)
      → (create_stream k x t decode sink fresh r (Payload.event text ∷ Payload.sentinel ∷ []) end).1
        ≡ some AdapterError.panicked
  unfolding create_stream feed Deltas.chunk Deltas.delta Deltas.tool_call Deltas.finish
      Decoder.close_open each Decoder.open_message Decoder.end_call Decoder.open_call
  nameless-panics t decode sink fresh r text i id arguments reason end h =
      rw h (elim (Bool-cases (Decoder.is_empty reason)) [ inl e ↦ rw e | inr e ↦ rw e ])
