-- ===== src/Handler/Received.antt =====
-- handler.go, `sseSink`, and stream.go, `EventStream`: a stream from the handler to a client.
use mathlib.Core.Option
use openresponses.Prelude.{
  ℕ, suc, String, ◌≡◌, refl, ap, ◌∙◌, Bool, true, false, Option, none, some, List, [], ◌∷◌, length,
}
use openresponses.Response.{Response, ErrorPayload}
use openresponses.Event.{StreamEvent}
use openresponses.Accumulator.State.{empty, response}
use openresponses.Accumulator.Add.{add_all}
use openresponses.Emitter.Folded.{events_of}
use openresponses.Client.EventStream.{StreamError, Payload, new_event_stream, drain, wait_error}
use openresponses.Client.Drained.{
  summary, seen, before_error, after_event, verdict, ended_with, drain-verdict,
}
use openresponses.Handler.SseSink.{SseSink, new_sse_sink, send_all, finish}
use openresponses.Handler.Running.{indexed}
use openresponses.Handler.Finished.{finish-Over}
use openresponses.Handler.Mirrored.{finals_of, finish-Mirrored}

-- The payloads of the events written, and the sentinel behind them.
abbrev pub payloads_of : (ℕ → StreamEvent → String) → List (ℕ × StreamEvent) → List Payload
payloads_of encode [] = Payload.sentinel ∷ []
payloads_of encode ((n, ev) ∷ es) = Payload.event (encode n ev) ∷ payloads_of encode es

module _ (encode : ℕ → StreamEvent → String) (decode : String → Option StreamEvent) where
  -- Each event written is decoded to itself.
  abbrev pub Lossless : List (ℕ × StreamEvent) → Type 0
  Lossless [] = Unit
  Lossless ((n, ev) ∷ es) = (decode (encode n ev) ≡ some ev) × Lossless es

  seen-payloads_of :
      (es : List (ℕ × StreamEvent))
      → Lossless es
      → seen decode (payloads_of encode es) ≡ events_of es
  seen-payloads_of [] l = refl
  seen-payloads_of ((n, ev) ∷ es) (h, l) =
      ap (λ o. before_error decode o (seen decode (payloads_of encode es))) h
      ∙ ap (λ evs. ev ∷ evs) (seen-payloads_of es l)

  verdict-payloads_of :
      (es : List (ℕ × StreamEvent)) (r : Option StreamError) (t : Bool)
      → Lossless es
      → verdict decode (payloads_of encode es) r t ≡ none
  verdict-payloads_of [] r t l = refl
  verdict-payloads_of ((n, ev) ∷ es) r t (h, l) =
      ap (λ o. after_event decode o (verdict decode (payloads_of encode es) r) t) h
      ∙ verdict-payloads_of es r _ l

  module _ (encodes : StreamEvent → Bool) (takes_write : List (ℕ × StreamEvent) → Bool)
      (encoded : (ev : StreamEvent) → encodes ev ≡ true)
      (taken : (es : List (ℕ × StreamEvent)) → takes_write es ≡ true) where
    -- The sink when the handler has finished the stream.
    abbrev pub finished_sink :
        String → List StreamEvent → ℕ → Response → Option ErrorPayload → SseSink
    finished_sink id evs now fresh e =
        finish encodes takes_write now fresh e (send_all encodes takes_write (new_sse_sink id) evs)

    -- Whatever an adapter sends, and whether it ends with an error or not: a client that drains
    -- what the handler wrote ends without an error of the stream, its accumulator is the handler's,
    -- and Wait returns the response that the handler handed on once to be saved, with the error in
    -- it. Each event written is decoded to itself; events can be encoded and written, and have no
    -- index that makes `Add` panic.
    pub drain-finish :
        (id : String) (evs : List StreamEvent) (now : ℕ) (fresh : Response)
        (e : Option ErrorPayload)
        → indexed evs ≡ true
        → Lossless (finished_sink id evs now fresh e).written
        → let s = finished_sink id evs now fresh e in
          (Option.map (summary decode) (
              drain decode
                (suc (length (payloads_of encode s.written)))
                (new_event_stream (payloads_of encode s.written) none))
            ≡ some ((s.acc, (response s.acc, wait_error none (response s.acc))), (none, true)))
          × (s.finals ≡ response s.acc ∷ [])
    unfolding Option.bind
    drain-finish id evs now fresh e i l =
        let s = finished_sink id evs now fresh e in
        let m = finish-Mirrored encodes takes_write encoded taken id evs now fresh e i in
        let (o, done) = finish-Over encodes takes_write encoded taken id evs now fresh e i in
        (
          drain-verdict decode (payloads_of encode s.written) none
              ∙ ap
                  (λ v.
                    ended_with decode v
                      (add_all empty (seen decode (payloads_of encode s.written))))
                  (verdict-payloads_of s.written none false l)
              ∙ ap (λ w. ended_with decode none (add_all empty w)) (seen-payloads_of s.written l)
              ∙ ap (ended_with decode none) m.folded,
          m.final ∙ ap (λ b. finals_of b (response s.acc)) o.ended,
        )
