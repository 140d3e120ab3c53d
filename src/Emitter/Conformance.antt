-- ===== src/Emitter/Conformance.antt =====
-- emitter.go on the recording sink of streamtest/streamtest.go: what `Validate` says of the events
-- recorded.
use openresponses.Prelude.{
  ℕ, String, ◌≡◌, refl, subst, true, false, Option, none, some, List, [], ◌∷◌, inl, inr,
}
use openresponses.Response.{Response}
use openresponses.Event.{StreamEvent}
use openresponses.Streamtest.Validator.{Validator, new_validator, ok}
use openresponses.Streamtest.Check.{steps, validate}
use openresponses.Streamtest.Sink.{Sink, new_sink, sink, sink-CheckedSink}
use openresponses.Emitter.State.{Emitter, new_emitter}
use openresponses.Emitter.Calls.{Call, perform, run, complete, incomplete}
use openresponses.Emitter.Lifecycle.Invariant.{Phase, Inv}
use openresponses.Emitter.Lifecycle.Run.{run-new_emitter-Inv}
use openresponses.Emitter.Lifecycle.End.{Ended, complete-Ended, incomplete-Ended}
use openresponses.Emitter.First.{starts, First, perform-First, run-First, new_emitter-First}

-- The three parts of a valid stream.
validate-ok :
    (es : List (ℕ × StreamEvent)) (v : Validator)
    → starts es ≡ true
    → steps (new_validator false) 0 es ≡ ok v
    → v.terminal ≡ true
    → validate false es ≡ ok tt
unfolding validate
validate-ok [] v h s t = cc
validate-ok ((i, ev) ∷ es) v h s t = simp (h, s, t) refl

module _ (wire : StreamEvent → Option StreamEvent)
    (kept : (ev : StreamEvent) → wire ev ≡ some ev) where
  -- The state after some calls on a new emitter and a new sink.
  abbrev pub after_calls : String → Response → List Call → Emitter Sink
  after_calls fresh r calls = run (sink wire) (new_emitter new_sink fresh r) calls

  pub after-Inv :
      (fresh : String) (r : Response) (calls : List Call)
      → r.output ≡ []
      → Inv (sink-CheckedSink wire kept) (after_calls fresh r calls)
  unfolding sink-CheckedSink steps
  after-Inv fresh r calls o =
      run-new_emitter-Inv (sink-CheckedSink wire kept) new_sink fresh r calls o
        (record { accepted = refl; count = refl; numbered = refl; ended = refl })

  after-First :
      (fresh : String) (r : Response) (calls : List Call) → First wire (after_calls fresh r calls)
  after-First fresh r calls =
      run-First wire kept calls (new_emitter new_sink fresh r) (new_emitter-First wire kept fresh r)

  Started-starts :
      (e : Emitter Sink) → First wire e → e.started ≡ true → starts e.sink.events ≡ true
  Started-starts e (inl w) s = cc
  Started-starts e (inr h) s = h

  pub Ended-validate :
      (e : Emitter Sink)
      → First wire e
      → Ended (sink-CheckedSink wire kept) e
      → validate false e.sink.events ≡ ok tt
  unfolding sink-CheckedSink
  Ended-validate e f (v, n, at, t, w, s, b) =
      validate-ok e.sink.events v (Started-starts e f s) at.accepted t

  -- Whatever an adapter calls on a new emitter whose response has no output, in any order and with
  -- any errors ignored, the checker accepts every event recorded so far, if the wire form of an event
  -- loses nothing.
  pub run-steps :
      (fresh : String) (r : Response) (calls : List Call)
      → r.output ≡ []
      → (v : Validator) × (steps (new_validator false) 0 (after_calls fresh r calls).sink.events
          ≡ ok v)
  unfolding sink-CheckedSink
  run-steps fresh r calls o = let (v, n, at, h) = after-Inv fresh r calls o in (v, at.accepted)

  -- Whatever an adapter calls on a new emitter whose response has no output, if the emitter has not
  -- ended and the wire form of an event loses nothing, then `Complete` succeeds and `Validate` passes
  -- all that was recorded.
  pub complete-validate :
      (fresh : String) (r : Response) (calls : List Call) (now : ℕ)
      → r.output ≡ []
      → (after_calls fresh r calls).terminal ≡ false
      → ((complete (sink wire) now (after_calls fresh r calls)).1 ≡ none)
        × (validate false (complete (sink wire) now (after_calls fresh r calls)).0.sink.events
            ≡ ok tt)
  unfolding perform
  complete-validate fresh r calls now o t =
      let e = after_calls fresh r calls in
      let h = complete-Ended (sink-CheckedSink wire kept) now e (after-Inv fresh r calls o) t in
      (
        h.0,
        Ended-validate (complete (sink wire) now e).0
            (perform-First wire kept (Call.completes now) e (after-First fresh r calls)) h.1,
      )

  -- Whatever an adapter calls on a new emitter whose response has no output, if the emitter has not
  -- ended and the wire form of an event loses nothing, then `Incomplete` succeeds and `Validate`
  -- passes all that was recorded.
  pub incomplete-validate :
      (fresh : String) (r : Response) (calls : List Call) (now : ℕ) (reason : String)
      → r.output ≡ []
      → (after_calls fresh r calls).terminal ≡ false
      → ((incomplete (sink wire) now reason (after_calls fresh r calls)).1 ≡ none)
        × (validate false
              (incomplete (sink wire) now reason (after_calls fresh r calls)).0.sink.events
            ≡ ok tt)
  unfolding perform
  incomplete-validate fresh r calls now reason o t =
      let e = after_calls fresh r calls in
      let h =
        incomplete-Ended (sink-CheckedSink wire kept) now reason e (after-Inv fresh r calls o) t in
      (
        h.0,
        Ended-validate (incomplete (sink wire) now reason e).0
            (perform-First wire kept (Call.incompletes now reason) e (after-First fresh r calls))
            h.1,
      )

  -- When the calls of an adapter on a new emitter whose response has no output have ended it,
  -- `Validate` passes all that was recorded, whatever was called after the terminal event, if the
  -- wire form of an event loses nothing.
  pub ended-validate :
      (fresh : String) (r : Response) (calls : List Call)
      → r.output ≡ []
      → (after_calls fresh r calls).terminal ≡ true
      → validate false (after_calls fresh r calls).sink.events ≡ ok tt
  ended-validate fresh r calls o t =
      let e = after_calls fresh r calls in
      let (v, n, at, h) = after-Inv fresh r calls o in
      let (vt, w, s) = subst (λ b. Phase e.started b e.open_writer e.resp.output v n) t h in
      Ended-validate e (after-First fresh r calls) (v, n, at, vt, w, s, t)
