-- ===== src/Adapter/Outcome.antt =====
-- A stream of an adapter on the recording sink of streamtest/streamtest.go: what was recorded when
-- the adapter returns, with or without an error.
use openresponses.Prelude.{
  ℕ, String, ◌≡◌, refl, subst, sym, ◌∙◌, inl, inr, Bool, if◌then◌else◌, true, false, Option, none,
  some, [],
}
use openresponses.Response.{Response}
use openresponses.Event.{StreamEvent}
use openresponses.Streamtest.Validator.{Validator, new_validator, ok}
use openresponses.Streamtest.Check.{steps, validate}
use openresponses.Streamtest.Sink.{Sink, new_sink, sink, sink-CheckedSink}
use openresponses.Emitter.State.{Emitter, new_emitter}
use openresponses.Emitter.Calls.{Call, perform, complete, incomplete}
use openresponses.Emitter.Lifecycle.Invariant.{Inv}
use openresponses.Emitter.Lifecycle.Run.{perform-Inv}
use openresponses.Emitter.Lifecycle.End.{complete-Ended, incomplete-Ended}
use openresponses.Emitter.First.{First, perform-First, new_emitter-First}
use openresponses.Emitter.Running.{perform-Unended}
use openresponses.Emitter.Conformance.{after-Inv, Ended-validate}
use openresponses.Adapter.Steps.{AdapterError, stop, Feed, Step, sent, calls, proceed, ◌>>◌}
use openresponses.Adapter.Keeps.{Lasting, Keeps}

module _ (wire : StreamEvent → Option StreamEvent)
    (kept : (ev : StreamEvent) → wire ev ≡ some ev) where
  -- The checker is in step with the emitter, and the response has not ended.
  abbrev pub Sound : Emitter Sink → Type 0
  Sound e = Inv (sink-CheckedSink wire kept) e × First wire e × (e.terminal ≡ false)

  First-resp : (e : Emitter Sink) (r : Response) → First wire e → First wire (record e { resp = r })
  First-resp e r (inl w) = inl (record {
    waiting = w.waiting;
    no_events = w.no_events;
    no_writer = w.no_writer;
    accepting = w.accepting;
  })
  First-resp e r (inr h) = inr h

  pub sound-Lasting : Lasting (sink wire) Sound
  sound-Lasting = record {
    performed = λ call e h (i, f, t). (
      perform-Inv (sink-CheckedSink wire kept) call e i,
      perform-First wire kept call e f,
      perform-Unended (sink wire) call h e ∙ t,
    );
    model_set = λ m e (i, f, t). (i, First-resp e (record e.resp { model = m }) f, t);
    usage_set = λ u e (i, f, t). (i, First-resp e (record e.resp { usage = some u }) f, t);
  }

  pub new_emitter-Sound :
      (fresh : String) (r : Response) → r.output ≡ [] → Sound (new_emitter new_sink fresh r)
  unfolding new_emitter openresponses.Emitter.Calls.run
  new_emitter-Sound fresh r o =
      (after-Inv wire kept fresh r [] o, new_emitter-First wire kept fresh r, refl)

  -- Without an error, `Validate` passes what was recorded. With one, the response has not ended, and
  -- the checker accepts what was recorded so far.
  abbrev pub Outcome : Emitter Sink → Option AdapterError → Type 0
  Outcome e none = validate false e.sink.events ≡ ok tt
  Outcome e (some err) =
      (e.terminal ≡ false) × (v : Validator) × (steps (new_validator false) 0 e.sink.events ≡ ok v)

  pub stopped-Outcome : (e : Emitter Sink) (err : AdapterError) → Sound e → Outcome e (some err)
  unfolding sink-CheckedSink
  stopped-Outcome e err ((v, n, at, h), f, t) = (t, v, at.accepted)

  module _ {D : Type 0} where
    -- A step after which the adapter returns.
    pub record Ends (m : Step (Feed D Sink)) : Type 0 where
      pub ended : (x : Feed D Sink) → Sound x.emitter → Outcome (m x).0.emitter (m x).1

    pub completes-Ends : (now : ℕ) → Ends (calls (sink wire) (Call.completes now))
    unfolding perform
    completes-Ends now = record {
      ended = λ x (i, f, t).
          let e = x.emitter in
          let h = complete-Ended (sink-CheckedSink wire kept) now e i t in
          subst (λ o. Outcome (complete (sink wire) now e).0 (sent o)) (sym h.0)
            (Ended-validate wire kept (complete (sink wire) now e).0
              (perform-First wire kept (Call.completes now) e f) h.1);
    }

    pub incompletes-Ends :
        (now : ℕ) (reason : String) → Ends (calls (sink wire) (Call.incompletes now reason))
    unfolding perform
    incompletes-Ends now reason = record {
      ended = λ x (i, f, t).
          let e = x.emitter in
          let h = incomplete-Ended (sink-CheckedSink wire kept) now reason e i t in
          subst (λ o. Outcome (incomplete (sink wire) now reason e).0 (sent o)) (sym h.0)
            (Ended-validate wire kept (incomplete (sink wire) now reason e).0
              (perform-First wire kept (Call.incompletes now reason) e f) h.1);
    }

    pub stop-Ends : (err : AdapterError) → Ends (stop err)
    stop-Ends err = record { ended = λ x p. stopped-Outcome x.emitter err p }

    proceed-Outcome :
        (y : Feed D Sink) (o : Option AdapterError) (l : Step (Feed D Sink))
        → Sound y.emitter
        → Ends l
        → Outcome (proceed y o l).0.emitter (proceed y o l).1
    proceed-Outcome y none l q b = b.ended y q
    proceed-Outcome y (some err) l q b = stopped-Outcome y.emitter err q

    -- After steps that keep the checker in step, an ending one.
    pub then-Ends : {m l : Step (Feed D Sink)} → Keeps sound-Lasting m → Ends l → Ends (m >> l)
    then-Ends {m} {l} a b = record {
      ended = λ x p. proceed-Outcome (m x).0 (m x).1 l (a.kept x p) b;
    }

    pub reads-Ends :
        {A : Type 0} (read : Feed D Sink → A) (m : A → Step (Feed D Sink))
        → ((a : A) → Ends (m a))
        → Ends (λ x. m (read x) x)
    reads-Ends read m a = record { ended = λ x p. (a (read x)).ended x p }

    pub if-Ends :
        (b : Bool) {m l : Step (Feed D Sink)} → Ends m → Ends l → Ends (if b then m else l)
    if-Ends true a c = a
    if-Ends false a c = c
