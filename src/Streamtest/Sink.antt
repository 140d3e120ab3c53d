-- ===== src/Streamtest/Sink.antt =====
-- streamtest/streamtest.go, `Sink`: the sink that records events. The wire form that it sends each
-- event through is the parameter `wire`; `none` is an error of the encoder or the decoder.
use openresponses.Prelude.{
  ℕ, suc, ◌==◌, ◌+◌, ◌≡◌, refl, sym, subst, ap, ◌∙◌, Bool, true, false, not, ◌||◌, ◌&&◌,
  if◌then◌else◌, Option, none, some, List, [], ◌∷◌, ◌++◌, length, length-append, add-zero, ==_refl,
  arith,
}
use openresponses.Event.{StreamEvent, is_terminal}
use openresponses.EventSink.{EventSink, SendError, panicked, terminal_event_sent, sink_error}
use openresponses.Accumulator.State.{Accumulator, empty}
use openresponses.Accumulator.Add.{add}
use openresponses.Accumulator.Panics.{has_indexes, add-Total}
use openresponses.Streamtest.Step.{is_failed}
use openresponses.Streamtest.Validator.{
  Violation, refuse, ◌>>◌, Validator, new_validator, Result, ok, err, ◌>>=◌,
}
use openresponses.Streamtest.Check.{handle, step, steps}
use openresponses.Streamtest.Checked.{CheckedSink, Succeeds}
use openresponses.Streamtest.Terminal.{handle-terminal}

-- `events` holds each event with the sequence number that was set on it.
pub record Sink : Type 0 where
  pub seq : ℕ
  pub events : List (ℕ × StreamEvent)
  pub acc : Accumulator
  pub terminal : Bool

-- The zero value.
abbrev pub new_sink : Sink
new_sink = record { seq = 0; events = []; acc = empty; terminal = false }

-- `s.acc.Add(decoded)`, which may panic, and what follows it.
abbrev pub fold_decoded : Sink → StreamEvent → Option Accumulator → Sink × Option SendError
fold_decoded s ev none = (s, some panicked)
fold_decoded s ev (some a) = (record s { acc = a; terminal = s.terminal || is_terminal ev }, none)

abbrev pub record_decoded : Sink → ℕ → Option StreamEvent → Sink × Option SendError
record_decoded s n none = (s, some (sink_error "wire"))
record_decoded s n (some ev) =
    fold_decoded (record s { events = s.events ++ (n, ev) ∷ [] }) ev (add s.acc ev)

module _ (wire : StreamEvent → Option StreamEvent) where
  abbrev pub send_unless : Bool → Sink → StreamEvent → Sink × Option SendError
  send_unless true s ev = (s, some terminal_event_sent)
  send_unless false s ev = record_decoded (record s { seq = suc s.seq }) s.seq (wire ev)

  -- `Send`.
  unfoldable pub send : Sink → StreamEvent → Sink × Option SendError
  send s ev = send_unless s.terminal s ev

  abbrev pub sink : EventSink Sink
  sink = record { send = send }

split_step :
    (e : ℕ × StreamEvent) (es : List (ℕ × StreamEvent)) (v1 v2 : Validator) (i : ℕ)
    (r : Result Validator)
    → ((v' : Validator) → steps v' (suc i) es ≡ ok v1 → steps v' (suc i) (es ++ e ∷ []) ≡ ok v2)
    → (r >>= λ v'. steps v' (suc i) es) ≡ ok v1
    → (r >>= λ v'. steps v' (suc i) (es ++ e ∷ [])) ≡ ok v2
split_step e es v1 v2 i (ok v') next h = next v' h
split_step e es v1 v2 i (err w) next h = cc

bind-ok : (r : Result Validator) → (r >>= λ v'. ok v') ≡ r
bind-ok (ok v) = refl
bind-ok (err w) = refl

same_ok : (v w : Validator) → ok v ≡ ok w → w ≡ v
same_ok v w h = cc

-- The step of the checker that a last event adds.
pub steps-append :
    (es : List (ℕ × StreamEvent)) (v : Validator) (i : ℕ) (e : ℕ × StreamEvent) (v1 v2 : Validator)
    → steps v i es ≡ ok v1
    → step v1 (i + length es) e ≡ ok v2
    → steps v i (es ++ e ∷ []) ≡ ok v2
unfolding steps
steps-append [] v i e v1 v2 h g =
    bind-ok (step v i e)
    ∙ subst (λ w. step w i e ≡ ok v2) (same_ok v v1 h)
        (subst (λ n. step v1 n e ≡ ok v2) (add-zero i) g)
steps-append (x ∷ es) v i e v1 v2 h g =
    split_step e es v1 v2 i (step v i x)
      (λ v' h'.
        steps-append es v' (suc i) e v1 v2 h' (subst (λ n. step v1 n e ≡ ok v2) (omega arith) g))
      h

guards :
    (a b c d : Bool) (r : Result Validator)
    → a ≡ false
    → b ≡ true
    → c ≡ false
    → (refuse a Violation.after_terminal
        >> (refuse (not b) Violation.bad_sequence
            >> (refuse (c && d) Violation.error_not_failed >> r)))
      ≡ r
guards false true false d r p q s = refl
guards true b c d r p q s = cc
guards false false c d r p q s = cc
guards false true true d r p q s = cc

-- An event that the checker takes, at the number that it should have.
step-handle :
    (v v' : Validator) (n : ℕ) (ev : StreamEvent)
    → v.terminal ≡ false
    → v.error_seen ≡ false
    → handle v n ev ≡ ok v'
    → step v n (n, ev) ≡ ok v'
unfolding step
step-handle v v' n ev t e h =
    guards v.terminal (n == n) v.error_seen (not (is_failed ev)) (handle v n ev) t (==_refl n) e ∙ h

or-if : (b c v : Bool) → b ≡ v → v ≡ false → (b || c) ≡ (if c then true else v)
or-if b true v h e = ground arith
or-if b false v h e = ground arith

module _ (wire : StreamEvent → Option StreamEvent) where
  pub send-taken :
      (s : Sink) (ev : StreamEvent) (a : Accumulator)
      → s.terminal ≡ false
      → wire ev ≡ some ev
      → add s.acc ev ≡ some a
      → send wire s ev ≡ (
        record s {
          seq = suc s.seq;
          events = s.events ++ (s.seq, ev) ∷ [];
          acc = a;
          terminal = s.terminal || is_terminal ev;
        },
        none,
      )
  unfolding send
  send-taken s ev a t w h =
      ap (λ b. send_unless wire b s ev) t
      ∙ ap (λ o. record_decoded (record s { seq = suc s.seq }) s.seq o) w
      ∙ ap
          (λ o.
            fold_decoded (record s { seq = suc s.seq; events = s.events ++ (s.seq, ev) ∷ [] }) ev o)
          h

  -- What has been recorded is what the checker has accepted.
  pub record Recorded (v : Validator) (n : ℕ) (s : Sink) : Type 0 where
    pub accepted : steps (new_validator false) 0 s.events ≡ ok v
    pub count : length s.events ≡ n
    pub numbered : s.seq ≡ n
    pub ended : s.terminal ≡ v.terminal

  -- If its wire form loses nothing, the sink takes every event that the checker accepts in a state
  -- that is neither terminal nor behind an error event, unless one of its indexes would make `Add`
  -- panic, and stays in step with the checker.
  pub send-Recorded :
      (kept : (ev : StreamEvent) → wire ev ≡ some ev) (v : Validator) (n : ℕ) (s : Sink)
      (ev : StreamEvent) (v' : Validator)
      → Recorded v n s
      → v.terminal ≡ false
      → v.error_seen ≡ false
      → has_indexes ev ≡ true
      → handle v n ev ≡ ok v'
      → Succeeds (Recorded v' (suc n)) (send wire s ev)
  send-Recorded kept v n s ev v' at t e idx h =
      let (a, added) = add-Total s.acc ev idx in
      subst (Succeeds (Recorded v' (suc n)))
        (sym (send-taken s ev a (at.ended ∙ t) (kept ev) added))
        (
          refl,
          record {
            accepted =
                steps-append s.events (new_validator false) 0 (s.seq, ev) v v' at.accepted
                  (subst (λ i. step v i (s.seq, ev) ≡ ok v') (omega (arith, at.count))
                    (subst (λ i. step v n (i, ev) ≡ ok v') (sym at.numbered)
                      (step-handle v v' n ev t e h)));
            count = length-append s.events ((s.seq, ev) ∷ []) ∙ omega (arith, at.count);
            numbered = ap suc at.numbered;
            ended =
                or-if s.terminal (is_terminal ev) v.terminal at.ended t
                ∙ sym (handle-terminal v n ev v' h);
          },
        )

  unfoldable pub sink-CheckedSink :
      ((ev : StreamEvent) → wire ev ≡ some ev) → CheckedSink (sink wire)
  sink-CheckedSink kept = record { At = Recorded; takes = send-Recorded kept }
