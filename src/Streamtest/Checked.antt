-- ===== src/Streamtest/Checked.antt =====
-- What a sink promises to a sender that obeys the streaming lifecycle: while the checker of
-- streamtest/streamtest.go accepts the events, the sink takes them.
use openresponses.Prelude.{ℕ, suc, ◌≡◌, Bool, true, false, Option, none, subst, sym}
use openresponses.Event.{StreamEvent}
use openresponses.EventSink.{EventSink, Act, SendError, ◌>>◌, continue, fail_if}
use openresponses.Accumulator.Panics.{has_indexes}
use openresponses.Streamtest.Validator.{Validator, ok}
use openresponses.Streamtest.Check.{handle}

abbrev pub Succeeds {ℓ κ} : {X : Type ℓ} → (X → Type κ) → X × Option SendError → Type κ
Succeeds Q r = (r.1 ≡ none) × Q r.0

-- `At v n s`: the `n` events that `s` has taken leave the checker in state `v`.
pub record CheckedSink {S : Type 0} (k : EventSink S) : Type 1 where
  pub At : Validator → ℕ → S → Type 0
  pub takes :
      (v : Validator) (n : ℕ) (s : S) (ev : StreamEvent) (v' : Validator)
      → At v n s
      → v.terminal ≡ false
      → v.error_seen ≡ false
      → has_indexes ev ≡ true
      → handle v n ev ≡ ok v'
      → Succeeds (At v' (suc n)) (k.send s ev)

-- The rule for a sequence of calls.
pub Succeeds-then {ℓ κ μ} :
    {X : Type ℓ} (P : X → Type κ) (Q : X → Type μ) (m l : Act X) (x : X)
    → Succeeds P (m x)
    → ((y : X) → P y → Succeeds Q (l y))
    → Succeeds Q ((m >> l) x)
Succeeds-then P Q m l x h next =
    subst (λ o. Succeeds Q (continue (m x).0 o l)) (sym h.0) (next (m x).0 h.1)

-- The rule for a guard that does not refuse.
pub Succeeds-fail_if {ℓ κ} :
    {X : Type ℓ} (Q : X → Type κ) (b : Bool) (e : SendError) (l : Act X) (x : X)
    → b ≡ false
    → Succeeds Q (l x)
    → Succeeds Q ((fail_if b e >> l) x)
Succeeds-fail_if Q true e l x h q = cc
Succeeds-fail_if Q false e l x h q = q
