-- ===== src/Streamtest/Accepted.antt =====
-- streamtest/streamtest.go, `Validate`: what a stream that it passes looks like, said without the
-- checker.
use openresponses.Prelude.{
  ℕ, suc, ◌==◌, ◌≡◌, refl, sym, ap, ◌∙◌, Bool, true, false, not, ◌&&◌, if◌then◌else◌, List, [], ◌∷◌,
}
use openresponses.Event.{StreamEvent, is_terminal}
use openresponses.Streamtest.Validator.{
  Violation, Validator, new_validator, Result, ok, err, ◌>>=◌, ◌>>◌, refuse,
}
use openresponses.Streamtest.Step.{is_failed}
use openresponses.Streamtest.Check.{handle, step, steps, is_created, validate}
use openresponses.Streamtest.Terminal.{handle-terminal}

-- `response.created` comes first.
abbrev pub begins : List (ℕ × StreamEvent) → Bool
begins [] = false
begins ((_, ev) ∷ es) = is_created ev

-- The sequence numbers count up from `i`.
abbrev pub numbered : ℕ → List (ℕ × StreamEvent) → Bool
numbered i [] = true
numbered i ((n, _) ∷ es) = (n == i) && numbered (suc i) es

-- There is one terminal event, and it is the last event.
abbrev pub ends_once : List (ℕ × StreamEvent) → Bool
ends_once [] = false
ends_once ((_, ev) ∷ []) = is_terminal ev
ends_once ((_, ev) ∷ e ∷ es) = not (is_terminal ev) && ends_once (e ∷ es)

-- What a step that is taken has passed.
guards_passed :
    (a b c : Bool) (r : Result Validator) (v : Validator)
    → (refuse a Violation.after_terminal
        >> (refuse (not b) Violation.bad_sequence >> (refuse c Violation.error_not_failed >> r)))
      ≡ ok v
    → (a ≡ false) × (b ≡ true) × (r ≡ ok v)
guards_passed true b c r v h = cc
guards_passed false false c r v h = cc
guards_passed false true true r v h = cc
guards_passed false true false r v h = (refl, refl, h)

step_passed :
    (v v' : Validator) (i n : ℕ) (ev : StreamEvent)
    → step v i (n, ev) ≡ ok v'
    → (v.terminal ≡ false) × ((n == i) ≡ true) × (handle v i ev ≡ ok v')
unfolding step
step_passed v v' i n ev h =
    guards_passed v.terminal (n == i) (v.error_seen && not (is_failed ev)) (handle v i ev) v' h

-- The first of several steps.
first_step :
    (r : Result Validator) (i : ℕ) (es : List (ℕ × StreamEvent)) (w : Validator)
    → (r >>= λ v'. steps v' (suc i) es) ≡ ok w
    → (v' : Validator) × (r ≡ ok v') × (steps v' (suc i) es ≡ ok w)
first_step (ok v') i es w h = (v', refl, h)
first_step (err e) i es w h = cc

pub steps-numbered :
    (es : List (ℕ × StreamEvent)) (v w : Validator) (i : ℕ)
    → steps v i es ≡ ok w
    → numbered i es ≡ true
unfolding steps
steps-numbered [] v w i h = refl
steps-numbered ((n, ev) ∷ es) v w i h =
    let (v', s, next) = first_step (step v i (n, ev)) i es w h in
    let (_, q, _) = step_passed v v' i n ev s in rw q (steps-numbered es v' w (suc i) next)

-- No step is taken from a state that is terminal.
steps-terminal :
    (n : ℕ) (ev : StreamEvent) (es : List (ℕ × StreamEvent)) (v w : Validator) (i : ℕ)
    → steps v i ((n, ev) ∷ es) ≡ ok w
    → v.terminal ≡ false
unfolding steps
steps-terminal n ev es v w i h =
    let (v', s, _) = first_step (step v i (n, ev)) i es w h in (step_passed v v' i n ev s).0

if_terminal : (b t : Bool) → t ≡ false → (if b then true else t) ≡ b
if_terminal true t h = refl
if_terminal false t h = h

steps-ends_once :
    (es : List (ℕ × StreamEvent)) (v w : Validator) (i : ℕ)
    → steps v i es ≡ ok w
    → v.terminal ≡ false
    → w.terminal ≡ true
    → ends_once es ≡ true
unfolding steps
steps-ends_once [] v w i h f t = cc
steps-ends_once ((n, ev) ∷ []) v w i h f t =
    let (v', s, next) = first_step (step v i (n, ev)) i [] w h in
    let (_, _, took) = step_passed v v' i n ev s in
    let same : v' ≡ w = cc in
    sym (if_terminal (is_terminal ev) v.terminal f)
    ∙ sym (handle-terminal v i ev v' took)
    ∙ ap (λ x. x.terminal) same
    ∙ t
steps-ends_once ((n, ev) ∷ (m, ev') ∷ es) v w i h f t =
    let (v', s, next) = first_step (step v i (n, ev)) i ((m, ev') ∷ es) w h in
    let (_, _, took) = step_passed v v' i n ev s in
    let going : v'.terminal ≡ false = steps-terminal m ev' es v' w (suc i) next in
    let goes_on : is_terminal ev ≡ false =
      sym (if_terminal (is_terminal ev) v.terminal f)
      ∙ sym (handle-terminal v i ev v' took)
      ∙ going in
    rw goes_on (steps-ends_once ((m, ev') ∷ es) v' w (suc i) next going t)

validate_passed :
    (c : Bool) (r : Result Validator)
    → (refuse (not c) Violation.first_not_created
        >> (r >>= λ v. refuse (not v.terminal) Violation.unterminated >> ok (tt {0})))
      ≡ ok (tt {0})
    → (c ≡ true) × ((w : Validator) × (r ≡ ok w) × (w.terminal ≡ true))
validate_passed false r h = cc
validate_passed true (err e) h = cc
validate_passed true (ok w) h = (refl, (w, refl, split w.terminal h))
  where
    split :
        (b : Bool) → (refuse (not b) Violation.unterminated >> ok (tt {0})) ≡ ok (tt {0}) → b ≡ true
    split true p = refl
    split false p = cc

-- A stream that `Validate` passes, in its strict form or the relaxed one, begins with
-- `response.created`, counts its events from zero, and has one terminal event, the last.
pub validate-accepted :
    (allow_reuse : Bool) (es : List (ℕ × StreamEvent))
    → validate allow_reuse es ≡ ok tt
    → (begins es ≡ true) × (numbered 0 es ≡ true) × (ends_once es ≡ true)
unfolding validate
validate-accepted allow_reuse [] h = cc
validate-accepted allow_reuse ((n, ev) ∷ es) h =
    let (b, (w, s, t)) =
      validate_passed (is_created ev) (steps (new_validator allow_reuse) 0 ((n, ev) ∷ es)) h in
    (
      b,
      steps-numbered ((n, ev) ∷ es) (new_validator allow_reuse) w 0 s,
      steps-ends_once ((n, ev) ∷ es) (new_validator allow_reuse) w 0 s refl t,
    )
