-- ===== src/Emitter/Folded.antt =====
-- emitter.go on the recording sink of streamtest/streamtest.go: the accumulator behind
-- `Sink.Response`.
use mathlib.Core.Option
use openresponses.Prelude.{ℕ, ◌≡◌, subst, ap, Option, none, some, List, [], ◌∷◌, ◌++◌}
use openresponses.Response.{Response}
use openresponses.Event.{StreamEvent}
use openresponses.Accumulator.State.{Accumulator, empty}
use openresponses.Accumulator.Add.{add, add_all}
use openresponses.Streamtest.Sink.{Sink}

-- The events without their numbers.
abbrev pub events_of : List (ℕ × StreamEvent) → List StreamEvent
events_of [] = []
events_of ((_, ev) ∷ es) = ev ∷ events_of es

pub add_all-append :
    (es : List (ℕ × StreamEvent)) (n : ℕ) (ev : StreamEvent) (a a1 a2 : Accumulator)
    → add_all a (events_of es) ≡ some a1
    → add a1 ev ≡ some a2
    → add_all a (events_of (es ++ (n, ev) ∷ [])) ≡ some a2
unfolding add_all Option.bind
add_all-append [] n ev a a1 a2 h g =
    let same : a1 ≡ a = cc in
    ap (λ o. Option.bind o (λ b. add_all b [])) (subst (λ b. add b ev ≡ some a2) same g)
add_all-append ((m, e) ∷ es) n ev a a1 a2 h g =
    split (add a e) (λ b h'. add_all-append es n ev b a1 a2 h' g) h
  where
    split :
        (o : Option Accumulator)
        → ((b : Accumulator)
            → add_all b (events_of es) ≡ some a1
            → add_all b (events_of (es ++ (n, ev) ∷ [])) ≡ some a2)
        → Option.bind o (λ b. add_all b (events_of es)) ≡ some a1
        → Option.bind o (λ b. add_all b (events_of (es ++ (n, ev) ∷ []))) ≡ some a2
    split none next p = cc
    split (some b) next p = next b p

abbrev pub Folded : Sink → Type 0
Folded s = add_all empty (events_of s.events) ≡ some s.acc
