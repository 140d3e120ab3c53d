-- ===== src/Handler/Frames.antt =====
-- handler.go, `sseSink.writeLocked`: a list of written events, with one more at its end; and what
-- `StampPreviousID` leaves as it was.
use openresponses.Prelude.{
  ℕ, suc, ◌+◌, ◌==◌, String, str_eq, ◌≡◌, refl, if◌then◌else◌, Bool, true, false, not, ◌&&◌, List,
  [], ◌∷◌, ◌++◌, length, arith,
}
use openresponses.Event.{StreamEvent, is_terminal, terminal_response}
use openresponses.Accumulator.Panics.{has_indexes}
use openresponses.Streamtest.Accepted.{numbered, ends_once}
use openresponses.Store.Continuation.{stamp, stamp_previous_id}

-- No terminal event.
abbrev pub unended : List (ℕ × StreamEvent) → Bool
unended [] = true
unended ((_, ev) ∷ es) = not (is_terminal ev) && unended es

and_intro : (a b : Bool) → a ≡ true → b ≡ true → (a && b) ≡ true
and_intro a b h g = ground arith

pub and_left : (a b : Bool) → (a && b) ≡ true → a ≡ true
and_left a b h = ground arith

pub and_right : (a b : Bool) → (a && b) ≡ true → b ≡ true
and_right a b h = ground arith

same_number : (n i : ℕ) → i + 0 ≡ n → (n == i) ≡ true
same_number n i e = ground arith

pub numbered-append :
    (es : List (ℕ × StreamEvent)) (i n : ℕ) (ev : StreamEvent)
    → numbered i es ≡ true
    → i + length es ≡ n
    → numbered i (es ++ (n, ev) ∷ []) ≡ true
numbered-append [] i n ev h e = and_intro (n == i) true (same_number n i e) refl
numbered-append ((m, ev') ∷ es) i n ev h e =
    and_intro (m == i) _ (and_left (m == i) _ h)
      (numbered-append es (suc i) n ev (and_right (m == i) _ h) (omega (arith, e)))

pub ends_once-append :
    (es : List (ℕ × StreamEvent)) (n : ℕ) (ev : StreamEvent)
    → unended es ≡ true
    → is_terminal ev ≡ true
    → ends_once (es ++ (n, ev) ∷ []) ≡ true
ends_once-append [] n ev u t = t
ends_once-append ((m, e) ∷ []) n ev u t = and_intro _ _ (and_left (not (is_terminal e)) true u) t
ends_once-append ((m, e) ∷ e' ∷ es) n ev u t =
    and_intro _ _ (and_left (not (is_terminal e)) _ u)
      (ends_once-append (e' ∷ es) n ev (and_right (not (is_terminal e)) _ u) t)

pub unended-append :
    (es : List (ℕ × StreamEvent)) (n : ℕ) (ev : StreamEvent)
    → unended es ≡ true
    → is_terminal ev ≡ false
    → unended (es ++ (n, ev) ∷ []) ≡ true
unended-append [] n ev u t = rw t refl
unended-append ((m, e) ∷ es) n ev u t =
    and_intro _ _ (and_left (not (is_terminal e)) _ u)
      (unended-append es n ev (and_right (not (is_terminal e)) _ u) t)

pub stamp-is_terminal :
    (ev : StreamEvent) (id : String) → is_terminal (stamp_previous_id ev id) ≡ is_terminal ev
unfolding stamp_previous_id terminal_response
stamp-is_terminal ev id = split (str_eq id "")
  where
    stamped : (e : StreamEvent) → is_terminal (stamp e id) ≡ is_terminal e
    stamped (StreamEvent.response_created r) = refl
    stamped (StreamEvent.response_queued r) = refl
    stamped (StreamEvent.response_in_progress r) = refl
    stamped (StreamEvent.response_completed r) = refl
    stamped (StreamEvent.response_failed r) = refl
    stamped (StreamEvent.response_incomplete r) = refl
    stamped _ = refl

    split : (b : Bool) → is_terminal (if b then ev else stamp ev id) ≡ is_terminal ev
    split true = refl
    split false = stamped ev

pub stamp-has_indexes :
    (ev : StreamEvent) (id : String) → has_indexes (stamp_previous_id ev id) ≡ has_indexes ev
unfolding stamp_previous_id
stamp-has_indexes ev id = split (str_eq id "")
  where
    stamped : (e : StreamEvent) → has_indexes (stamp e id) ≡ has_indexes e
    stamped (StreamEvent.response_created r) = refl
    stamped (StreamEvent.response_queued r) = refl
    stamped (StreamEvent.response_in_progress r) = refl
    stamped (StreamEvent.response_completed r) = refl
    stamped (StreamEvent.response_failed r) = refl
    stamped (StreamEvent.response_incomplete r) = refl
    stamped _ = refl

    split : (b : Bool) → has_indexes (if b then ev else stamp ev id) ≡ has_indexes ev
    split true = refl
    split false = stamped ev
