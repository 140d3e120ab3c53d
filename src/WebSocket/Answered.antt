-- ===== src/WebSocket/Answered.antt =====
-- websocket/websocket.go: what a session wrote in answer to a message.
use openresponses.Prelude.{
  ◌≡◌, sym, ap, subst, ◌≤◌, Bool, true, false, List, [], ◌∷◌, ◌++◌, length, arith, inl, inr, ◌⊎◌,
}
use openresponses.Streamtest.Accepted.{numbered}
use openresponses.WebSocket.Sink.{ErrorFrame, Exchange}
use openresponses.WebSocket.Written.{ends_as}

-- Events counted from zero: with a terminal one at the end and at most one error frame behind it, or
-- without a terminal one and with one error frame.
pub record Answered (e : Exchange) : Type 0 where
  pub counted : numbered 0 e.events ≡ true
  pub ended :
      ((ends_as true e.events ≡ true) × (length e.errors ≤ 1))
      ⊎ ((ends_as false e.events ≡ true) × (length e.errors ≡ 1))

abbrev pub AllAnswered : List Exchange → Type 0
AllAnswered [] = Unit
AllAnswered (e ∷ es) = Answered e × AllAnswered es

-- Events alone.
pub record Wrote (t : Bool) (e : Exchange) : Type 0 where
  pub counted : numbered 0 e.events ≡ true
  pub ending : ends_as t e.events ≡ true
  pub no_error : e.errors ≡ []

pub with_error :
    (t : Bool) (e : Exchange) (f : ErrorFrame)
    → Wrote t e
    → Answered (record e { errors = e.errors ++ f ∷ [] })
with_error true e f w = record {
  counted = w.counted;
  ended = inl (w.ending, subst (λ es. length (es ++ f ∷ []) ≤ 1) (sym w.no_error) (omega arith));
}
with_error false e f w = record {
  counted = w.counted;
  ended = inr (w.ending, ap (λ es. length (es ++ f ∷ [])) w.no_error);
}

pub without_error : (e : Exchange) → Wrote true e → Answered e
without_error e w = record {
  counted = w.counted;
  ended = inl (w.ending, subst (λ es. length es ≤ 1) (sym w.no_error) (omega arith));
}
