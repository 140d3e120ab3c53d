-- ===== src/Handler/Running.antt =====
-- handler.go, `sseSink`: the states of a stream, before and after its end.
use openresponses.Prelude.{
  ◌≡◌, refl, String, inl, Bool, true, false, ◌&&◌, none, List, [], ◌∷◌, length, ◌⊎◌,
}
use openresponses.Event.{StreamEvent}
use openresponses.Accumulator.Panics.{has_indexes}
use openresponses.Streamtest.Accepted.{numbered, ends_once}
use openresponses.Handler.SseSink.{SseSink, new_sse_sink}
use openresponses.Handler.Frames.{unended}

-- A stream that goes on, and one that is over.
pub record Running (s : SseSink) : Type 0 where
  pub sound : s.failed ≡ none
  pub goes_on : s.terminal ≡ false
  pub counted : numbered 0 s.written ≡ true
  pub next : length s.written ≡ s.seq
  pub no_end : unended s.written ≡ true
  pub no_final : s.finals ≡ []

pub record Over (s : SseSink) : Type 0 where
  pub sound : s.failed ≡ none
  pub ended : s.terminal ≡ true
  pub counted : numbered 0 s.written ≡ true
  pub one_end : ends_once s.written ≡ true
  pub one_final : length s.finals ≡ 1

abbrev pub State : SseSink → Type 0
State s = Running s ⊎ Over s

abbrev pub indexed : List StreamEvent → Bool
indexed [] = true
indexed (ev ∷ evs) = has_indexes ev && indexed evs

pub new-State : (id : String) → State (new_sse_sink id)
new-State id = inl (record {
  sound = refl;
  goes_on = refl;
  counted = refl;
  next = refl;
  no_end = refl;
  no_final = refl;
})
