-- ===== src/Emitter/Growth.antt =====
-- emitter.go on the recording sink of streamtest/streamtest.go: the events recorded before a call.
use openresponses.Prelude.{ℕ, ◌≡◌, List, ◌++◌}
use openresponses.Event.{StreamEvent}
use openresponses.Accumulator.State.{Accumulator}
use openresponses.Streamtest.Sink.{Sink}
use openresponses.Emitter.State.{Emitter}

-- The events of the sink are those of `before`, and some more.
abbrev pub Extends : List (ℕ × StreamEvent) → Sink → Type 0
Extends before s = (more : List (ℕ × StreamEvent)) × (s.events ≡ before ++ more)
