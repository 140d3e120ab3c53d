-- ===== src/EventSink.antt =====
-- handler.go, `EventSink`: where an adapter sends its events; and the errors that a sender sees. A
-- method that mutates its receiver is an action on the receiver's state that may fail: what was
-- written before a failure stays written.
use openresponses.Prelude.{String, Bool, true, false, Option, none, some}
use openresponses.Event.{StreamEvent}

-- `ErrTerminalEventSent`, `errWriterClosed`, the error of `ReasoningWriter.Text` after its end, any
-- other error of a sink, and a panic below `Send`.
pub data SendError : Type 0 where
  terminal_event_sent writer_closed reasoning_finished panicked : SendError
  sink_error : String → SendError

pub record EventSink (S : Type 0) : Type 0 where
  pub send : S → StreamEvent → S × Option SendError

abbrev pub Act {ℓ} : Type ℓ → Type ℓ
Act X = X → X × Option SendError

module _ {ℓ} {X : Type ℓ} where
  abbrev pub continue : X → Option SendError → Act X → X × Option SendError
  continue x none k = k x
  continue x (some e) k = (x, some e)

  infixr 5 ◌>>◌
  -- `if err := m(); err != nil { return err }; k()`.
  abbrev pub ◌>>◌ : Act X → Act X → Act X
  ◌>>◌ m k x = continue (m x).0 (m x).1 k

  abbrev pub skip : Act X
  skip x = (x, none)

  abbrev pub fail : SendError → Act X
  fail e x = (x, some e)

  abbrev pub change : (X → X) → Act X
  change f x = (f x, none)

  -- A guard: `if bad { return e }`.
  abbrev pub fail_if : Bool → SendError → Act X
  fail_if true e = fail e
  fail_if false e = skip
