-- ===== src/Emitter/Ended.antt =====
-- emitter.go: the calls after the terminal event.
use openresponses.Prelude.{◌≡◌, true, Option, none, some}
use openresponses.EventSink.{EventSink, SendError, terminal_event_sent, writer_closed}
use openresponses.Emitter.State.{Emitter}
use openresponses.Emitter.Calls.{Call, open_writer}
use openresponses.Emitter.Lifecycle.Refused

-- After the terminal event: started, and no writer is open.
pub record Finished {S : Type 0} (e : Emitter S) : Type 0 where
  pub ended : e.terminal ≡ true
  pub begun : e.started ≡ true
  pub no_writer : e.open_writer ≡ none

-- The error that a call gets then.
abbrev pub refusal_of : Call → Option SendError
refusal_of Call.starts = none
refusal_of Call.closes = none
refusal_of Call.ends_summary = none
refusal_of (Call.message _ _) = some terminal_event_sent
refusal_of (Call.function_call _ _ _ _) = some terminal_event_sent
refusal_of (Call.reasoning _ _) = some terminal_event_sent
refusal_of (Call.whole _) = some terminal_event_sent
refusal_of (Call.completes _) = some terminal_event_sent
refusal_of (Call.incompletes _ _) = some terminal_event_sent
refusal_of (Call.encrypted_content _) = none
refusal_of (Call.changes_extra _) = none
refusal_of _ = some writer_closed
