-- ===== src/Client/Drained.antt =====
-- stream.go, `Next` and `Wait`: a drained stream, against a reading of the payloads without state.
use mathlib.Core.Option
use openresponses.Prelude.{
  suc, String, ◌≡◌, refl, Bool, true, false, ◌||◌, Option, none, some, List, [], ◌∷◌, length,
}
use openresponses.Response.{Response}
use openresponses.Event.{StreamEvent, is_terminal}
use openresponses.Accumulator.State.{Accumulator, empty, response}
use openresponses.Accumulator.Add.{add, add_all}
use openresponses.Client.EventStream.{
  StreamError, Payload, EventStream, new_event_stream, finish, take_event, on_decoded, next, drain,
  continue_with, WaitError, wait_result, wait_error,
}

module _ (decode : String → Option StreamEvent) where
  abbrev pub before_error : Option StreamEvent → List StreamEvent → List StreamEvent
  before_error none rest = []
  before_error (some ev) rest = ev ∷ rest

  -- The events before the sentinel and before the first payload that cannot be decoded.
  abbrev pub seen : List Payload → List StreamEvent
  seen [] = []
  seen (Payload.sentinel ∷ rest) = []
  seen (Payload.event text ∷ rest) = before_error (decode text) (seen rest)

  abbrev pub at_end : Option StreamError → Bool → Option StreamError
  at_end (some e) terminal = some e
  at_end none true = none
  at_end none false = some StreamError.truncated_stream

  abbrev pub after_event :
      Option StreamEvent → (Bool → Option StreamError) → Bool → Option StreamError
  after_event none rest terminal = some StreamError.undecodable
  after_event (some ev) rest terminal = rest (terminal || is_terminal ev)

  -- The error of the stream.
  abbrev pub verdict : List Payload → Option StreamError → Bool → Option StreamError
  verdict [] read_error terminal = at_end read_error terminal
  verdict (Payload.sentinel ∷ rest) read_error terminal = none
  verdict (Payload.event text ∷ rest) read_error terminal =
      after_event (decode text) (verdict rest read_error) terminal

  abbrev pub Summary : Type 0
  Summary = (Accumulator × (Option Response × Option WaitError)) × (Option StreamError × Bool)

  abbrev pub summary : EventStream → Summary
  summary s = ((s.acc, wait_result s), (s.err, s.done))

  abbrev pub ended_with : Option StreamError → Option Accumulator → Option Summary
  ended_with e a = Option.map (λ x. ((x, (response x, wait_error e (response x))), (e, true))) a

  abbrev with_state :
      List Payload → Option StreamError → Accumulator → Option StreamEvent → Bool → EventStream
  with_state payloads read_error acc cur terminal = record (new_event_stream payloads read_error) {
    acc = acc;
    cur = cur;
    terminal = terminal;
  }

  drain-state :
      (payloads : List Payload) (read_error : Option StreamError) (acc : Accumulator)
      (cur : Option StreamEvent) (terminal : Bool)
      → Option.map summary
          (drain decode (suc (length payloads)) (with_state payloads read_error acc cur terminal))
        ≡ ended_with (verdict payloads read_error terminal) (add_all acc (seen payloads))
  unfolding drain next finish add_all wait_result Option.bind
  drain-state [] (some e) acc cur terminal = refl
  drain-state [] none acc cur true = refl
  drain-state [] none acc cur false = refl
  drain-state (Payload.sentinel ∷ rest) read_error acc cur terminal = refl
  drain-state (Payload.event text ∷ rest) read_error acc cur terminal =
      by_decoded (λ b cur terminal. drain-state rest read_error b cur terminal) (decode text)
    where
      by_added :
          (ih : (b : Accumulator) (cur : Option StreamEvent) (terminal : Bool)
            → Option.map summary
                (drain decode (suc (length rest)) (with_state rest read_error b cur terminal))
              ≡ ended_with (verdict rest read_error terminal) (add_all b (seen rest)))
          (ev : StreamEvent) (a : Option Accumulator)
          → Option.map summary (
              continue_with decode
                (drain decode (suc (length rest)))
                (take_event decode (with_state rest read_error acc cur terminal) ev a))
            ≡ ended_with
                (verdict rest read_error (terminal || is_terminal ev))
                (Option.bind a (λ b. add_all b (seen rest)))
      by_added ih ev none = refl
      by_added ih ev (some b) = ih b (some ev) (terminal || is_terminal ev)

      by_decoded :
          (ih : (b : Accumulator) (cur : Option StreamEvent) (terminal : Bool)
            → Option.map summary
                (drain decode (suc (length rest)) (with_state rest read_error b cur terminal))
              ≡ ended_with (verdict rest read_error terminal) (add_all b (seen rest)))
          (d : Option StreamEvent)
          → Option.map summary (
              continue_with decode
                (drain decode (suc (length rest)))
                (on_decoded decode (with_state rest read_error acc cur terminal) d))
            ≡ ended_with
                (after_event d (verdict rest read_error) terminal)
                (add_all acc (before_error d (seen rest)))
      by_decoded ih none = refl
      by_decoded ih (some ev) = by_added ih ev (add acc ev)

  -- A new stream is drained after at most one call of Next more than it has payloads. It is done
  -- then, its accumulator is the fold of the events before the sentinel, the first payload that
  -- cannot be decoded, or the end, and its error is: none at the sentinel; the decoder's at that
  -- payload; at the end that of the reader, and else that the stream is truncated, unless a
  -- terminal event was seen. The results are the response of the accumulator, and that error or
  -- else the response's. Where the fold panics, so does the loop.
  pub drain-verdict :
      (payloads : List Payload) (read_error : Option StreamError)
      → Option.map summary
          (drain decode (suc (length payloads)) (new_event_stream payloads read_error))
        ≡ ended_with (verdict payloads read_error false) (add_all empty (seen payloads))
  drain-verdict payloads read_error = drain-state payloads read_error empty none false
