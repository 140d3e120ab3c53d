-- ===== src/WebSocket/InStep.antt =====
-- websocket/websocket.go, `session.turn` and `Conn.Turn`: what a client reads of the answer to a
-- turn, where the wire form of a frame loses nothing.
use mathlib.Core.Option
use openresponses.Prelude.{
  ℕ, ◌≡◌, refl, sym, ap, subst, ◌∙◌, Bool, true, false, not, ◌&&◌, Option, none, some, List, [],
  ◌∷◌, inl, inr, ◌⊎◌, length, arith,
}
use openresponses.Response.{ErrorPayload}
use openresponses.Event.{StreamEvent, is_terminal, is_some}
use openresponses.Errors.{err}
use openresponses.Accumulator.State.{Accumulator, empty}
use openresponses.Accumulator.Add.{add, add_all, on_error}
use openresponses.Streamtest.Accepted.{ends_once}
use openresponses.Emitter.Folded.{events_of}
use openresponses.Handler.Frames.{unended, and_left, and_right}
use openresponses.WebSocket.Sink.{ErrorFrame, Exchange}
use openresponses.WebSocket.Conn.{
  Delivered, TurnError, TurnResult, returns, error_in, unless_terminal, unless_error, after_add,
  turn_from, conn_turn,
}

abbrev pub events_received : List (ℕ × StreamEvent) → List Delivered → List Delivered
events_received [] rest = rest
events_received ((_, ev) ∷ es) rest = Delivered.event 0 ev ∷ events_received es rest

abbrev pub error_received : ErrorFrame → Delivered
error_received f = Delivered.event f.status (StreamEvent.error_event f.error)

abbrev pub errors_received : List ErrorFrame → List Delivered → List Delivered
errors_received [] rest = rest
errors_received (f ∷ fs) rest = error_received f ∷ errors_received fs rest

-- What the client reads of an answer, and what comes after it.
abbrev pub received : Exchange → List Delivered → List Delivered
received e rest = events_received e.events (errors_received e.errors rest)

-- No event of the adapter is an `error` event.
abbrev pub no_error_event : List (ℕ × StreamEvent) → Bool
no_error_event [] = true
no_error_event ((_, ev) ∷ es) = not (is_some (error_in ev)) && no_error_event es

no_payload : (o : Option ErrorPayload) → not (is_some o) ≡ true → o ≡ none
no_payload none h = refl
no_payload (some p) h = cc

negated : (b : Bool) → not b ≡ true → b ≡ false
negated true h = cc
negated false h = refl

-- One event that is not an error: the turn ends at it or goes on.
turn_from-event :
    (ev : StreamEvent) (rest : List Delivered) (a b : Accumulator) (t : Bool)
    → add a ev ≡ some b
    → not (is_some (error_in ev)) ≡ true
    → is_terminal ev ≡ t
    → turn_from (Delivered.event 0 ev ∷ rest) a ≡ unless_terminal t b rest (turn_from rest b)
unfolding turn_from
turn_from-event ev rest a b t h n e =
    ap (after_add (turn_from rest) 0 ev rest) h
    ∙ ap (λ o. unless_error o 0 (is_terminal ev) b rest (turn_from rest b))
        (no_payload (error_in ev) n)
    ∙ ap (λ z. unless_terminal z b rest (turn_from rest b)) e

some_injective : (a b : Accumulator) → some a ≡ some b → a ≡ b
some_injective a b p = cc

-- The first step of a fold that does not panic.
first_added :
    (o : Option Accumulator) (es : List StreamEvent) (c : Accumulator)
    → Option.bind o (λ b. add_all b es) ≡ some c
    → (b : Accumulator) × (o ≡ some b) × (add_all b es ≡ some c)
unfolding Option.bind
first_added none es c h = cc
first_added (some b) es c h = (b, refl, h)

turn_from-unended :
    (es : List (ℕ × StreamEvent)) (rest : List Delivered) (a c : Accumulator)
    → unended es ≡ true
    → no_error_event es ≡ true
    → add_all a (events_of es) ≡ some c
    → turn_from (events_received es rest) a ≡ turn_from rest c
unfolding add_all
turn_from-unended [] rest a c u n h = ap (λ o. turn_from rest o) (some_injective a c h)
turn_from-unended ((_, ev) ∷ es) rest a c u n h =
    let (b, added, folded) = first_added (add a ev) (events_of es) c h in
    turn_from-event ev (events_received es rest) a b false added (and_left _ (no_error_event es) n)
      (negated (is_terminal ev) (and_left _ (unended es) u))
    ∙ turn_from-unended es rest b c (and_right _ (unended es) u) (and_right _ (no_error_event es) n)
        folded

pub turn_from-ends_once :
    (es : List (ℕ × StreamEvent)) (rest : List Delivered) (a c : Accumulator)
    → ends_once es ≡ true
    → no_error_event es ≡ true
    → add_all a (events_of es) ≡ some c
    → turn_from (events_received es rest) a ≡ returns c none rest
unfolding add_all
turn_from-ends_once [] rest a c u n h = cc
turn_from-ends_once ((_, ev) ∷ []) rest a c u n h =
    let (b, added, folded) = first_added (add a ev) [] c h in
    turn_from-event ev rest a b true added (and_left _ true n) u
    ∙ ap (λ z. returns z none rest) (some_injective b c folded)
turn_from-ends_once ((_, ev) ∷ e ∷ es) rest a c u n h =
    let (b, added, folded) = first_added (add a ev) (events_of (e ∷ es)) c h in
    turn_from-event ev (events_received (e ∷ es) rest) a b false added
      (and_left _ (no_error_event (e ∷ es)) n)
      (negated (is_terminal ev) (and_left _ (ends_once (e ∷ es)) u))
    ∙ turn_from-ends_once (e ∷ es) rest b c (and_right _ (ends_once (e ∷ es)) u)
        (and_right _ (no_error_event (e ∷ es)) n) folded

-- An error frame ends a turn.
pub turn_from-error :
    (f : ErrorFrame) (rest : List Delivered) (a : Accumulator)
    → turn_from (error_received f ∷ rest) a
      ≡ returns (on_error a f.error) (some (TurnError.of_server (err f.error f.status))) rest
unfolding turn_from add openresponses.Event.terminal_response
turn_from-error f rest a = refl

-- A terminal event and no error frame, or an error frame and no terminal event.
abbrev pub Clean : Exchange → Type 0
Clean e =
    ((ends_once e.events ≡ true) × (e.errors ≡ []))
    ⊎ ((unended e.events ≡ true) × (length e.errors ≡ 1))

-- What a turn returns for the answer with this fold of its events, and with these error frames.
abbrev pub result_for : Accumulator → List ErrorFrame → List Delivered → Option TurnResult
result_for a [] later = returns a none later
result_for a (f ∷ fs) later =
    returns (on_error a f.error) (some (TurnError.of_server (err f.error f.status))) later

one_error :
    (fs : List ErrorFrame) (later : List Delivered) (a : Accumulator)
    → length fs ≡ 1
    → turn_from (errors_received fs later) a ≡ result_for a fs later
one_error [] later a h = absurd (omega (arith, h))
one_error (f ∷ []) later a h = turn_from-error f later a
one_error (f ∷ g ∷ fs) later a h = absurd (omega (arith, h))

-- The client's Turn reads exactly the answer to it, whatever comes later, if that has a terminal
-- event and no error frame, or an error frame and no terminal event, if no event is an error event,
-- and if the fold of the events does not panic: it returns the response of the fold, and the error
-- of the error frame, if there is one.
pub turn-received :
    (e : Exchange) (later : List Delivered) (a : Accumulator)
    → Clean e
    → no_error_event e.events ≡ true
    → add_all empty (events_of e.events) ≡ some a
    → conn_turn (received e later) ≡ result_for a e.errors later
turn-received e later a (inl (t, none_left)) n h =
    turn_from-ends_once e.events (errors_received e.errors later) empty a t n h
    ∙ subst (λ fs. returns a none (errors_received fs later) ≡ result_for a fs later)
        (sym none_left) refl
turn-received e later a (inr (u, one)) n h =
    turn_from-unended e.events (errors_received e.errors later) empty a u n h
    ∙ one_error e.errors later a one
