-- ===== src/WebSocket/Written.antt =====
-- websocket/websocket.go, `sink.Send`: what a turn wrote, before and after its terminal event.
use openresponses.Prelude.{
  ℕ, suc, ◌≡◌, refl, sym, ap, subst, ◌∙◌, Bool, true, false, ◌||◌, none, List, [], ◌∷◌, ◌++◌,
  length, length-append, arith,
}
use openresponses.Event.{StreamEvent, is_terminal}
use openresponses.Accumulator.State.{Accumulator}
use openresponses.Accumulator.Panics.{has_indexes, add-Total}
use openresponses.Streamtest.Accepted.{numbered, ends_once}
use openresponses.Store.Continuation.{stamp_previous_id}
use openresponses.Handler.Frames.{
  unended, and_left, and_right, numbered-append, ends_once-append, unended-append,
  stamp-is_terminal, stamp-has_indexes,
}
use openresponses.Handler.Running.{indexed}
use openresponses.WebSocket.Sink.{
  Exchange, TurnSink, fold_event, write_frame, encode_event, send_stamped, send_open, send,
  send_all,
}

-- The last event, and only the last, is a terminal one; or there is none.
abbrev pub ends_as : Bool → List (ℕ × StreamEvent) → Bool
ends_as true es = ends_once es
ends_as false es = unended es

ends_as-append :
    (t : Bool) (es : List (ℕ × StreamEvent)) (n : ℕ) (ev : StreamEvent)
    → unended es ≡ true
    → is_terminal ev ≡ t
    → ends_as t (es ++ (n, ev) ∷ []) ≡ true
ends_as-append true es n ev u h = ends_once-append es n ev u h
ends_as-append false es n ev u h = unended-append es n ev u h

-- Whether the terminal event was sent.
pub record Sent (t : Bool) (s : TurnSink) : Type 0 where
  pub sound : s.failed ≡ none
  pub same : s.terminal ≡ t
  pub counted : numbered 0 s.written ≡ true
  pub next : length s.written ≡ s.seq
  pub ending : ends_as t s.written ≡ true

module _ (encodes : StreamEvent → Bool) (takes_write : Exchange → Bool)
    (encoded : (ev : StreamEvent) → encodes ev ≡ true)
    (taken : (e : Exchange) → takes_write e ≡ true) where
  abbrev after_write : TurnSink → StreamEvent → Accumulator → TurnSink
  after_write s ev a = record s {
    seq = suc s.seq;
    acc = a;
    terminal = s.terminal || is_terminal ev;
    written = s.written ++ (s.seq, ev) ∷ [];
  }

  write-after :
      (s : TurnSink) (ev : StreamEvent)
      → has_indexes ev ≡ true
      → (a : Accumulator) × (send_stamped encodes takes_write s ev ≡ (after_write s ev a, none))
  write-after s ev h =
      let s1 = record s { seq = suc s.seq } in
      let (a, added) = add-Total s.acc ev h in
      (
        a,
        ap (λ b. encode_event encodes takes_write b s1 s.seq ev) (encoded ev)
            ∙ ap (λ b. write_frame encodes takes_write b s1 s.seq ev) (taken _)
            ∙ ap
                (fold_event encodes takes_write
                  (record s1 { written = s.written ++ (s.seq, ev) ∷ [] }) ev)
                added,
      )

  after-Sent :
      (s : TurnSink) (ev : StreamEvent) (a : Accumulator) (t : Bool)
      → Sent false s
      → is_terminal ev ≡ t
      → Sent t (after_write s ev a)
  after-Sent s ev a t r h = record {
    sound = r.sound;
    same = ap (λ b. b || is_terminal ev) r.same ∙ h;
    counted = numbered-append s.written 0 s.seq ev r.counted (omega (arith, r.next));
    next = length-append s.written ((s.seq, ev) ∷ []) ∙ omega (arith, r.next);
    ending = ends_as-append t s.written s.seq ev r.ending h;
  }

  -- A send before the terminal event.
  pub send-Sent :
      (s : TurnSink) (ev : StreamEvent) (t : Bool)
      → Sent false s
      → has_indexes ev ≡ true
      → is_terminal ev ≡ t
      → ((send encodes takes_write s ev).1 ≡ none) × Sent t (send encodes takes_write s ev).0
  unfolding send
  send-Sent s ev t r h e =
      let stamped = stamp_previous_id ev s.previous_id in
      let (a, same) = write-after s stamped (stamp-has_indexes ev s.previous_id ∙ h) in
      subst (λ r. (r.1 ≡ none) × Sent t r.0)
        (sym (
          ap (λ o. send_open encodes takes_write o s.terminal s ev) r.sound
          ∙ ap (λ b. send_open encodes takes_write none b s ev) r.same
          ∙ same))
        (refl, after-Sent s stamped a t r (stamp-is_terminal ev s.previous_id ∙ e))

  send-ended :
      (s : TurnSink) (ev : StreamEvent) → Sent true s → Sent true (send encodes takes_write s ev).0
  unfolding send
  send-ended s ev r =
      subst (λ x. Sent true x.0)
        (sym (
          ap (λ o. send_open encodes takes_write o s.terminal s ev) r.sound
          ∙ ap (λ b. send_open encodes takes_write none b s ev) r.same))
        r

  pub send_all-Sent :
      (evs : List StreamEvent) (s : TurnSink) (t : Bool)
      → Sent t s
      → indexed evs ≡ true
      → (u : Bool) × Sent u (send_all encodes takes_write s evs)
  unfolding send_all
  send_all-Sent [] s t h i = (t, h)
  send_all-Sent (ev ∷ evs) s true h i =
      send_all-Sent evs _ true (send-ended s ev h) (and_right (has_indexes ev) _ i)
  send_all-Sent (ev ∷ evs) s false h i =
      send_all-Sent evs _ (is_terminal ev)
        (send-Sent s ev (is_terminal ev) h (and_left (has_indexes ev) _ i) refl).1
        (and_right (has_indexes ev) _ i)
