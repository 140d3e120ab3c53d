-- ===== src/Handler/Finished.antt =====
-- handler.go, `sseSink.Send` and `sseSink.finish`: how an HTTP stream ends.
use openresponses.Prelude.{
  ℕ, suc, String, ◌≡◌, refl, sym, ap, subst, ◌∙◌, Bool, true, false, Option, none, some, List, [],
  ◌∷◌, length, length-append, arith, inl, inr, Bool-cases,
}
use openresponses.Response.{Response, ErrorPayload, complete_response, fail_response}
use openresponses.Event.{StreamEvent, is_terminal, terminal_response}
use openresponses.Accumulator.State.{Accumulator}
use openresponses.Accumulator.Add.{add}
use openresponses.Accumulator.Panics.{has_indexes, add-Total}
use openresponses.Store.Continuation.{stamp_previous_id}
use openresponses.Handler.SseSink.{
  SseSink, new_sse_sink, write_frame, end_with, fold_event, encode_event, write_locked, send_open,
  send, send_all, end_stream, finish_open, finish, current_response,
}
use openresponses.Handler.Frames.{
  and_left, and_right, numbered-append, ends_once-append, unended-append, stamp-is_terminal,
  stamp-has_indexes,
}
use openresponses.Handler.Running.{Running, Over, State, indexed, new-State}

module _ (encodes : StreamEvent → Bool) (takes_write : List (ℕ × StreamEvent) → Bool)
    (encoded : (ev : StreamEvent) → encodes ev ≡ true)
    (taken : (es : List (ℕ × StreamEvent)) → takes_write es ≡ true) where
  -- The state after an event was written.
  unfoldable pub after_write : SseSink → StreamEvent → Accumulator → Bool → SseSink
  after_write s ev a t =
      (write_frame encodes takes_write true
        (end_with encodes takes_write t (record s { seq = suc s.seq; acc = a })) s.seq ev).0

  pub write-after :
      (s : SseSink) (ev : StreamEvent)
      → has_indexes ev ≡ true
      → (a : Accumulator) × (add s.acc (stamp_previous_id ev s.previous_id) ≡ some a)
        × ((write_locked encodes takes_write s ev).0
            ≡ after_write s
                (stamp_previous_id ev s.previous_id)
                a
                (is_terminal (stamp_previous_id ev s.previous_id)))
  unfolding write_locked after_write
  write-after s ev h =
      let stamped = stamp_previous_id ev s.previous_id in
      let s1 = record s { seq = suc s.seq } in
      let (a, added) = add-Total s.acc stamped (stamp-has_indexes ev s.previous_id ∙ h) in
      (
        a,
        added,
        ap (λ r. r.0)
            (ap (λ b. encode_event encodes takes_write b s1 s.seq stamped) (encoded stamped)
              ∙ ap (fold_event encodes takes_write s1 s.seq stamped) added
              ∙ ap
                  (λ b.
                    write_frame encodes takes_write b
                      (end_with encodes takes_write (is_terminal stamped) (record s1 { acc = a }))
                      s.seq stamped)
                  (taken s.written)),
      )

  after-Running :
      (s : SseSink) (ev : StreamEvent) (a : Accumulator)
      → Running s
      → is_terminal ev ≡ false
      → Running (after_write s ev a false)
  unfolding after_write
  after-Running s ev a r t = record {
    sound = r.sound;
    goes_on = r.goes_on;
    counted = numbered-append s.written 0 s.seq ev r.counted (omega (arith, r.next));
    next = length-append s.written ((s.seq, ev) ∷ []) ∙ omega (arith, r.next);
    no_end = unended-append s.written s.seq ev r.no_end t;
    no_final = r.no_final;
  }

  after-Over :
      (s : SseSink) (ev : StreamEvent) (a : Accumulator)
      → Running s
      → is_terminal ev ≡ true
      → Over (after_write s ev a true)
  unfolding after_write
  after-Over s ev a r t = record {
    sound = r.sound;
    ended = refl;
    counted = numbered-append s.written 0 s.seq ev r.counted (omega (arith, r.next));
    one_end = ends_once-append s.written s.seq ev r.no_end t;
    one_final = length-append s.finals _ ∙ omega (arith, ap length r.no_final);
  }

  pub write-Running :
      (s : SseSink) (ev : StreamEvent)
      → Running s
      → has_indexes ev ≡ true
      → is_terminal ev ≡ false
      → Running (write_locked encodes takes_write s ev).0
  write-Running s ev r h t =
      let (a, added, same) = write-after s ev h in
      let t' : is_terminal (stamp_previous_id ev s.previous_id) ≡ false =
        stamp-is_terminal ev s.previous_id ∙ t in
      subst Running (sym (same ∙ ap (after_write s (stamp_previous_id ev s.previous_id) a) t'))
        (after-Running s _ a r t')

  write-Over :
      (s : SseSink) (ev : StreamEvent)
      → Running s
      → has_indexes ev ≡ true
      → is_terminal ev ≡ true
      → Over (write_locked encodes takes_write s ev).0
  write-Over s ev r h t =
      let (a, added, same) = write-after s ev h in
      let t' : is_terminal (stamp_previous_id ev s.previous_id) ≡ true =
        stamp-is_terminal ev s.previous_id ∙ t in
      subst Over (sym (same ∙ ap (after_write s (stamp_previous_id ev s.previous_id) a) t'))
        (after-Over s _ a r t')

  pub send-State :
      (s : SseSink) (ev : StreamEvent)
      → State s
      → has_indexes ev ≡ true
      → State (send encodes takes_write s ev).0
  unfolding send
  send-State s ev (inl r) h =
      subst (λ o. State (send_open encodes takes_write o s.terminal s ev).0) (sym r.sound)
        (subst (λ b. State (send_open encodes takes_write none b s ev).0) (sym r.goes_on)
          (elim (Bool-cases (is_terminal ev)) [
            | inl t ↦ inr (write-Over s ev r h t)
            | inr t ↦ inl (write-Running s ev r h t)
          ]))
  send-State s ev (inr o) h =
      subst (λ f. State (send_open encodes takes_write f s.terminal s ev).0) (sym o.sound)
        (subst (λ b. State (send_open encodes takes_write none b s ev).0) (sym o.ended) (inr o))

  pub send_all-State :
      (evs : List StreamEvent) (s : SseSink)
      → State s
      → indexed evs ≡ true
      → State (send_all encodes takes_write s evs)
  unfolding send_all
  send_all-State [] s h i = h
  send_all-State (ev ∷ evs) s h i =
      send_all-State evs _ (send-State s ev h (and_left (has_indexes ev) _ i))
        (and_right (has_indexes ev) _ i)

  end-Over :
      (now : ℕ) (fresh : Response) (e : Option ErrorPayload) (s : SseSink)
      → State s
      → Over (end_stream encodes takes_write now fresh e s.terminal s)
  unfolding terminal_response
  end-Over now fresh e s (inr o) =
      subst (λ b. Over (end_stream encodes takes_write now fresh e b s)) (sym o.ended) o
  end-Over now fresh none s (inl r) =
      subst (λ b. Over (end_stream encodes takes_write now fresh none b s)) (sym r.goes_on)
        (write-Over s
          (StreamEvent.response_completed (some (complete_response now (current_response fresh s))))
          r refl refl)
  end-Over now fresh (some payload) s (inl r) =
      subst (λ b. Over (end_stream encodes takes_write now fresh (some payload) b s))
        (sym r.goes_on)
        (write-Over _ (failing s payload)
          (write-Running s (StreamEvent.error_event payload) r refl refl) refl refl)
    where
      failing : SseSink → ErrorPayload → StreamEvent
      failing t p =
          let t1 = (write_locked encodes takes_write t (StreamEvent.error_event p)).0 in
          StreamEvent.response_failed (some (fail_response p (current_response fresh t1)))

  -- Whatever an adapter sends, and whether it ends with an error or not: once the handler has
  -- finished the stream, the events written count from zero, the last and only the last is a
  -- terminal one, the final response was handed on once to be saved, and the closing sentinel was
  -- written. The events can be encoded and written, and have no index that makes `Add` panic.
  pub finish-Over :
      (id : String) (evs : List StreamEvent) (now : ℕ) (fresh : Response) (e : Option ErrorPayload)
      → indexed evs ≡ true
      → Over (
          finish encodes takes_write now fresh e
            (send_all encodes takes_write (new_sse_sink id) evs))
        × ((finish encodes takes_write now fresh e
              (send_all encodes takes_write (new_sse_sink id) evs)).done
            ≡ true)
  unfolding finish
  finish-Over id evs now fresh e i =
      let s = send_all encodes takes_write (new_sse_sink id) evs in
      let h = send_all-State evs (new_sse_sink id) (new-State id) i in
      let o = end-Over now fresh e s h in
      subst
        (λ f.
          Over (finish_open encodes takes_write f now fresh e s)
          × ((finish_open encodes takes_write f now fresh e s).done ≡ true))
        (sym (sound_of s h))
        (
          record {
            sound = o.sound;
            ended = o.ended;
            counted = o.counted;
            one_end = o.one_end;
            one_final = o.one_final;
          },
          taken _,
        )
    where
      sound_of : (s : SseSink) → State s → s.failed ≡ none
      sound_of s (inl r) = r.sound
      sound_of s (inr o) = o.sound
