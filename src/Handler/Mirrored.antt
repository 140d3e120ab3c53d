-- ===== src/Handler/Mirrored.antt =====
-- handler.go, `sseSink`: the accumulator of the sink, against the events that it wrote, and what it
-- hands on to be saved.
use openresponses.Prelude.{
  ℕ, String, ◌≡◌, refl, sym, ap, subst, ◌∙◌, Bool, true, false, Option, none, some, List, [], ◌∷◌,
  ◌++◌, inl, inr,
}
use openresponses.Response.{Response, ErrorPayload}
use openresponses.Event.{StreamEvent, is_terminal}
use openresponses.EventSink.{SendError}
use openresponses.Accumulator.State.{Accumulator, empty, response}
use openresponses.Accumulator.Add.{add, add_all}
use openresponses.Accumulator.Panics.{has_indexes}
use openresponses.Emitter.Folded.{events_of, add_all-append}
use openresponses.Handler.SseSink.{
  SseSink, new_sse_sink, write_locked, send_open, send, send_all, end_stream, finish_open, finish,
}
use openresponses.Handler.Frames.{and_left, and_right}
use openresponses.Handler.Running.{Running, State, indexed, new-State}
use openresponses.Handler.Finished.{
  after_write, write-after, write-Running, send-State, send_all-State,
}

abbrev pub finals_of : Bool → Option Response → List (Option Response)
finals_of true r = r ∷ []
finals_of false r = []

-- The accumulator is the fold of the events written, and its response was handed on if it is final.
pub record Mirrored (s : SseSink) : Type 0 where
  pub folded : add_all empty (events_of s.written) ≡ some s.acc
  pub final : s.finals ≡ finals_of s.terminal (response s.acc)

module _ (encodes : StreamEvent → Bool) (takes_write : List (ℕ × StreamEvent) → Bool)
    (encoded : (ev : StreamEvent) → encodes ev ≡ true)
    (taken : (es : List (ℕ × StreamEvent)) → takes_write es ≡ true) where
  after-Mirrored :
      (s : SseSink) (ev : StreamEvent) (a : Accumulator) (t : Bool)
      → Running s
      → Mirrored s
      → add s.acc ev ≡ some a
      → Mirrored (after_write encodes takes_write encoded taken s ev a t)
  unfolding after_write
  after-Mirrored s ev a true r m h = record {
    folded = add_all-append s.written s.seq ev empty s.acc a m.folded h;
    final = ap (λ fs. fs ++ response a ∷ []) r.no_final;
  }
  after-Mirrored s ev a false r m h = record {
    folded = add_all-append s.written s.seq ev empty s.acc a m.folded h;
    final = r.no_final ∙ ap (λ b. finals_of b (response a)) (sym r.goes_on);
  }

  write-Mirrored :
      (s : SseSink) (ev : StreamEvent)
      → Running s
      → Mirrored s
      → has_indexes ev ≡ true
      → Mirrored (write_locked encodes takes_write s ev).0
  write-Mirrored s ev r m h =
      let (a, added, same) = write-after encodes takes_write encoded taken s ev h in
      subst Mirrored (sym same) (after-Mirrored s _ a _ r m added)

  send-Mirrored :
      (s : SseSink) (ev : StreamEvent)
      → State s
      → Mirrored s
      → has_indexes ev ≡ true
      → Mirrored (send encodes takes_write s ev).0
  unfolding send
  send-Mirrored s ev (inl r) m h =
      subst (λ o. Mirrored (send_open encodes takes_write o s.terminal s ev).0) (sym r.sound)
        (subst (λ b. Mirrored (send_open encodes takes_write none b s ev).0) (sym r.goes_on)
          (write-Mirrored s ev r m h))
  send-Mirrored s ev (inr o) m h =
      subst (λ f. Mirrored (send_open encodes takes_write f s.terminal s ev).0) (sym o.sound)
        (subst (λ b. Mirrored (send_open encodes takes_write none b s ev).0) (sym o.ended) m)

  send_all-Mirrored :
      (evs : List StreamEvent) (s : SseSink)
      → State s
      → Mirrored s
      → indexed evs ≡ true
      → Mirrored (send_all encodes takes_write s evs)
  unfolding send_all
  send_all-Mirrored [] s h m i = m
  send_all-Mirrored (ev ∷ evs) s h m i =
      let first = and_left (has_indexes ev) (indexed evs) i in
      send_all-Mirrored evs _ (send-State encodes takes_write encoded taken s ev h first)
        (send-Mirrored s ev h m first) (and_right (has_indexes ev) (indexed evs) i)

  end-Mirrored :
      (now : ℕ) (fresh : Response) (e : Option ErrorPayload) (s : SseSink)
      → State s
      → Mirrored s
      → Mirrored (end_stream encodes takes_write now fresh e s.terminal s)
  unfolding openresponses.Event.terminal_response
  end-Mirrored now fresh e s (inr o) m =
      subst (λ b. Mirrored (end_stream encodes takes_write now fresh e b s)) (sym o.ended) m
  end-Mirrored now fresh none s (inl r) m =
      subst (λ b. Mirrored (end_stream encodes takes_write now fresh none b s)) (sym r.goes_on)
        (write-Mirrored s _ r m refl)
  end-Mirrored now fresh (some payload) s (inl r) m =
      subst (λ b. Mirrored (end_stream encodes takes_write now fresh (some payload) b s))
        (sym r.goes_on)
        (write-Mirrored _ _
          (write-Running encodes takes_write encoded taken s (StreamEvent.error_event payload) r
            refl refl)
          (write-Mirrored s (StreamEvent.error_event payload) r m refl) refl)

  finish_open-Mirrored :
      (now : ℕ) (fresh : Response) (e : Option ErrorPayload) (s : SseSink) (o : Option SendError)
      → Mirrored s
      → Mirrored (end_stream encodes takes_write now fresh e s.terminal s)
      → Mirrored (finish_open encodes takes_write o now fresh e s)
  finish_open-Mirrored now fresh e s (some err) m h = m
  finish_open-Mirrored now fresh e s none m h = record { folded = h.folded; final = h.final }

  pub finish-Mirrored :
      (id : String) (evs : List StreamEvent) (now : ℕ) (fresh : Response) (e : Option ErrorPayload)
      → indexed evs ≡ true
      → Mirrored (
          finish encodes takes_write now fresh e
            (send_all encodes takes_write (new_sse_sink id) evs))
  unfolding finish add_all
  finish-Mirrored id evs now fresh e i =
      let s = send_all encodes takes_write (new_sse_sink id) evs in
      let m =
        send_all-Mirrored evs (new_sse_sink id) (new-State id)
          (record { folded = refl; final = refl }) i in
      finish_open-Mirrored now fresh e s s.failed m (
        end-Mirrored now fresh e s
          (send_all-State encodes takes_write encoded taken evs (new_sse_sink id) (new-State id) i)
          m)
