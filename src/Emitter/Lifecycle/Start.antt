-- ===== src/Emitter/Lifecycle/Start.antt =====
-- emitter.go, `Start` and `closeOpen`, against the checker of streamtest/streamtest.go.
use openresponses.Prelude.{
  ℕ, suc, ◌≡◌, refl, sym, subst, Bool, true, false, Option, none, some, List, [], ◌∷◌, ◌++◌, length,
  arith, inl, inr, length-append,
}
use openresponses.Item.{Item, Items, item_type, item_id, item_identity}
use openresponses.Event.{StreamEvent}
use openresponses.EventSink.{EventSink, terminal_event_sent}
use openresponses.Streamtest.Validator.{Validator, ItemState}
use openresponses.Streamtest.Check.{handle}
use openresponses.Streamtest.Checked.{CheckedSink, Succeeds, Succeeds-then, Succeeds-fail_if}
use openresponses.Emitter.Parts.{message_of, reasoning_of}
use openresponses.Emitter.Writer.{
  close_message, close_call, close_reasoning, close_message_unless, close_call_unless,
  close_reasoning_unless,
}
use openresponses.Emitter.State.{Writer, Emitter, current}
use openresponses.Emitter.Calls.{
  start, start_unless, close_open, close_writer, shut, before_item, before_terminal,
}
use openresponses.Emitter.Lifecycle.Done.{ItemDone}
use openresponses.Emitter.Lifecycle.Items.{Matches, Matches-append}
use openresponses.Emitter.Lifecycle.MessageClose.{close_message-Writing}
use openresponses.Emitter.Lifecycle.CallCalls.{close_call-Calling}
use openresponses.Emitter.Lifecycle.ReasoningClose.{close_reasoning-Thinking}
use openresponses.Emitter.Lifecycle.Invariant.{
  Idle, WriterSim, Phase, Inv, Ready, Between, emits_last, emits_then,
}

module _ {S : Type 0} {k : EventSink S} (c : CheckedSink k) where
  start_cases :
      (started : Bool) (e : Emitter S) (v : Validator) (n : ℕ)
      → c.At v n e.sink
      → Phase started false e.open_writer e.resp.output v n
      → e.started ≡ started
      → e.terminal ≡ false
      → Succeeds (Ready c) (start_unless k started e)
  unfolding handle
  start_cases true e v n at h s t = (refl, (v, n, at, h, s, t))
  start_cases false e v n at (z, w, o, h) s t =
      let e1 = record e { started = true } in
      emits_then c (Ready c) (λ e'. StreamEvent.response_created (some (current e'))) e1 v n v at
        h.running h.calm refl (rw z refl) _
        (λ s1 a.
          emits_last c (Ready c) (λ e'. StreamEvent.response_in_progress (some (current e')))
            (record e1 { sink = s1 }) v (suc n) v a h.running h.calm refl refl
            (λ s2 b. (
              v,
              suc (suc n),
              b,
              subst (λ x. WriterSim x e.open_writer v) (sym o)
                  (subst (λ x. WriterSim [] x v) (sym w) h),
              refl,
              t,
            )))

  -- `Start` sends the first two events once.
  pub start-Ready : (e : Emitter S) → Inv c e → e.terminal ≡ false → Succeeds (Ready c) (start k e)
  unfolding start
  start-Ready e (v, n, at, h) t =
      start_cases e.started e v n at
        (subst (λ b. Phase e.started b e.open_writer e.resp.output v n) t h) refl t

  -- The item just done joins the output.
  pub done-Idle :
      (out : Items) (items : List ItemState) (i : Item) (v : Validator) (st : ItemState)
      → Matches out items
      → ItemDone items (suc (length out)) (item_id i) (item_type i) v st
      → Idle (out ++ some i ∷ []) v
  done-Idle out items i v st m d = record {
    running = d.running;
    calm = d.calm;
    strict = d.strict;
    next = omega (arith, d.count_kept, length-append out (some i ∷ []));
    none_open = d.none_open;
    matches = rw d.items_done (Matches-append out items i st m d.typ d.id);
  }

  close_writer-Between :
      (o : Option Writer) (e : Emitter S) (v : Validator) (n : ℕ)
      → c.At v n e.sink
      → WriterSim e.resp.output o v
      → e.open_writer ≡ o
      → e.started ≡ true
      → e.terminal ≡ false
      → Succeeds (Between c) (close_writer k o e)
  unfolding item_type item_identity close_message close_call close_reasoning
  close_writer-Between none e v n at h o s t = (refl, (v, n, at, h, o, s, t))
  close_writer-Between (some (Writer.message w)) e v n at (inl (items, st, m, (h, cl))) o s t =
      let r =
        close_message-Writing c items (suc (length e.resp.output)) w e.sink (v, n, st, at, h) cl in
      let (v', n', st', at', d, cl') = r.1 in
      (r.0, (v', n', at', done-Idle e.resp.output items _ v' st' m d, refl, s, t))
  close_writer-Between (some (Writer.call w)) e v n at (inl (items, st, m, (h, cl))) o s t =
      let r =
        close_call-Calling c items (suc (length e.resp.output)) w e.sink (v, n, st, at, h) cl in
      let (v', n', st', at', d, cl') = r.1 in
      (r.0, (v', n', at', done-Idle e.resp.output items _ v' st' m d, refl, s, t))
  close_writer-Between (some (Writer.reasoning w)) e v n at (inl (items, st, m, (h, cl, td))) o s
        t =
      let r =
        close_reasoning-Thinking c items (suc (length e.resp.output)) w e.sink (v, n, st, at, h)
          cl in
      let (v', n', st', at', d, cl', ns') = r.1 in
      (r.0, (v', n', at', done-Idle e.resp.output items _ v' st' m d, refl, s, t))
  close_writer-Between (some (Writer.message w)) e v n at (inr (h, cl, ns)) o s t =
      subst
        (λ b.
          let r = close_message_unless k b (w, e.sink) in
          Succeeds (Between c) (shut k e (some (Item.message (message_of r.0.0)) ∷ []) r.0.1 r.1))
        (sym cl) (refl, (v, n, at, h, refl, s, t))
  close_writer-Between (some (Writer.call w)) e v n at (inr (h, cl, ns)) o s t =
      subst
        (λ b.
          let r = close_call_unless k b (w, e.sink) in
          Succeeds (Between c) (shut k e (some (Item.function_call r.0.0.call) ∷ []) r.0.1 r.1))
        (sym cl) (refl, (v, n, at, h, refl, s, t))
  close_writer-Between (some (Writer.reasoning w)) e v n at (inr (h, cl, ns)) o s t =
      subst
        (λ b.
          let r = close_reasoning_unless k b (w, e.sink) in
          Succeeds (Between c)
            (shut k e (some (Item.reasoning (reasoning_of r.0.0)) ∷ []) r.0.1 r.1))
        (sym cl) (refl, (v, n, at, h, refl, s, t))

  -- `closeOpen` leaves every item done.
  pub close_open-Between : (e : Emitter S) → Ready c e → Succeeds (Between c) (close_open k e)
  unfolding close_open
  close_open-Between e (v, n, at, h, s, t) = close_writer-Between e.open_writer e v n at h refl s t

  -- `Start`, then `closeOpen`, behind the check for a terminal event.
  pub before_item-Between :
      (e : Emitter S) → Inv c e → e.terminal ≡ false → Succeeds (Between c) (before_item k e)
  unfolding before_item
  before_item-Between e i t = Succeeds-fail_if (Between c) e.terminal terminal_event_sent _ e t (
      Succeeds-then (Ready c) (Between c) (start k) (close_open k) e (start-Ready e i t)
        close_open-Between)

  pub before_terminal-Between :
      (e : Emitter S) → Inv c e → e.terminal ≡ false → Succeeds (Between c) (before_terminal k e)
  unfolding before_terminal
  before_terminal-Between e i t =
      Succeeds-fail_if (Between c) e.terminal terminal_event_sent _ e t (
        Succeeds-then (Ready c) (Between c) (start k) (close_open k) e (start-Ready e i t)
          close_open-Between)
