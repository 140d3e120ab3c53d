-- ===== src/Emitter/Lifecycle/End.antt =====
-- emitter.go, `Complete` and `Incomplete`, against the checker of streamtest/streamtest.go.
use openresponses.Prelude.{
  ℕ, suc, String, ◌≡◌, refl, sym, subst, ap, Bool, true, false, Option, none, some, ◌++◌, arith,
  append-nil, inl, inr,
}
use openresponses.Item.{Items}
use openresponses.Response.{Response, ResponseStatus, complete_response, incomplete_response}
use openresponses.Event.{StreamEvent}
use openresponses.EventSink.{EventSink, ◌>>◌}
use openresponses.Streamtest.Validator.{Validator, ok}
use openresponses.Streamtest.Step.{finish, same_status}
use openresponses.Streamtest.Check.{handle}
use openresponses.Streamtest.Checked.{CheckedSink, Succeeds, Succeeds-then}
use openresponses.Emitter.State.{
  Writer, Emitter, current, open_items, mark_incomplete, mark_message, mark_call, mark_reasoning,
}
use openresponses.Emitter.Calls.{complete, incomplete, before_terminal, edits, emits}
use openresponses.Emitter.Lifecycle.Items.{length-Matches, match_output-Matches}
use openresponses.Emitter.Lifecycle.Start.{before_terminal-Between}
use openresponses.Emitter.Lifecycle.Invariant.{Idle, WriterSim, Phase, Inv, Between, emits_last}

finish-Idle :
    (v : Validator) (r : Response) (t : ResponseStatus)
    → Idle r.output v
    → r.status ≡ t
    → same_status t t ≡ true
    → finish v (some r) t ≡ ok (record v { terminal = true })
unfolding finish
finish-Idle v r t h e s = ground (
  arith,
  length-Matches r.output v.items h.matches,
  match_output-Matches r.output v.items h.matches,
)

module _ {S : Type 0} {k : EventSink S} (c : CheckedSink k) where
  -- The terminal event was accepted.
  abbrev pub Ended : Emitter S → Type 0
  Ended e =
      (v : Validator) × (n : ℕ) × c.At v n e.sink
      × (v.terminal ≡ true)
      × (e.open_writer ≡ none)
      × (e.started ≡ true)
      × (e.terminal ≡ true)

  current-Idle :
      (e : Emitter S) (v : Validator)
      → Idle e.resp.output v
      → e.open_writer ≡ none
      → Idle (current e).output v
  current-Idle e v h w =
      subst (λ o. Idle (e.resp.output ++ open_items o) v) (sym w)
        (subst (λ out. Idle out v) (sym (append-nil e.resp.output)) h)

  complete-Between :
      (now : ℕ) (e : Emitter S)
      → Between c e
      → Succeeds Ended (
          (edits k (λ e'. record e' { resp = complete_response now e'.resp; terminal = true })
              >> emits k (λ e'. StreamEvent.response_completed (some (current e'))))
            e)
  unfolding handle complete_response
  complete-Between now e (v, n, at, h, w, s, t) =
      let e1 = record e { resp = complete_response now e.resp; terminal = true } in
      emits_last c Ended (λ e'. StreamEvent.response_completed (some (current e'))) e1 v n _ at
        h.running h.calm refl
        (finish-Idle v (current e1) ResponseStatus.completed (current-Idle e v h w) refl refl)
        (λ s' a. (_, suc n, a, refl, w, s, refl))

  pub complete-Ended :
      (now : ℕ) (e : Emitter S) → Inv c e → e.terminal ≡ false → Succeeds Ended (complete k now e)
  unfolding complete
  complete-Ended now e i t =
      Succeeds-then (Between c) Ended (before_terminal k) _ e (before_terminal-Between c e i t)
        (complete-Between now)

  incomplete-Between :
      (now : ℕ) (reason : String) (e : Emitter S)
      → Between c e
      → Succeeds Ended (
          (edits k
                (λ e'. record e' { resp = incomplete_response now reason e'.resp; terminal = true })
              >> emits k (λ e'. StreamEvent.response_incomplete (some (current e'))))
            e)
  unfolding handle incomplete_response
  incomplete-Between now reason e (v, n, at, h, w, s, t) =
      let e1 = record e { resp = incomplete_response now reason e.resp; terminal = true } in
      emits_last c Ended (λ e'. StreamEvent.response_incomplete (some (current e'))) e1 v n _ at
        h.running h.calm refl
        (finish-Idle v (current e1) ResponseStatus.incomplete (current-Idle e v h w) refl refl)
        (λ s' a. (_, suc n, a, refl, w, s, refl))

  -- The checker does not see the status of an open item.
  mark-WriterSim :
      (o : Option Writer) (out : Items) (v : Validator)
      → WriterSim out o v
      → WriterSim out (mark_incomplete o) v
  mark-WriterSim none out v h = h
  mark-WriterSim (some (Writer.message w)) out v (inl (items, st, m, (h, cl))) =
      subst (λ b. WriterSim out (some (Writer.message (mark_message b w))) v) (sym cl)
        (inl (items, st, m, (ground (arith, h.part), cl)))
  mark-WriterSim (some (Writer.call w)) out v (inl (items, st, m, (h, cl))) =
      subst (λ b. WriterSim out (some (Writer.call (mark_call b w))) v) (sym cl)
        (inl (items, st, m, (ground arith, cl)))
  mark-WriterSim (some (Writer.reasoning w)) out v (inl (items, st, m, (h, cl, td))) =
      subst (λ b. WriterSim out (some (Writer.reasoning (mark_reasoning b w))) v) (sym cl)
        (inl (items, st, m, (ground (arith, h.summary), cl, td)))
  mark-WriterSim (some (Writer.message w)) out v (inr (h, cl, ns)) =
      subst (λ b. WriterSim out (some (Writer.message (mark_message b w))) v) (sym cl)
        (inr (h, cl, ns))
  mark-WriterSim (some (Writer.call w)) out v (inr (h, cl, ns)) =
      subst (λ b. WriterSim out (some (Writer.call (mark_call b w))) v) (sym cl) (inr (h, cl, ns))
  mark-WriterSim (some (Writer.reasoning w)) out v (inr (h, cl, ns)) =
      subst (λ b. WriterSim out (some (Writer.reasoning (mark_reasoning b w))) v) (sym cl)
        (inr (h, cl, ns))

  mark-Phase :
      (started terminal : Bool) (o : Option Writer) (out : Items) (v : Validator) (n : ℕ)
      → Phase started terminal o out v n
      → Phase started terminal (mark_incomplete o) out v n
  mark-Phase true false o out v n h = mark-WriterSim o out v h
  mark-Phase false false o out v n (z, w, r, i) = (z, ap mark_incomplete w, r, i)
  mark-Phase started true o out v n (t, w, s) = (t, ap mark_incomplete w, s)

  pub mark-Inv :
      (e : Emitter S) → Inv c e → Inv c (record e { open_writer = mark_incomplete e.open_writer })
  mark-Inv e (v, n, at, h) =
      (v, n, at, mark-Phase e.started e.terminal e.open_writer e.resp.output v n h)

  pub incomplete-Ended :
      (now : ℕ) (reason : String) (e : Emitter S)
      → Inv c e
      → e.terminal ≡ false
      → Succeeds Ended (incomplete k now reason e)
  unfolding incomplete
  incomplete-Ended now reason e i t =
      Succeeds-then (Between c) Ended (before_terminal k) _
        (record e { open_writer = mark_incomplete e.open_writer })
        (before_terminal-Between c _ (mark-Inv e i) t) (incomplete-Between now reason)
