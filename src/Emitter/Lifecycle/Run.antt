-- ===== src/Emitter/Lifecycle/Run.antt =====
-- emitter.go, sequences of calls, against the checker of streamtest/streamtest.go.
use openresponses.Prelude.{
  ℕ, String, ◌≡◌, refl, sym, subst, ap, ◌∙◌, true, false, List, [], ◌∷◌, inl, inr, Bool-cases,
}
use openresponses.Item.{Item}
use openresponses.Response.{Response}
use openresponses.EventSink.{EventSink, Act}
use openresponses.Streamtest.Validator.{new_validator}
use openresponses.Streamtest.Checked.{CheckedSink}
use openresponses.Emitter.Parts.{MessageWriter, set_encrypted, change_extra}
use openresponses.Emitter.Writer.{
  message_text, message_annotation, message_logprobs, message_refusal, reasoning_summary,
  reasoning_text, call_arguments,
}
use openresponses.Emitter.State.{
  Writer, Emitter, new_emitter, mark_incomplete, new_message, new_call, new_reasoning,
}
use openresponses.Emitter.Calls.{
  Call, perform, run, start, start_unless, open_writer, whole_item, complete, incomplete,
  as_message, as_call, as_reasoning, close_as, end_summary_as, amend_as,
}
use openresponses.Emitter.Lifecycle.Invariant.{Phase, Inv, Ready-Inv, Between-Ready}
use openresponses.Emitter.Lifecycle.MessageCalls.{
  message_text-Writing, message_annotation-Writing, message_logprobs-Writing,
  message_refusal-Writing,
}
use openresponses.Emitter.Lifecycle.ReasoningCalls.{
  reasoning_summary-Thinking, reasoning_text-Thinking,
}
use openresponses.Emitter.Lifecycle.Start.{start-Ready}
use openresponses.Emitter.Lifecycle.Open.{
  IsNew, open_writer-Ready, new_message-IsNew, new_call-IsNew, new_reasoning-IsNew,
  whole_item-Between,
}
use openresponses.Emitter.Lifecycle.End.{Ended, complete-Ended, incomplete-Ended, mark-Inv}
use openresponses.Emitter.Lifecycle.Refused
use openresponses.Emitter.Lifecycle.Amend.{amend-AnyWriter}
use openresponses.Emitter.Lifecycle.Calls.{
  Live, Dead, message-WriterSim, call-WriterSim, as_reasoning-AnyWriter, LiveReasoning,
  end_summary-AnyWriter, close-AnyWriter, on_writer-Inv,
}

module _ {S : Type 0} {k : EventSink S} (c : CheckedSink k) where
  Ended-Inv : (e : Emitter S) → Ended c e → Inv c e
  Ended-Inv e (v, n, at, t, w, s, b) =
      (v, n, at, subst (λ x. Phase e.started x e.open_writer e.resp.output v n) (sym b) (t, w, s))

  start-Inv : (e : Emitter S) → Inv c e → Inv c (start k e).0
  unfolding start
  start-Inv e i = elim (Bool-cases e.terminal) [
    | inl ended ↦ ended_case i ended
    | inr running ↦ Ready-Inv c (start k e).0 (start-Ready c e i running).1
  ]
    where
      ended_case : Inv c e → e.terminal ≡ true → Inv c (start k e).0
      ended_case (v, n, at, h) b =
          let (t, w, s) = subst (λ x. Phase e.started x e.open_writer e.resp.output v n) b h in
          subst (λ x. Inv c (start_unless k x e).0) (sym s) (v, n, at, h)

  open_writer-Inv :
      (new : ℕ → Writer) → IsNew c new → (e : Emitter S) → Inv c e → Inv c (open_writer k new e).0
  unfolding open_writer
  open_writer-Inv new isnew e i = elim (Bool-cases e.terminal) [
    | inl ended ↦ subst (λ r. Inv c r.0) (sym (Refused.before_item_ended_then k e ended _)) i
    | inr running ↦
        Ready-Inv c (open_writer k new e).0 (open_writer-Ready c new isnew e i running).1
  ]

  whole_item-Inv : (i : Item) (e : Emitter S) → Inv c e → Inv c (whole_item k i e).0
  unfolding whole_item
  whole_item-Inv x e i = elim (Bool-cases e.terminal) [
    | inl ended ↦ subst (λ r. Inv c r.0) (sym (Refused.before_item_ended_then k e ended _)) i
    | inr running ↦
        Ready-Inv c (whole_item k x e).0
          (Between-Ready c (whole_item k x e).0 (whole_item-Between c x e i running).1)
  ]

  complete-Inv : (now : ℕ) (e : Emitter S) → Inv c e → Inv c (complete k now e).0
  unfolding complete
  complete-Inv now e i = elim (Bool-cases e.terminal) [
    | inl ended ↦ subst (λ r. Inv c r.0) (sym (Refused.before_terminal_ended_then k e ended _)) i
    | inr running ↦ Ended-Inv (complete k now e).0 (complete-Ended c now e i running).1
  ]

  incomplete-Inv :
      (now : ℕ) (reason : String) (e : Emitter S) → Inv c e → Inv c (incomplete k now reason e).0
  unfolding incomplete
  incomplete-Inv now reason e i = elim (Bool-cases e.terminal) [
    | inl ended ↦
        subst (λ r. Inv c r.0)
          (sym (
            Refused.before_terminal_ended_then k
              (record e { open_writer = mark_incomplete e.open_writer }) ended _))
          (mark-Inv c e i)
    | inr running ↦
        Ended-Inv (incomplete k now reason e).0 (incomplete-Ended c now reason e i running).1
  ]

  -- A call of the open message.
  message-Inv :
      (m : Act (MessageWriter × S))
      → Live c m
      → Dead c m
      → (e : Emitter S) → Inv c e
      → Inv c (as_message k m e.open_writer e).0
  message-Inv m live dead =
      on_writer-Inv c (as_message k m) (message-WriterSim c m live dead) (λ e. refl)

  text-Live : (d : String) → Live c (message_text k d)
  text-Live d items n w s wr cl =
      let (wr', same, _) = (message_text-Writing c items n d w s wr cl).1 in
      (wr', same.same_closed ∙ cl)

  annotation-Live : (x : String) → Live c (message_annotation k x)
  annotation-Live x items n w s wr cl =
      let (wr', same, _) = (message_annotation-Writing c items n x w s wr cl).1 in
      (wr', same.same_closed ∙ cl)

  logprobs-Live : (ls : List String) → Live c (message_logprobs k ls)
  logprobs-Live ls items n w s wr cl =
      let (wr', same, _) = (message_logprobs-Writing c items n ls w s wr cl).1 in
      (wr', same.same_closed ∙ cl)

  refusal-Live : (d : String) → Live c (message_refusal k d)
  refusal-Live d items n w s wr cl =
      let (wr', same, _) = (message_refusal-Writing c items n d w s wr cl).1 in
      (wr', same.same_closed ∙ cl)

  summary-LiveReasoning : (d : String) → LiveReasoning c (reasoning_summary k d)
  summary-LiveReasoning d items n w s wr cl td =
      let (wr', same, _) = (reasoning_summary-Thinking c items n d w s wr cl).1 in
      (wr', same.same_closed ∙ cl, same.same_done ∙ td)

  text-LiveReasoning : (d : String) → LiveReasoning c (reasoning_text k d)
  text-LiveReasoning d items n w s wr cl td =
      let (wr', same, _) = (reasoning_text-Thinking c items n d w s wr cl td).1 in
      (wr', same.same_closed ∙ cl, same.same_done ∙ td)

  -- Every call keeps the checker in step, whether it succeeds or not.
  pub perform-Inv : (call : Call) (e : Emitter S) → Inv c e → Inv c (perform k call e).0
  unfolding perform
  perform-Inv Call.starts e i = start-Inv e i
  perform-Inv Call.closes e i = on_writer-Inv c (close_as k) (close-AnyWriter c) (λ e'. refl) e i
  perform-Inv Call.ends_summary e i =
      on_writer-Inv c (end_summary_as k) (end_summary-AnyWriter c) (λ e'. refl) e i
  perform-Inv (Call.message id phase) e i =
      open_writer-Inv (new_message id phase) (new_message-IsNew c id phase) e i
  perform-Inv (Call.function_call id fresh call_id name) e i =
      open_writer-Inv (new_call id fresh call_id name) (new_call-IsNew c id fresh call_id name) e i
  perform-Inv (Call.reasoning id extra) e i =
      open_writer-Inv (new_reasoning id extra) (new_reasoning-IsNew c id extra) e i
  perform-Inv (Call.whole x) e i = whole_item-Inv x e i
  perform-Inv (Call.text d) e i =
      message-Inv (message_text k d) (text-Live d)
        (λ w s cl. Refused.message_text_closed k s w cl d) e i
  perform-Inv (Call.annotation x) e i =
      message-Inv (message_annotation k x) (annotation-Live x)
        (λ w s cl. Refused.message_annotation_closed k s w cl x) e i
  perform-Inv (Call.refusal d) e i =
      message-Inv (message_refusal k d) (refusal-Live d)
        (λ w s cl. Refused.message_refusal_closed k s w cl d) e i
  perform-Inv (Call.logprobs ls) e i =
      message-Inv (message_logprobs k ls) (logprobs-Live ls)
        (λ w s cl. Refused.message_logprobs_closed k s w cl ls) e i
  perform-Inv (Call.arguments d) e i =
      on_writer-Inv c (as_call k (call_arguments k d)) (call-WriterSim c d) (λ e'. refl) e i
  perform-Inv (Call.summary d) e i =
      on_writer-Inv c (as_reasoning k (reasoning_summary k d))
        (as_reasoning-AnyWriter c (reasoning_summary k d) (summary-LiveReasoning d)
          (λ w s cl ns. ap (λ r. r.0) (Refused.reasoning_summary_closed k s w cl d)))
        (λ e'. refl) e i
  perform-Inv (Call.reasoning_delta d) e i =
      on_writer-Inv c (as_reasoning k (reasoning_text k d))
        (as_reasoning-AnyWriter c (reasoning_text k d) (text-LiveReasoning d)
          (λ w s cl ns. ap (λ r. r.0) (Refused.reasoning_text_closed k s w cl d)))
        (λ e'. refl) e i
  perform-Inv (Call.encrypted_content s) e i =
      on_writer-Inv c (amend_as k (set_encrypted s))
        (amend-AnyWriter c (set_encrypted s)
          (λ i. record { same_id = refl; same_summary = refl; same_content = refl }))
        (λ e'. refl) e i
  perform-Inv (Call.changes_extra f) e i =
      on_writer-Inv c (amend_as k (change_extra f))
        (amend-AnyWriter c (change_extra f)
          (λ i. record { same_id = refl; same_summary = refl; same_content = refl }))
        (λ e'. refl) e i
  perform-Inv (Call.completes now) e i = complete-Inv now e i
  perform-Inv (Call.incompletes now reason) e i = incomplete-Inv now reason e i

  run-Inv : (calls : List Call) (e : Emitter S) → Inv c e → Inv c (run k e calls)
  unfolding run
  run-Inv [] e i = i
  run-Inv (call ∷ calls) e i = run-Inv calls (perform k call e).0 (perform-Inv call e i)

  new_emitter-Inv :
      (s : S) (fresh : String) (r : Response)
      → r.output ≡ []
      → c.At (new_validator false) 0 s
      → Inv c (new_emitter s fresh r)
  unfolding new_emitter
  new_emitter-Inv s fresh r o at = (
    new_validator false,
    0,
    at,
    (
      refl,
      refl,
      o,
      record {
        running = refl;
        calm = refl;
        strict = refl;
        next = refl;
        none_open = refl;
        matches = tt;
      },
    ),
  )

  -- From a new emitter and an empty output, whatever the adapter calls, in any order and with any
  -- errors ignored, the checker accepts every event sent, in its strict form.
  pub run-new_emitter-Inv :
      (s : S) (fresh : String) (r : Response) (calls : List Call)
      → r.output ≡ []
      → c.At (new_validator false) 0 s
      → Inv c (run k (new_emitter s fresh r) calls)
  run-new_emitter-Inv s fresh r calls o at =
      run-Inv calls (new_emitter s fresh r) (new_emitter-Inv s fresh r o at)
