-- ===== src/Streamtest/Check.antt =====
-- streamtest/streamtest.go, the type switch of `validator.step`, and `Validate`.
use openresponses.Prelude.{ℕ, suc, ◌==◌, Bool, true, false, not, ◌&&◌, List, [], ◌∷◌}
use openresponses.Item.{ContentType}
use openresponses.Response.{ResponseStatus}
use openresponses.Event.{StreamEvent}
use openresponses.Streamtest.Validator.{
  Violation, Result, ok, err, ◌>>=◌, ◌>>◌, refuse, Validator, new_validator,
}
use openresponses.Streamtest.Step.{
  on_item_added, on_item_done, on_part_added, on_part_done, on_part_delta, on_kind_done,
  on_arguments_delta, on_arguments_done, on_summary_added, on_summary_delta, on_summary_text_done,
  on_summary_done, on_reasoning_delta, on_reasoning_done, finish, on_failed, is_failed,
}

-- The type switch, at event number `i`.
unfoldable pub handle : Validator → ℕ → StreamEvent → Result Validator
handle v i (StreamEvent.response_created _) =
    refuse (not (i == 0)) Violation.created_not_first >> ok v
handle v i (StreamEvent.response_queued _) = ok v
handle v i (StreamEvent.response_in_progress _) = ok v
handle v i (StreamEvent.response_completed r) = finish v r ResponseStatus.completed
handle v i (StreamEvent.response_incomplete r) = finish v r ResponseStatus.incomplete
handle v i (StreamEvent.response_failed r) = on_failed v r
handle v i (StreamEvent.error_event _) = ok (record v { error_seen = true })
handle v i (StreamEvent.output_item_added x item) = on_item_added v x item
handle v i (StreamEvent.output_item_done x item) = on_item_done v x item
handle v i (StreamEvent.content_part_added id x c p) = on_part_added v id x c p
handle v i (StreamEvent.content_part_done id x c p) = on_part_done v id x c p
handle v i (StreamEvent.output_text_delta id x c _ _) =
    on_part_delta v id x c ContentType.output_text
handle v i (StreamEvent.output_text_done id x c _ _) = on_kind_done v id x c ContentType.output_text
handle v i (StreamEvent.output_text_annotation_added id x c _ _) =
    on_part_delta v id x c ContentType.output_text
handle v i (StreamEvent.refusal_delta id x c _) = on_part_delta v id x c ContentType.refusal
handle v i (StreamEvent.refusal_done id x c _) = on_kind_done v id x c ContentType.refusal
handle v i (StreamEvent.function_call_arguments_delta id x _) = on_arguments_delta v id x
handle v i (StreamEvent.function_call_arguments_done id x _) = on_arguments_done v id x
handle v i (StreamEvent.reasoning_summary_part_added id x c p) = on_summary_added v id x c p
handle v i (StreamEvent.reasoning_summary_text_delta id x c _) = on_summary_delta v id x c
handle v i (StreamEvent.reasoning_summary_text_done id x c _) = on_summary_text_done v id x c
handle v i (StreamEvent.reasoning_summary_part_done id x c _) = on_summary_done v id x c
handle v i (StreamEvent.reasoning_delta id x _ _) = on_reasoning_delta v id x
handle v i (StreamEvent.reasoning_done id x _ _) = on_reasoning_done v id x
handle v i (StreamEvent.unknown_event _ _) = ok v

-- `step`: the checks that every event passes, then the switch.
unfoldable pub step : Validator → ℕ → ℕ × StreamEvent → Result Validator
unfolding handle
step v i (seq, ev) = do
  refuse v.terminal Violation.after_terminal
  refuse (not (seq == i)) Violation.bad_sequence
  refuse (v.error_seen && not (is_failed ev)) Violation.error_not_failed
  handle v i ev

-- The loop over the events, from number `i`.
unfoldable pub steps : Validator → ℕ → List (ℕ × StreamEvent) → Result Validator
steps v i [] = ok v
steps v i (e ∷ es) = step v i e >>= λ v'. steps v' (suc i) es

abbrev pub is_created : StreamEvent → Bool
is_created (StreamEvent.response_created _) = true
is_created _ = false

-- `Validate`.
unfoldable pub validate : Bool → List (ℕ × StreamEvent) → Result (Unit {0})
unfolding steps
validate allow_reuse [] = err Violation.no_events
validate allow_reuse ((seq, ev) ∷ es) = do
  refuse (not (is_created ev)) Violation.first_not_created
  v ← steps (new_validator allow_reuse) 0 ((seq, ev) ∷ es)
  refuse (not v.terminal) Violation.unterminated
  ok tt
