-- ===== src/Streamtest/Step.antt =====
-- streamtest/streamtest.go, `validator.step`, `validator.finish` and `Validate`: one event at a
-- time, a function for each case of the type switch.
use openresponses.Prelude.{
  String, str_eq, ◌==◌, Bool, true, false, not, ◌&&◌, Option, none, some, List, [], ◌∷◌, ◌++◌,
  length, ℤ, is_index,
}
use openresponses.Item.{
  Item, ItemType, Items, Content, ContentType, item_type, item_id, same_item_type, content_type,
  same_content_type,
}
use openresponses.Response.{Response, ResponseStatus}
use openresponses.Event.{StreamEvent, is_some}
use openresponses.Streamtest.Validator.{
  Violation, Result, ok, err, ◌>>=◌, ◌>>◌, refuse, ItemState, Validator, count_parts, or_fail,
  open_item_at, open_typed, open_part, open_summary, new_part, is_message, is_function_call,
  has_kind_event, next_indexes, new_item_state,
}

abbrev pub with_open : Validator → ItemState → Validator
with_open v st = record v { open_item = some st }

unfoldable pub on_item_added : Validator → ℤ → Option Item → Result Validator
unfolding next_indexes new_item_state
on_item_added v index none = err Violation.item_null
on_item_added v index (some item) = do
  refuse (is_some v.open_item) Violation.item_still_open
  n ← next_indexes v index
  ok (record v { indexes = n; open_item = some (new_item_state index item) })

-- The checks of a done item `i` against the open one.
abbrev pub done_checks : Validator → ItemState → Item → Result Validator
done_checks v st i = do
  refuse (not (str_eq (item_id i) st.id && same_item_type (item_type i) st.typ))
      Violation.done_mismatch
  refuse (is_some st.part) Violation.part_still_open
  refuse (is_some st.summary) Violation.summary_still_open
  refuse
      (is_function_call i && not st.args_done && count_parts st.parts st.part == 0 && st.text_open)
      Violation.arguments_done_missing
  refuse (st.text_open && not st.text_done) Violation.reasoning_done_missing
  ok (record v { items = v.items ++ record st { item = i; done = true } ∷ []; open_item = none })

unfoldable pub on_item_done : Validator → ℤ → Option Item → Result Validator
unfolding open_item_at
on_item_done v index item = do
  st ← open_item_at v index ""
  i ← or_fail item Violation.item_null
  done_checks v st i

unfoldable pub on_part_added : Validator → String → ℤ → ℤ → Option Content → Result Validator
unfolding open_item_at
on_part_added v item_id index content_index part = do
  st ← open_item_at v index item_id
  refuse (not (is_message st.item)) Violation.wrong_item_type
  refuse (is_some st.part) Violation.part_still_open
  refuse (not (is_index content_index (count_parts st.parts st.part))) Violation.bad_content_index
  p ← or_fail part Violation.part_null
  ok (with_open v (record st { part = some (new_part (content_type p)) }))

abbrev pub other_type : Option Content → ContentType → Bool
other_type none t = true
other_type (some p) t = not (same_content_type (content_type p) t)

unfoldable pub on_part_done : Validator → String → ℤ → ℤ → Option Content → Result Validator
unfolding open_part
on_part_done v item_id index content_index part = do
  (st, p) ← open_part v index item_id content_index none
  refuse (other_type part p.typ) Violation.wrong_part_type
  refuse (has_kind_event p.typ && not p.kind_done) Violation.kind_done_missing
  ok (with_open v (record st { parts = st.parts ++ record p { done = true } ∷ []; part = none }))

-- A delta or an annotation leaves the checker's state alone.
unfoldable pub on_part_delta : Validator → String → ℤ → ℤ → ContentType → Result Validator
unfolding open_part
on_part_delta v item_id index content_index typ = do
  open_part v index item_id content_index (some typ) >>= λ _. ok v

unfoldable pub on_kind_done : Validator → String → ℤ → ℤ → ContentType → Result Validator
unfolding open_part
on_kind_done v item_id index content_index typ = do
  (st, p) ← open_part v index item_id content_index (some typ)
  ok (with_open v (record st { part = some (record p { kind_done = true }) }))

unfoldable pub on_arguments_delta : Validator → String → ℤ → Result Validator
unfolding open_typed
on_arguments_delta v item_id index = do
  st ← open_typed v index item_id ItemType.function_call
  refuse st.args_done Violation.delta_after_done
  ok (with_open v (record st { text_open = true }))

unfoldable pub on_arguments_done : Validator → String → ℤ → Result Validator
unfolding open_typed
on_arguments_done v item_id index = do
  st ← open_typed v index item_id ItemType.function_call
  refuse st.args_done Violation.duplicate_done
  ok (with_open v (record st { args_done = true; text_open = false }))

unfoldable pub on_summary_added : Validator → String → ℤ → ℤ → Option Content → Result Validator
unfolding open_typed
on_summary_added v item_id index summary_index part = do
  st ← open_typed v index item_id ItemType.reasoning
  refuse (is_some st.summary) Violation.summary_still_open
  refuse (not (is_index summary_index (count_parts st.summaries st.summary)))
      Violation.bad_summary_index
  p ← or_fail part Violation.part_null
  ok (with_open v (record st { summary = some (new_part (content_type p)) }))

unfoldable pub on_summary_delta : Validator → String → ℤ → ℤ → Result Validator
unfolding open_summary
on_summary_delta v item_id index summary_index =
    open_summary v index item_id summary_index >>= λ _. ok v

unfoldable pub on_summary_text_done : Validator → String → ℤ → ℤ → Result Validator
unfolding open_summary
on_summary_text_done v item_id index summary_index = do
  (st, p) ← open_summary v index item_id summary_index
  ok (with_open v (record st { summary = some (record p { kind_done = true }) }))

unfoldable pub on_summary_done : Validator → String → ℤ → ℤ → Result Validator
unfolding open_summary
on_summary_done v item_id index summary_index = do
  (st, p) ← open_summary v index item_id summary_index
  refuse (not p.kind_done) Violation.kind_done_missing
  ok (
      with_open v
        (record st { summaries = st.summaries ++ record p { done = true } ∷ []; summary = none }))

unfoldable pub on_reasoning_delta : Validator → String → ℤ → Result Validator
unfolding open_typed
on_reasoning_delta v item_id index = do
  st ← open_typed v index item_id ItemType.reasoning
  refuse st.text_done Violation.delta_after_done
  ok (with_open v (record st { text_open = true }))

unfoldable pub on_reasoning_done : Validator → String → ℤ → Result Validator
unfolding open_typed
on_reasoning_done v item_id index = do
  st ← open_typed v index item_id ItemType.reasoning
  ok (with_open v (record st { text_done = true }))

-- The loop of `finish` over the items that were streamed. It runs after the lengths were compared.
unfoldable pub match_output : Items → List ItemState → Result (Unit {0})
match_output (none ∷ out) (st ∷ items) = err Violation.nil_output
match_output (some i ∷ out) (st ∷ items) = do
  refuse (not (same_item_type (item_type i) st.typ && str_eq (item_id i) st.id))
      Violation.output_mismatch
  match_output out items
match_output _ _ = ok tt

abbrev pub same_status : ResponseStatus → ResponseStatus → Bool
same_status ResponseStatus.completed ResponseStatus.completed = true
same_status ResponseStatus.incomplete ResponseStatus.incomplete = true
same_status ResponseStatus.failed ResponseStatus.failed = true
same_status _ _ = false

unfoldable pub finish : Validator → Option Response → ResponseStatus → Result Validator
unfolding match_output
finish v resp want = do
  r ← or_fail resp Violation.response_null
  refuse (not (same_status r.status want)) Violation.bad_status
  refuse (is_some v.open_item) Violation.item_still_open
  refuse (not (length r.output == length v.items)) Violation.output_count_mismatch
  match_output r.output v.items
  ok (record v { terminal = true })

unfoldable pub on_failed : Validator → Option Response → Result Validator
on_failed v resp = do
  r ← or_fail resp Violation.response_null
  refuse (not (same_status r.status ResponseStatus.failed)) Violation.bad_status
  ok (record v { terminal = true })

abbrev pub is_failed : StreamEvent → Bool
is_failed (StreamEvent.response_failed _) = true
is_failed _ = false
