-- ===== src/Streamtest/Terminal.antt =====
-- streamtest/streamtest.go, `validator.step`: which events end a stream.
use openresponses.Prelude.{
  ℕ, String, ◌≡◌, refl, Bool, true, if◌then◌else◌, Option, none, some, ℤ, arith,
}
use openresponses.Item.{Item, Content, ContentType}
use openresponses.Response.{Response, ResponseStatus}
use openresponses.Event.{StreamEvent, terminal_response, is_terminal}
use openresponses.Streamtest.Validator.{
  Result, Violation, ok, err, ◌>>=◌, ◌>>◌, refuse, or_fail, Validator, ItemState, open_item_at,
}
use openresponses.Streamtest.Step.{
  done_checks, on_item_added, on_item_done, on_part_added, on_part_done, on_part_delta,
  on_kind_done, on_arguments_delta, on_arguments_done, on_summary_added, on_summary_delta,
  on_summary_text_done, on_summary_done, on_reasoning_delta, on_reasoning_done, finish, on_failed,
}
use openresponses.Streamtest.Check.{handle}

abbrev Keeps : Validator → Result Validator → Type 0
Keeps v r = (v' : Validator) → r ≡ ok v' → v'.terminal ≡ v.terminal

on_item_added-Keeps : (v : Validator) (i : ℤ) (x : Option Item) → Keeps v (on_item_added v i x)
unfolding on_item_added
on_item_added-Keeps v i none v' h = ground arith
on_item_added-Keeps v i (some x) v' h = ground arith

-- The checks of `on_item_done`, one after the other.
checks-Keep :
    (v w v' : Validator) (a b c d e : Bool)
    → w.terminal ≡ v.terminal
    → (do
      refuse a Violation.done_mismatch
      refuse b Violation.part_still_open
      refuse c Violation.summary_still_open
      refuse d Violation.arguments_done_missing
      refuse e Violation.reasoning_done_missing
      ok w)
      ≡ ok v'
    → v'.terminal ≡ v.terminal
checks-Keep v w v' a b c d e k h = ground arith

split_done :
    (v v' : Validator) (r : Result ItemState) (x : Option Item)
    → (r >>= λ st. or_fail x Violation.item_null >>= λ i. done_checks v st i) ≡ ok v'
    → v'.terminal ≡ v.terminal
split_done v v' (err w) x h = cc
split_done v v' (ok st) none h = cc
split_done v v' (ok st) (some i) h = checks-Keep v _ v' _ _ _ _ _ refl h

on_item_done-Keeps : (v : Validator) (i : ℤ) (x : Option Item) → Keeps v (on_item_done v i x)
unfolding on_item_done
on_item_done-Keeps v i x v' h = split_done v v' (open_item_at v i "") x h

on_part_added-Keeps :
    (v : Validator) (id : String) (i c : ℤ) (x : Option Content)
    → Keeps v (on_part_added v id i c x)
unfolding on_part_added
on_part_added-Keeps v id i c x v' h = ground arith

on_part_done-Keeps :
    (v : Validator) (id : String) (i c : ℤ) (x : Option Content) → Keeps v (on_part_done v id i c x)
unfolding on_part_done
on_part_done-Keeps v id i c x v' h = ground arith

on_part_delta-Keeps :
    (v : Validator) (id : String) (i c : ℤ) (t : ContentType) → Keeps v (on_part_delta v id i c t)
unfolding on_part_delta
on_part_delta-Keeps v id i c t v' h = ground arith

on_kind_done-Keeps :
    (v : Validator) (id : String) (i c : ℤ) (t : ContentType) → Keeps v (on_kind_done v id i c t)
unfolding on_kind_done
on_kind_done-Keeps v id i c t v' h = ground arith

on_arguments_delta-Keeps :
    (v : Validator) (id : String) (i : ℤ) → Keeps v (on_arguments_delta v id i)
unfolding on_arguments_delta
on_arguments_delta-Keeps v id i v' h = ground arith

on_arguments_done-Keeps : (v : Validator) (id : String) (i : ℤ) → Keeps v (on_arguments_done v id i)
unfolding on_arguments_done
on_arguments_done-Keeps v id i v' h = ground arith

on_summary_added-Keeps :
    (v : Validator) (id : String) (i c : ℤ) (x : Option Content)
    → Keeps v (on_summary_added v id i c x)
unfolding on_summary_added
on_summary_added-Keeps v id i c x v' h = ground arith

on_summary_delta-Keeps :
    (v : Validator) (id : String) (i c : ℤ) → Keeps v (on_summary_delta v id i c)
unfolding on_summary_delta
on_summary_delta-Keeps v id i c v' h = ground arith

on_summary_text_done-Keeps :
    (v : Validator) (id : String) (i c : ℤ) → Keeps v (on_summary_text_done v id i c)
unfolding on_summary_text_done
on_summary_text_done-Keeps v id i c v' h = ground arith

on_summary_done-Keeps : (v : Validator) (id : String) (i c : ℤ) → Keeps v (on_summary_done v id i c)
unfolding on_summary_done
on_summary_done-Keeps v id i c v' h = ground arith

on_reasoning_delta-Keeps :
    (v : Validator) (id : String) (i : ℤ) → Keeps v (on_reasoning_delta v id i)
unfolding on_reasoning_delta
on_reasoning_delta-Keeps v id i v' h = ground arith

on_reasoning_done-Keeps : (v : Validator) (id : String) (i : ℤ) → Keeps v (on_reasoning_done v id i)
unfolding on_reasoning_done
on_reasoning_done-Keeps v id i v' h = ground arith

finish_ends :
    (v : Validator) (r : Option Response) (s : ResponseStatus) (v' : Validator)
    → finish v r s ≡ ok v'
    → v'.terminal ≡ true
unfolding finish
finish_ends v r s v' h = ground arith

on_failed_ends :
    (v : Validator) (r : Option Response) (v' : Validator)
    → on_failed v r ≡ ok v'
    → v'.terminal ≡ true
unfolding on_failed
on_failed_ends v r v' h = ground arith

-- After an event that it takes, the checker is in a terminal state exactly if the event is a terminal
-- one or the state was terminal before.
pub handle-terminal :
    (v : Validator) (n : ℕ) (ev : StreamEvent) (v' : Validator)
    → handle v n ev ≡ ok v'
    → v'.terminal ≡ (if is_terminal ev then true else v.terminal)
unfolding handle terminal_response
handle-terminal v n (StreamEvent.response_created r) v' h = ground arith
handle-terminal v n (StreamEvent.response_queued r) v' h = ground arith
handle-terminal v n (StreamEvent.response_in_progress r) v' h = ground arith
handle-terminal v n (StreamEvent.response_completed r) v' h = finish_ends v r _ v' h
handle-terminal v n (StreamEvent.response_incomplete r) v' h = finish_ends v r _ v' h
handle-terminal v n (StreamEvent.response_failed r) v' h = on_failed_ends v r v' h
handle-terminal v n (StreamEvent.error_event e) v' h = ground arith
handle-terminal v n (StreamEvent.output_item_added i x) v' h = on_item_added-Keeps v i x v' h
handle-terminal v n (StreamEvent.output_item_done i x) v' h = on_item_done-Keeps v i x v' h
handle-terminal v n (StreamEvent.content_part_added id i c p) v' h =
    on_part_added-Keeps v id i c p v' h
handle-terminal v n (StreamEvent.content_part_done id i c p) v' h =
    on_part_done-Keeps v id i c p v' h
handle-terminal v n (StreamEvent.output_text_delta id i c _ _) v' h =
    on_part_delta-Keeps v id i c _ v' h
handle-terminal v n (StreamEvent.output_text_done id i c _ _) v' h =
    on_kind_done-Keeps v id i c _ v' h
handle-terminal v n (StreamEvent.output_text_annotation_added id i c _ _) v' h =
    on_part_delta-Keeps v id i c _ v' h
handle-terminal v n (StreamEvent.refusal_delta id i c _) v' h = on_part_delta-Keeps v id i c _ v' h
handle-terminal v n (StreamEvent.refusal_done id i c _) v' h = on_kind_done-Keeps v id i c _ v' h
handle-terminal v n (StreamEvent.function_call_arguments_delta id i _) v' h =
    on_arguments_delta-Keeps v id i v' h
handle-terminal v n (StreamEvent.function_call_arguments_done id i _) v' h =
    on_arguments_done-Keeps v id i v' h
handle-terminal v n (StreamEvent.reasoning_summary_part_added id i c p) v' h =
    on_summary_added-Keeps v id i c p v' h
handle-terminal v n (StreamEvent.reasoning_summary_text_delta id i c _) v' h =
    on_summary_delta-Keeps v id i c v' h
handle-terminal v n (StreamEvent.reasoning_summary_text_done id i c _) v' h =
    on_summary_text_done-Keeps v id i c v' h
handle-terminal v n (StreamEvent.reasoning_summary_part_done id i c _) v' h =
    on_summary_done-Keeps v id i c v' h
handle-terminal v n (StreamEvent.reasoning_delta id i _ _) v' h =
    on_reasoning_delta-Keeps v id i v' h
handle-terminal v n (StreamEvent.reasoning_done id i _ _) v' h = on_reasoning_done-Keeps v id i v' h
handle-terminal v n (StreamEvent.unknown_event _ _) v' h = ground arith
