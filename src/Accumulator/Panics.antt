-- ===== src/Accumulator/Panics.antt =====
-- stream.go, `Accumulator.Add`: when it panics. Negative part indexes are checked for deltas of text,
-- refusals and summaries, and not for `setPart`, `setSummaryPart`, `reasoningPart` and annotations.
use openresponses.Prelude.{String, ◌≡◌, refl, Bool, true, false, Option, none, some, ℤ, pos, negsuc}
use openresponses.Item.{Item, Content}
use openresponses.Event.{StreamEvent}
use openresponses.Accumulator.State.{Accumulator}
use openresponses.Accumulator.Add.{
  add, set_part, set_summary_part, on_part, on_summary_part, on_reasoning_part, on_annotation,
}

abbrev pub is_natural : ℤ → Bool
is_natural (pos _) = true
is_natural (negsuc _) = false

-- Whether the indexes that `Add` uses unchecked are not negative.
abbrev pub has_indexes : StreamEvent → Bool
has_indexes (StreamEvent.content_part_added _ _ c _) = is_natural c
has_indexes (StreamEvent.content_part_done _ _ c _) = is_natural c
has_indexes (StreamEvent.reasoning_summary_part_added _ _ c _) = is_natural c
has_indexes (StreamEvent.reasoning_summary_part_done _ _ c _) = is_natural c
has_indexes (StreamEvent.reasoning_delta _ _ c _) = is_natural c
has_indexes (StreamEvent.reasoning_done _ _ c _) = is_natural c
has_indexes (StreamEvent.output_text_annotation_added _ _ _ n _) = is_natural n
has_indexes _ = true

abbrev pub Total : Option Accumulator → Type 0
Total r = (a : Accumulator) × (r ≡ some a)

set_part-Total :
    (a : Accumulator) (i c : ℤ) (p : Option Content)
    → is_natural c ≡ true
    → Total (set_part a i c p)
unfolding set_part
set_part-Total a i c none h = (_, refl)
set_part-Total a i (pos c) (some p) h = (_, refl)
set_part-Total a i (negsuc c) (some p) h = cc

set_summary_part-Total :
    (a : Accumulator) (i c : ℤ) (p : Option Content)
    → is_natural c ≡ true
    → Total (set_summary_part a i c p)
unfolding set_summary_part
set_summary_part-Total a i c none h = (_, refl)
set_summary_part-Total a i (pos c) (some p) h = (_, refl)
set_summary_part-Total a i (negsuc c) (some p) h = cc

on_part-Total : (a : Accumulator) (i c : ℤ) (f : Content → Content) → Total (on_part a i c f)
unfolding on_part
on_part-Total a i (pos c) f = (_, refl)
on_part-Total a i (negsuc c) f = (_, refl)

on_summary_part-Total :
    (a : Accumulator) (i c : ℤ) (f : Content → Content) → Total (on_summary_part a i c f)
unfolding on_summary_part
on_summary_part-Total a i (pos c) f = (_, refl)
on_summary_part-Total a i (negsuc c) f = (_, refl)

on_reasoning_part-Total :
    (a : Accumulator) (i c : ℤ) (f : Content → Content)
    → is_natural c ≡ true
    → Total (on_reasoning_part a i c f)
unfolding on_reasoning_part
on_reasoning_part-Total a i (pos c) f h = (_, refl)
on_reasoning_part-Total a i (negsuc c) f h = cc

on_annotation-Total :
    (a : Accumulator) (i c n : ℤ) (x : Option String)
    → is_natural n ≡ true
    → Total (on_annotation a i c n x)
unfolding on_annotation
on_annotation-Total a i c n none h = (_, refl)
on_annotation-Total a i (negsuc c) n (some x) h = (_, refl)
on_annotation-Total a i (pos c) (pos n) (some x) h = (_, refl)
on_annotation-Total a i (pos c) (negsuc n) (some x) h = cc

-- `Add` returns, whatever the state, for every event whose unchecked indexes are not negative.
pub add-Total : (a : Accumulator) (ev : StreamEvent) → has_indexes ev ≡ true → Total (add a ev)
unfolding add
add-Total a (StreamEvent.content_part_added _ i c p) h = set_part-Total a i c p h
add-Total a (StreamEvent.content_part_done _ i c p) h = set_part-Total a i c p h
add-Total a (StreamEvent.reasoning_summary_part_added _ i c p) h = set_summary_part-Total a i c p h
add-Total a (StreamEvent.reasoning_summary_part_done _ i c p) h = set_summary_part-Total a i c p h
add-Total a (StreamEvent.reasoning_delta _ i c d) h = on_reasoning_part-Total a i c _ h
add-Total a (StreamEvent.reasoning_done _ i c t) h = on_reasoning_part-Total a i c _ h
add-Total a (StreamEvent.output_text_annotation_added _ i c n x) h = on_annotation-Total a i c n x h
add-Total a (StreamEvent.output_text_delta _ i c d ls) h = on_part-Total a i c _
add-Total a (StreamEvent.output_text_done _ i c t ls) h = on_part-Total a i c _
add-Total a (StreamEvent.refusal_delta _ i c d) h = on_part-Total a i c _
add-Total a (StreamEvent.refusal_done _ i c t) h = on_part-Total a i c _
add-Total a (StreamEvent.reasoning_summary_text_delta _ i c d) h = on_summary_part-Total a i c _
add-Total a (StreamEvent.reasoning_summary_text_done _ i c t) h = on_summary_part-Total a i c _
add-Total a _ h = (_, refl)
