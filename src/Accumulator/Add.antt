-- ===== src/Accumulator/Add.antt =====
-- stream.go, `Accumulator.Add`: one case for each event, and the parts that deltas reach. The result
-- is `none` where the Go code panics: on a negative part or annotation index.
use mathlib.Core.Option
use openresponses.Prelude.{
  ℕ, zero, suc, String, str_append, Bool, true, false, Option, none, some, List, [], ◌∷◌, ◌++◌, ℤ,
  pos, negsuc, place, modify, get_elem?,
}
use openresponses.Item.{Item, Content, Contents}
use openresponses.Response.{Response, ResponseStatus, ErrorPayload}
use openresponses.Event.{StreamEvent}
use openresponses.Accumulator.State.{
  Accumulator, output, with_output, position, add_item, close_item, set_response, item, flatten,
}

abbrev modify_at : Accumulator → Option ℕ → (Item → Item) → Accumulator
modify_at a none f = a
modify_at a (some p) f = with_output a (modify p f (output a))

-- A change of the item that an index names, if there is one.
unfoldable pub modify_item : Accumulator → ℤ → (Item → Item) → Accumulator
modify_item a i f = modify_at a (position a i) f

-- `setPart` and `setSummaryPart` on the item.
abbrev pub put_part : ℕ → Content → Item → Item
put_part c p (Item.message m) = Item.message (record m { content = place c p m.content })
put_part c p i = i

abbrev pub put_summary : ℕ → Content → Item → Item
put_summary c p (Item.reasoning r) = Item.reasoning (record r { summary = place c p r.summary })
put_summary c p i = i

-- `part` and `summaryPart` on the item: the part is changed in place.
abbrev pub change_part : ℕ → (Content → Content) → Item → Item
change_part c f (Item.message m) = Item.message (record m { content = modify c f m.content })
change_part c f i = i

abbrev pub change_summary : ℕ → (Content → Content) → Item → Item
change_summary c f (Item.reasoning r) = Item.reasoning (record r { summary = modify c f r.summary })
change_summary c f i = i

-- `reasoningPart` pads the content with empty parts up to the index.
abbrev pub pad_reasoning : ℕ → Contents → Contents
pad_reasoning zero [] = some (Content.reasoning_text "") ∷ []
pad_reasoning zero (x ∷ xs) = x ∷ xs
pad_reasoning (suc c) [] = some (Content.reasoning_text "") ∷ pad_reasoning c []
pad_reasoning (suc c) (x ∷ xs) = x ∷ pad_reasoning c xs

abbrev pub change_reasoning : ℕ → (Content → Content) → Item → Item
change_reasoning c f (Item.reasoning r) =
    Item.reasoning (record r { content = modify c f (pad_reasoning c r.content) })
change_reasoning c f i = i

-- What the events do to a part of the matching kind.
abbrev pub text_delta : String → List String → Content → Content
text_delta d ls (Content.output_text p) =
    Content.output_text (record p { text = str_append p.text d; logprobs = p.logprobs ++ ls })
text_delta d ls p = p

abbrev or_else : Option (List String) → List String → List String
or_else none old = old
or_else (some new) old = new

-- Nil log probabilities leave those that are there.
abbrev pub text_done : String → Option (List String) → Content → Content
text_done t ls (Content.output_text p) =
    Content.output_text (record p { text = t; logprobs = or_else ls p.logprobs })
text_done t ls p = p

abbrev pub refusal_delta : String → Content → Content
refusal_delta d (Content.refusal t) = Content.refusal (str_append t d)
refusal_delta d p = p

abbrev pub refusal_done : String → Content → Content
refusal_done t (Content.refusal _) = Content.refusal t
refusal_done t p = p

abbrev pub summary_delta : String → Content → Content
summary_delta d (Content.summary_text t) = Content.summary_text (str_append t d)
summary_delta d p = p

abbrev pub summary_done : String → Content → Content
summary_done t (Content.summary_text _) = Content.summary_text t
summary_done t p = p

abbrev pub reasoning_delta : String → Content → Content
reasoning_delta d (Content.reasoning_text t) = Content.reasoning_text (str_append t d)
reasoning_delta d p = p

abbrev pub reasoning_done : String → Content → Content
reasoning_done t (Content.reasoning_text _) = Content.reasoning_text t
reasoning_done t p = p

abbrev pub arguments_delta : String → Item → Item
arguments_delta d (Item.function_call c) =
    Item.function_call (record c { arguments = str_append c.arguments d })
arguments_delta d i = i

abbrev pub arguments_done : String → Item → Item
arguments_done t (Item.function_call c) = Item.function_call (record c { arguments = t })
arguments_done t i = i

abbrev pub annotate : ℕ → String → Content → Content
annotate n x (Content.output_text p) =
    Content.output_text (record p { annotations = place n x p.annotations })
annotate n x p = p

abbrev is_message_at : Option Item → Bool
is_message_at (some (Item.message _)) = true
is_message_at _ = false

abbrev is_reasoning_at : Option Item → Bool
is_reasoning_at (some (Item.reasoning _)) = true
is_reasoning_at _ = false

abbrev is_text : Option Content → Bool
is_text (some (Content.output_text _)) = true
is_text _ = false

abbrev is_text_at : ℕ → Option Item → Bool
is_text_at c (some (Item.message m)) = is_text (flatten (get_elem? m.content c))
is_text_at c i = false

-- A write at a negative index panics, once the item is of the kind that has such parts.
abbrev unless : Bool → Accumulator → Option Accumulator
unless true a = none
unless false a = some a

unfoldable pub set_part : Accumulator → ℤ → ℤ → Option Content → Option Accumulator
unfolding modify_item item
set_part a i c none = some a
set_part a i (pos c) (some p) = some (modify_item a i (put_part c p))
set_part a i (negsuc _) (some p) = unless (is_message_at (item a i)) a

unfoldable pub set_summary_part : Accumulator → ℤ → ℤ → Option Content → Option Accumulator
unfolding modify_item item
set_summary_part a i c none = some a
set_summary_part a i (pos c) (some p) = some (modify_item a i (put_summary c p))
set_summary_part a i (negsuc _) (some p) = unless (is_reasoning_at (item a i)) a

-- A delta reads its part behind a bounds check, so a negative index changes nothing.
unfoldable pub on_part : Accumulator → ℤ → ℤ → (Content → Content) → Option Accumulator
unfolding modify_item
on_part a i (pos c) f = some (modify_item a i (change_part c f))
on_part a i (negsuc _) f = some a

unfoldable pub on_summary_part : Accumulator → ℤ → ℤ → (Content → Content) → Option Accumulator
unfolding modify_item
on_summary_part a i (pos c) f = some (modify_item a i (change_summary c f))
on_summary_part a i (negsuc _) f = some a

unfoldable pub on_reasoning_part : Accumulator → ℤ → ℤ → (Content → Content) → Option Accumulator
unfolding modify_item item
on_reasoning_part a i (pos c) f = some (modify_item a i (change_reasoning c f))
on_reasoning_part a i (negsuc _) f = unless (is_reasoning_at (item a i)) a

unfoldable pub on_annotation : Accumulator → ℤ → ℤ → ℤ → Option String → Option Accumulator
unfolding modify_item item
on_annotation a i c n none = some a
on_annotation a i (negsuc _) n (some x) = some a
on_annotation a i (pos c) (pos n) (some x) = some (modify_item a i (change_part c (annotate n x)))
on_annotation a i (pos c) (negsuc _) (some x) = unless (is_text_at c (item a i)) a

abbrev failed_with : ErrorPayload → Option Response → Option Response
failed_with e none = none
failed_with e (some r) = some (record r { error = some e; status = ResponseStatus.failed })

unfoldable pub on_error : Accumulator → ErrorPayload → Accumulator
on_error a e = record a { last_error = some e; resp = failed_with e a.resp }

-- `Add`.
unfoldable pub add : Accumulator → StreamEvent → Option Accumulator
unfolding set_response add_item close_item set_part set_summary_part on_part on_summary_part
    on_reasoning_part on_annotation on_error modify_item
add a (StreamEvent.response_created r) = some (set_response a r)
add a (StreamEvent.response_queued r) = some (set_response a r)
add a (StreamEvent.response_in_progress r) = some (set_response a r)
add a (StreamEvent.response_completed r) = some (set_response a r)
add a (StreamEvent.response_failed r) = some (set_response a r)
add a (StreamEvent.response_incomplete r) = some (set_response a r)
add a (StreamEvent.output_item_added i x) = some (add_item a i x)
add a (StreamEvent.output_item_done i x) = some (close_item a i x)
add a (StreamEvent.content_part_added _ i c p) = set_part a i c p
add a (StreamEvent.content_part_done _ i c p) = set_part a i c p
add a (StreamEvent.output_text_delta _ i c d ls) = on_part a i c (text_delta d ls)
add a (StreamEvent.output_text_done _ i c t ls) = on_part a i c (text_done t ls)
add a (StreamEvent.refusal_delta _ i c d) = on_part a i c (refusal_delta d)
add a (StreamEvent.refusal_done _ i c t) = on_part a i c (refusal_done t)
add a (StreamEvent.function_call_arguments_delta _ i d) = some (modify_item a i (arguments_delta d))
add a (StreamEvent.function_call_arguments_done _ i t) = some (modify_item a i (arguments_done t))
add a (StreamEvent.reasoning_summary_part_added _ i c p) = set_summary_part a i c p
add a (StreamEvent.reasoning_summary_part_done _ i c p) = set_summary_part a i c p
add a (StreamEvent.reasoning_summary_text_delta _ i c d) = on_summary_part a i c (summary_delta d)
add a (StreamEvent.reasoning_summary_text_done _ i c t) = on_summary_part a i c (summary_done t)
add a (StreamEvent.reasoning_delta _ i c d) = on_reasoning_part a i c (reasoning_delta d)
add a (StreamEvent.reasoning_done _ i c t) = on_reasoning_part a i c (reasoning_done t)
add a (StreamEvent.output_text_annotation_added _ i c n x) = on_annotation a i c n x
add a (StreamEvent.error_event e) = some (on_error a e)
add a (StreamEvent.unknown_event _ _) = some a

-- The fold over a stream.
unfoldable pub add_all : Accumulator → List StreamEvent → Option Accumulator
add_all a [] = some a
add_all a (e ∷ es) = Option.bind (add a e) (λ a'. add_all a' es)
