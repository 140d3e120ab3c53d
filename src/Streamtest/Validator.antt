-- ===== src/Streamtest/Validator.antt =====
-- streamtest/streamtest.go, `Validate` and its `validator`: whether a sequence of events obeys the
-- streaming lifecycle.
use openresponses.Prelude.{
  ℕ, suc, ◌-◌, String, str_eq, ◌==◌, ltb, if◌then◌else◌, Bool, true, false, not, ◌&&◌, Option, none,
  some, List, [], length, ℤ, pos, negsuc, is_index,
}
use openresponses.Item.{
  Item, ItemType, ContentType, item_type, item_id, same_item_type, same_content_type,
}

-- One constructor for each message that the checker reports; `nil_output` stands for the panic of
-- the checker at a nil entry of a terminal response.
pub data Violation : Type 0 where
  no_events first_not_created unterminated after_terminal bad_sequence : Violation
  error_not_failed created_not_first response_null bad_status : Violation
  item_null item_still_open bad_output_index no_open_item wrong_output_index : Violation
  wrong_item_id wrong_item_type done_mismatch part_still_open summary_still_open : Violation
  arguments_done_missing reasoning_done_missing part_null bad_content_index : Violation
  no_open_part wrong_part_type kind_done_missing delta_after_done duplicate_done : Violation
  no_open_summary bad_summary_index output_count_mismatch output_mismatch nil_output : Violation

pub data Result {ℓ} (A : Type ℓ) : Type ℓ where
  ok : A → Result A
  err : Violation → Result A

-- `if err != nil { return err }` behind every step.
module _ {κ} {Next : Type κ} where
  infixl 5 ◌>>=◌ ◌>>◌
  abbrev pub ◌>>=◌ {ℓ} : {Done : Type ℓ} → Result Done → (Done → Result Next) → Result Next
  err violation >>= go_on = err violation
  ok done >>= go_on = go_on done

  abbrev pub ◌>>◌ : Result (Unit {0}) → Result Next → Result Next
  check >> rest = check >>= λ _. rest

-- A guard: `if (bad) { return at(v) }`.
abbrev pub refuse : Bool → Violation → Result (Unit {0})
refuse true v = err v
refuse false v = ok tt

pub record PartState : Type 0 where
  pub typ : ContentType
  pub done : Bool
  pub kind_done : Bool

-- `part` and `summary` point at the last element of `parts` and `summaries`: these lists hold the
-- parts that are done, and the open part stands beside them.
pub record ItemState : Type 0 where
  pub index : ℤ
  pub item : Item
  pub id : String
  pub typ : ItemType
  pub done : Bool
  pub parts : List PartState
  pub part : Option PartState
  pub summaries : List PartState
  pub summary : Option PartState
  pub text_open : Bool
  pub text_done : Bool
  pub args_done : Bool

-- `open` points at the last element of `items`: here `items` holds those that are done.
pub record Validator : Type 0 where
  pub allow_reuse : Bool
  pub indexes : ℕ
  pub items : List ItemState
  pub open_item : Option ItemState
  pub terminal : Bool
  pub error_seen : Bool

abbrev pub new_validator : Bool → Validator
new_validator allow_reuse = record {
  allow_reuse = allow_reuse;
  indexes = 0;
  items = [];
  open_item = none;
  terminal = false;
  error_seen = false;
}

-- `len(st.parts)`, the open part included.
abbrev pub count_parts : List PartState → Option PartState → ℕ
count_parts parts none = length parts
count_parts parts (some _) = suc (length parts)

abbrev pub same_int : ℤ → ℤ → Bool
same_int (pos i) (pos j) = i == j
same_int (negsuc i) (negsuc j) = i == j
same_int _ _ = false

abbrev pub or_fail {ℓ} : {A : Type ℓ} → Option A → Violation → Result A
or_fail none v = err v
or_fail (some a) v = ok a

-- `openItem`.
unfoldable pub open_item_at : Validator → ℤ → String → Result ItemState
open_item_at v index item_id = do
  st ← or_fail v.open_item Violation.no_open_item
  refuse (not (same_int st.index index)) Violation.wrong_output_index
  refuse (not (str_eq item_id "") && not (str_eq item_id st.id)) Violation.wrong_item_id
  ok st

-- `openTyped`.
unfoldable pub open_typed : Validator → ℤ → String → ItemType → Result ItemState
unfolding open_item_at
open_typed v index item_id typ = do
  st ← open_item_at v index item_id
  refuse (not (same_item_type st.typ typ)) Violation.wrong_item_type
  ok st

abbrev pub unlike : PartState → Option ContentType → Bool
unlike p none = false
unlike p (some t) = not (same_content_type p.typ t)

-- `openPart`; with no `typ` any kind of part will do. The open part is returned with its item.
unfoldable pub open_part :
    Validator → ℤ → String → ℤ → Option ContentType → Result (ItemState × PartState)
unfolding open_typed
open_part v index item_id content_index typ = do
  st ← open_typed v index item_id ItemType.message
  p ← or_fail st.part Violation.no_open_part
  refuse (not (is_index content_index (count_parts st.parts st.part - 1)))
      Violation.bad_content_index
  refuse (unlike p typ) Violation.wrong_part_type
  ok (st, p)

-- `openSummary`.
unfoldable pub open_summary : Validator → ℤ → String → ℤ → Result (ItemState × PartState)
unfolding open_typed
open_summary v index item_id summary_index = do
  st ← open_typed v index item_id ItemType.reasoning
  p ← or_fail st.summary Violation.no_open_summary
  refuse (not (is_index summary_index (count_parts st.summaries st.summary - 1)))
      Violation.bad_summary_index
  ok (st, p)

abbrev pub new_part : ContentType → PartState
new_part t = record { typ = t; done = false; kind_done = false }

abbrev pub is_message : Item → Bool
is_message (Item.message _) = true
is_message _ = false

abbrev pub is_function_call : Item → Bool
is_function_call (Item.function_call _) = true
is_function_call _ = false

-- The kinds that have an event of their own before `content_part.done`.
abbrev pub has_kind_event : ContentType → Bool
has_kind_event ContentType.output_text = true
has_kind_event ContentType.refusal = true
has_kind_event _ = false

-- The index of an added item: the next unused one, or with `allow_reuse` one used before.
unfoldable pub next_indexes : Validator → ℤ → Result ℕ
next_indexes v (negsuc _) = err Violation.bad_output_index
next_indexes v (pos i) =
    if i == v.indexes
    then ok (suc v.indexes)
    else if v.allow_reuse && ltb i v.indexes
    then ok v.indexes
    else err Violation.bad_output_index

unfoldable pub new_item_state : ℤ → Item → ItemState
new_item_state index item = record {
  index = index;
  item = item;
  id = item_id item;
  typ = item_type item;
  done = false;
  parts = [];
  part = none;
  summaries = [];
  summary = none;
  text_open = false;
  text_done = false;
  args_done = false;
}
