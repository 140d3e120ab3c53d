-- ===== src/Accumulator/State.antt =====
-- stream.go, `Accumulator`: its state, and how it finds and places the item of an output index. The
-- values of the model are never shared, so that a copy (`Clone`, `cloneItem`, `cloneContent`) is the
-- value itself.
use openresponses.Prelude.{
  ℕ, suc, String, str_eq, ◌==◌, if◌then◌else◌, Bool, true, false, not, ◌&&◌, ◌||◌, Option, none,
  some, List, [], ◌∷◌, ◌++◌, length, get_elem?, ℤ, pos, negsuc, place,
}
use openresponses.Item.{Item, Items, Status, item_identity, item_id}
use openresponses.Response.{Response, ResponseStatus, ErrorPayload, terminal}
use openresponses.Event.{is_some}

-- `slots` and `closed` are Go maps, here functions: a key that is missing is `none` or `false`.
pub record Accumulator : Type 0 where
  pub resp : Option Response
  pub last_error : Option ErrorPayload
  pub slots : ℕ → Option ℕ
  pub closed : ℕ → Bool
  pub reused : List ℕ

-- The zero value.
abbrev pub empty : Accumulator
empty = record {
  resp = none;
  last_error = none;
  slots = λ _. none;
  closed = λ _. false;
  reused = [];
}

-- `&Response{Status: status}`.
abbrev pub bare_response : ResponseStatus → Response
bare_response status = record {
  id = "";
  created_at = 0;
  completed_at = none;
  status = status;
  incomplete_details = none;
  model = "";
  previous_response_id = none;
  output = [];
  error = none;
  usage = none;
  store = false;
  rest = [];
}

abbrev pub update {ℓ} : {A : Type ℓ} → (ℕ → A) → ℕ → A → ℕ → A
update f k v j = if j == k then v else f j

-- `Response()`: after an error event with no response, a failed one.
abbrev response_of : Option Response → Option ErrorPayload → Option Response
response_of none none = none
response_of none (some e) = some (record (bare_response ResponseStatus.failed) { error = some e })
response_of (some r) _ = some r

unfoldable pub response : Accumulator → Option Response
response a = response_of a.resp a.last_error

-- `ensure`.
abbrev pub ensured : Option Response → Response
ensured none = bare_response ResponseStatus.in_progress
ensured (some r) = r

abbrev pub output : Accumulator → Items
output a = (ensured a.resp).output

abbrev pub with_output : Accumulator → Items → Accumulator
with_output a out = record a { resp = some (record (ensured a.resp) { output = out }) }

abbrev pub is_empty {ℓ} : {A : Type ℓ} → List A → Bool
is_empty [] = true
is_empty (_ ∷ _) = false

abbrev pub flatten {ℓ} : {A : Type ℓ} → Option (Option A) → Option A
flatten none = none
flatten (some o) = o

-- `out[pos]`, or nil when there is none.
abbrev pub item_at : Items → ℕ → Option Item
item_at out p = flatten (get_elem? out p)

-- `itemID`.
abbrev pub id_of : Option Item → String
id_of none = ""
id_of (some i) = item_id i

abbrev pub if_present : Option Item → ℕ → Option ℕ
if_present none p = none
if_present (some _) p = some p

-- The position of an index without a slot: its own, before any reuse.
abbrev pub own_position : Option ℕ → List ℕ → ℕ → Option ℕ
own_position (some p) reused i = some p
own_position none [] i = some i
own_position none (_ ∷ _) i = none

abbrev pub position_in : Accumulator → Option ℕ → Option ℕ
position_in a none = none
position_in a (some p) = if_present (item_at (output a) p) p

-- `Position`. With no response there is no output, and so no position.
unfoldable pub position : Accumulator → ℤ → Option ℕ
position a (negsuc _) = none
position a (pos i) = position_in a (own_position (a.slots i) a.reused i)

-- `ItemAt`, and `item`.
abbrev pub at_position : Items → Option ℕ → Option Item
at_position out none = none
at_position out (some p) = item_at out p

unfoldable pub item : Accumulator → ℤ → Option Item
unfolding position
item a i = at_position (output a) (position a i)

-- `slot`: the position of the item at `i`, which is assigned if the index is new.
abbrev pub new_position : Accumulator → ℕ → ℕ
new_position a i = if is_empty a.reused then i else length (output a)

abbrev pub assign_slot : Accumulator → ℕ → Option ℕ → Accumulator × ℕ
assign_slot a i (some p) = (a, p)
assign_slot a i none =
    (record a { slots = update a.slots i (some (new_position a i)) }, new_position a i)

unfoldable pub slot : Accumulator → ℕ → Accumulator × ℕ
slot a i = assign_slot a i (a.slots i)

-- Whether `new`, announced at a closed position that holds `old`, is another item; `same` says
-- whether an item without an id counts as the closed one.
abbrev pub is_another : Bool → String → String → Bool
is_another same new old = if str_eq new "" then not same else not (str_eq new old)

-- The new item goes to the end of the output, and the reuse of the index is recorded.
abbrev pub append_reused : Accumulator → ℕ → Accumulator × ℕ
append_reused a i = (
  record a { slots = update a.slots i (some (length (output a))); reused = a.reused ++ i ∷ [] },
  length (output a),
)

abbrev pub redirect : Item → Bool → ℕ → Accumulator × ℕ → Accumulator × ℕ
redirect item same i (a, p) =
    if is_some (item_at (output a) p)
      && a.closed p
      && is_another same (item_id item) (id_of (item_at (output a) p))
    then append_reused a i
    else (a, p)

-- `target`: the position that an item announced at `i` goes to.
unfoldable pub target : Accumulator → ℕ → Item → Bool → Accumulator × ℕ
unfolding slot
target a i item same = redirect item same i (slot (with_output a (output a)) i)

abbrev pub put : Item → Accumulator × ℕ → Accumulator
put item (a, p) = with_output a (place p item (output a))

abbrev pub set_closed : Bool → Accumulator × ℕ → Accumulator
set_closed b (a, p) = record a { closed = update a.closed p b }

-- `addItem`: the item is open; `closeItem`: it is closed. A nil item or a negative index is ignored.
unfoldable pub add_item : Accumulator → ℤ → Option Item → Accumulator
unfolding target
add_item a (pos i) (some item) = let t = target a i item false in set_closed false (put item t, t.1)
add_item a _ _ = a

unfoldable pub close_item : Accumulator → ℤ → Option Item → Accumulator
unfolding target
close_item a (pos i) (some item) = let t = target a i item true in set_closed true (put item t, t.1)
close_item a _ _ = a

abbrev holds : Items → String → Bool
holds [] id = false
holds (none ∷ out) id = holds out id
holds (some i ∷ out) id = str_eq (item_id i) id || holds out id

-- `appendUnknown`: the items of a snapshot whose id is not held yet, at the end of `out`.
unfoldable pub append_unknown : Items → Items → Items
append_unknown out [] = out
append_unknown out (none ∷ listed) = append_unknown out listed
append_unknown out (some i ∷ listed) =
    append_unknown
      (if str_eq (item_id i) "" || holds out (item_id i) then out else out ++ some i ∷ []) listed

-- Whether an item with this id stood at a closed position, counted from `p`.
abbrev was_closed : (ℕ → Bool) → ℕ → Items → String → Bool
was_closed closed p [] id = false
was_closed closed p (o ∷ out) id =
    (closed p && str_eq (id_of o) id) || was_closed closed (suc p) out id

abbrev is_final : Status → Bool
is_final Status.completed = true
is_final Status.incomplete = true
is_final _ = false

abbrev relist_slot : Items → ℕ → Option ℕ
relist_slot out p = if_present (item_at out p) p

abbrev relist_closed : Accumulator → Option Item → Bool
relist_closed a none = false
relist_closed a (some i) =
    (not (str_eq (item_id i) "") && was_closed a.closed 0 (output a) (item_id i))
    || is_final (item_identity i).1

-- `relist`: the bookkeeping around a snapshot's list, in which positions are indexes.
unfoldable pub relist : Accumulator → Items → Accumulator
relist a out = record a { slots = relist_slot out; closed = λ p. relist_closed a (item_at out p) }

-- `setResponse`: the snapshot, with the output held so far if the snapshot has none, or if positions
-- are no longer indexes.
unfoldable pub set_response : Accumulator → Option Response → Accumulator
unfolding relist append_unknown terminal
set_response a none = a
set_response a (some r) =
    if is_empty r.output && is_some a.resp && not (is_empty (output a)) && not (terminal r.status)
    then record a { resp = some (record r { output = output a }) }
    else if not (is_empty a.reused) && not (terminal r.status)
    then record a { resp = some (record r { output = append_unknown (output a) r.output }) }
    else record (relist a r.output) { resp = some r }
