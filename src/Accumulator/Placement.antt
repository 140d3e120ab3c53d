-- ===== src/Accumulator/Placement.antt =====
-- stream.go, `Accumulator.addItem`, `closeItem` and `item`: where an announced item goes.
use openresponses.Prelude.{
  ℕ, zero, suc, ==_refl, ◌≡◌, refl, if◌then◌else◌, Bool, true, false, ◌&&◌, Option, none, some, [],
  ◌∷◌, length, get_elem?, pos, place,
}
use openresponses.Item.{Item, Items, item_id}
use openresponses.Event.{is_some}
use openresponses.Accumulator.State.{
  Accumulator, output, with_output, update, item_at, position, item, new_position, assign_slot,
  slot, append_reused, is_another, redirect, target, put, set_closed, add_item, close_item, id_of,
}

get_elem-place : (p : ℕ) (x : Item) (out : Items) → get_elem? (place p x out) p ≡ some (some x)
get_elem-place zero x [] = refl
get_elem-place zero x (o ∷ out) = refl
get_elem-place (suc p) x [] = get_elem-place p x []
get_elem-place (suc p) x (o ∷ out) = get_elem-place p x out

-- The slot of the index is the position that was chosen.
abbrev Slotted : ℕ → Accumulator × ℕ → Type 0
Slotted i t = (t.0).slots i ≡ some t.1

update-same : (f : ℕ → Option ℕ) (i p : ℕ) → update f i (some p) i ≡ some p
update-same f i p = rw (==_refl i) refl

slot-Slotted : (a : Accumulator) (i : ℕ) → Slotted i (slot a i)
unfolding slot
slot-Slotted a i = split (a.slots i) refl
  where
    split : (o : Option ℕ) → a.slots i ≡ o → Slotted i (assign_slot a i o)
    split none h = update-same a.slots i (new_position a i)
    split (some p) h = h

redirect-Slotted :
    (x : Item) (same : Bool) (i : ℕ) (t : Accumulator × ℕ)
    → Slotted i t
    → Slotted i (redirect x same i t)
redirect-Slotted x same i (a, p) h = split (
    is_some (item_at (output a) p)
    && a.closed p
    && is_another same (item_id x) (id_of (item_at (output a) p)))
  where
    split : (b : Bool) → Slotted i (if b then append_reused a i else (a, p))
    split true = update-same a.slots i (length (output a))
    split false = h

target-Slotted : (a : Accumulator) (i : ℕ) (x : Item) (same : Bool) → Slotted i (target a i x same)
unfolding target
target-Slotted a i x same =
    redirect-Slotted x same i (slot (with_output a (output a)) i)
      (slot-Slotted (with_output a (output a)) i)

-- An item put at the slot of its index is the item of that index.
put-item :
    (b : Bool) (i : ℕ) (x : Item) (t : Accumulator × ℕ)
    → Slotted i t
    → item (set_closed b (put x t, t.1)) (pos i) ≡ some x
unfolding item position
put-item b i x (a, p) h = rw (h, get_elem-place p x (output a), get_elem-place p x (output a)) refl

-- In any state, after `output_item.added` or `output_item.done` with an item, the item of that output
-- index is this item, also when the index was used before.
pub item-added :
    (a : Accumulator) (i : ℕ) (x : Item)
    → (item (add_item a (pos i) (some x)) (pos i) ≡ some x)
      × (item (close_item a (pos i) (some x)) (pos i) ≡ some x)
unfolding add_item close_item
item-added a i x = (
  put-item false i x (target a i x false) (target-Slotted a i x false),
  put-item true i x (target a i x true) (target-Slotted a i x true),
)
