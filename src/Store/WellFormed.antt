-- ===== src/Store/WellFormed.antt =====
-- store.go, `MemoryStore`: its order, its map and its capacity.
use openresponses.Prelude.{
  zero, suc, ◌≤◌, String, Bool, true, false, List, [], ◌∷◌, ◌++◌, length, ◌≡◌, refl, sym, ap, subst,
  ◌∙◌, arith, ℤ, pos, negsuc,
}
use openresponses.Item.{Items}
use openresponses.Event.{is_some}
use openresponses.Store.Memory.{
  lookup, put, MemoryStore, new_memory_store, evict, order_with, with_entries, save, remove_first,
  delete_known, delete, len,
}
use openresponses.Store.Entries.{
  keys, Absent, Distinct, keys-put_present, keys-put-Absent, Distinct-append, Distinct-remove_first,
  length-remove_first, keys-remove, newest, length-keys, evict-newest, Distinct-newest,
  length-newest,
}

-- The map has the ids of the order, each once, and no more of them than fit.
pub record WellFormed (m : MemoryStore) : Type 0 where
  pub in_step : keys m.items ≡ m.order
  pub distinct : Distinct m.order
  pub fits : length m.order ≤ m.capacity
  pub has_room : 1 ≤ m.capacity

-- The order and the map of `Save`, before the loop.
put_in_step :
    (b : Bool) (m : MemoryStore) (id : String) (h : Items)
    → WellFormed m
    → is_some (lookup m.items id) ≡ b
    → (keys (put m.items id h) ≡ order_with b m.order id) × Distinct (order_with b m.order id)
put_in_step true m id h w p = (keys-put_present m.items id h p ∙ w.in_step, w.distinct)
put_in_step false m id h w p =
    let (same, absent) = keys-put-Absent m.items id h p in
    (
      same ∙ ap (λ ks. ks ++ id ∷ []) w.in_step,
      Distinct-append m.order id w.distinct (subst (λ ks. Absent id ks) w.in_step absent),
    )

-- On a well-formed store `Save` keeps the newest entries that fit, after the entry was put.
pub save-newest :
    (m : MemoryStore) (id : String) (h : Items)
    → WellFormed m
    → save m id h ≡ record m {
      order = keys (newest m.capacity (put m.items id h));
      items = newest m.capacity (put m.items id h);
    }
unfolding save
save-newest m id h w =
    let (same, _) = put_in_step (is_some (lookup m.items id)) m id h w refl in
    ap (with_entries m) (
      ap (λ ks. evict m.capacity ks (put m.items id h)) (sym same)
      ∙ evict-newest m.capacity (put m.items id h))

save-WellFormed :
    (m : MemoryStore) (id : String) (h : Items) → WellFormed m → WellFormed (save m id h)
save-WellFormed m id h w =
    let (same, distinct) = put_in_step (is_some (lookup m.items id)) m id h w refl in
    let kept = newest m.capacity (put m.items id h) in
    subst WellFormed (sym (save-newest m id h w)) (record {
      in_step = refl;
      distinct = Distinct-newest m.capacity (put m.items id h) (subst Distinct (sym same) distinct);
      fits =
          subst (λ n. n ≤ m.capacity) (sym (length-keys kept))
            (length-newest m.capacity (put m.items id h));
      has_room = w.has_room;
    })

delete-WellFormed : (m : MemoryStore) (id : String) → WellFormed m → WellFormed (delete m id)
unfolding delete
delete-WellFormed m id w = split (is_some (lookup m.items id))
  where
    split : (b : Bool) → WellFormed (delete_known b m id)
    split false = w
    split true = record {
      in_step = keys-remove m.items id ∙ ap (λ ks. remove_first ks id) w.in_step;
      distinct = Distinct-remove_first id m.order w.distinct;
      fits = omega (arith, w.fits, length-remove_first id m.order);
      has_room = w.has_room;
    }

new_memory_store-WellFormed : (capacity : ℤ) → WellFormed (new_memory_store capacity)
unfolding new_memory_store
new_memory_store-WellFormed (negsuc n) = record {
  in_step = refl;
  distinct = tt;
  fits = omega arith;
  has_room = omega arith;
}
new_memory_store-WellFormed (pos zero) = record {
  in_step = refl;
  distinct = tt;
  fits = omega arith;
  has_room = omega arith;
}
new_memory_store-WellFormed (pos (suc n)) = record {
  in_step = refl;
  distinct = tt;
  fits = omega arith;
  has_room = omega arith;
}

-- The calls that change a store.
pub data StoreCall : Type 0 where
  saves : String → Items → StoreCall
  deletes : String → StoreCall

abbrev pub apply : MemoryStore → StoreCall → MemoryStore
apply m (StoreCall.saves id h) = save m id h
apply m (StoreCall.deletes id) = delete m id

abbrev pub apply_all : MemoryStore → List StoreCall → MemoryStore
apply_all m [] = m
apply_all m (c ∷ cs) = apply_all (apply m c) cs

apply-WellFormed : (m : MemoryStore) (c : StoreCall) → WellFormed m → WellFormed (apply m c)
apply-WellFormed m (StoreCall.saves id h) w = save-WellFormed m id h w
apply-WellFormed m (StoreCall.deletes id) w = delete-WellFormed m id w

apply_all-WellFormed :
    (cs : List StoreCall) (m : MemoryStore) → WellFormed m → WellFormed (apply_all m cs)
apply_all-WellFormed [] m w = w
apply_all-WellFormed (c ∷ cs) m w = apply_all-WellFormed cs (apply m c) (apply-WellFormed m c w)

-- A new store, after any saves and deletes, is well-formed.
pub new-WellFormed :
    (capacity : ℤ) (cs : List StoreCall) → WellFormed (apply_all (new_memory_store capacity) cs)
new-WellFormed capacity cs =
    apply_all-WellFormed cs (new_memory_store capacity) (new_memory_store-WellFormed capacity)

-- In a well-formed store `Len` is the length of the order, and at most the capacity.
pub len-fits : (m : MemoryStore) → WellFormed m → (len m ≡ length m.order) × (len m ≤ m.capacity)
unfolding len
len-fits m w =
    let same : length m.items ≡ length m.order = sym (length-keys m.items) ∙ ap length w.in_step in
    (same, omega (arith, same, w.fits))
