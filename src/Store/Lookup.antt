-- ===== src/Store/Lookup.antt =====
-- store.go, `MemoryStore`: what `Load` finds after `Save` and `Delete`.
use openresponses.Prelude.{
  ℕ, suc, ◌≤◌, ◌<◌, String, str_eq, eq_refl, eq_iff, ltb, if◌then◌else◌, Bool, true, false, Option,
  none, some, [], ◌∷◌, length, length-append, ◌≡◌, refl, sym, ap, subst, ◌∙◌, arith,
}
use openresponses.Item.{Items}
use openresponses.Event.{is_some}
use openresponses.Store.Memory.{
  Histories, lookup, put, remove, MemoryStore, load, save, delete_known, delete,
}
use openresponses.Store.Entries.{
  keys, Absent, Distinct, keys-put_present, keys-put-Absent, newest, length-keys,
}
use openresponses.Store.WellFormed.{WellFormed, save-newest}

pub lookup-put : (m : Histories) (id : String) (h : Items) → lookup (put m id h) id ≡ some h
lookup-put [] id h = rw (eq_refl id) refl
lookup-put ((k, old) ∷ m) id h = split (str_eq k id) refl (lookup-put m id h)
  where
    split :
        (b : Bool)
        → str_eq k id ≡ b
        → lookup (put m id h) id ≡ some h
        → lookup (if b then (k, h) ∷ m else (k, old) ∷ put m id h) id ≡ some h
    split true e next = rw e refl
    split false e next = rw e next

pub lookup-put_other :
    (m : Histories) (id other : String) (h : Items)
    → str_eq id other ≡ false
    → lookup (put m id h) other ≡ lookup m other
lookup-put_other [] id other h n = rw n refl
lookup-put_other ((k, old) ∷ m) id other h n =
    split (str_eq k id) refl (lookup-put_other m id other h n)
  where
    split :
        (b : Bool)
        → str_eq k id ≡ b
        → lookup (put m id h) other ≡ lookup m other
        → lookup (if b then (k, h) ∷ m else (k, old) ∷ put m id h) other
          ≡ (if str_eq k other then some old else lookup m other)
    split true e next =
        let n' : str_eq k other ≡ false =
          subst (λ x. str_eq x other ≡ false) (sym ((eq_iff k id).0 e)) n in
        rw n' refl
    split false e next = ap (λ o. if str_eq k other then some old else o) next

-- An absent id is not found.
pub lookup-Absent : (m : Histories) (id : String) → Absent id (keys m) → lookup m id ≡ none
lookup-Absent [] id a = refl
lookup-Absent ((k, h) ∷ m) id (e, a) = rw e (lookup-Absent m id a)

lookup-remove : (m : Histories) (id : String) → Distinct (keys m) → lookup (remove m id) id ≡ none
lookup-remove [] id d = refl
lookup-remove ((k, h) ∷ m) id (a, d) = split (str_eq k id) refl (lookup-remove m id d)
  where
    split :
        (b : Bool)
        → str_eq k id ≡ b
        → lookup (remove m id) id ≡ none
        → lookup (if b then m else (k, h) ∷ remove m id) id ≡ none
    split true e next = lookup-Absent m id (subst (λ x. Absent x (keys m)) ((eq_iff k id).0 e) a)
    split false e next = rw e next

lookup-remove_other :
    (m : Histories) (id other : String)
    → str_eq id other ≡ false
    → lookup (remove m id) other ≡ lookup m other
lookup-remove_other [] id other n = refl
lookup-remove_other ((k, h) ∷ m) id other n =
    split (str_eq k id) refl (lookup-remove_other m id other n)
  where
    split :
        (b : Bool)
        → str_eq k id ≡ b
        → lookup (remove m id) other ≡ lookup m other
        → lookup (if b then m else (k, h) ∷ remove m id) other
          ≡ (if str_eq k other then some h else lookup m other)
    split true e next =
        let n' : str_eq k other ≡ false =
          subst (λ x. str_eq x other ≡ false) (sym ((eq_iff k id).0 e)) n in
        rw n' refl
    split false e next = ap (λ o. if str_eq k other then some h else o) next

newest-fits : (capacity : ℕ) (m : Histories) → length m ≤ capacity → newest capacity m ≡ m
newest-fits capacity [] h = refl
newest-fits capacity (e ∷ m) h = rw (not_less capacity (suc (length m)) h) refl
  where
    not_less : (a b : ℕ) → b ≤ a → ltb a b ≡ false
    not_less a b h = ground arith

pub newest-drops :
    (capacity : ℕ) (e : String × Items) (m : Histories)
    → length m ≡ capacity
    → newest capacity (e ∷ m) ≡ m
newest-drops capacity e m h =
    rw (less capacity (suc (length m)) (omega (arith, h)))
      (newest-fits capacity m (omega (arith, h)))
  where
    less : (a b : ℕ) → a < b → ltb a b ≡ true
    less a b h = ground arith

pub put_present :
    (m : Histories) (id : String) (h : Items)
    → is_some (lookup m id) ≡ true
    → length (put m id h) ≡ length m
put_present m id h p =
    sym (length-keys (put m id h)) ∙ ap length (keys-put_present m id h p) ∙ length-keys m

pub put_absent :
    (m : Histories) (id : String) (h : Items)
    → is_some (lookup m id) ≡ false
    → length (put m id h) ≡ suc (length m)
put_absent m id h p =
    sym (length-keys (put m id h))
    ∙ ap length (keys-put-Absent m id h p).0
    ∙ omega (arith, length-append (keys m) (id ∷ []), length-keys m)

pub length-items : (m : MemoryStore) → WellFormed m → length m.items ≡ length m.order
length-items m w = sym (length-keys m.items) ∙ ap length w.in_step

pub load-kept :
    (m : MemoryStore) (id other : String) (h : Items)
    → WellFormed m
    → length (put m.items id h) ≤ m.capacity
    → load (save m id h) other ≡ lookup (put m.items id h) other
unfolding load
load-kept m id other h w fits =
    ap (λ s. lookup s.items other) (save-newest m id h w)
    ∙ ap (λ es. lookup es other) (newest-fits m.capacity (put m.items id h) fits)

-- On a well-formed store, when the map with the entry put fits the capacity, `Save` adds or replaces
-- its own entry, and keeps every other one.
pub load-save_room :
    (m : MemoryStore) (id other : String) (h : Items)
    → WellFormed m
    → length (put m.items id h) ≤ m.capacity
    → str_eq id other ≡ false
    → (load (save m id h) id ≡ some h) × (load (save m id h) other ≡ load m other)
unfolding load
load-save_room m id other h w fits n = (
  load-kept m id id h w fits ∙ lookup-put m.items id h,
  load-kept m id other h w fits ∙ lookup-put_other m.items id other h n,
)

-- In a well-formed store, after `Delete` the id is not found, and every other id as before.
pub load-delete :
    (m : MemoryStore) (id other : String)
    → WellFormed m
    → str_eq id other ≡ false
    → (load (delete m id) id ≡ none) × (load (delete m id) other ≡ load m other)
unfolding load delete
load-delete m id other w n = split (is_some (lookup m.items id)) refl
  where
    missing : (o : Option Items) → is_some o ≡ false → o ≡ none
    missing none p = refl
    missing (some h) p = cc

    split :
        (b : Bool)
        → is_some (lookup m.items id) ≡ b
        → (lookup (delete_known b m id).items id ≡ none)
          × (lookup (delete_known b m id).items other ≡ lookup m.items other)
    split true p = (
      lookup-remove m.items id (subst Distinct (sym w.in_step) w.distinct),
      lookup-remove_other m.items id other n,
    )
    split false p = (missing (lookup m.items id) p, refl)
