-- ===== src/Store/Entries.antt =====
-- store.go, `MemoryStore`: the ids of a map's entries, and what `put`, `remove` and the loop of
-- `Save` make of them.
use openresponses.Prelude.{
  ℕ, suc, ◌≤◌, String, str_eq, eq_iff, eq_refl, ltb, if◌then◌else◌, Bool, true, false, some, List,
  [], ◌∷◌, ◌++◌, length, ◌≡◌, refl, sym, ap, inl, inr, Bool-cases, arith,
}
use openresponses.Item.{Items}
use openresponses.Event.{is_some}
use openresponses.Store.Memory.{Histories, lookup, put, remove, evict, evict_if, remove_first}

abbrev pub keys : Histories → List String
keys [] = []
keys ((k, _) ∷ m) = k ∷ keys m

-- `Absent k ks`: no entry of `ks` is `k`.
abbrev pub Absent : String → List String → Type 0
Absent k [] = Unit
Absent k (j ∷ ks) = (str_eq j k ≡ false) × Absent k ks

abbrev pub Distinct : List String → Type 0
Distinct [] = Unit
Distinct (k ∷ ks) = Absent k ks × Distinct ks

clash : (b c : Bool) → b ≡ true → b ≡ false → c ≡ false
clash b c p q = cc

pub str_eq_sym : (s t : String) → str_eq s t ≡ false → str_eq t s ≡ false
str_eq_sym s t h = elim (Bool-cases (str_eq t s)) [
  | inl e ↦ clash (str_eq s t) (str_eq t s) ((eq_iff s t).1 (sym ((eq_iff t s).0 e))) h
  | inr e ↦ e
]

-- Putting an entry, by whether its id is there.
pub keys-put_present :
    (m : Histories) (id : String) (h : Items)
    → is_some (lookup m id) ≡ true
    → keys (put m id h) ≡ keys m
keys-put_present [] id h p = cc
keys-put_present ((k, old) ∷ m) id h p = split (str_eq k id) p (keys-put_present m id h)
  where
    split :
        (b : Bool)
        → is_some (if b then some old else lookup m id) ≡ true
        → (is_some (lookup m id) ≡ true → keys (put m id h) ≡ keys m)
        → keys (if b then (k, h) ∷ m else (k, old) ∷ put m id h) ≡ k ∷ keys m
    split true p next = refl
    split false p next = ap (λ ks. k ∷ ks) (next p)

pub keys-put-Absent :
    (m : Histories) (id : String) (h : Items)
    → is_some (lookup m id) ≡ false
    → (keys (put m id h) ≡ keys m ++ id ∷ []) × Absent id (keys m)
keys-put-Absent [] id h p = (refl, tt)
keys-put-Absent ((k, old) ∷ m) id h p = split (str_eq k id) refl p (keys-put-Absent m id h)
  where
    split :
        (b : Bool)
        → str_eq k id ≡ b
        → is_some (if b then some old else lookup m id) ≡ false
        → (is_some (lookup m id) ≡ false
            → (keys (put m id h) ≡ keys m ++ id ∷ []) × Absent id (keys m))
        → (keys (if b then (k, h) ∷ m else (k, old) ∷ put m id h) ≡ k ∷ (keys m ++ id ∷ []))
          × ((str_eq k id ≡ false) × Absent id (keys m))
    split true e p next = cc
    split false e p next = (ap (λ ks. k ∷ ks) (next p).0, (e, (next p).1))

Absent-append :
    (k id : String) (ks : List String)
    → Absent k ks
    → str_eq id k ≡ false
    → Absent k (ks ++ id ∷ [])
Absent-append k id [] a h = (h, tt)
Absent-append k id (j ∷ ks) (e, a) h = (e, Absent-append k id ks a h)

pub Distinct-append :
    (ks : List String) (id : String) → Distinct ks → Absent id ks → Distinct (ks ++ id ∷ [])
Distinct-append [] id d a = (tt, tt)
Distinct-append (k ∷ ks) id (n, d) (e, a) =
    (Absent-append k id ks n (str_eq_sym k id e), Distinct-append ks id d a)

Absent-remove_first :
    (k id : String) (ks : List String) → Absent k ks → Absent k (remove_first ks id)
Absent-remove_first k id [] a = tt
Absent-remove_first k id (j ∷ ks) (e, a) = split (str_eq j id) (Absent-remove_first k id ks a)
  where
    split :
        (b : Bool)
        → Absent k (remove_first ks id)
        → Absent k (if b then ks else j ∷ remove_first ks id)
    split true next = a
    split false next = (e, next)

pub Distinct-remove_first :
    (id : String) (ks : List String) → Distinct ks → Distinct (remove_first ks id)
Distinct-remove_first id [] d = tt
Distinct-remove_first id (j ∷ ks) (n, d) = split (str_eq j id) (Distinct-remove_first id ks d)
  where
    split :
        (b : Bool)
        → Distinct (remove_first ks id)
        → Distinct (if b then ks else j ∷ remove_first ks id)
    split true next = d
    split false next = (Absent-remove_first j id ks n, next)

pub length-remove_first : (id : String) (ks : List String) → length (remove_first ks id) ≤ length ks
length-remove_first id [] = omega arith
length-remove_first id (j ∷ ks) = split (str_eq j id) (length-remove_first id ks)
  where
    split :
        (b : Bool)
        → length (remove_first ks id) ≤ length ks
        → length (if b then ks else j ∷ remove_first ks id) ≤ suc (length ks)
    split true next = omega arith
    split false next = omega (arith, next)

pub keys-remove : (m : Histories) (id : String) → keys (remove m id) ≡ remove_first (keys m) id
keys-remove [] id = refl
keys-remove ((k, h) ∷ m) id = split (str_eq k id) (keys-remove m id)
  where
    split :
        (b : Bool)
        → keys (remove m id) ≡ remove_first (keys m) id
        → keys (if b then m else (k, h) ∷ remove m id)
          ≡ (if b then keys m else k ∷ remove_first (keys m) id)
    split true next = refl
    split false next = ap (λ ks. k ∷ ks) next

-- The abstract view of the store: its newest entries, as many as fit.
abbrev newest_if : Bool → Histories → Histories → Histories
newest_if true fewer all = fewer
newest_if false fewer all = all

abbrev pub newest : ℕ → Histories → Histories
newest capacity [] = []
newest capacity (e ∷ m) = newest_if (ltb capacity (suc (length m))) (newest capacity m) (e ∷ m)

pub length-keys : (m : Histories) → length (keys m) ≡ length m
length-keys [] = refl
length-keys (e ∷ m) = ap suc (length-keys m)

remove_head : (k : String) (h : Items) (m : Histories) → remove ((k, h) ∷ m) k ≡ m
remove_head k h m = rw (eq_refl k) refl

-- The loop of `Save` leaves the newest entries.
pub evict-newest :
    (capacity : ℕ) (m : Histories)
    → evict capacity (keys m) m ≡ (keys (newest capacity m), newest capacity m)
evict-newest capacity [] = refl
evict-newest capacity ((k, h) ∷ m) =
    rw (remove_head k h m, length-keys m, evict-newest capacity m)
      (split (ltb capacity (suc (length m))))
  where
    split :
        (b : Bool)
        → evict_if b (keys (newest capacity m), newest capacity m) (k ∷ keys m, (k, h) ∷ m) ≡ (
          keys (newest_if b (newest capacity m) ((k, h) ∷ m)),
          newest_if b (newest capacity m) ((k, h) ∷ m),
        )
    split true = refl
    split false = refl

pub Distinct-newest :
    (capacity : ℕ) (m : Histories) → Distinct (keys m) → Distinct (keys (newest capacity m))
Distinct-newest capacity [] d = tt
Distinct-newest capacity (e ∷ m) d =
    split (ltb capacity (suc (length m))) (Distinct-newest capacity m d.1)
  where
    split :
        (b : Bool)
        → Distinct (keys (newest capacity m))
        → Distinct (keys (newest_if b (newest capacity m) (e ∷ m)))
    split true next = next
    split false next = d

pub length-newest : (capacity : ℕ) (m : Histories) → length (newest capacity m) ≤ capacity
length-newest capacity [] = omega arith
length-newest capacity (e ∷ m) = ground (arith, length-newest capacity m)
