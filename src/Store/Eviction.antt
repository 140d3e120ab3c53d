-- ===== src/Store/Eviction.antt =====
-- store.go, `MemoryStore.Save`: what a save to a full store forgets.
use openresponses.Prelude.{
  ℕ, suc, ◌≤◌, String, str_eq, if◌then◌else◌, Bool, true, false, none, some, List, [], ◌∷◌, length,
  ◌≡◌, refl, sym, ap, subst, ◌∙◌, inl, inr, Bool-cases, arith, ◌⊎◌,
}
use openresponses.Item.{Items}
use openresponses.Event.{is_some}
use openresponses.Store.Memory.{Histories, lookup, put, MemoryStore, load, save}
use openresponses.Store.Entries.{keys, Distinct, newest, str_eq_sym}
use openresponses.Store.WellFormed.{WellFormed, save-newest}
use openresponses.Store.Lookup.{
  lookup-put, lookup-put_other, lookup-Absent, newest-drops, put_present, put_absent, length-items,
  load-kept,
}

put_tail :
    (k : String) (old : Items) (m : Histories) (id : String) (h : Items)
    → is_some (lookup ((k, old) ∷ m) id) ≡ false
    → (put ((k, old) ∷ m) id h ≡ (k, old) ∷ put m id h)
      × (is_some (lookup m id) ≡ false)
      × (str_eq k id ≡ false)
put_tail k old m id h = split (str_eq k id)
  where
    split :
        (b : Bool)
        → is_some (if b then some old else lookup m id) ≡ false
        → ((if b then (k, h) ∷ m else (k, old) ∷ put m id h) ≡ (k, old) ∷ put m id h)
          × (is_some (lookup m id) ≡ false)
          × (b ≡ false)
    split true p = cc
    split false p = (refl, p, refl)

-- A save of a new id to a full map takes the oldest entry out.
newest-put :
    (capacity : ℕ) (k : String) (old : Items) (m : Histories) (id : String) (h : Items)
    → is_some (lookup ((k, old) ∷ m) id) ≡ false
    → suc (length m) ≡ capacity
    → newest capacity (put ((k, old) ∷ m) id h) ≡ put m id h
newest-put capacity k old m id h p full =
    let (same, absent, _) = put_tail k old m id h p in
    ap (newest capacity) same
    ∙ newest-drops capacity (k, old) (put m id h) (put_absent m id h absent ∙ full)

lookup-newest-put :
    (capacity : ℕ) (m : Histories) (id : String) (h : Items)
    → is_some (lookup m id) ≡ false
    → length m ≡ capacity
    → 1 ≤ capacity
    → lookup (newest capacity (put m id h)) id ≡ some h
lookup-newest-put capacity [] id h p full room = ground arith
lookup-newest-put capacity ((k, old) ∷ m) id h p full room =
    ap (λ es. lookup es id) (newest-put capacity k old m id h p full) ∙ lookup-put m id h

full_or_fits : (a b : ℕ) → a ≤ b → (suc a ≤ b) ⊎ (a ≡ b)
full_or_fits a b h = ground arith

-- On a well-formed store `Load` finds what `Save` put, also when the store was full.
pub load-save :
    (m : MemoryStore) (id : String) (h : Items) → WellFormed m → load (save m id h) id ≡ some h
unfolding load
load-save m id h w = elim (Bool-cases (is_some (lookup m.items id))) [
  | inl known ↦ kept (omega (arith, put_present m.items id h known, length-items m w, w.fits))
  | inr new ↦
      elim (full_or_fits (length m.items) m.capacity (omega (arith, length-items m w, w.fits))) [
        | inl fits ↦ kept (omega (arith, put_absent m.items id h new, fits))
        | inr full ↦
            ap (λ s. lookup s.items id) (save-newest m id h w)
            ∙ lookup-newest-put m.capacity m.items id h new full w.has_room
      ]
]
  where
    kept : length (put m.items id h) ≤ m.capacity → lookup (save m id h).items id ≡ some h
    kept fits = load-kept m id id h w fits ∙ lookup-put m.items id h

-- A save of a new id to a full, well-formed store forgets the oldest id, and every other id is found
-- as before.
pub save-evicts :
    (m : MemoryStore) (id oldest other : String) (order : List String) (h : Items)
    → WellFormed m
    → load m id ≡ none
    → m.order ≡ oldest ∷ order
    → length m.order ≡ m.capacity
    → str_eq oldest other ≡ false
    → str_eq id other ≡ false
    → (load (save m id h) oldest ≡ none) × (load (save m id h) other ≡ load m other)
unfolding load
save-evicts m id oldest other order h w new first full n n' =
    split m.items (w.in_step ∙ first) (ap is_some new) (length-items m w ∙ full)
      (subst Distinct (sym w.in_step) w.distinct)
      (λ j. ap (λ s. lookup s.items j) (save-newest m id h w))
  where
    split :
        (es : Histories)
        → keys es ≡ oldest ∷ order
        → is_some (lookup es id) ≡ false
        → length es ≡ m.capacity
        → Distinct (keys es)
        → ((j : String) → lookup (save m id h).items j ≡ lookup (newest m.capacity (put es id h)) j)
        → (lookup (save m id h).items oldest ≡ none)
          × (lookup (save m id h).items other ≡ lookup es other)
    split [] k p f d step = cc
    split ((j, old) ∷ es) k p f (a, d) step =
        let (_, _, differs) = put_tail j old es id h p in
        let same : j ≡ oldest = cc in
        let here : (x : String) → str_eq id x ≡ false → lookup (save m id h).items x ≡ lookup es x =
          λ x nx.
            step x
            ∙ ap (λ s. lookup s x) (newest-put m.capacity j old es id h p f)
            ∙ lookup-put_other es id x h nx in
        (
          subst (λ x. lookup (save m id h).items x ≡ none) same
              (here j (str_eq_sym j id differs) ∙ lookup-Absent es j a),
          here other n'
              ∙ sym (
                  ap (λ b. if b then some old else lookup es other)
                    (subst (λ x. str_eq x other ≡ false) (sym same) n)),
        )
