-- ===== src/Emitter/Lifecycle/Items.antt =====
-- The output of a response against the items that the checker of streamtest/streamtest.go has seen.
use openresponses.Prelude.{eq_refl, ◌≡◌, refl, none, some, List, [], ◌∷◌, ◌++◌, length, arith}
use openresponses.Item.{Item, Items, item_type, item_id, same_item_type_refl}
use openresponses.Streamtest.Validator.{ItemState, ok}
use openresponses.Streamtest.Step.{match_output}

-- The same items, by type and id, in the same order.
abbrev pub Matches : Items → List ItemState → Type 0
Matches [] [] = Unit
Matches (some i ∷ out) (st ∷ items) =
    (st.typ ≡ item_type i) × (st.id ≡ item_id i) × Matches out items
Matches _ _ = ⊥

pub Matches-append :
    (out : Items) (items : List ItemState) (i : Item) (st : ItemState)
    → Matches out items
    → st.typ ≡ item_type i
    → st.id ≡ item_id i
    → Matches (out ++ some i ∷ []) (items ++ st ∷ [])
Matches-append [] [] i st m t d = (t, d, tt)
Matches-append [] (st' ∷ items) i st m t d = absurd m
Matches-append (none ∷ out) items i st m t d = absurd m
Matches-append (some j ∷ out) [] i st m t d = absurd m
Matches-append (some j ∷ out) (st' ∷ items) i st m t d =
    (m.0, m.1, Matches-append out items i st m.2 t d)

pub length-Matches :
    (out : Items) (items : List ItemState) → Matches out items → length out ≡ length items
length-Matches [] [] m = refl
length-Matches [] (st ∷ items) m = absurd m
length-Matches (none ∷ out) items m = absurd m
length-Matches (some j ∷ out) [] m = absurd m
length-Matches (some j ∷ out) (st ∷ items) m = omega (arith, length-Matches out items m.2)

pub match_output-Matches :
    (out : Items) (items : List ItemState) → Matches out items → match_output out items ≡ ok tt
unfolding match_output
match_output-Matches [] [] m = refl
match_output-Matches [] (st ∷ items) m = absurd m
match_output-Matches (none ∷ out) items m = absurd m
match_output-Matches (some j ∷ out) [] m = absurd m
match_output-Matches (some j ∷ out) (st ∷ items) m =
    rw (m.0, m.1, same_item_type_refl (item_type j), eq_refl (item_id j))
      (match_output-Matches out items m.2)
