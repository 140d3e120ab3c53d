-- ===== src/Emitter/Lifecycle/Done.antt =====
-- The state of the checker of streamtest/streamtest.go once it has seen an item done.
use openresponses.Prelude.{ℕ, String, ◌≡◌, false, none, List, [], ◌∷◌, ◌++◌}
use openresponses.Item.{ItemType}
use openresponses.Streamtest.Validator.{Validator, ItemState}

-- `st` is the entry of the item just done, behind `items`, and no item is open.
pub record ItemDone (items : List ItemState) (count : ℕ) (item_id : String) (t : ItemType)
    (v : Validator) (st : ItemState) : Type 0 where
  pub running : v.terminal ≡ false
  pub calm : v.error_seen ≡ false
  pub strict : v.allow_reuse ≡ false
  pub items_done : v.items ≡ items ++ st ∷ []
  pub count_kept : v.indexes ≡ count
  pub none_open : v.open_item ≡ none
  pub id : st.id ≡ item_id
  pub typ : st.typ ≡ t
