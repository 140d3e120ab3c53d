-- ===== src/Store/Memory.antt =====
-- store.go, `MemoryStore`. The lock makes every method one step.
use openresponses.Prelude.{
  ℕ, zero, suc, String, str_eq, ltb, if◌then◌else◌, Bool, true, false, Option, none, some, List, [],
  ◌∷◌, ◌++◌, length, ℤ, pos, negsuc,
}
use openresponses.Item.{Items}
use openresponses.Event.{is_some}

-- A Go map from ids to histories, as the list of its entries: the order of the entries is not a
-- part of what the map is.
abbrev pub Histories : Type 0
Histories = List (String × Items)

abbrev pub lookup : Histories → String → Option Items
lookup [] id = none
lookup ((k, h) ∷ m) id = if str_eq k id then some h else lookup m id

abbrev pub put : Histories → String → Items → Histories
put [] id h = (id, h) ∷ []
put ((k, old) ∷ m) id h = if str_eq k id then (k, h) ∷ m else (k, old) ∷ put m id h

-- `delete(m.items, id)`. An id has at most one entry.
abbrev pub remove : Histories → String → Histories
remove [] id = []
remove ((k, h) ∷ m) id = if str_eq k id then m else (k, h) ∷ remove m id

pub record MemoryStore : Type 0 where
  pub capacity : ℕ
  pub order : List String
  pub items : Histories

-- `NewMemoryStore`: a capacity below one is treated as one.
abbrev pub at_least_one : ℤ → ℕ
at_least_one (negsuc _) = 1
at_least_one (pos zero) = 1
at_least_one (pos (suc n)) = suc n

unfoldable pub new_memory_store : ℤ → MemoryStore
new_memory_store capacity = record { capacity = at_least_one capacity; order = []; items = [] }

-- `Load`.
unfoldable pub load : MemoryStore → String → Option Items
load m id = lookup m.items id

-- The loop of `Save`: the oldest entries go until the order fits the capacity.
abbrev pub evict_if :
    Bool → List String × Histories → List String × Histories → List String × Histories
evict_if true evicted kept = evicted
evict_if false evicted kept = kept

abbrev pub evict : ℕ → List String → Histories → List String × Histories
evict capacity [] items = ([], items)
evict capacity (oldest ∷ order) items =
    let rest = evict capacity order (remove items oldest) in
    evict_if (ltb capacity (suc (length order))) rest (oldest ∷ order, items)

abbrev pub order_with : Bool → List String → String → List String
order_with true order id = order
order_with false order id = order ++ id ∷ []

abbrev pub with_entries : MemoryStore → List String × Histories → MemoryStore
with_entries m (order, items) = record m { order = order; items = items }

-- `Save`.
unfoldable pub save : MemoryStore → String → Items → MemoryStore
save m id history = with_entries m (
    evict m.capacity (order_with (is_some (lookup m.items id)) m.order id) (put m.items id history))

abbrev pub remove_first : List String → String → List String
remove_first [] id = []
remove_first (k ∷ order) id = if str_eq k id then order else k ∷ remove_first order id

abbrev pub delete_known : Bool → MemoryStore → String → MemoryStore
delete_known false m id = m
delete_known true m id = record m { order = remove_first m.order id; items = remove m.items id }

-- `Delete`.
unfoldable pub delete : MemoryStore → String → MemoryStore
delete m id = delete_known (is_some (lookup m.items id)) m id

-- `Len`.
unfoldable pub len : MemoryStore → ℕ
len m = length m.items
