-- ===== src/Store/Outputs.antt =====
-- request.go, `checkFunctionCallOutputs`, against a description of the conversations that it accepts.
use openresponses.Prelude.{
  ℕ, suc, ◌+◌, String, str_eq, Bool, true, false, not, ◌&&◌, ◌||◌, Option, none, some, List, [],
  ◌∷◌, ◌++◌, length, ◌≡◌, sym, ◌∙◌, arith,
}
use openresponses.Item.{Item, Items, FunctionCallOutput}
use openresponses.Store.Continuation.{mem, reject_if, check_outputs, check_function_call_outputs}

-- Whether the items hold a call with this id, or an item that stands for unseen history.
abbrev pub is_call : String → Option Item → Bool
is_call id (some (Item.function_call c)) = str_eq c.call_id id
is_call id _ = false

abbrev pub is_opaque : Option Item → Bool
is_opaque (some (Item.compaction _)) = true
is_opaque (some (Item.item_reference _)) = true
is_opaque (some (Item.unknown_item _)) = true
is_opaque _ = false

abbrev pub called : String → Items → Bool
called id [] = false
called id (i ∷ items) = is_call id i || called id items

abbrev pub hidden : Items → Bool
hidden [] = false
hidden (i ∷ items) = is_opaque i || hidden items

abbrev pub output_of : FunctionCallOutput → Option Item
output_of o = some (Item.function_call_output o)

-- Whether an output of the call `id` behind `pre` is accepted, when `calls` and `opaque` were seen
-- before.
abbrev settled : List String → Bool → String → Items → Bool
settled calls opaque id pre = (mem id calls || called id pre) || (opaque || hidden pre)

move_call : (x m c o : Bool) → (((x || m) || c) || o) ≡ ((m || (x || c)) || o)
move_call x m c o = ground arith

hide : (m c o h : Bool) → ((m || c) || true) ≡ ((m || c) || (o || true))
hide m c o h = ground arith

at_once :
    (m o : Bool) (i : ℕ) (rest : Option ℕ)
    → reject_if (not m && not o) i rest ≡ none
    → ((m || false) || (o || false)) ≡ true
at_once m o i rest h = ground arith

passed : (b : Bool) (i : ℕ) (rest : Option ℕ) → reject_if b i rest ≡ none → rest ≡ none
passed b i rest h = ground arith

check-settled :
    (pre : Items) (o : FunctionCallOutput) (post : Items) (calls : List String) (opaque : Bool)
    (i : ℕ)
    → check_outputs calls opaque i (pre ++ output_of o ∷ post) ≡ none
    → settled calls opaque o.call_id pre ≡ true
check-settled [] o post calls opaque i h = at_once (mem o.call_id calls) opaque i _ h
check-settled (none ∷ pre) o post calls opaque i h = check-settled pre o post calls opaque (suc i) h
check-settled (some (Item.message _) ∷ pre) o post calls opaque i h =
    check-settled pre o post calls opaque (suc i) h
check-settled (some (Item.reasoning _) ∷ pre) o post calls opaque i h =
    check-settled pre o post calls opaque (suc i) h
check-settled (some (Item.extension _ _) ∷ pre) o post calls opaque i h =
    check-settled pre o post calls opaque (suc i) h
check-settled (some (Item.function_call c) ∷ pre) o post calls opaque i h =
    sym (move_call (str_eq c.call_id o.call_id) (mem o.call_id calls) _ _)
    ∙ check-settled pre o post (c.call_id ∷ calls) opaque (suc i) h
check-settled (some (Item.function_call_output o') ∷ pre) o post calls opaque i h =
    check-settled pre o post calls opaque (suc i) (passed _ i _ h)
check-settled (some (Item.compaction _) ∷ pre) o post calls opaque i h =
    sym (hide (mem o.call_id calls) (called o.call_id pre) opaque true)
    ∙ check-settled pre o post calls true (suc i) h
check-settled (some (Item.item_reference _) ∷ pre) o post calls opaque i h =
    sym (hide (mem o.call_id calls) (called o.call_id pre) opaque true)
    ∙ check-settled pre o post calls true (suc i) h
check-settled (some (Item.unknown_item _) ∷ pre) o post calls opaque i h =
    sym (hide (mem o.call_id calls) (called o.call_id pre) opaque true)
    ∙ check-settled pre o post calls true (suc i) h

-- If the check passes, every output in the conversation stands behind a call with its id, or behind
-- an item that stands for history that cannot be seen.
pub check-answered :
    (pre : Items) (o : FunctionCallOutput) (post : Items)
    → check_function_call_outputs (pre ++ output_of o ∷ post) ≡ none
    → (called o.call_id pre || hidden pre) ≡ true
unfolding check_function_call_outputs
check-answered pre o post h = check-settled pre o post [] false 0 h

-- An output at position `j` that nothing before it settles.
abbrev Unsettled : List String → Bool → ℕ → ℕ → Items → Type 0
Unsettled calls opaque i j items =
    (pre : Items) × (o : FunctionCallOutput) × (post : Items) × (items ≡ pre ++ output_of o ∷ post)
    × (i + length pre ≡ j)
    × (settled calls opaque o.call_id pre ≡ false)
