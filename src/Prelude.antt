-- ===== src/Prelude.antt =====
-- The names that the other modules share: the libraries', passed on, and small helpers over the
-- native numbers, texts, lists and options. A Go string is a `String`, a slice is a `List`.
use Prim.Native.Nat.{compare, Ordering}
pub use Prim.Native.Nat.{ℕ, zero, suc, ◌+◌, ◌-◌, ◌≤◌, ◌<◌}
pub use Prim.Native.String.{String}
pub use Prim.Native.String.{◌++◌ as str_append}
pub use mathlib.Core.Path.{◌≡◌, refl, sym, ap, subst, ◌∙◌}
pub use mathlib.Core.Logic.{◌≢◌, ◌⊎◌, inl, inr}
pub use mathlib.Core.Bool.{Bool, true, false, not, ◌&&◌, ◌||◌}
pub use mathlib.Core.Option.{Option, none, some}
pub use mathlib.Core.List.{List, [], ◌∷◌, ◌++◌, map, append-nil, append_assoc, map-append}
pub use native.Mathlib.Omega.{arith}
pub use native.Mathlib.Nat.{add-zero, add-suc, add_assoc}
pub use text.Mathlib.Text.{◌==◌ as str_eq}
pub use text.Mathlib.TextEquality.{eq_iff}
pub use text.Mathlib.TextPositions.{eq_refl}

-- The numbers' tests compute to `compare`, which the arithmetic tactics read.
abbrev pub ltb : ℕ → ℕ → Bool
ltb a b = elim (compare a b) [ Ordering.lt ↦ true | _ ↦ false ]

abbrev pub leb : ℕ → ℕ → Bool
leb a b = elim (compare a b) [ Ordering.gt ↦ false | _ ↦ true ]

infix 50 ◌==◌
abbrev pub ◌==◌ : ℕ → ℕ → Bool
a == b = elim (compare a b) [ Ordering.eq ↦ true | _ ↦ false ]

infix 1 if◌then◌else◌
abbrev pub if◌then◌else◌ {ℓ} : {A : Type ℓ} → Bool → A → A → A
if true then x else y = x
if false then x else y = y

-- A split on a computed test that keeps the equation.
pub Bool-cases : (b : Bool) → (b ≡ true) ⊎ (b ≡ false)
Bool-cases true = inl refl
Bool-cases false = inr refl

pub ==_refl : (n : ℕ) → (n == n) ≡ true
==_refl n = ground arith

module _ {ℓ} {A : Type ℓ} where
  abbrev pub length : List A → ℕ
  length [] = 0
  length (x ∷ xs) = suc (length xs)

  abbrev pub get_elem? : List A → ℕ → Option A
  get_elem? [] i = none
  get_elem? (x ∷ xs) zero = some x
  get_elem? (x ∷ xs) (suc i) = get_elem? xs i

  pub length-append : (xs ys : List A) → length (xs ++ ys) ≡ length xs + length ys
  length-append [] ys = omega arith
  length-append (x ∷ xs) ys = omega (arith, length-append xs ys)

  pub Option-cases : (o : Option A) → (o ≡ none) ⊎ ((a : A) × (o ≡ some a))
  Option-cases none = inl refl
  Option-cases (some a) = inr (a, refl)

  -- What an optional value adds to the end of a list.
  abbrev pub to_list : Option A → List A
  to_list none = []
  to_list (some a) = a ∷ []

-- `negsuc n` is -(n + 1).
pub data ℤ : Type 0 where
  pos : ℕ → ℤ
  negsuc : ℕ → ℤ

-- An index `i` against a length or a position `n`.
abbrev pub is_index : ℤ → ℕ → Bool
is_index (pos i) n = i == n
is_index (negsuc _) n = false

module _ {ℓ} {A : Type ℓ} where
  -- `for len(s) <= i { s = append(s, nil) }; s[i] = v`.
  abbrev pub place : ℕ → A → List (Option A) → List (Option A)
  place zero v [] = some v ∷ []
  place zero v (x ∷ xs) = some v ∷ xs
  place (suc i) v [] = none ∷ place i v []
  place (suc i) v (x ∷ xs) = x ∷ place i v xs

  -- A change in place of the value that entry `i` points to; nothing for a nil or missing entry.
  abbrev pub modify : ℕ → (A → A) → List (Option A) → List (Option A)
  modify i f [] = []
  modify zero f (none ∷ xs) = none ∷ xs
  modify zero f (some x ∷ xs) = some (f x) ∷ xs
  modify (suc i) f (x ∷ xs) = x ∷ modify i f xs
