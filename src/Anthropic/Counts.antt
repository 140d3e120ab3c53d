-- ===== src/Anthropic/Counts.antt =====
-- providers/anthropic/response.go, `usage` and `addUsage`. The members for cache writes in the
-- Extra of the input's details, which this adapter alone writes, are a type of their own.
use openresponses.Prelude.{
  String, str_eq, if◌then◌else◌, Bool, true, false, not, ◌&&◌, ◌||◌, Option, none, some, List, [],
  ◌∷◌, ℤ, pos,
}
use openresponses.Event.{is_some}
use openresponses.Int64.{add64, ltb_ℤ, eq_ℤ}
use openresponses.Anthropic.Shapes.{Split, TokenCounts}

-- No count, a count, or a count with its split by TTL.
pub data Writes : Type 0 where
  unknown : Writes
  counted : ℤ → Writes
  by_ttl : ℤ → List (String × ℤ) → Writes

pub record Counts : Type 0 where
  pub input : ℤ
  pub cached : ℤ
  pub writes : Writes
  pub output : ℤ
  pub reasoning : ℤ
  pub total : ℤ

abbrev pub no_counts : Counts
no_counts = record {
  input = pos 0;
  cached = pos 0;
  writes = Writes.unknown;
  output = pos 0;
  reasoning = pos 0;
  total = pos 0;
}

abbrev pub entry : String → ℤ → List (String × ℤ) → List (String × ℤ)
entry k n m = if eq_ℤ n (pos 0) then m else (k, n) ∷ m

unfoldable pub sum_of : List (String × ℤ) → ℤ
unfolding add64
sum_of [] = pos 0
sum_of ((k, n) ∷ m) = add64 n (sum_of m)

-- `SetCacheWriteTokensByTTL`.
abbrev pub split_writes : List (String × ℤ) → Writes
split_writes m = Writes.by_ttl (sum_of m) m

abbrev pub writes_with : Bool → Split → ℤ → Writes
writes_with true s n = split_writes (entry "5m" s.five_minutes (entry "1h" s.one_hour []))
writes_with false s n = Writes.counted n

abbrev pub writes_of : Option Split → ℤ → Writes
writes_of none n = Writes.counted n
writes_of (some s) n = writes_with (eq_ℤ (add64 s.five_minutes s.one_hour) n) s n

-- `usage`.
unfoldable pub usage : Option Split → TokenCounts → Counts
unfolding add64 sum_of
usage split c =
    let input = add64 (add64 c.input c.cache_read) c.cache_creation in
    record {
      input = input;
      cached = c.cache_read;
      writes =
          if ltb_ℤ (pos 0) c.cache_creation
          then writes_of split c.cache_creation
          else Writes.unknown;
      output = c.output;
      reasoning = c.thinking;
      total = add64 input c.output;
    }

-- `CacheWriteTokens`: a negative count is not valid.
abbrev pub valid_count : ℤ → Option ℤ
valid_count n = if ltb_ℤ n (pos 0) then none else some n

abbrev pub count_of : Writes → Option ℤ
count_of Writes.unknown = none
count_of (Writes.counted n) = valid_count n
count_of (Writes.by_ttl n m) = valid_count n

unfoldable pub no_negative : List (String × ℤ) → Bool
no_negative [] = true
no_negative ((k, n) ∷ m) = if ltb_ℤ n (pos 0) then false else no_negative m

-- `CacheWriteTokensByTTL`: its keys are durations.
abbrev pub split_of : Writes → Option (List (String × ℤ))
split_of (Writes.by_ttl n m) = if no_negative m then some m else none
split_of _ = none

unfoldable pub add_entry : String → ℤ → List (String × ℤ) → List (String × ℤ)
unfolding add64
add_entry k n [] = (k, n) ∷ []
add_entry k n ((j, m) ∷ rest) =
    if str_eq j k then (j, add64 m n) ∷ rest else (j, m) ∷ add_entry k n rest

unfoldable pub add_entries : List (String × ℤ) → List (String × ℤ) → List (String × ℤ)
unfolding add_entry
add_entries a [] = a
add_entries a ((k, n) ∷ b) = add_entries (add_entry k n a) b

abbrev pub or_zero : Option ℤ → ℤ
or_zero none = pos 0
or_zero (some n) = n

abbrev pub or_nil : Option (List (String × ℤ)) → List (String × ℤ)
or_nil none = []
or_nil (some m) = m

-- A split on each side that has a count is summed; a count without one leaves the sum without one.
abbrev pub sum_writes :
    Option ℤ → Option ℤ → Option (List (String × ℤ)) → Option (List (String × ℤ)) → Writes → Writes
sum_writes a b m n old =
    if not (is_some a) && not (is_some b)
    then old
    else if (not (is_some a) || is_some m) && (not (is_some b) || is_some n)
    then split_writes (add_entries (add_entries [] (or_nil m)) (or_nil n))
    else Writes.counted (add64 (or_zero a) (or_zero b))

-- `addUsage`.
unfoldable pub add_usage : Counts → Counts → Counts
unfolding add64 sum_of no_negative add_entries
add_usage a b = record {
  input = add64 a.input b.input;
  cached = add64 a.cached b.cached;
  writes =
      sum_writes (count_of a.writes) (count_of b.writes) (split_of a.writes) (split_of b.writes)
        a.writes;
  output = add64 a.output b.output;
  reasoning = add64 a.reasoning b.reasoning;
  total = add64 a.total b.total;
}
