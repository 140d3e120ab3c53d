-- ===== src/Gemini/Locate.antt =====
-- providers/gemini/response.go, `locate` and `usage`.
use openresponses.Prelude.{
  ℕ, ◌+◌, ◌≤◌, String, str_eq, ltb, if◌then◌else◌, Option, none, some, [], ℤ, pos, negsuc, arith,
}
use openresponses.Int64.{add64, eq_ℤ}
use openresponses.Adapter.Shapes.{Usage}
use openresponses.Gemini.Chunk.{Segment, Metadata}

-- `len` of a text; `strings.Index` of a text from an offset on; and the characters between two
-- offsets.
pub record Texts : Type 0 where
  pub len : String → ℕ
  pub index : String → ℕ → String → Option ℕ
  pub rune_count : String → ℕ → ℕ → ℕ

-- `max(0, min(z, n))`.
unfoldable pub clamp : ℤ → ℕ → ℕ
clamp (pos k) n = if ltb k n then k else n
clamp (negsuc _) n = 0

-- `max(a, b)`, and `min(a, b)`.
abbrev pub larger : ℕ → ℕ → ℕ
larger a b = if ltb a b then b else a

abbrev pub smaller : ℕ → ℕ → ℕ
smaller a b = if ltb a b then a else b

module _ (t : Texts) where
  abbrev pub found : String → Segment → ℕ → Option ℕ
  found text seg cited =
      if str_eq seg.text "" then none else t.index text (smaller cited (t.len text)) seg.text

  -- The offsets of the segment, and the offset behind the last citation.
  abbrev pub offsets_at : Option ℕ → Segment → ℕ → ℤ × (ℤ × ℕ)
  offsets_at none seg cited = (seg.start_index, (seg.end_index, cited))
  offsets_at (some i) seg cited =
      (pos (cited + i), (pos (cited + i + t.len seg.text), cited + i + t.len seg.text))

  abbrev pub offsets : String → Segment → ℕ → ℤ × (ℤ × ℕ)
  offsets text seg cited = offsets_at (found text seg cited) seg cited

  unfoldable pub byte_start : String → Segment → ℕ → ℕ
  unfolding clamp
  byte_start text seg cited = clamp (offsets text seg cited).0 (t.len text)

  unfoldable pub byte_end : String → Segment → ℕ → ℕ
  unfolding clamp byte_start
  byte_end text seg cited =
      larger (byte_start text seg cited) (clamp (offsets text seg cited).1.0 (t.len text))

  pub record Located : Type 0 where
    pub start : ℕ
    pub end : ℕ
    pub cited : ℕ

  -- `locate`.
  unfoldable pub locate : String → Segment → ℕ → Located
  unfolding byte_start byte_end
  locate text seg cited =
      let start = t.rune_count text 0 (byte_start text seg cited) in
      record {
        start = start;
        end = start + t.rune_count text (byte_start text seg cited) (byte_end text seg cited);
        cited = (offsets text seg cited).1.1;
      }

  clamp-le : (z : ℤ) (n : ℕ) → clamp z n ≤ n
  unfolding clamp
  clamp-le (pos k) n = ground arith
  clamp-le (negsuc k) n = omega arith

  larger-le : (a b n : ℕ) → a ≤ n → b ≤ n → (a ≤ larger a b) × (larger a b ≤ n)
  larger-le a b n h g = ground arith

  -- Whatever a segment says, and whatever was cited before, `locate` slices the message's text at
  -- offsets that lie in it, in order, and its range is not reversed.
  pub locate_bounds :
      (text : String) (seg : Segment) (cited : ℕ)
      → (byte_start text seg cited ≤ byte_end text seg cited)
        × (byte_end text seg cited ≤ t.len text)
        × ((locate text seg cited).start ≤ (locate text seg cited).end)
  unfolding byte_end byte_start locate
  locate_bounds text seg cited =
      let (h, g) =
        larger-le (clamp (offsets text seg cited).0 (t.len text))
          (clamp (offsets text seg cited).1.0 (t.len text)) (t.len text)
          (clamp-le (offsets text seg cited).0 (t.len text))
          (clamp-le (offsets text seg cited).1.0 (t.len text)) in
      (h, g, omega arith)

-- `usage`.
unfoldable pub usage : Metadata → Usage
unfolding add64
usage u =
    let input = add64 u.prompt_token_count u.tool_use_prompt_token_count in
    let output = add64 u.candidates_token_count u.thoughts_token_count in
    record {
      input_tokens = input;
      input_details = record { cached_tokens = u.cached_content_token_count; extra = [] };
      output_tokens = output;
      output_details = record { reasoning_tokens = u.thoughts_token_count; extra = [] };
      total_tokens =
          if eq_ℤ u.total_token_count (pos 0) then add64 input output else u.total_token_count;
      extra = [];
    }
