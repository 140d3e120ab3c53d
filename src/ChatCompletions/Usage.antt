-- ===== src/ChatCompletions/Usage.antt =====
-- chatcompletions/response.go, `mapUsage`.
use openresponses.Prelude.{String, if◌then◌else◌, Bool, true, false, Option, none, some, [], ℤ, pos}
use openresponses.Int64.{add64, ltb_ℤ, eq_ℤ}
use openresponses.Event.{is_some}
use openresponses.Extensions.{member}
use openresponses.Adapter.Shapes.{InputDetails, OutputDetails, Usage, set_cache_write_tokens}
use openresponses.ChatCompletions.Chunk.{WireUsage, PromptDetails, CompletionDetails}

module _ (itoa : ℤ → String) (int64 : String → Option ℤ) where
  abbrev pub with_cached : Option ℤ → InputDetails → InputDetails
  with_cached none d = d
  with_cached (some n) d = record d { cached_tokens = n }

  abbrev pub with_writes : Option ℤ → InputDetails → InputDetails
  with_writes none d = d
  with_writes (some n) d = if ltb_ℤ n (pos 0) then d else set_cache_write_tokens itoa n d

  abbrev pub prompt_details : Option PromptDetails → InputDetails
  prompt_details none = record { cached_tokens = pos 0; extra = [] }
  prompt_details (some d) =
      with_writes d.cache_write_tokens
        (with_cached d.cached_tokens (record { cached_tokens = pos 0; extra = d.extra }))

  abbrev pub says_cached : Option PromptDetails → Bool
  says_cached none = false
  says_cached (some d) = is_some d.cached_tokens

  abbrev pub hits : Option ℤ → InputDetails → InputDetails
  hits none d = d
  hits (some n) d = if ltb_ℤ n (pos 0) then d else record d { cached_tokens = n }

  -- DeepSeek's count, read when there is no other.
  abbrev pub with_hits : Bool → Option String → InputDetails → InputDetails
  with_hits true _ d = d
  with_hits false none d = d
  with_hits false (some text) d = hits (int64 text) d

  abbrev pub completion_details : Option CompletionDetails → OutputDetails
  completion_details none = record { reasoning_tokens = pos 0; extra = [] }
  completion_details (some d) = record { reasoning_tokens = d.reasoning_tokens; extra = d.extra }

  -- `mapUsage`.
  unfoldable pub map_usage : WireUsage → Usage
  unfolding member add64
  map_usage u = record {
    input_tokens = u.prompt_tokens;
    input_details =
        with_hits (says_cached u.prompt_tokens_details) (member "prompt_cache_hit_tokens" u.extra)
          (prompt_details u.prompt_tokens_details);
    output_tokens = u.completion_tokens;
    output_details = completion_details u.completion_tokens_details;
    total_tokens =
        if eq_ℤ u.total_tokens (pos 0)
        then add64 u.prompt_tokens u.completion_tokens
        else u.total_tokens;
    extra = u.extra;
  }
