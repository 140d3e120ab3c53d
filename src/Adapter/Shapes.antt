-- ===== src/Adapter/Shapes.antt =====
-- response.go, `Usage`, and content.go, `URLCitation`: what the adapters fill in.
use openresponses.Prelude.{String, ℤ}
use openresponses.Item.{Extra}
use openresponses.Extensions.{set_member, without, cache_write_tokens, cache_write_tokens_by_ttl}

pub record UrlCitation : Type 0 where
  pub url : String
  pub title : String
  pub start_index : ℤ
  pub end_index : ℤ

-- `InputTokensDetails`, `OutputTokensDetails` and `Usage` of response.go.
pub record InputDetails : Type 0 where
  pub cached_tokens : ℤ
  pub extra : Extra

pub record OutputDetails : Type 0 where
  pub reasoning_tokens : ℤ
  pub extra : Extra

pub record Usage : Type 0 where
  pub input_tokens : ℤ
  pub input_details : InputDetails
  pub output_tokens : ℤ
  pub output_details : OutputDetails
  pub total_tokens : ℤ
  pub extra : Extra

module _ (itoa : ℤ → String) where
  -- `SetCacheWriteTokens`.
  unfoldable pub set_cache_write_tokens : ℤ → InputDetails → InputDetails
  unfolding set_member without
  set_cache_write_tokens n d = record d {
    extra = set_member cache_write_tokens (itoa n) (without cache_write_tokens_by_ttl d.extra);
  }
