-- ===== src/ChatCompletions/Chunk.antt =====
-- chatcompletions/response.go: the shapes of a streamed chunk, after its JSON was decoded. A pointer,
-- and a slice that may be null, is an `Option`.
use openresponses.Prelude.{String, Option, List, ℤ}
use openresponses.Item.{Extra}
use openresponses.Adapter.Shapes.{UrlCitation}

pub record PromptDetails : Type 0 where
  pub cached_tokens : Option ℤ
  pub cache_write_tokens : Option ℤ
  pub extra : Extra

pub record CompletionDetails : Type 0 where
  pub reasoning_tokens : ℤ
  pub extra : Extra

pub record WireUsage : Type 0 where
  pub prompt_tokens : ℤ
  pub completion_tokens : ℤ
  pub total_tokens : ℤ
  pub prompt_tokens_details : Option PromptDetails
  pub completion_tokens_details : Option CompletionDetails
  pub extra : Extra

pub record Annotation : Type 0 where
  pub type : String
  pub url_citation : Option UrlCitation

pub record ToolCallDelta : Type 0 where
  pub index : ℤ
  pub id : String
  pub name : String
  pub arguments : String

-- `reasoning` is what it decodes to, if that is a string.
pub record Delta : Type 0 where
  pub content : Option String
  pub refusal : Option String
  pub reasoning_content : Option String
  pub reasoning : Option String
  pub tool_calls : List ToolCallDelta
  pub annotations : List Annotation

-- The entries of `logprobs` are carried as their JSON texts.
pub record Choice : Type 0 where
  pub index : ℤ
  pub delta : Delta
  pub finish_reason : String
  pub logprobs : Option (List String)

-- A code is a string at OpenAI and a number at some providers.
pub data Code : Type 0 where
  text : String → Code
  number : ℤ → Code
  other : Code

pub record ApiError : Type 0 where
  pub message : String
  pub type : String
  pub code : Code
  pub param : String

pub record Chunk : Type 0 where
  pub model : String
  pub choices : List Choice
  pub usage : Option WireUsage
  pub error : Option ApiError
