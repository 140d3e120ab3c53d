-- ===== src/Gemini/Chunk.antt =====
-- The SDK's types that providers/gemini/response.go reads. A pointer is an `Option`.
use openresponses.Prelude.{String, Bool, Option, List, ℤ}

-- The arguments of a call: none, their JSON text, or the error of `json.Marshal`.
pub data Args : Type 0 where
  absent : Args
  encoded unencodable : String → Args

pub record FunctionCall : Type 0 where
  pub id : String
  pub name : String
  pub args : Args

-- What a part holds that the specification has no item for.
pub data Kind : Type 0 where
  executable_code code_execution_result inline_data file_data : Kind

-- `signature` is the base64 text of the thought signature. `kind` is the first of the four that is
-- there. `encoded` is the part's JSON text, or the error of `json.Marshal`.
pub record Part : Type 0 where
  pub text : String
  pub thought : Bool
  pub signature : String
  pub function_call : Option FunctionCall
  pub kind : Option Kind
  pub encoded : Args

pub record Segment : Type 0 where
  pub text : String
  pub start_index : ℤ
  pub end_index : ℤ

pub record Support : Type 0 where
  pub segment : Option Segment
  pub chunk_indices : List ℤ

pub record Web : Type 0 where
  pub uri : String
  pub title : String

-- A chunk is `none` where it is nil or has no Web.
pub record Grounding : Type 0 where
  pub supports : List (Option Support)
  pub chunks : List (Option Web)

pub data FinishReason : Type 0 where
  stop max_tokens safety recitation blocklist prohibited_content spii language : FinishReason
  image_safety image_prohibited_content image_recitation : FinishReason
  other : String → FinishReason

-- The log probabilities are carried as the JSON texts of what they map to.
pub record Candidate : Type 0 where
  pub parts : List Part
  pub logprobs : Option (List String)
  pub grounding : Option Grounding
  pub finish_reason : Option FinishReason
  pub finish_message : String

pub record Metadata : Type 0 where
  pub prompt_token_count : ℤ
  pub tool_use_prompt_token_count : ℤ
  pub candidates_token_count : ℤ
  pub thoughts_token_count : ℤ
  pub total_token_count : ℤ
  pub cached_content_token_count : ℤ

-- `blocked` is whether the feedback on the prompt has a reason. Only the first candidate is read.
pub record Chunk : Type 0 where
  pub model_version : String
  pub usage_metadata : Option Metadata
  pub blocked : Bool
  pub candidates : List Candidate
