-- ===== src/Anthropic/Shapes.antt =====
-- The SDK's types that providers/anthropic/response.go reads.
use openresponses.Prelude.{String, Option, ℤ}

-- The text of a JSON object that decodes, or the error.
pub data RawJson : Type 0 where
  fields malformed : String → RawJson

pub record Split : Type 0 where
  pub five_minutes : ℤ
  pub one_hour : ℤ

pub record TokenCounts : Type 0 where
  pub input : ℤ
  pub cache_read : ℤ
  pub cache_creation : ℤ
  pub output : ℤ
  pub thinking : ℤ

pub data StopReason : Type 0 where
  end_turn tool_use stop_sequence pause_turn max_tokens context_window_exceeded refusal : StopReason
  other : String → StopReason

-- A block of any other type is kept whole.
pub data Block : Type 0 where
  text : String → Block
  tool_use : String → String → Block
  thinking : String → String → Block
  other : String → RawJson → Block

-- A web search result has a URL and a title; any other citation is the JSON text of the annotation
-- that it becomes.
pub data Citation : Type 0 where
  web : String → String → Citation
  other : RawJson → Citation

pub data Delta : Type 0 where
  text input_json thinking signature : String → Delta
  citation : Citation → Delta
  other : Delta

pub data MessageEvent : Type 0 where
  message_start : String → TokenCounts → Option Split → MessageEvent
  block_start : Block → MessageEvent
  block_delta : Delta → MessageEvent
  block_stop message_stop other : MessageEvent
  message_delta : Option StopReason → String → TokenCounts → MessageEvent
