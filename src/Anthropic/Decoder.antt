-- ===== src/Anthropic/Decoder.antt =====
-- providers/anthropic/response.go, `decoder`: an event of the Messages API becomes calls of the
-- emitter. A pointer to a writer is a mark that the decoder holds one. The emitter may have closed
-- that writer since, and opened another of a different kind: then a call of the old one fails, and
-- its Close does nothing. The category of a refusal, a member of incomplete_details, is left out.
use openresponses.Prelude.{ℕ, suc, String, str_eq, Bool, true, false, Option, none, some, List, []}
use openresponses.EventSink.{EventSink}
use openresponses.Emitter.State.{Writer}
use openresponses.Emitter.Calls.{Call}
use openresponses.Adapter.Shapes.{UrlCitation}
use openresponses.Adapter.Steps.{Feed, Step, ◌>>◌, skip, when, updates, calls, calls_new}
use openresponses.Anthropic.Shapes.{Split, StopReason}
use openresponses.Anthropic.Counts.{Counts, no_counts}

-- `fields` is the JSON text of the block's start.
pub record RawBlock : Type 0 where
  pub typ : String
  pub fields : String
  pub input : String
  pub text : String

-- A citation whose end is not known yet, or the JSON text of an annotation.
pub data Pending : Type 0 where
  url : String → String → ℕ → Pending
  other : String → Pending

pub record Decoder : Type 0 where
  pub msg : Bool
  pub reasoning : Bool
  pub call : Bool
  pub call_wrote : Bool
  pub raw : Option RawBlock
  pub citations : List Pending
  pub block_start : ℕ
  pub usage : Counts
  pub turn : Counts
  pub split : Option Split
  pub stop : Option StopReason
  pub explanation : String
  pub seen : Bool

abbrev pub new_decoder : Decoder
new_decoder = record {
  msg = false;
  reasoning = false;
  call = false;
  call_wrote = false;
  raw = none;
  citations = [];
  block_start = 0;
  usage = no_counts;
  turn = no_counts;
  split = none;
  stop = none;
  explanation = "";
  seen = false;
}

-- What the decoder uses of the libraries: the identifiers of `NewID`; the JSON texts of a string, a
-- citation, the usage, a block with what its deltas added, and of an extension item, by its type, id
-- and block; `json.Valid`; and the clock.
pub record Externals : Type 0 where
  pub ids : ℕ → String
  pub quoted : String → String
  pub citation_text : UrlCitation → String
  pub usage_text : Counts → String
  pub block_text : RawBlock → String
  pub raw_text : String → String → String → String
  pub valid_json : String → Bool
  pub now : ℕ

abbrev pub is_empty : String → Bool
is_empty s = str_eq s ""

abbrev pub slug : String
slug = "anthropic."

abbrev pub issuer : String
issuer = "anthropic"

-- `utf8.RuneCountInString`.
unfoldable pub rune_count : String → ℕ
rune_count String.[] = 0
rune_count (String.◌∷◌ c s) = suc (rune_count s)

abbrev pub is_message : Option Writer → Bool
is_message (some (Writer.message w)) = true
is_message _ = false

abbrev pub is_reasoning : Option Writer → Bool
is_reasoning (some (Writer.reasoning w)) = true
is_reasoning _ = false

abbrev pub is_call : Option Writer → Bool
is_call (some (Writer.call w)) = true
is_call _ = false

abbrev pub encrypted_of : Option Writer → String
encrypted_of (some (Writer.reasoning w)) = w.item.encrypted_content
encrypted_of _ = ""

module _ {S : Type 0} (k : EventSink S) (x : Externals) where
  abbrev pub Decode : Type 0
  Decode = Step (Feed Decoder S)

  -- `Close` of a writer held: nothing, if the emitter's last one is of another kind.
  abbrev pub closes_if : (Option Writer → Bool) → Decode
  closes_if is f = when (is f.emitter.open_writer) (calls k Call.closes) f

  abbrev pub lets_message_go : Decode
  lets_message_go = updates (λ (d : Decoder). record d { msg = false; citations = [] })

  abbrev pub lets_reasoning_go : Decode
  lets_reasoning_go = updates (λ (d : Decoder). record d { reasoning = false })

  abbrev pub lets_call_go : Decode
  lets_call_go = updates (λ (d : Decoder). record d { call = false })

  abbrev pub close_held : Bool → Bool → Bool → Decode
  close_held true _ _ = lets_message_go >> closes_if is_message
  close_held false true _ = lets_reasoning_go >> closes_if is_reasoning
  close_held false false true = lets_call_go >> closes_if is_call
  close_held false false false = skip

  -- `closeOpen`.
  unfoldable pub close_open : Decode
  close_open f = close_held f.decoder.msg f.decoder.reasoning f.decoder.call f

  abbrev pub holds_message : Decode
  holds_message = updates (λ (d : Decoder). record d { msg = true; block_start = 0 })

  abbrev pub open_message_unless : Bool → Decode
  open_message_unless true = skip
  open_message_unless false =
      close_open >> calls_new k x.ids (λ id _. Call.message id "final_answer") >> holds_message

  -- `openMessage`.
  unfoldable pub open_message : Decode
  unfolding close_open
  open_message f = open_message_unless f.decoder.msg f
