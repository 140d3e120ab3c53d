-- ===== src/Emitter/State.antt =====
-- emitter.go, `Emitter`: its state, the writers that it opens and what it does to their items. A
-- random identifier (`NewID`) is an argument.
use openresponses.Prelude.{
  ℕ, String, str_eq, if◌then◌else◌, Bool, true, false, Option, none, some, [], ◌∷◌, ◌++◌,
}
use openresponses.Item.{Status, Item, Items, Extra}
use openresponses.Response.{Response, ResponseStatus}
use openresponses.Emitter.Parts.{
  MessageWriter, FunctionCallWriter, ReasoningWriter, message_of, reasoning_of, finish_status,
}

-- The `itemCloser` implementations.
pub data Writer : Type 0 where
  message : MessageWriter → Writer
  call : FunctionCallWriter → Writer
  reasoning : ReasoningWriter → Writer

-- `resp.output` holds the items before that of the open writer.
pub record Emitter (S : Type 0) : Type 0 where
  pub sink : S
  pub resp : Response
  pub started : Bool
  pub terminal : Bool
  pub open_writer : Option Writer

abbrev pub item_of : Writer → Item
item_of (Writer.message w) = Item.message (message_of w)
item_of (Writer.call w) = Item.function_call w.call
item_of (Writer.reasoning w) = Item.reasoning (reasoning_of w)

abbrev pub open_items : Option Writer → Items
open_items none = []
open_items (some w) = some (item_of w) ∷ []

-- `Response()`: the live response, with the item of the open writer.
abbrev pub current : {S : Type 0} → Emitter S → Response
current e = record e.resp { output = e.resp.output ++ open_items e.open_writer }

-- The promotion of an item's status in `closeItem`.
abbrev pub finish_item : Item → Item
finish_item (Item.message m) = Item.message (record m { status = finish_status m.status })
finish_item (Item.function_call c) =
    Item.function_call (record c { status = finish_status c.status })
finish_item (Item.function_call_output o) =
    Item.function_call_output (record o { status = finish_status o.status })
finish_item (Item.reasoning r) = Item.reasoning (record r { status = finish_status r.status })
finish_item (Item.compaction c) = Item.compaction (record c { status = finish_status c.status })
finish_item (Item.unknown_item u) = Item.unknown_item (record u { status = finish_status u.status })
finish_item i = i

-- `markIncomplete`, of a writer that is not closed.
abbrev pub mark_message : Bool → MessageWriter → MessageWriter
mark_message true w = w
mark_message false w = record w { msg = record w.msg { status = Status.incomplete } }

abbrev pub mark_call : Bool → FunctionCallWriter → FunctionCallWriter
mark_call true w = w
mark_call false w = record w { call = record w.call { status = Status.incomplete } }

abbrev pub mark_reasoning : Bool → ReasoningWriter → ReasoningWriter
mark_reasoning true w = w
mark_reasoning false w = record w { item = record w.item { status = Status.incomplete } }

abbrev pub mark_incomplete : Option Writer → Option Writer
mark_incomplete none = none
mark_incomplete (some (Writer.message w)) = some (Writer.message (mark_message w.closed w))
mark_incomplete (some (Writer.call w)) = some (Writer.call (mark_call w.closed w))
mark_incomplete (some (Writer.reasoning w)) = some (Writer.reasoning (mark_reasoning w.closed w))

abbrev pub new_message : String → String → ℕ → Writer
new_message id phase n = Writer.message (record {
  index = n;
  msg = record {
    id = id;
    status = Status.in_progress;
    role = "assistant";
    content = [];
    phase = phase;
    extra = [];
  };
  part = none;
  closed = false;
})

-- An empty call id is replaced by the generated `fresh`.
abbrev pub new_call : String → String → String → String → ℕ → Writer
new_call id fresh call_id name n = Writer.call (record {
  index = n;
  call = record {
    id = id;
    status = Status.in_progress;
    call_id = if str_eq call_id "" then fresh else call_id;
    name = name;
    arguments = "";
    extra = [];
  };
  closed = false;
})

-- `extra` is what a sink that wraps the caller's sets on the new item before it sends it on
-- (`annotate` of providers/anthropic), and nothing elsewhere.
abbrev pub new_reasoning : String → Extra → ℕ → Writer
new_reasoning id extra n = Writer.reasoning (record {
  index = n;
  item = record {
    id = id;
    status = Status.in_progress;
    summary = [];
    content = [];
    encrypted_content = "";
    extra = extra;
  };
  summary = none;
  text_content = none;
  text_done = false;
  closed = false;
})

abbrev if_unset : ResponseStatus → ResponseStatus
if_unset ResponseStatus.unset = ResponseStatus.in_progress
if_unset s = s

-- `NewEmitter`; `fresh` is the id generated for a response without one.
unfoldable pub new_emitter : {S : Type 0} → S → String → Response → Emitter S
new_emitter s fresh r = record {
  sink = s;
  resp = record r { id = if str_eq r.id "" then fresh else r.id; status = if_unset r.status };
  started = false;
  terminal = false;
  open_writer = none;
}
