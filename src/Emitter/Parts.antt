-- ===== src/Emitter/Parts.antt =====
-- emitter.go, `MessageWriter`, `FunctionCallWriter` and `ReasoningWriter`. A writer points at its
-- item, which is the last one of the response's output, and at the open part, which is the last one
-- of the item. Here the writer holds its item, and the item the parts that are done: `message_of`
-- and its like put the open part at the end.
use openresponses.Prelude.{
  ℕ, ◌-◌, String, str_append, Bool, true, false, Option, none, some, List, [], ◌∷◌, ◌++◌, length,
}
use openresponses.Item.{
  Status, Content, Contents, OutputText, Message, FunctionCall, ReasoningItem, Extra,
}

pub record MessageWriter : Type 0 where
  pub index : ℕ
  pub msg : Message
  pub part : Option Content
  pub closed : Bool

pub record FunctionCallWriter : Type 0 where
  pub index : ℕ
  pub call : FunctionCall
  pub closed : Bool

-- `text_content` is the one entry that `Text` appends to the item's content: `textOpen` holds as
-- soon as it is there.
pub record ReasoningWriter : Type 0 where
  pub index : ℕ
  pub item : ReasoningItem
  pub summary : Option String
  pub text_content : Option String
  pub text_done : Bool
  pub closed : Bool

abbrev pub open_list : Option Content → Contents
open_list none = []
open_list (some p) = some p ∷ []

abbrev pub summary_list : Option String → Contents
summary_list none = []
summary_list (some t) = some (Content.summary_text t) ∷ []

abbrev pub reasoning_list : Option String → Contents
reasoning_list none = []
reasoning_list (some t) = some (Content.reasoning_text t) ∷ []

abbrev pub message_of : MessageWriter → Message
message_of w = record w.msg { content = w.msg.content ++ open_list w.part }

abbrev pub reasoning_of : ReasoningWriter → ReasoningItem
reasoning_of w = record w.item {
  summary = w.item.summary ++ summary_list w.summary;
  content = w.item.content ++ reasoning_list w.text_content;
}

-- `finish` in `closeItem`.
abbrev pub finish_status : Status → Status
finish_status Status.unset = Status.completed
finish_status Status.in_progress = Status.completed
finish_status s = s

abbrev pub empty_text : OutputText
empty_text = record { text = ""; annotations = []; logprobs = [] }

abbrev pub non_nil : List String → Option (List String)
non_nil [] = none
non_nil (l ∷ ls) = some (l ∷ ls)

-- What the writers do to the parts of their items.
abbrev pub add_text : String → Content → Content
add_text d (Content.output_text p) = Content.output_text (record p { text = str_append p.text d })
add_text d p = p

abbrev pub add_annotation : String → Content → Content
add_annotation x (Content.output_text p) =
    Content.output_text (record p { annotations = p.annotations ++ some x ∷ [] })
add_annotation x p = p

abbrev pub add_logprobs : List String → Content → Content
add_logprobs ls (Content.output_text p) =
    Content.output_text (record p { logprobs = p.logprobs ++ ls })
add_logprobs ls p = p

abbrev pub add_refusal : String → Content → Content
add_refusal d (Content.refusal t) = Content.refusal (str_append t d)
add_refusal d p = p

abbrev pub on_open : (Content → Content) → Option Content → Option Content
on_open f none = none
on_open f (some p) = some (f p)

-- The index of the annotation just added to the open part: `len(part.Annotations) - 1`.
abbrev pub annotation_index : Option Content → ℕ
annotation_index (some (Content.output_text p)) = length p.annotations - 1
annotation_index _ = 0

abbrev pub append_delta : Option String → String → Option String
append_delta none d = none
append_delta (some t) d = some (str_append t d)

abbrev pub is_text : Option Content → Bool
is_text (some (Content.output_text _)) = true
is_text _ = false

abbrev pub is_refusal : Option Content → Bool
is_refusal (some (Content.refusal _)) = true
is_refusal _ = false

-- The part `p` is no longer open.
abbrev pub settle : Content → MessageWriter → MessageWriter
settle p w = record w { msg = record w.msg { content = w.msg.content ++ some p ∷ [] }; part = none }

abbrev pub finish_message : MessageWriter → MessageWriter
finish_message w = record w { msg = record w.msg { status = finish_status w.msg.status } }

abbrev pub finish_call : FunctionCallWriter → FunctionCallWriter
finish_call w = record w { call = record w.call { status = finish_status w.call.status } }

abbrev pub finish_reasoning : ReasoningWriter → ReasoningWriter
finish_reasoning w = record w { item = record w.item { status = finish_status w.item.status } }

-- What `EncryptedContent` and `SetIssuer` change of a reasoning item.
abbrev pub set_encrypted : String → ReasoningItem → ReasoningItem
set_encrypted s i = record i { encrypted_content = s }

abbrev pub change_extra : (Extra → Extra) → ReasoningItem → ReasoningItem
change_extra f i = record i { extra = f i.extra }

-- The open summary part `t` is no longer open.
abbrev pub settle_summary : String → ReasoningWriter → ReasoningWriter
settle_summary t w = record w {
  item = record w.item { summary = w.item.summary ++ some (Content.summary_text t) ∷ [] };
  summary = none;
}

abbrev pub or_empty : Option String → Option String
or_empty none = some ""
or_empty (some t) = some t

abbrev pub append_arguments : String → FunctionCallWriter → FunctionCallWriter
append_arguments d w = record w {
  call = record w.call { arguments = str_append w.call.arguments d };
}
