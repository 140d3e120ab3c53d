-- ===== src/Item.antt =====
-- items.go, content.go and the status strings of enums.go: the entries of a conversation. A nil
-- pointer in a slice is `none`. What the modelled code only carries along (log probabilities,
-- annotations, members outside the specification) is kept as its JSON text.
use openresponses.Prelude.{String, str_eq, eq_refl, ◌≡◌, refl, Bool, true, false, Option, List}

-- The item status: "" is `unset`, and any string that is none of the three is `other`.
pub data Status : Type 0 where
  unset in_progress completed incomplete : Status
  other : String → Status

-- The members that a value holds outside the specification: their names and JSON texts.
abbrev pub Extra : Type 0
Extra = List (String × String)

pub record OutputText : Type 0 where
  pub text : String
  pub annotations : List (Option String)
  pub logprobs : List String

-- One part of a message's content or of an item's reasoning.
pub data Content : Type 0 where
  input_text : String → Content
  input_image : String → String → String → Content
  input_file : String → String → String → String → Content
  input_video : String → Content
  output_text : OutputText → Content
  refusal : String → Content
  text : String → Content
  summary_text : String → Content
  reasoning_text : String → Content
  unknown_content : String → String → Content

abbrev pub Contents : Type 0
Contents = List (Option Content)

-- The wire discriminator of a content part.
pub data ContentType : Type 0 where
  input_text input_image input_file input_video output_text refusal : ContentType
  text summary_text reasoning_text : ContentType
  other : String → ContentType

unfoldable pub content_type : Content → ContentType
content_type (Content.input_text _) = ContentType.input_text
content_type (Content.input_image _ _ _) = ContentType.input_image
content_type (Content.input_file _ _ _ _) = ContentType.input_file
content_type (Content.input_video _) = ContentType.input_video
content_type (Content.output_text _) = ContentType.output_text
content_type (Content.refusal _) = ContentType.refusal
content_type (Content.text _) = ContentType.text
content_type (Content.summary_text _) = ContentType.summary_text
content_type (Content.reasoning_text _) = ContentType.reasoning_text
content_type (Content.unknown_content t _) = ContentType.other t

abbrev pub same_content_type : ContentType → ContentType → Bool
same_content_type ContentType.input_text ContentType.input_text = true
same_content_type ContentType.input_image ContentType.input_image = true
same_content_type ContentType.input_file ContentType.input_file = true
same_content_type ContentType.input_video ContentType.input_video = true
same_content_type ContentType.output_text ContentType.output_text = true
same_content_type ContentType.refusal ContentType.refusal = true
same_content_type ContentType.text ContentType.text = true
same_content_type ContentType.summary_text ContentType.summary_text = true
same_content_type ContentType.reasoning_text ContentType.reasoning_text = true
same_content_type (ContentType.other s) (ContentType.other t) = str_eq s t
same_content_type _ _ = false

pub record Message : Type 0 where
  pub id : String
  pub status : Status
  pub role : String
  pub content : Contents
  pub phase : String
  pub extra : Extra

pub record FunctionCall : Type 0 where
  pub id : String
  pub status : Status
  pub call_id : String
  pub name : String
  pub arguments : String
  pub extra : Extra

-- `parts` is `none` for an output that is a plain text.
pub record FunctionCallOutput : Type 0 where
  pub id : String
  pub status : Status
  pub call_id : String
  pub text : String
  pub parts : Option Contents
  pub extra : Extra

pub record ReasoningItem : Type 0 where
  pub id : String
  pub status : Status
  pub summary : Contents
  pub content : Contents
  pub encrypted_content : String
  pub extra : Extra

pub record Compaction : Type 0 where
  pub id : String
  pub status : Status
  pub encrypted_content : String
  pub created_by : String
  pub extra : Extra

pub record UnknownItem : Type 0 where
  pub type : String
  pub id : String
  pub status : Status
  pub raw : String

-- `extension` is a value of a type that another package registered, seen only by its type and its
-- JSON text.
pub data Item : Type 0 where
  message : Message → Item
  function_call : FunctionCall → Item
  function_call_output : FunctionCallOutput → Item
  reasoning : ReasoningItem → Item
  compaction : Compaction → Item
  item_reference : String → Item
  unknown_item : UnknownItem → Item
  extension : String → String → Item

abbrev pub Items : Type 0
Items = List (Option Item)

-- The wire discriminator of an item.
pub data ItemType : Type 0 where
  message function_call function_call_output reasoning compaction item_reference : ItemType
  other : String → ItemType

unfoldable pub item_type : Item → ItemType
item_type (Item.message _) = ItemType.message
item_type (Item.function_call _) = ItemType.function_call
item_type (Item.function_call_output _) = ItemType.function_call_output
item_type (Item.reasoning _) = ItemType.reasoning
item_type (Item.compaction _) = ItemType.compaction
item_type (Item.item_reference _) = ItemType.item_reference
item_type (Item.unknown_item u) = ItemType.other u.type
item_type (Item.extension t _) = ItemType.other t

abbrev pub same_item_type : ItemType → ItemType → Bool
same_item_type ItemType.message ItemType.message = true
same_item_type ItemType.function_call ItemType.function_call = true
same_item_type ItemType.function_call_output ItemType.function_call_output = true
same_item_type ItemType.reasoning ItemType.reasoning = true
same_item_type ItemType.compaction ItemType.compaction = true
same_item_type ItemType.item_reference ItemType.item_reference = true
same_item_type (ItemType.other s) (ItemType.other t) = str_eq s t
same_item_type _ _ = false

pub same_item_type_refl : (t : ItemType) → same_item_type t t ≡ true
same_item_type_refl ItemType.message = refl
same_item_type_refl (ItemType.other s) = eq_refl s
same_item_type_refl _ = refl

-- `itemIdentity`: the id and the status of any item.
unfoldable pub item_identity : Item → String × Status
item_identity (Item.message m) = (m.id, m.status)
item_identity (Item.function_call c) = (c.id, c.status)
item_identity (Item.function_call_output o) = (o.id, o.status)
item_identity (Item.reasoning r) = (r.id, r.status)
item_identity (Item.compaction c) = (c.id, c.status)
item_identity (Item.item_reference id) = (id, Status.unset)
item_identity (Item.unknown_item u) = (u.id, u.status)
item_identity (Item.extension _ _) = ("", Status.unset)

abbrev pub item_id : Item → String
item_id i = (item_identity i).0

pub same_content_type_refl : (t : ContentType) → same_content_type t t ≡ true
same_content_type_refl ContentType.text = refl
same_content_type_refl (ContentType.other s) = eq_refl s
same_content_type_refl _ = refl
