-- ===== src/Message.antt =====
-- The conversation data: message/message.go, and the checks of validate.go.
use tacklr.Base.{
  Bool, Option, none, some, List, [], ◌∷◌, Bytes, codes, is_empty, if◌then◌else◌, not,
}
use tacklr.Failure.{Result, ok, err, plain}

-- `Role` is a Go string: `other` is any that the constants do not name.
pub data Role : Type 0 where
  user assistant reasoning system developer tool : Role
  other : Bytes → Role

pub record ImageUrl : Type 0 where
  pub url : Bytes
  pub detail : Bytes

pub record FileData : Type 0 where
  pub file_id : Bytes
  pub url : Bytes
  pub file_bytes : Bytes
  pub mime_type : Bytes
  pub filename : Bytes

pub record UrlAnnotation : Type 0 where
  pub url : Bytes
  pub title : Bytes

pub record Annotation : Type 0 where
  pub type : Bytes
  pub text : Bytes
  pub file_id : Bytes
  pub url : Option UrlAnnotation

pub record ContentPart : Type 0 where
  pub type : Bytes
  pub text : Bytes
  pub refusal : Bytes
  pub image_url : Option ImageUrl
  pub file_data : Option FileData
  pub annotations : List Annotation

pub record ToolCall : Type 0 where
  pub id : Bytes
  pub type : Bytes
  pub call_id : Bytes
  pub name : Bytes
  pub title : Bytes
  pub category : Bytes
  pub namespace : Bytes
  pub arguments : Bytes
  pub status : Bytes

-- `ToolCall.Key`
abbrev pub tool_key : ToolCall → Bytes
tool_key tc = if is_empty tc.id then tc.call_id else tc.id

-- `ToolCall.WireID`
abbrev pub wire_id : ToolCall → Bytes
wire_id tc = if is_empty tc.call_id then tc.id else tc.call_id

-- `StructuredOutput` never leaves the process and is left out.
pub record Message : Type 0 where
  pub role : Role
  pub content : Bytes
  pub message_id : Bytes
  pub encrypted_content : Bytes
  pub content_parts : List ContentPart
  pub tool_calls : List ToolCall
  pub tool_call_id : Bytes

-- `&message.Message{Role: role, Content: content}`
abbrev pub text_message : Role → Bytes → Message
text_message role content = record {
  role = role;
  content = content;
  message_id = [];
  encrypted_content = [];
  content_parts = [];
  tool_calls = [];
  tool_call_id = [];
}

abbrev pub is_tool : Role → Bool
is_tool tool = Bool.true
is_tool _ = Bool.false

abbrev pub is_reasoning : Role → Bool
is_reasoning reasoning = Bool.true
is_reasoning _ = Bool.false

-- The body of the loop of `ValidateMessages`, on the message with this role and call id.
valid_role : Role → Bytes → Result (Unit {0})
valid_role tool call =
    if is_empty call then err (plain (codes "tool message requires tool_call_id")) else ok tt
valid_role (other r) call = err (plain (codes "unsupported role"))
valid_role _ call =
    if not (is_empty call) then err (plain (codes "role cannot have tool_call_id")) else ok tt

-- `ValidateMessages`; `none` is a nil message. The error's index is not kept in its text.
unfoldable pub validate_messages : List (Option Message) → Result (Unit {0})
unfolding valid_role
validate_messages [] = ok tt
validate_messages (none ∷ ms) = err (plain (codes "message is nil"))
validate_messages (some m ∷ ms) = elim (valid_role m.role m.tool_call_id) [
  | ok _ ↦ validate_messages ms
  | err e ↦ err e
]
