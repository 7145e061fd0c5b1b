-- ===== src/Proto.antt =====
-- The messages of gen/inbox/v1/item.pb.go and events.pb.go, with the fields that the program reads.
-- `Any` is `anypb.Any`, and `Foreign` the messages that the repository does not define.
pub mod Service
use inbox.Prelude.{ℕ, String, Option, List}

-- An instant, in nanoseconds since Go's zero time.
abbrev pub Time : Type 0
Time = ℕ

pub record Event (Any : Type 0) : Type 0 where
  pub at : Option Time
  pub actor : String
  pub action : String
  pub detail : String
  pub data_type : String
  pub event_data : Option Any

pub record ProtoItem (Any : Type 0) : Type 0 where
  pub idempotency_key : String
  pub title : String
  pub description : String
  pub status : String
  pub deadline : Option Time
  pub payload_type : String
  pub payload : Option Any
  pub events : List (Event Any)

-- `proto.Message`: the event messages of this repository, or one of another package.
pub data Message (Foreign : Type 0) : Type 0 where
  item_created item_claimed item_released : String → Message Foreign
  item_closed : String → String → Message Foreign
  comment_appended : String → List String → List String → Message Foreign
  item_reassigned : String → String → String → Message Foreign
  tags_changed : List String → List String → Message Foreign
  foreign : Foreign → Message Foreign

-- `proto.MessageName`, with `name` for the messages of other packages
abbrev pub message_name : {Foreign : Type 0} → (Foreign → String) → Message Foreign → String
message_name name (item_created _) = "inbox.v1.ItemCreated"
message_name name (item_claimed _) = "inbox.v1.ItemClaimed"
message_name name (item_released _) = "inbox.v1.ItemReleased"
message_name name (item_closed _ _) = "inbox.v1.ItemClosed"
message_name name (comment_appended _ _ _) = "inbox.v1.CommentAppended"
message_name name (item_reassigned _ _ _) = "inbox.v1.ItemReassigned"
message_name name (tags_changed _ _) = "inbox.v1.TagsChanged"
message_name name (foreign m) = name m
