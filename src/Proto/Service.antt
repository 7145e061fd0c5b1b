-- ===== src/Proto/Service.antt =====
-- The request and response messages of gen/inbox/v1/service.pb.go.
use inbox.Prelude.{ℤ, String, Option, List}
use inbox.Proto.{Time, ProtoItem}

pub record ProtoIdentity : Type 0 where
  pub tenant_id : String
  pub workspace_id : String
  pub principal_id : String
  pub principal_type : String
  pub roles : List String

pub record InboxItem (Any : Type 0) : Type 0 where
  pub id : String
  pub item : ProtoItem Any
  pub tags : List String
  pub created_at : Option Time
  pub updated_at : Option Time

pub record CreateItemRequest (Any : Type 0) : Type 0 where
  pub identity : Option ProtoIdentity
  pub title : String
  pub description : String
  pub deadline : Option Time
  pub payload_type : String
  pub payload : Option Any
  pub tags : List String
  pub idempotency_key : String

-- `GetItemRequest`, `ClaimItemRequest` and `ReleaseItemRequest` have these two fields.
pub record ItemRequest : Type 0 where
  pub identity : Option ProtoIdentity
  pub id : String

-- `page_size` is an `int32`.
pub record ListItemsRequest : Type 0 where
  pub identity : Option ProtoIdentity
  pub tags : List String
  pub page_size : ℤ
  pub cursor : Option Time

pub record ListItemsResponse (Any : Type 0) : Type 0 where
  pub items : List (InboxItem Any)
  pub next_cursor : Option Time

pub record SearchItemsRequest : Type 0 where
  pub identity : Option ProtoIdentity
  pub query : String
  pub page_size : ℤ

pub record ReassignItemRequest : Type 0 where
  pub identity : Option ProtoIdentity
  pub id : String
  pub from_actor : String
  pub to_actor : String
  pub reason : String

pub record CommentOnItemRequest : Type 0 where
  pub identity : Option ProtoIdentity
  pub id : String
  pub body : String
  pub visibility : List String
  pub refs : List String

pub record AddEventRequest (Any : Type 0) : Type 0 where
  pub identity : Option ProtoIdentity
  pub id : String
  pub detail : String
  pub data_type : String
  pub event_data : Option Any

pub record CloseItemRequest : Type 0 where
  pub identity : Option ProtoIdentity
  pub id : String
  pub reason : String

pub record TagItemRequest : Type 0 where
  pub identity : Option ProtoIdentity
  pub id : String
  pub tags : List String

pub record UntagItemRequest : Type 0 where
  pub identity : Option ProtoIdentity
  pub id : String
  pub tag : String
