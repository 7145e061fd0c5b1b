-- ===== src/Inbox/Item.antt =====
-- item.go and inbox.go, with `actorFromCtx` and the event constructors of create.go.
use inbox.Prelude.{ℤ, String, Option, none, some, List, [], ◌∷◌, ◌<>◌}
use inbox.Effect.{Fallible, value, failure, Outcome, ok, err, panic, and_then}
use inbox.Proto.{Time, Event, ProtoItem, Message, message_name}
use inbox.External.{TagLib, Context, StoredEntity, Env}
use inbox.Inbox.Errors.{Error, wrapped}

-- `inboxv1.ItemMatchConfig().EntityType`
abbrev pub entity_type : String
entity_type = "inbox.v1.Item"

pub record Item (Set Any : Type 0) : Type 0 where
  pub id : String
  pub proto : ProtoItem Any
  pub tags : Set
  pub created_at : Time
  pub updated_at : Time

pub record Meta (Set Any Foreign : Type 0) : Type 0 where
  pub title : String
  pub description : String
  pub deadline : Option Time
  pub payload : Option (Message Foreign)
  pub tags : Set
  pub idempotency_key : String
  pub payload_any : Option Any
  pub payload_type_name : String

pub record ListOpts : Type 0 where
  pub page_size : ℤ
  pub cursor : Option Time

pub record CommentOpts : Type 0 where
  pub visibility : List String
  pub refs : List String

module _ {Set Any : Type 0} (lib : TagLib Set) where
  abbrev with_data : StoredEntity Any → Fallible (ProtoItem Any) → Outcome Error (Item Set Any)
  with_data e (failure text) = err (wrapped "inbox: unmarshal item" text)
  with_data e (value p) = ok (record {
    id = e.id;
    proto = p;
    tags = lib.from_strings e.tags;
    created_at = e.created_at;
    updated_at = e.updated_at;
  })

  unfoldable pub item_from_entity : StoredEntity Any → Outcome Error (Item Set Any)
  item_from_entity e = with_data e e.decoded

  -- The first entity that does not decode ends the loop.
  unfoldable pub items_from_entities : List (StoredEntity Any) → Outcome Error (List (Item Set Any))
  items_from_entities [] = ok []
  items_from_entities (e ∷ entities) =
      let rest = items_from_entities entities in
      and_then (item_from_entity e) (λ item. and_then rest (λ items. ok (item ∷ items)))

unfoldable pub actor_from_ctx : Context → Outcome Error String
actor_from_ctx none = panic "identity: no identity in context"
actor_from_ctx (some id) = ok (id.principal_type <> ":" <> id.principal_id)

module _ {S Set Any Foreign : Type 0} (env : Env S Set Any Foreign) where
  unfoldable pub pack_payload_any : Option (Message Foreign) → Option Any
  pack_payload_any none = none
  pack_payload_any (some msg) = env.new_any msg

  unfoldable pub payload_type_from_msg : Option (Message Foreign) → String
  payload_type_from_msg none = ""
  payload_type_from_msg (some msg) = message_name env.foreign_name msg

  unfoldable pub new_proto_event : String → Message Foreign → Event Any
  new_proto_event actor msg = record {
    at = none;
    actor = actor;
    action = "";
    detail = "";
    data_type = message_name env.foreign_name msg;
    event_data = env.new_any msg;
  }

  unfoldable pub new_proto_event_with_detail : String → String → Message Foreign → Event Any
  unfolding new_proto_event
  new_proto_event_with_detail actor detail msg = record (new_proto_event actor msg) {
    detail = detail;
  }

-- `if evt.GetAt() == nil { evt.At = now }`
abbrev stamped : {Any : Type 0} → Option Time → Time → Event Any → Event Any
stamped none now evt = record evt { at = some now }
stamped (some t) now evt = evt

unfoldable pub stamp : {Any : Type 0} → Time → Event Any → Event Any
stamp now evt = stamped evt.at now evt
