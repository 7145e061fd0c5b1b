-- ===== src/Inbox/Create.antt =====
-- create.go, and the anchors of gen/inbox/v1/item_entitystore.go
pub mod Stored
pub mod Generated
use inbox.Prelude.{String, Option, none, some, List, [], ◌∷◌, ◌==◌, if◌then◌else◌}
use inbox.Effect.{Exec, of_fallible, pure, lift, calls, ◌>>=◌, ◌>>◌}
use inbox.Proto.{Time, ProtoItem, item_created}
use inbox.External.{Context, WriteEntityOp, create, Env}
use inbox.Inbox.Status.{status_open}
use inbox.Inbox.Errors.{Error, wrapped}
use inbox.Inbox.Item.{
  Item, Meta, actor_from_ctx, pack_payload_any, payload_type_from_msg, new_proto_event,
}
use inbox.Inbox.Tokens.{build_tokens}

-- `if meta.IdempotencyKey != "" { writeOp.Anchors = ... }`
unfoldable pub key_anchors : String → List (String × String)
key_anchors key = if key == "" then [] else ("idempotency_key", key) ∷ []

-- the generated `itemAnchors`
unfoldable pub item_anchors : {Any : Type 0} → ProtoItem Any → List (String × String)
item_anchors msg =
    if msg.idempotency_key == "" then [] else ("idempotency_key", msg.idempotency_key) ∷ []

module _ {S Set Any Foreign : Type 0} (env : Env S Set Any Foreign) where
  -- `PayloadAny` takes precedence over `Payload`.
  unfoldable pub resolve_payload : Meta Set Any Foreign → Option Any × String
  unfolding pack_payload_any payload_type_from_msg
  resolve_payload meta = elim meta.payload_any [
    | some a ↦ (some a, meta.payload_type_name)
    | none ↦ (pack_payload_any env meta.payload, payload_type_from_msg env meta.payload)
  ]

  unfoldable pub new_item : Time → String → Meta Set Any Foreign → ProtoItem Any
  unfolding resolve_payload new_proto_event
  new_item now actor meta =
      let (payload, payload_type) = resolve_payload meta in
      record {
        idempotency_key = meta.idempotency_key;
        title = meta.title;
        description = meta.description;
        status = status_open;
        deadline = meta.deadline;
        payload_type = payload_type;
        payload = payload;
        events =
            record (new_proto_event env actor (item_created payload_type)) { at = some now } ∷ [];
      }

  unfoldable pub create_op : String → ProtoItem Any → Set → WriteEntityOp Any
  unfolding build_tokens key_anchors
  create_op id p t = record {
    action = create;
    id = id;
    matched_entity_id = "";
    item = p;
    tags = env.tags.strings t;
    tokens = build_tokens p.title p.description;
    anchors = key_anchors p.idempotency_key;
    confidence = 0;
  }

  -- `id` is the fresh `uuid.NewString()`.
  unfoldable pub create_item :
      Context → Time → String → Meta Set Any Foreign → Exec S Error (Item Set Any)
  unfolding actor_from_ctx new_item create_op
  create_item ctx now id meta = do
    actor ← lift (actor_from_ctx ctx)
    t ← lift (
        of_fallible (wrapped "inbox: invalid status tag")
          (env.tags.with_value meta.tags "status" status_open))
    let p = new_item now actor meta
    calls (wrapped "inbox: create item") (env.store.batch_write (create_op id p t ∷ []))
    pure (record { id = id; proto = p; tags = t; created_at = now; updated_at = now })
