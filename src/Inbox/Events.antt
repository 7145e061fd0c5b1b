-- ===== src/Inbox/Events.antt =====
-- events.go
pub mod Evolves
pub mod Outcome
use inbox.Prelude.{String, ◌==◌, Option, none, some, List, [], ◌∷◌, ◌++◌, if◌then◌else◌}
use inbox.Effect.{Exec, of_fallible, pure, lift, reads, calls, ignore, ◌>>=◌, ◌>>◌}
use inbox.Proto.{Time, Event, ProtoItem, comment_appended, item_reassigned}
use inbox.External.{Context, WriteEntityOp, update, Env}
use inbox.Inbox.Errors.{Error, wrapped}
use inbox.Inbox.Item.{Item, CommentOpts, actor_from_ctx, new_proto_event_with_detail, stamp}
use inbox.Inbox.Get.{get}

-- the write of `AddEvent`, with no tags
abbrev pub update_op : {Any : Type 0} → String → ProtoItem Any → List String → WriteEntityOp Any
update_op item_id p tags = record {
  action = update;
  id = "";
  matched_entity_id = item_id;
  item = p;
  tags = tags;
  tokens = [];
  anchors = [];
  confidence = 0;
}

-- `item.Proto.Events = append(item.Proto.Events, evt)`
abbrev pub append_event : {Set Any : Type 0} → Item Set Any → Event Any → Item Set Any
append_event item evt = record item {
  proto = record (item.proto) { events = item.proto.events ++ evt ∷ [] };
}

abbrev pub comment_visibility : Option CommentOpts → List String
comment_visibility none = []
comment_visibility (some opts) = opts.visibility

abbrev pub comment_refs : Option CommentOpts → List String
comment_refs none = []
comment_refs (some opts) = opts.refs

module _ {S Set Any Foreign : Type 0} (env : Env S Set Any Foreign) where
  unfoldable pub add_event : Time → String → Event Any → Exec S Error (Item Set Any)
  unfolding get stamp
  add_event now item_id evt = do
    item ← reads (get env item_id)
    let item' = append_event item (stamp now evt)
    calls (wrapped "inbox: add event")
        (env.store.batch_write (update_op item_id item'.proto [] ∷ []))
    pure item'

  unfoldable pub comment :
      Context → Time → String → String → Option CommentOpts → Exec S Error (Item Set Any)
  unfolding add_event actor_from_ctx new_proto_event_with_detail
  comment ctx now item_id body opts = do
    actor ← lift (actor_from_ctx ctx)
    add_event now item_id (
        new_proto_event_with_detail env actor body
          (comment_appended body (comment_visibility opts) (comment_refs opts)))

  -- `if fromActor != "" { ... }`; the error of `RemoveTag` is dropped.
  unfoldable pub drop_assignee : String → String → Exec S Error Unit
  drop_assignee item_id from_actor = if from_actor == "" then pure tt else do
    tag ← lift (
        of_fallible (wrapped "inbox: invalid fromActor for tag")
          (env.tags.build "assignee" from_actor))
    ignore (calls (wrapped "") (env.store.remove_tag item_id tag))

  -- `if toActor != "" { ... }`; the error of `AddTags` is dropped.
  unfoldable pub put_assignee : String → String → Exec S Error Unit
  put_assignee item_id to_actor = if to_actor == "" then pure tt else do
    tag ← lift (
        of_fallible (wrapped "inbox: invalid toActor for tag") (env.tags.build "assignee" to_actor))
    ignore (calls (wrapped "") (env.store.add_tags item_id (tag ∷ [])))

  unfoldable pub reassign :
      Context → Time → String → String → String → String → Exec S Error (Item Set Any)
  unfolding add_event actor_from_ctx new_proto_event_with_detail drop_assignee put_assignee
  reassign ctx now item_id from_actor to_actor reason = do
    actor ← lift (actor_from_ctx ctx)
    drop_assignee item_id from_actor
    put_assignee item_id to_actor
    add_event now item_id
        (new_proto_event_with_detail env actor reason (item_reassigned from_actor to_actor reason))
