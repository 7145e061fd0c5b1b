-- ===== src/Inbox/Lifecycle.antt =====
-- lifecycle.go
pub mod Evolves
pub mod Outcome
pub mod Success
pub mod Final
pub mod StatusTag
pub mod RoundTrip
pub mod Refusal
pub mod Progress
use inbox.Prelude.{String, ◌==◌, List, [], ◌∷◌, if◌then◌else◌}
use inbox.Effect.{Exec, of_fallible, pure, raise, lift, reads, calls, ◌>>=◌, ◌>>◌}
use inbox.Proto.{Time, Event, item_claimed, item_released, item_closed}
use inbox.External.{Context, TagLib, Env}
use inbox.Inbox.Status.{status_open, status_claimed, status_closed, is_terminal}
use inbox.Inbox.Errors.{Error, wrapped, invalid_transition, terminal_status}
use inbox.Inbox.Item.{Item, actor_from_ctx, new_proto_event, stamp}
use inbox.Inbox.Get.{get}
use inbox.Inbox.Events.{update_op, append_event}

-- `item.Proto.Status = toStatus`
abbrev pub set_status : {Set Any : Type 0} → Item Set Any → String → Item Set Any
set_status item status = record item { proto = record (item.proto) { status = status } }

abbrev pub merge_extra : {Set : Type 0} → TagLib Set → Set → List String → Set
merge_extra lib tags [] = tags
merge_extra lib tags (t ∷ ts) = lib.merge tags (lib.from_strings (t ∷ ts))

module _ {S Set Any Foreign : Type 0} (env : Env S Set Any Foreign) where
  unfoldable pub do_transition :
      Time → Item Set Any → String → Event Any → List String → Exec S Error (Item Set Any)
  unfolding stamp
  do_transition now item to_status evt extra_tags = do
    let moved = append_event (set_status item to_status) (stamp now evt)
    with_status ← lift (
        of_fallible (wrapped "inbox: invalid status tag")
          (env.tags.with_value moved.tags "status" to_status))
    let item' = record moved { tags = merge_extra env.tags with_status extra_tags }
    calls (wrapped "inbox: transition item")
        (env.store.batch_write (update_op item'.id item'.proto (env.tags.strings item'.tags) ∷ []))
    pure item'

  unfoldable pub transition :
      Time → String → String → String → Event Any → List String → Exec S Error (Item Set Any)
  unfolding get do_transition
  transition now item_id from_status to_status evt extra_tags = do
    item ← reads (get env item_id)
    if item.proto.status == from_status
        then do_transition now item to_status evt extra_tags
        else raise (invalid_transition item_id item.proto.status from_status)

  unfoldable pub claim : Context → Time → String → Exec S Error (Item Set Any)
  unfolding transition actor_from_ctx new_proto_event
  claim ctx now item_id = do
    actor ← lift (actor_from_ctx ctx)
    assignee_tag ←
        lift
          (of_fallible (wrapped "inbox: invalid actor for tag") (env.tags.build "assignee" actor))
    transition now item_id status_open status_claimed
        (new_proto_event env actor (item_claimed actor)) (assignee_tag ∷ [])

  unfoldable pub release : Context → Time → String → Exec S Error (Item Set Any)
  unfolding get do_transition actor_from_ctx new_proto_event
  release ctx now item_id = do
    actor ← lift (actor_from_ctx ctx)
    item ← reads (get env item_id)
    if item.proto.status == status_claimed
        then do_transition now (record item { tags = env.tags.without item.tags "assignee" })
            status_open (new_proto_event env actor (item_released actor)) []
        else raise (invalid_transition item_id item.proto.status status_claimed)

  unfoldable pub close : Context → Time → String → String → Exec S Error (Item Set Any)
  unfolding get do_transition actor_from_ctx new_proto_event is_terminal
  close ctx now item_id reason = do
    actor ← lift (actor_from_ctx ctx)
    item ← reads (get env item_id)
    if is_terminal item.proto.status
        then raise (terminal_status item.proto.status)
        else do_transition now item status_closed
            (new_proto_event env actor (item_closed actor reason)) []
