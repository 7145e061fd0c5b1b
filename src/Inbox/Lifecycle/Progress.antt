-- ===== src/Inbox/Lifecycle/Progress.antt =====
-- An item that is not terminal can be closed.
use inbox.Prelude.{String, ◌<>◌, ◌≡◌, refl, ap, some, List, [], false}
use inbox.Effect.{value, ok}
use inbox.Proto.{Time, Event, item_closed}
use inbox.External.{Identity, WriteEntityOp, update, Env}
use inbox.External.Store.{StoreLaws, stored, wrote}
use inbox.Inbox.Status.{status_closed, is_terminal}
use inbox.Inbox.Item.{Item, entity_type, new_proto_event, stamp}
use inbox.Inbox.Get.{get}
use inbox.Inbox.Events.{update_op, append_event}
use inbox.Inbox.Lifecycle.{set_status, merge_extra, do_transition, close}
use inbox.Inbox.Lifecycle.Success.{close-Moved}

module _ {S Set Any Foreign : Type 0} (env : Env S Set Any Foreign) where
  -- the store takes every update of an entity
  abbrev Takes : String → S → Type 0
  Takes id s =
      (op : WriteEntityOp Any)
      → op.action ≡ update
      → op.matched_entity_id ≡ id
      → wrote env.store op s ≡ value tt

  do_transition-runs :
      (now : Time) (item : Item Set Any) (to : String) (evt : Event Any) (extra : List String)
      (s : S) (tags : Set)
      → env.tags.with_value item.tags "status" to ≡ value tags
      → Takes item.id s
      → (after : Item Set Any) × ((do_transition env now item to evt extra s).0 ≡ ok after)
  unfolding do_transition
  do_transition-runs now item to evt extra s tags h takes = (
    record (append_event (set_status item to) (stamp now evt)) {
      tags = merge_extra env.tags tags extra;
    },
    rw
        (
          h,
          takes
              (update_op item.id (append_event (set_status item to) (stamp now evt)).proto
                (env.tags.strings (merge_extra env.tags tags extra)))
              refl refl,
        )
        refl,
  )

  close-runs :
      (by : Identity) (now : Time) (id reason : String) (s : S) (item : Item Set Any) (tags : Set)
      → get env id s ≡ ok item
      → is_terminal item.proto.status ≡ false
      → env.tags.with_value item.tags "status" status_closed ≡ value tags
      → Takes item.id s
      → (after : Item Set Any) × ((close env (some by) now id reason s).0 ≡ ok after)
  unfolding close
  close-runs by now id reason s item tags got live h takes =
      let actor = by.principal_type <> ":" <> by.principal_id in
      let (after, e) =
        do_transition-runs now item status_closed
          (new_proto_event env actor (item_closed actor reason)) [] s tags h takes in
      (after, rw (got, live) e)

  -- An item that is found and not terminal can be closed by any identity: when its status tag can
  -- be made and the store takes updates of it, Close succeeds, and the item is then stored as closed.
  pub close-reaches :
      StoreLaws env.store
      → (by : Identity) (now : Time) (id reason : String) (s : S) (item : Item Set Any) (tags : Set)
      → get env id s ≡ ok item
      → is_terminal item.proto.status ≡ false
      → env.tags.with_value item.tags "status" status_closed ≡ value tags
      → Takes item.id s
      → (after : Item Set Any) × ((close env (some by) now id reason s).0 ≡ ok after)
        × (after.proto.status ≡ status_closed)
        × (stored env.store (close env (some by) now id reason s).1 id
            ≡ some (entity_type, value after.proto))
  close-reaches laws by now id reason s item tags got live h takes =
      let (after, e) = close-runs by now id reason s item tags got live h takes in
      let (_, _, _, _, after_close) = close-Moved env laws (some by) now id reason s e in
      (after, e, ap (λ p. p.status) after_close.proto, after_close.now_stored)
