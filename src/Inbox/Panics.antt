-- ===== src/Inbox/Panics.antt =====
-- Panics of the writing methods of the inbox (create.go, events.go, lifecycle.go, tags.go).
use inbox.Prelude.{String, ◌==◌, Option, some, List, [], ◌∷◌, ◌<>◌, join, arith}
use inbox.Effect.{of_fallible}
use inbox.Effect.Blocks.{
  NoPanic, Safe, of_fallible-NoPanic, continue-Safe, if-Safe, pure-Safe, raise-Safe, Safe-NoPanic,
  settle-Safe,
}
use inbox.Proto.{
  Time, Event, item_claimed, item_released, item_closed, comment_appended, item_reassigned,
  tags_changed,
}
use inbox.External.{Identity, Context, Env}
use inbox.Inbox.Status.{status_open, status_claimed, status_closed, is_terminal}
use inbox.Inbox.Item.{
  Item, Meta, CommentOpts, actor_from_ctx, new_proto_event, new_proto_event_with_detail,
  item_from_entity,
}
use inbox.Inbox.Get.{get}
use inbox.Inbox.Events.{
  comment_visibility, comment_refs, add_event, comment, drop_assignee, put_assignee, reassign,
}
use inbox.Inbox.Lifecycle.{do_transition, claim, release, close}
use inbox.Inbox.Create.{new_item, create_op, create_item}
use inbox.Inbox.Tagging.{tag, untag}
use inbox.External.Store.{wrote}

module _ {S Set Any Foreign : Type 0} (env : Env S Set Any Foreign) where
  pub get-NoPanic : (id : String) (s : S) → NoPanic (get env id s)
  unfolding get item_from_entity
  get-NoPanic id s = record { no_text = λ text. ground arith }

  actor-NoPanic : (ident : Identity) → NoPanic (actor_from_ctx (some ident))
  unfolding actor_from_ctx
  actor-NoPanic ident = record { no_text = λ text. cc }

  do_transition-Safe :
      (now : Time) (item : Item Set Any) (to : String) (evt : Event Any) (extra : List String)
      (s : S)
      → Safe (do_transition env now item to evt extra s)
  unfolding do_transition
  do_transition-Safe now item to evt extra s =
      continue-Safe (of_fallible _ (env.tags.with_value item.tags "status" to)) _ s
        (of_fallible-NoPanic _ _)
        λ ws _.
          continue-Safe (of_fallible _ (wrote env.store _ s)) _ _ (of_fallible-NoPanic _ _)
            (λ _ _. pure-Safe _ _)

  pub add_event-Safe :
      (now : Time) (id : String) (evt : Event Any) (s : S) → Safe (add_event env now id evt s)
  unfolding add_event
  add_event-Safe now id evt s = continue-Safe (get env id s) _ s (get-NoPanic id s) λ item _.
      continue-Safe (of_fallible _ (wrote env.store _ s)) _ _ (of_fallible-NoPanic _ _)
        (λ _ _. pure-Safe _ _)

  module _ (ctx : Context) (has : NoPanic (actor_from_ctx ctx)) (now : Time) (id : String)
      (s : S) where
    pub claim-Safe : Safe (claim env ctx now id s)
    unfolding claim
    claim-Safe = continue-Safe (actor_from_ctx ctx) _ s has λ actor _.
        continue-Safe (of_fallible _ (env.tags.build "assignee" actor)) _ s
          (of_fallible-NoPanic _ _)
          λ tag _. continue-Safe (get env id s) _ s (get-NoPanic id s) λ item _.
            if-Safe (item.proto.status == status_open) _ _ s
              (do_transition-Safe now item status_claimed
                (new_proto_event env actor (item_claimed actor)) (tag ∷ []) s)
              (raise-Safe _ s)

    pub release-Safe : Safe (release env ctx now id s)
    unfolding release
    release-Safe = continue-Safe (actor_from_ctx ctx) _ s has λ actor _.
        continue-Safe (get env id s) _ s (get-NoPanic id s) λ item _.
          if-Safe (item.proto.status == status_claimed) _ _ s
            (do_transition-Safe now (record item { tags = env.tags.without item.tags "assignee" })
              status_open (new_proto_event env actor (item_released actor)) [] s)
            (raise-Safe _ s)

    pub close-Safe : (reason : String) → Safe (close env ctx now id reason s)
    unfolding close
    close-Safe reason = continue-Safe (actor_from_ctx ctx) _ s has λ actor _.
        continue-Safe (get env id s) _ s (get-NoPanic id s) λ item _.
          if-Safe (is_terminal item.proto.status) _ _ s (raise-Safe _ s) (
            do_transition-Safe now item status_closed
              (new_proto_event env actor (item_closed actor reason)) [] s)

    pub comment-Safe :
        (body : String) (opts : Option CommentOpts) → Safe (comment env ctx now id body opts s)
    unfolding comment
    comment-Safe body opts = continue-Safe (actor_from_ctx ctx) _ s has λ actor _.
        add_event-Safe now id
          (new_proto_event_with_detail env actor body
            (comment_appended body (comment_visibility opts) (comment_refs opts)))
          s

    pub tag-Safe : (raw : List String) → Safe (tag env ctx now id raw s)
    unfolding tag
    tag-Safe raw = continue-Safe (actor_from_ctx ctx) _ s has λ actor _.
        continue-Safe (of_fallible _ (env.store.add_tags id raw s).0) _ _ (of_fallible-NoPanic _ _)
          λ _ _. settle-Safe _ _ (
            Safe-NoPanic (
              add_event-Safe now id
                (new_proto_event_with_detail env actor ("+" <> join raw ", +")
                  (tags_changed raw []))
                _))

    pub untag-Safe : (old : String) → Safe (untag env ctx now id old s)
    unfolding untag
    untag-Safe old = continue-Safe (actor_from_ctx ctx) _ s has λ actor _.
        continue-Safe (of_fallible _ (env.store.remove_tag id old s).0) _ _
          (of_fallible-NoPanic _ _)
          λ _ _. settle-Safe _ _ (
            Safe-NoPanic (
              add_event-Safe now id
                (new_proto_event_with_detail env actor ("-" <> old) (tags_changed [] (old ∷ [])))
                _))

    pub create_item-Safe : (meta : Meta Set Any Foreign) → Safe (create_item env ctx now id meta s)
    unfolding create_item
    create_item-Safe meta = continue-Safe (actor_from_ctx ctx) _ s has λ actor _.
        continue-Safe (of_fallible _ (env.tags.with_value meta.tags "status" status_open)) _ s
          (of_fallible-NoPanic _ _)
          λ t _.
            continue-Safe
              (of_fallible _ (wrote env.store (create_op env id (new_item env now actor meta) t) s))
              _ _ (of_fallible-NoPanic _ _) (λ _ _. pure-Safe _ _)

    drop_assignee-Safe : (from : String) → Safe (drop_assignee env id from s)
    unfolding drop_assignee
    drop_assignee-Safe from = if-Safe (from == "") _ _ s (pure-Safe _ s) (
        continue-Safe (of_fallible _ (env.tags.build "assignee" from)) _ s (of_fallible-NoPanic _ _)
          λ tag _.
            settle-Safe (of_fallible _ (env.store.remove_tag id tag s).0) _
              (of_fallible-NoPanic _ _))

    put_assignee-Safe : (to : String) → Safe (put_assignee env id to s)
    unfolding put_assignee
    put_assignee-Safe to = if-Safe (to == "") _ _ s (pure-Safe _ s) (
        continue-Safe (of_fallible _ (env.tags.build "assignee" to)) _ s (of_fallible-NoPanic _ _)
          λ tag _.
            settle-Safe (of_fallible _ (env.store.add_tags id (tag ∷ []) s).0) _
              (of_fallible-NoPanic _ _))

  pub reassign-Safe :
      (ctx : Context) (has : NoPanic (actor_from_ctx ctx)) (now : Time) (id from to reason : String)
      (s : S)
      → Safe (reassign env ctx now id from to reason s)
  unfolding reassign
  reassign-Safe ctx has now id from to reason s =
      continue-Safe (actor_from_ctx ctx) _ s has λ actor _.
        continue-Safe (drop_assignee env id from s).0 _ _
          (Safe-NoPanic (drop_assignee-Safe ctx has now id s from))
          λ _ _.
            continue-Safe (put_assignee env id to (drop_assignee env id from s).1).0 _ _
              (Safe-NoPanic (put_assignee-Safe ctx has now id _ to))
              λ _ _.
                add_event-Safe now id
                  (new_proto_event_with_detail env actor reason (item_reassigned from to reason)) _
