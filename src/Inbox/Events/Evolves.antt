-- ===== src/Inbox/Events/Evolves.antt =====
-- What `AddEvent`, `Comment` and `Reassign` do to the store.
use inbox.Prelude.{String, ◌==◌, Option, [], ◌∷◌}
use inbox.Effect.{of_fallible}
use inbox.Proto.{Time, Event, comment_appended, item_reassigned}
use inbox.External.{Context, Env}
use inbox.External.Store.{StoreLaws}
use inbox.Inbox.Item.{CommentOpts, actor_from_ctx, new_proto_event_with_detail, stamp}
use inbox.Inbox.Get.{get}
use inbox.Inbox.Events.{
  comment_visibility, comment_refs, add_event, comment, drop_assignee, put_assignee, reassign,
}
use inbox.Inbox.Evolution.{Successor-append, stay}
use inbox.Inbox.Evolution.Store.{
  Same, Same-refl, Evolves, Evolves-after-Same, continue-Evolves, continue-Same, if-Same,
  finish-Evolves, written-Evolves, get-stored,
}

module _ {S Set Any Foreign : Type 0} (env : Env S Set Any Foreign)
    (laws : StoreLaws env.store) where
  pub add_event-Evolves :
      (now : Time) (id : String) (evt : Event Any) (s : S)
      → Evolves env.store id s (add_event env now id evt s).1
  unfolding add_event
  add_event-Evolves now id evt s = continue-Evolves (get env id s) _ (Same-refl s) λ item got.
      let (before, same_id) = get-stored env laws s id item got in
      finish-Evolves _ _ (
        written-Evolves laws s id item.proto _ [] before
          (Successor-append item.proto item.proto.status (stamp now evt) stay))

  pub comment-Evolves :
      (ctx : Context) (now : Time) (id body : String) (opts : Option CommentOpts) (s : S)
      → Evolves env.store id s (comment env ctx now id body opts s).1
  unfolding comment
  comment-Evolves ctx now id body opts s =
      continue-Evolves (actor_from_ctx ctx) _ (Same-refl s) λ actor _.
        add_event-Evolves now id
          (new_proto_event_with_detail env actor body
            (comment_appended body (comment_visibility opts) (comment_refs opts)))
          s

  pub drop_assignee-Same :
      (id from : String) (s : S) → Same env.store s (drop_assignee env id from s).1
  unfolding drop_assignee
  drop_assignee-Same id from s = if-Same (from == "") _ _ (Same-refl s) (
      continue-Same (of_fallible _ (env.tags.build "assignee" from)) _ (Same-refl s)
        (λ tag. record { at = laws.remove_tag_data s id tag }))

  pub put_assignee-Same : (id to : String) (s : S) → Same env.store s (put_assignee env id to s).1
  unfolding put_assignee
  put_assignee-Same id to s = if-Same (to == "") _ _ (Same-refl s) (
      continue-Same (of_fallible _ (env.tags.build "assignee" to)) _ (Same-refl s)
        (λ tag. record { at = laws.add_tags_data s id (tag ∷ []) }))

  pub reassign-Evolves :
      (ctx : Context) (now : Time) (id from to reason : String) (s : S)
      → Evolves env.store id s (reassign env ctx now id from to reason s).1
  unfolding reassign
  reassign-Evolves ctx now id from to reason s =
      continue-Evolves (actor_from_ctx ctx) _ (Same-refl s) λ actor _.
        let (dropped, s1) = drop_assignee env id from s in
        continue-Evolves dropped _ (drop_assignee-Same id from s) λ _ _.
          Evolves-after-Same (drop_assignee-Same id from s) (
            let (put, s2) = put_assignee env id to s1 in
            continue-Evolves put _ (put_assignee-Same id to s1) λ _ _.
              Evolves-after-Same (put_assignee-Same id to s1) (
                add_event-Evolves now id
                  (new_proto_event_with_detail env actor reason (item_reassigned from to reason))
                  s2))
