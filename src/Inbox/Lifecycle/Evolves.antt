-- ===== src/Inbox/Lifecycle/Evolves.antt =====
-- What `Claim`, `Release` and `Close` do to the store.
use inbox.Prelude.{String, ◌≡◌, ◌==◌, [], ◌∷◌, eq_iff}
use inbox.Effect.{of_fallible}
use inbox.Proto.{Time, Event, item_claimed, item_released, item_closed}
use inbox.External.{Context, Env}
use inbox.External.Store.{StoreLaws, stored}
use inbox.Effect.{value}
use inbox.Inbox.Status.{status_open, status_claimed, status_closed, is_terminal}
use inbox.Inbox.Item.{Item, entity_type, actor_from_ctx, new_proto_event, stamp}
use inbox.Inbox.Get.{get}
use inbox.Inbox.Lifecycle.{do_transition, claim, release, close}
use inbox.Inbox.Evolution.{StatusStep, claimed, released, closed, stay, move, Successor-append}
use inbox.Inbox.Evolution.Store.{
  Same-refl, Evolves, unchanged, continue-Evolves, if-Evolves, finish-Evolves, written-Evolves,
  get-stored,
}
use inbox.Prelude.{List, refl, some}

module _ {S Set Any Foreign : Type 0} (env : Env S Set Any Foreign)
    (laws : StoreLaws env.store) where
  do_transition-Evolves :
      (now : Time) (id : String) (item : Item Set Any) (to : String) (evt : Event Any)
      (extra : List String) (s : S)
      → item.id ≡ id
      → stored env.store s id ≡ some (entity_type, value item.proto)
      → StatusStep item.proto.status to
      → Evolves env.store id s (do_transition env now item to evt extra s).1
  unfolding do_transition
  do_transition-Evolves now id item to evt extra s same before step =
      continue-Evolves (of_fallible _ (env.tags.with_value item.tags "status" to)) _ (Same-refl s)
        λ with_status _. rw same (
          finish-Evolves _ _ (
            written-Evolves laws s id item.proto _ _ before
              (Successor-append item.proto to (stamp now evt) (move stay step))))

  pub claim-Evolves :
      (ctx : Context) (now : Time) (id : String) (s : S)
      → Evolves env.store id s (claim env ctx now id s).1
  unfolding claim
  claim-Evolves ctx now id s = continue-Evolves (actor_from_ctx ctx) _ (Same-refl s) λ actor _.
      continue-Evolves (of_fallible _ (env.tags.build "assignee" actor)) _ (Same-refl s) λ tag _.
        continue-Evolves (get env id s) _ (Same-refl s) λ item got.
          let (before, same) = get-stored env laws s id item got in
          if-Evolves (item.proto.status == status_open) _ _
            (λ is_open.
              do_transition-Evolves now id item status_claimed
                (new_proto_event env actor (item_claimed actor)) (tag ∷ []) s same before
                (claimed ((eq_iff _ _).0 is_open) refl))
            (λ _. unchanged (Same-refl s))

  pub release-Evolves :
      (ctx : Context) (now : Time) (id : String) (s : S)
      → Evolves env.store id s (release env ctx now id s).1
  unfolding release
  release-Evolves ctx now id s = continue-Evolves (actor_from_ctx ctx) _ (Same-refl s) λ actor _.
      continue-Evolves (get env id s) _ (Same-refl s) λ item got.
        let (before, same) = get-stored env laws s id item got in
        if-Evolves (item.proto.status == status_claimed) _ _
          (λ held.
            do_transition-Evolves now id
              (record item { tags = env.tags.without item.tags "assignee" }) status_open
              (new_proto_event env actor (item_released actor)) [] s same before
              (released ((eq_iff _ _).0 held) refl))
          (λ _. unchanged (Same-refl s))

  pub close-Evolves :
      (ctx : Context) (now : Time) (id reason : String) (s : S)
      → Evolves env.store id s (close env ctx now id reason s).1
  unfolding close
  close-Evolves ctx now id reason s =
      continue-Evolves (actor_from_ctx ctx) _ (Same-refl s) λ actor _.
        continue-Evolves (get env id s) _ (Same-refl s) λ item got.
          let (before, same) = get-stored env laws s id item got in
          if-Evolves (is_terminal item.proto.status) _ _ (λ _. unchanged (Same-refl s))
            (λ live.
              do_transition-Evolves now id item status_closed
                (new_proto_event env actor (item_closed actor reason)) [] s same before
                (closed live refl))
