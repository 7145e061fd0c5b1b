-- ===== src/Inbox/Lifecycle/Success.antt =====
-- What a successful `Claim`, `Release` or `Close` shows: the item that it found, and the item that
-- it returned and stored.
use inbox.Prelude.{String, ◌≡◌, refl, sym, ◌∙◌, ap, ◌==◌, eq_iff, some, List, [], ◌∷◌, false}
use inbox.Effect.{value, Outcome, ok, of_fallible}
use inbox.Effect.Blocks.{continue-ok, then-ok, else-ok}
use inbox.Proto.{Time, ProtoItem, Message, item_claimed, item_released, item_closed}
use inbox.External.{Context, Env}
use inbox.External.Store.{StoreLaws, stored}
use inbox.Inbox.Errors.{Error}
use inbox.Inbox.Status.{status_open, status_claimed, status_closed, is_terminal}
use inbox.Inbox.Item.{Item, entity_type, actor_from_ctx, new_proto_event, stamp}
use inbox.Inbox.Get.{get}
use inbox.Inbox.Lifecycle.{do_transition, claim, release, close}
use inbox.Inbox.Lifecycle.Outcome.{moved, do_transition-ok}
use inbox.Inbox.Evolution.Store.{get-stored}

module _ {S Set Any Foreign : Type 0} (env : Env S Set Any Foreign)
    (laws : StoreLaws env.store) where
  -- The transition of the stored item `p` by `actor` to `status`, with the event for `msg`.
  pub record Moved (now : Time) (id actor : String) (s : S) (p : ProtoItem Any) (status : String)
      (msg : Message Foreign) (item : Item Set Any) (t : S) : Type 0 where
    pub found : stored env.store s id ≡ some (entity_type, value p)
    pub proto : item.proto ≡ moved p status (stamp now (new_proto_event env actor msg))
    pub own_id : item.id ≡ id
    pub now_stored : stored env.store t id ≡ some (entity_type, value item.proto)

  do_transition-Moved :
      (now : Time) (id actor to : String) (s : S) (p : ProtoItem Any) (item : Item Set Any)
      (msg : Message Foreign) (extra : List String) {r : Outcome Error (Item Set Any) × S}
      {after : Item Set Any}
      → item.proto ≡ p
      → stored env.store s id ≡ some (entity_type, value p)
      → item.id ≡ id
      → r ≡ do_transition env now item to (new_proto_event env actor msg) extra s
      → r.0 ≡ ok after
      → Moved now id actor s p to msg after r.1
  do_transition-Moved now id actor to s p item msg extra {r} {after} e before same whole h =
      let (proto, own, later) =
        do_transition-ok env laws now id item to (new_proto_event env actor msg) extra s p same
          before (sym (ap (λ x. x.0) whole) ∙ h) in
      record { found = before; proto = rw (← e) proto; own_id = own; now_stored = rw whole later }

  pub close-Moved :
      (ctx : Context) (now : Time) (id reason : String) (s : S) {item : Item Set Any}
      → (close env ctx now id reason s).0 ≡ ok item
      → (actor : String) × (p : ProtoItem Any) × (actor_from_ctx ctx ≡ ok actor)
        × (is_terminal p.status ≡ false)
        × Moved now id actor s p status_closed
            (item_closed actor reason)
            item
            (close env ctx now id reason s).1
  unfolding close
  close-Moved ctx now id reason s h =
      let (actor, known, e1, h1) = continue-ok (actor_from_ctx ctx) _ s h in
      let (item, got, e2, h2) = continue-ok (get env id s) _ s h1 in
      let (live, e3) = else-ok (is_terminal item.proto.status) _ _ s h2 in
      let (before, same) = get-stored env laws s id item got in
      (
        actor,
        item.proto,
        known,
        live,
        do_transition-Moved now id actor status_closed s item.proto item (item_closed actor reason)
            [] refl before same (e1 ∙ e2 ∙ e3) h,
      )

  pub claim-Moved :
      (ctx : Context) (now : Time) (id : String) (s : S) {item : Item Set Any}
      → (claim env ctx now id s).0 ≡ ok item
      → (actor : String) × (p : ProtoItem Any) × (actor_from_ctx ctx ≡ ok actor)
        × (p.status ≡ status_open)
        × Moved now id actor s p status_claimed (item_claimed actor) item (claim env ctx now id s).1
  unfolding claim
  claim-Moved ctx now id s h =
      let (actor, known, e1, h1) = continue-ok (actor_from_ctx ctx) _ s h in
      let (tag, built, e2, h2) =
        continue-ok (of_fallible _ (env.tags.build "assignee" actor)) _ s h1 in
      let (item, got, e3, h3) = continue-ok (get env id s) _ s h2 in
      let (is_open, e4) = then-ok (item.proto.status == status_open) _ _ s h3 in
      let (before, same) = get-stored env laws s id item got in
      (
        actor,
        item.proto,
        known,
        (eq_iff _ _).0 is_open,
        do_transition-Moved now id actor status_claimed s item.proto item (item_claimed actor)
            (tag ∷ []) refl before same (e1 ∙ e2 ∙ e3 ∙ e4) h,
      )

  pub release-Moved :
      (ctx : Context) (now : Time) (id : String) (s : S) {item : Item Set Any}
      → (release env ctx now id s).0 ≡ ok item
      → (actor : String) × (p : ProtoItem Any) × (actor_from_ctx ctx ≡ ok actor)
        × (p.status ≡ status_claimed)
        × Moved now id actor s p status_open (item_released actor) item (release env ctx now id s).1
  unfolding release
  release-Moved ctx now id s h =
      let (actor, known, e1, h1) = continue-ok (actor_from_ctx ctx) _ s h in
      let (item, got, e2, h2) = continue-ok (get env id s) _ s h1 in
      let (held, e3) = then-ok (item.proto.status == status_claimed) _ _ s h2 in
      let (before, same) = get-stored env laws s id item got in
      (
        actor,
        item.proto,
        known,
        (eq_iff _ _).0 held,
        do_transition-Moved now id actor status_open s item.proto
            (record item { tags = env.tags.without item.tags "assignee" }) (item_released actor) []
            refl before same (e1 ∙ e2 ∙ e3) h,
      )
