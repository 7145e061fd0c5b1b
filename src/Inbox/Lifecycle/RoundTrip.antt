-- ===== src/Inbox/Lifecycle/RoundTrip.antt =====
-- A claim and its release, and two claims that overlap.
use inbox.Prelude.{String, ◌≡◌, refl, ◌∙◌, ap, some, [], ◌∷◌, ◌++◌, append_assoc}
use inbox.Effect.{value, ok}
use inbox.Proto.{Time, Event, ProtoItem, item_claimed, item_released}
use inbox.External.{Context, Env}
use inbox.Effect.{Exec}
use inbox.Inbox.Errors.{Error}
use inbox.Inbox.Get.{get}
use inbox.External.Tags.{TagLaws}
use inbox.Inbox.Lifecycle.StatusTag.{release-tags}
use inbox.Inbox.Tagging.{tag_value}
use inbox.External.Store.{StoreLaws, stored}
use inbox.Inbox.Status.{status_open, status_claimed}
use inbox.Inbox.Item.{Item, entity_type, actor_from_ctx, new_proto_event, stamp}
use inbox.Inbox.Lifecycle.{do_transition, claim, release}
use inbox.Inbox.Lifecycle.Outcome.{moved, do_transition-ok}
use inbox.Inbox.Evolution.Store.{get-stored}
use inbox.Inbox.Lifecycle.Success.{claim-Moved, release-Moved}

module _ {S Set Any Foreign : Type 0} (env : Env S Set Any Foreign)
    (laws : StoreLaws env.store) where
  twice_moved :
      (p : ProtoItem Any) (e f : Event Any)
      → p.status ≡ status_open
      → moved (moved p status_claimed e) status_open f
        ≡ record p { events = p.events ++ e ∷ f ∷ [] }
  twice_moved p e f was_open = rw (was_open, append_assoc) refl

  abbrev pub claim_event : Time → String → Event Any
  claim_event now actor = stamp now (new_proto_event env actor (item_claimed actor))

  abbrev pub release_event : Time → String → Event Any
  release_event now actor = stamp now (new_proto_event env actor (item_released actor))

  -- A `Claim` and a `Release` right after it, by anyone, that both succeed leave the stored data of the
  -- item as it was, with the two events at the end of its log and in that order. The item that is
  -- returned is open, has the "status" tag "open" and has no assignee, also where it had one before
  -- the claim.
  pub release-claim :
      (tags : TagLaws env.tags) (ctx ctx' : Context) (now now' : Time) (id : String) (s : S)
      (item item' : Item Set Any)
      → (claim env ctx now id s).0 ≡ ok item
      → (release env ctx' now' id (claim env ctx now id s).1).0 ≡ ok item'
      → (p : ProtoItem Any) × (actor : String) × (actor' : String) × (stored env.store s id
          ≡ some (entity_type, value p))
        × (stored env.store (release env ctx' now' id (claim env ctx now id s).1).1 id
            ≡ some (
              entity_type,
              value (record p {
                events = p.events ++ claim_event now actor ∷ release_event now' actor' ∷ [];
              }),
            ))
        × (actor_from_ctx ctx ≡ ok actor)
        × (actor_from_ctx ctx' ≡ ok actor')
        × (item'.proto.status ≡ status_open)
        × (tag_value env item' "status" ≡ status_open)
        × (tag_value env item' "assignee" ≡ "")
  release-claim tags ctx ctx' now now' id s item item' h h' =
      let (actor, p, known, was_open, m) = claim-Moved env laws ctx now id s h in
      let (actor', q, known', held, m') =
        release-Moved env laws ctx' now' id (claim env ctx now id s).1 h' in
      let (nobody, status, mirrored) =
        release-tags env tags ctx' now' id (claim env ctx now id s).1 item' h' in
      let met : q ≡ item.proto = cc (m.now_stored, m'.found) in
      let e : item'.proto ≡ record p {
        events = p.events ++ claim_event now actor ∷ release_event now' actor' ∷ [];
      } =
        m'.proto
        ∙ ap (λ x. moved x status_open (release_event now' actor')) (met ∙ m.proto)
        ∙ twice_moved p (claim_event now actor) (release_event now' actor') was_open in
      (
        p,
        actor,
        actor',
        m.found,
        m'.now_stored ∙ ap (λ x. some (entity_type, value x)) e,
        known,
        known',
        status,
        mirrored ∙ status,
        nobody,
      )

  -- the write of a `Claim` by `actor` that had read `item`
  abbrev pub claim_write : Time → Item Set Any → String → String → Exec S Error (Item Set Any)
  claim_write now item actor tag =
      do_transition env now item status_claimed (new_proto_event env actor (item_claimed actor))
        (tag ∷ [])

  -- Nothing compares the stored item with the one that was read. When two claims have both read an
  -- open item before either writes, and the store takes both writes, both return the item as claimed,
  -- each with its own event alone after the log that they read, and the item that stays stored is
  -- that of the second, without the first claim's event.
  pub racing_claims :
      (now now' : Time) (id : String) (s : S) (item : Item Set Any) (actor tag actor' tag' : String)
      (a b : Item Set Any)
      → get env id s ≡ ok item
      → (claim_write now item actor tag s).0 ≡ ok a
      → (claim_write now' item actor' tag' (claim_write now item actor tag s).1).0 ≡ ok b
      → (a.proto ≡ moved item.proto status_claimed (claim_event now actor))
        × (b.proto ≡ moved item.proto status_claimed (claim_event now' actor'))
        × (stored env.store
              (claim_write now' item actor' tag' (claim_write now item actor tag s).1).1
              id
            ≡ some (entity_type, value b.proto))
  racing_claims now now' id s item actor tag actor' tag' a b got first second =
      let (before, same) = get-stored env laws s id item got in
      let (pa, _, sa) =
        do_transition-ok env laws now id item status_claimed
          (new_proto_event env actor (item_claimed actor)) (tag ∷ []) s item.proto same before
          first in
      let (pb, _, sb) =
        do_transition-ok env laws now' id item status_claimed
          (new_proto_event env actor' (item_claimed actor')) (tag' ∷ []) _ a.proto same sa second in
      (pa, pb, sb)
