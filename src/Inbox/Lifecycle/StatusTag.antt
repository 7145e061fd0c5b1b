-- ===== src/Inbox/Lifecycle/StatusTag.antt =====
-- The tags of an item after a transition.
use inbox.Prelude.{String, ◌≡◌, sym, ◌∙◌, ap, true, ◌==◌, List, [], ◌∷◌}
use inbox.Effect.{value, ok, of_fallible}
use inbox.Effect.Blocks.{continue-ok, pure-ok, then-ok, of_fallible-ok}
use inbox.Proto.{Time, Event, item_claimed, item_released}
use inbox.External.{Context, Env}
use inbox.External.Tags.{TagLaws}
use inbox.External.Store.{wrote}
use inbox.Inbox.Status.{status_open, status_claimed}
use inbox.Inbox.Item.{Item, actor_from_ctx, new_proto_event}
use inbox.Inbox.Get.{get}
use inbox.Inbox.Tagging.{tag_value, has_tag}
use inbox.Inbox.Lifecycle.{do_transition, merge_extra, claim, release}

module _ {S Set Any Foreign : Type 0} (env : Env S Set Any Foreign) (laws : TagLaws env.tags) where
  -- the tags and the status that a transition returns
  do_transition-tags :
      (now : Time) (item : Item Set Any) (to : String) (evt : Event Any) (extra : List String)
      (s : S) {after : Item Set Any}
      → (do_transition env now item to evt extra s).0 ≡ ok after
      → (ws : Set) × (env.tags.with_value item.tags "status" to ≡ value ws)
        × (after.tags ≡ merge_extra env.tags ws extra)
        × (after.proto.status ≡ to)
  unfolding do_transition
  do_transition-tags now item to evt extra s h =
      let (ws, tagged, rest, ok_rest) =
        continue-ok (of_fallible _ (env.tags.with_value item.tags "status" to)) _ s h in
      let (_, e, _) = pure-ok _ (wrote env.store _ s) _ _ ok_rest in
      (ws, of_fallible-ok _ _ tagged, ap (λ i. i.tags) (sym e), ap (λ i. i.proto.status) (sym e))

  -- An item that `Claim` returns has the assignee tag of the claimer, and a "status" tag that
  -- mirrors its status, "claimed".
  claim-tags :
      (ctx : Context) (now : Time) (id : String) (s : S) (item : Item Set Any)
      → (claim env ctx now id s).0 ≡ ok item
      → (actor : String) × (tag : String) × (actor_from_ctx ctx ≡ ok actor)
        × (env.tags.build "assignee" actor ≡ value tag)
        × (has_tag env item tag ≡ true)
        × (item.proto.status ≡ status_claimed)
        × (tag_value env item "status" ≡ item.proto.status)
  unfolding claim tag_value has_tag
  claim-tags ctx now id s item h =
      let (actor, known, e1, h1) = continue-ok (actor_from_ctx ctx) _ s h in
      let (tag, built, e2, h2) =
        continue-ok (of_fallible _ (env.tags.build "assignee" actor)) _ s h1 in
      let (found, got, e3, h3) = continue-ok (get env id s) _ s h2 in
      let (is_open, e4) = then-ok (found.proto.status == status_open) _ _ s h3 in
      let (ws, tagged, tags, status) =
        do_transition-tags now found status_claimed (new_proto_event env actor (item_claimed actor))
          (tag ∷ []) s (sym (ap (λ x. x.0) e4) ∙ h3) in
      let built' = of_fallible-ok _ _ built in
      (
        actor,
        tag,
        known,
        built',
        ap (λ t. env.tags.has_all t (env.tags.from_strings (tag ∷ []))) tags
            ∙ laws.has_all-merge ws (tag ∷ []),
        status,
        ap (λ t. env.tags.value_of t "status") tags
            ∙ laws.status-merge ws actor tag built'
            ∙ laws.value_of-with_value found.tags ws "status" status_claimed tagged
            ∙ sym status,
      )

  -- An item that `Release` returns has no assignee, and a "status" tag that mirrors its status,
  -- "open".
  pub release-tags :
      (ctx : Context) (now : Time) (id : String) (s : S) (item : Item Set Any)
      → (release env ctx now id s).0 ≡ ok item
      → (tag_value env item "assignee" ≡ "")
        × (item.proto.status ≡ status_open)
        × (tag_value env item "status" ≡ item.proto.status)
  unfolding release tag_value
  release-tags ctx now id s item h =
      let (actor, known, e1, h1) = continue-ok (actor_from_ctx ctx) _ s h in
      let (found, got, e2, h2) = continue-ok (get env id s) _ s h1 in
      let (held, e3) = then-ok (found.proto.status == status_claimed) _ _ s h2 in
      let (ws, tagged, tags, status) =
        do_transition-tags now (record found { tags = env.tags.without found.tags "assignee" })
          status_open (new_proto_event env actor (item_released actor)) [] s
          (sym (ap (λ x. x.0) e3) ∙ h2) in
      (
        ap (λ t. env.tags.value_of t "assignee") tags
            ∙ laws.assignee-with_status _ ws status_open tagged
            ∙ laws.value_of-without found.tags "assignee",
        status,
        ap (λ t. env.tags.value_of t "status") tags
            ∙ laws.value_of-with_value _ ws "status" status_open tagged
            ∙ sym status,
      )
