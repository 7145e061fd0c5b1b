-- ===== src/Inbox/Tagging/Evolves.antt =====
-- What `Tag` and `Untag` of tags.go do to the store.
use inbox.Prelude.{String, List, [], ◌∷◌, ◌<>◌, join}
use inbox.Effect.{of_fallible}
use inbox.Proto.{Time, tags_changed}
use inbox.External.{Context, Env}
use inbox.External.Store.{StoreLaws}
use inbox.Inbox.Item.{actor_from_ctx, new_proto_event_with_detail}
use inbox.Inbox.Tagging.{tag, untag}
use inbox.Inbox.Evolution.Store.{Same, Same-refl, Evolves, Evolves-after-Same, continue-Evolves}
use inbox.Inbox.Events.Evolves.{add_event-Evolves}

module _ {S Set Any Foreign : Type 0} (env : Env S Set Any Foreign)
    (laws : StoreLaws env.store) where
  pub tag-Evolves :
      (ctx : Context) (now : Time) (id : String) (raw : List String) (s : S)
      → Evolves env.store id s (tag env ctx now id raw s).1
  unfolding tag
  tag-Evolves ctx now id raw s = continue-Evolves (actor_from_ctx ctx) _ (Same-refl s) λ actor _.
      let (r, t) = env.store.add_tags id raw s in
      let same : Same env.store s t = record { at = laws.add_tags_data s id raw } in
      continue-Evolves (of_fallible _ r) _ same λ _ _. Evolves-after-Same same (
        add_event-Evolves env laws now id
          (new_proto_event_with_detail env actor ("+" <> join raw ", +") (tags_changed raw [])) t)

  pub untag-Evolves :
      (ctx : Context) (now : Time) (id old : String) (s : S)
      → Evolves env.store id s (untag env ctx now id old s).1
  unfolding untag
  untag-Evolves ctx now id old s = continue-Evolves (actor_from_ctx ctx) _ (Same-refl s) λ actor _.
      let (r, t) = env.store.remove_tag id old s in
      let same : Same env.store s t = record { at = laws.remove_tag_data s id old } in
      continue-Evolves (of_fallible _ r) _ same λ _ _. Evolves-after-Same same (
        add_event-Evolves env laws now id
          (new_proto_event_with_detail env actor ("-" <> old) (tags_changed [] (old ∷ []))) t)
