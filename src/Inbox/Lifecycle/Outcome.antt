-- ===== src/Inbox/Lifecycle/Outcome.antt =====
-- What a successful transition has written.
use inbox.Prelude.{String, ◌≡◌, refl, sym, ◌∙◌, ap, subst, some, List, [], ◌∷◌, ◌++◌}
use inbox.Effect.{value, ok, of_fallible}
use inbox.Effect.Blocks.{continue-ok, pure-ok}
use inbox.Proto.{Time, Event, ProtoItem}
use inbox.External.{Env}
use inbox.External.Store.{StoreLaws, stored, wrote, written}
use inbox.Inbox.Item.{Item, entity_type, stamp}
use inbox.Inbox.Events.{update_op}
use inbox.Inbox.Lifecycle.{do_transition}

abbrev pub moved : {Any : Type 0} → ProtoItem Any → String → Event Any → ProtoItem Any
moved p status evt = record p { status = status; events = p.events ++ evt ∷ [] }

module _ {S Set Any Foreign : Type 0} (env : Env S Set Any Foreign)
    (laws : StoreLaws env.store) where
  update-stored :
      (s : S) (found id : String) (p q r : ProtoItem Any) (tags : List String)
      → found ≡ id
      → stored env.store s id ≡ some (entity_type, value p)
      → wrote env.store (update_op found q tags) s ≡ value tt
      → q ≡ r
      → stored env.store (written env.store (update_op found q tags) s) id
        ≡ some (entity_type, value r)
  update-stored s found id p q r tags same before done e =
      rw (← same, ← e)
        (laws.update_matched s (update_op found q tags) entity_type (value p) refl (rw same before)
          done)

  pub do_transition-ok :
      (now : Time) (id : String) (item : Item Set Any) (to : String) (evt : Event Any)
      (extra : List String) (s : S) (p : ProtoItem Any) {after : Item Set Any}
      → item.id ≡ id
      → stored env.store s id ≡ some (entity_type, value p)
      → (do_transition env now item to evt extra s).0 ≡ ok after
      → (after.proto ≡ moved item.proto to (stamp now evt))
        × (after.id ≡ id)
        × (stored env.store (do_transition env now item to evt extra s).1 id
            ≡ some (entity_type, value after.proto))
  unfolding do_transition
  do_transition-ok now id item to evt extra s p {after} same before h =
      let (with_status, tagged, rest, ok_rest) =
        continue-ok (of_fallible _ (env.tags.with_value item.tags "status" to)) _ s h in
      let (wrote_ok, e, rest') = pure-ok _ (wrote env.store _ s) _ _ ok_rest in
      let whole = rest ∙ rest' in
      (
        ap (λ i. i.proto) (sym e),
        ap (λ i. i.id) (sym e) ∙ same,
        subst (λ r. stored env.store r.1 id ≡ some (entity_type, value after.proto)) (sym whole)
            (update-stored s item.id id p _ after.proto _ same before wrote_ok
              (ap (λ i. i.proto) e)),
      )
