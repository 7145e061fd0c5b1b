-- ===== src/Inbox/Create/Stored.antt =====
-- What a successful `Create` of create.go has stored.
use inbox.Prelude.{String, ◌≡◌, ◌≢◌, refl, sym, ◌∙◌, ap, subst, none, some, [], ◌∷◌}
use inbox.Effect.{value, ok, of_fallible}
use inbox.Effect.Blocks.{continue-ok, pure-ok}
use inbox.Proto.{Time, Event, ProtoItem, Message, message_name}
use inbox.External.{Context, Env}
use inbox.External.Store.{StoreLaws, stored, wrote, written}
use inbox.Inbox.Status.{status_open}
use inbox.Inbox.Item.{
  Item, Meta, entity_type, actor_from_ctx, pack_payload_any, payload_type_from_msg,
}
use inbox.Inbox.Get.{get}
use inbox.Inbox.Create.{resolve_payload, item_anchors, new_item, create_op, create_item}
use inbox.Inbox.Evolution.Store.{get-of_stored}

-- An item as `actor` has just created it from `meta`.
-- Its payload and payload type are those of `meta`, or are made of the message of `meta`.
pub record IsNew {S Set Any Foreign : Type 0} (env : Env S Set Any Foreign) (now : Time)
    (actor : String) (meta : Meta Set Any Foreign) (p : ProtoItem Any) : Type 0 where
  pub status : p.status ≡ status_open
  pub idempotency_key : p.idempotency_key ≡ meta.idempotency_key
  pub title : p.title ≡ meta.title
  pub description : p.description ≡ meta.description
  pub deadline : p.deadline ≡ meta.deadline
  pub event : Event Any
  pub events : p.events ≡ event ∷ []
  pub at : event.at ≡ some now
  pub by : event.actor ≡ actor
  pub data_type : event.data_type ≡ "inbox.v1.ItemCreated"
  pub packed :
      (a : Any)
      → meta.payload_any ≡ some a
      → (p.payload ≡ some a) × (p.payload_type ≡ meta.payload_type_name)
  pub message :
      (m : Message Foreign)
      → meta.payload_any ≡ none
      → meta.payload ≡ some m
      → (p.payload ≡ env.new_any m) × (p.payload_type ≡ message_name env.foreign_name m)
  pub no_payload :
      meta.payload_any ≡ none → meta.payload ≡ none → (p.payload ≡ none) × (p.payload_type ≡ "")

module _ {S Set Any Foreign : Type 0} (env : Env S Set Any Foreign) where
  -- The anchors that `Create` writes by hand are those of the generated `itemAnchors`.
  create_op-anchors :
      (id : String) (p : ProtoItem Any) (t : Set) → (create_op env id p t).anchors ≡ item_anchors p
  unfolding create_op item_anchors
  create_op-anchors id p t = refl

  no_key_anchors :
      (id : String) (p : ProtoItem Any) (t : Set)
      → p.idempotency_key ≡ ""
      → (create_op env id p t).anchors ≡ []
  unfolding create_op
  no_key_anchors id p t e = rw e refl

  create-parts :
      (ctx : Context) (now : Time) (id : String) (meta : Meta Set Any Foreign) (s : S)
      {item : Item Set Any}
      → (create_item env ctx now id meta s).0 ≡ ok item
      → (actor : String) × (t : Set) × (actor_from_ctx ctx ≡ ok actor)
        × (wrote env.store (create_op env id (new_item env now actor meta) t) s ≡ value tt)
        × (item.proto ≡ new_item env now actor meta)
        × (item.id ≡ id)
        × ((create_item env ctx now id meta s).1
            ≡ written env.store (create_op env id (new_item env now actor meta) t) s)
  unfolding create_item
  create-parts ctx now id meta s h =
      let (actor, known, e1, h1) = continue-ok (actor_from_ctx ctx) _ s h in
      let (t, tagged, e2, h2) =
        continue-ok (of_fallible _ (env.tags.with_value meta.tags "status" status_open)) _ s h1 in
      let (done, e, e3) =
        pure-ok _ (wrote env.store (create_op env id (new_item env now actor meta) t) s) _ _ h2 in
      (
        actor,
        t,
        known,
        done,
        ap (λ i. i.proto) (sym e),
        ap (λ i. i.id) (sym e),
        ap (λ x. x.1) (e1 ∙ e2 ∙ e3),
      )

  new_item-IsNew :
      (now : Time) (actor : String) (meta : Meta Set Any Foreign)
      → IsNew env now actor meta (new_item env now actor meta)
  unfolding new_item resolve_payload pack_payload_any payload_type_from_msg
  new_item-IsNew now actor meta = record {
    status = refl;
    idempotency_key = refl;
    title = refl;
    description = refl;
    deadline = refl;
    event = _;
    events = refl;
    at = refl;
    by = refl;
    data_type = refl;
    packed = λ a e. rw e (refl, refl);
    message = λ m e e'. rw (e, e') (refl, refl);
    no_payload = λ e e'. rw (e, e') (refl, refl);
  }

  new_item-key :
      (now : Time) (actor : String) (meta : Meta Set Any Foreign)
      → (new_item env now actor meta).idempotency_key ≡ meta.idempotency_key
  unfolding new_item
  new_item-key now actor meta = refl

  written-create_op :
      StoreLaws env.store
      → (s : S) (id : String) (p : ProtoItem Any) (t : Set) → p.idempotency_key ≡ ""
      → stored env.store s id ≡ none
      → wrote env.store (create_op env id p t) s ≡ value tt
      → (stored env.store (written env.store (create_op env id p t) s) id
          ≡ some (entity_type, value p))
        × ((j : String)
            → j ≢ id
            → stored env.store (written env.store (create_op env id p t) s) j
              ≡ stored env.store s j)
  unfolding create_op
  written-create_op laws s id p t no_key free done = (
    laws.create_new s (create_op env id p t) refl (no_key_anchors id p t no_key) free done,
    λ j other. laws.create_other s (create_op env id p t) j refl other,
  )

  -- A `Create` with no idempotency key that succeeds, under an id that was not in use, returns an
  -- open item with the content of `meta`, its payload included, and one event, by the caller; `Get` finds the same item
  -- under the new id, and the data of all other entities is as before.
  pub get-create_item :
      (laws : StoreLaws env.store) (ctx : Context) (now : Time) (id : String)
      (meta : Meta Set Any Foreign) (s : S) (item : Item Set Any)
      → meta.idempotency_key ≡ ""
      → stored env.store s id ≡ none
      → (create_item env ctx now id meta s).0 ≡ ok item
      → (actor : String) × (found : Item Set Any) × (actor_from_ctx ctx ≡ ok actor)
        × IsNew env now actor meta item.proto
        × (get env id (create_item env ctx now id meta s).1 ≡ ok found)
        × (found.proto ≡ item.proto)
        × (item.id ≡ id)
        × ((j : String)
            → j ≢ id
            → stored env.store (create_item env ctx now id meta s).1 j ≡ stored env.store s j)
  get-create_item laws ctx now id meta s item no_key free h =
      let (actor, t, known, done, e, own, final) = create-parts ctx now id meta s h in
      let p = new_item env now actor meta in
      let (here, rest) =
        written-create_op laws s id p t (new_item-key now actor meta ∙ no_key) free done in
      let t' = (create_item env ctx now id meta s).1 in
      let here' : stored env.store t' id ≡ some (entity_type, value p) =
        subst (λ u. stored env.store u id ≡ some (entity_type, value p)) (sym final) here in
      let (found, got, same, _) = get-of_stored env laws t' id p here' in
      (
        actor,
        found,
        known,
        subst (IsNew env now actor meta) (sym e) (new_item-IsNew now actor meta),
        got,
        same ∙ sym e,
        own,
        λ j other.
            subst (λ u. stored env.store u j ≡ stored env.store s j) (sym final) (rest j other),
      )
