-- ===== src/Ui/Actions/Shown.antt =====
-- What the interface shows after a claim.
use inbox.Prelude.{String, ◌≡◌, ◌≢◌, refl, sym, ◌∙◌, ap, ◌<>◌, Option, none, some, last?}
use inbox.Effect.{Fallible, Outcome, ok, err, panic}
use inbox.Effect.Blocks.{ok-same}
use inbox.Proto.{Time, Event, item_claimed}
use inbox.Proto.Service.{InboxItem, ProtoIdentity}
use inbox.External.{Identity, Env}
use inbox.External.Identities.{IdentityLaws}
use inbox.External.Store.{StoreLaws}
use inbox.Inbox.Status.{status_claimed}
use inbox.Inbox.Item.{Item, new_proto_event}
use inbox.Service.Convert.{ConnectError}
use inbox.Service.Statuses.{claim_item-records}
use inbox.Ui.Convert.{actor_str, identity_to_proto, from_proto}
use inbox.Ui.Convert.RoundTrip.{own_type}
use inbox.Ui.Detail.{
  DetailData, Providers, Provider, RenderContext, RenderResult, WorkflowState, with_content,
  provided, provider_for, build_detail_data,
}
use inbox.Ui.Actions.{updated, finish, respond_with_detail, handle_claim}

updated-row :
    {Set Any Component : Type 0} {d d' : DetailData Set Any Component} {row row' : Item Set Any}
    {toast toast' : String}
    → updated d row toast ≡ updated d' row' toast'
    → row ≡ row'
updated-row h = cc

updated-detail :
    {Set Any Component : Type 0} {d d' : DetailData Set Any Component} {row row' : Item Set Any}
    {toast toast' : String}
    → updated d row toast ≡ updated d' row' toast'
    → d ≡ d'
updated-detail h = cc

updated-toast :
    {Set Any Component : Type 0} {d d' : DetailData Set Any Component} {row row' : Item Set Any}
    {toast toast' : String}
    → updated d row toast ≡ updated d' row' toast'
    → toast ≡ toast'
updated-toast h = cc

-- what a provider leaves of the data of the drawer
abbrev SameItem : {Set Any Component : Type 0} → (d e : DetailData Set Any Component) → Type 0
SameItem d e = (d.item ≡ e.item) × (d.actor ≡ e.actor)

module _ {Set Any Component : Type 0} (rc : RenderContext Set Any)
    (d : DetailData Set Any Component) where
  with_content-same : (p : Provider Set Any Component) → SameItem (with_content p rc d) d
  with_content-same p = go p.render_rich refl
    where
      go :
          (rich : Option (RenderContext Set Any → RenderResult Component))
          → p.render_rich ≡ rich
          → SameItem (with_content p rc d) d
      go none e = rw e (refl, refl)
      go (some rich) e = rw e (refl, refl)

  provided-same : (o : Option (Provider Set Any Component)) → SameItem (provided o rc d) d
  provided-same none = (refl, refl)
  provided-same (some p) = go p.workflow_status refl
    where
      go :
          (status : Option (Item Set Any → Fallible WorkflowState))
          → p.workflow_status ≡ status
          → SameItem (provided (some p) rc d) d
      go none e = rw e (with_content-same p)
      go (some f) e = rw e (with_content-same p)

module _ {S Set Any Foreign Component : Type 0} (env : Env S Set Any Foreign)
    (providers : Providers Set Any Component) (base_path : String) where
  build_detail_data-same :
      (item : Item Set Any) (actor : String)
      → ((build_detail_data env providers base_path item actor).item ≡ item)
        × ((build_detail_data env providers base_path item actor).actor ≡ actor)
  unfolding build_detail_data
  build_detail_data-same item actor =
      provided-same _ _ (provider_for providers item.proto.payload_type)

  -- what an update shows
  respond-updated :
      (i : Identity) (msg : String) (r : Outcome ConnectError (InboxItem Any)) (s : S)
      {detail : DetailData Set Any Component} {row : Item Set Any} {toast : String}
      → (finish env providers base_path (some i) msg r s).0 ≡ ok (updated detail row toast)
      → (pb : InboxItem Any) × (r ≡ ok pb)
        × (row ≡ from_proto env pb)
        × (detail.item ≡ row)
        × (detail.actor ≡ i.principal_type <> ":" <> i.principal_id)
        × (toast ≡ msg)
  unfolding respond_with_detail actor_str
  respond-updated i msg (ok pb) s h =
      let same = ok-same h in
      let row' = sym (updated-row same) in
      let detail' = sym (updated-detail same) in
      let (own, by) = build_detail_data-same (from_proto env pb) _ in
      (
        pb,
        refl,
        row',
        ap (λ d. d.item) detail' ∙ own ∙ sym row',
        ap (λ d. d.actor) detail' ∙ by,
        sym (updated-toast same),
      )
  respond-updated i msg (err e) s h = cc
  respond-updated i msg (panic text) s h = cc

  abbrev claimed_by : Time → String → Event Any
  claimed_by now actor = record (new_proto_event env actor (item_claimed actor)) { at = some now }

  -- A claim in the interface that updates the page shows the item as claimed, in its row and in the
  -- drawer for the user of the page: the last event of its log is the claim, at that time, by the
  -- user. The toast is "Item claimed".
  pub handle_claim-shows :
      StoreLaws env.store
      → IdentityLaws env
      → (i : Identity) (now : Time) (id : String) (s : S) (detail : DetailData Set Any Component)
        (row : Item Set Any) (toast : String)
      → i.principal_type ≢ ""
      → (handle_claim env providers base_path (some i) now id s).0 ≡ ok (updated detail row toast)
      → (row.id ≡ id)
        × (row.proto.status ≡ status_claimed)
        × (last? row.proto.events
            ≡ some
                (record (new_proto_event env
                  (i.principal_type <> ":" <> i.principal_id)
                  (item_claimed (i.principal_type <> ":" <> i.principal_id))) { at = some now }))
        × (detail.item ≡ row)
        × (detail.actor ≡ i.principal_type <> ":" <> i.principal_id)
        × (toast ≡ "Item claimed")
  unfolding handle_claim identity_to_proto from_proto
  handle_claim-shows laws idents i now id s detail row toast typed h =
      let who : ProtoIdentity = record {
        tenant_id = i.tenant_id;
        workspace_id = i.workspace_id;
        principal_id = i.principal_id;
        principal_type = i.principal_type;
        roles = i.roles;
      } in
      let (pb, e, same, drawer, by, told) = respond-updated i "Item claimed" _ _ h in
      let (own, status, event) = claim_item-records env laws idents now who id s pb e in
      (
        ap (λ r. r.id) same ∙ own,
        ap (λ r. r.proto.status) same ∙ status,
        ap (λ r. last? r.proto.events) same
            ∙ event
            ∙ ap (λ t. some (claimed_by now (t <> ":" <> i.principal_id))) (own_type env i typed),
        drawer,
        by,
        told,
      )
