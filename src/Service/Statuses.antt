-- ===== src/Service/Statuses.antt =====
-- The status codes of the handler on closed items, and the actor that it records.
use inbox.Prelude.{
  String, ◌≡◌, refl, sym, ◌∙◌, ap, subst, ◌==◌, ◌<>◌, if◌then◌else◌, some, List, last?,
  last?-append,
}
use inbox.Effect.{Fallible, value, failure, ok, err, map_err}
use inbox.Effect.Blocks.{continue-ok, ok-same, map_err-ok}
use inbox.Proto.{Time, ProtoItem, item_claimed}
use inbox.Proto.Service.{ProtoIdentity, InboxItem, ItemRequest, CloseItemRequest}
use inbox.External.{Identity, Context, Env}
use inbox.External.Identities.{IdentityLaws}
use inbox.External.Store.{StoreLaws, stored}
use inbox.Inbox.Errors.{terminal_status, invalid_transition}
use inbox.Inbox.Status.{status_claimed, status_closed, is_terminal}
use inbox.Inbox.Item.{Item, entity_type, actor_from_ctx, new_proto_event, stamp}
use inbox.Inbox.Lifecycle.{claim, release, close}
use inbox.Inbox.Lifecycle.Final.{close_final}
use inbox.Inbox.Lifecycle.Success.{claim-Moved}
use inbox.Inbox.Evolution.Store.{get-of_stored}
use inbox.Inbox.History.{Call, after_all}
use inbox.Service.Convert.{
  of_inbox, code_failed_precondition, map_error, with_identity, ctx_with_identity, to_proto,
}
use inbox.Service.Handler.{claim_item, release_item, close_item}
use inbox.Service.Panics.{ctx-some}

module _ {S Set Any Foreign : Type 0} (env : Env S Set Any Foreign)
    (laws : StoreLaws env.store) where
  -- what a response of `CloseItem` was made of
  close_item-ok :
      (now : Time) (req : CloseItemRequest) (s : S) (resp : InboxItem Any)
      → (close_item env now req s).0 ≡ ok resp
      → (ctx : Context) × (item : Item Set Any) × ((close env ctx now req.id req.reason s).0
          ≡ ok item)
        × ((close_item env now req s).1 ≡ (close env ctx now req.id req.reason s).1)
  unfolding close_item
  close_item-ok now req s resp h =
      let (ctx, known, e1, h1) = continue-ok (ctx_with_identity env req.identity) _ s h in
      let (item, done, e2, ok_e2) =
        continue-ok (map_err map_error (close env ctx now req.id req.reason s).0) _ _ h1 in
      (ctx, item, map_err-ok _ _ done, ap (λ x. x.1) (e1 ∙ e2))

  close_item-closed :
      (now : Time) (req : CloseItemRequest) (t : S) (q : ProtoItem Any) (ctx : Context)
      → stored env.store t req.id ≡ some (entity_type, value q)
      → q.status ≡ status_closed
      → ctx_with_identity env req.identity ≡ ok ctx
      → close_item env now req t
        ≡ (err (of_inbox code_failed_precondition (terminal_status status_closed)), t)
  unfolding close_item close actor_from_ctx is_terminal map_error
  close_item-closed now req t q ctx here closed known =
      let (i, e) = ctx-some env req.identity known in
      let (item, got, p, _) = get-of_stored env laws t req.id q here in
      let status : item.proto.status ≡ status_closed = ap (λ x. x.status) p ∙ closed in
      rw (known, e, got, status) refl

  release_item-closed :
      (now : Time) (req : ItemRequest) (t : S) (q : ProtoItem Any) (ctx : Context)
      → stored env.store t req.id ≡ some (entity_type, value q)
      → q.status ≡ status_closed
      → ctx_with_identity env req.identity ≡ ok ctx
      → release_item env now req t ≡ (
        err (
            of_inbox code_failed_precondition
              (invalid_transition req.id status_closed status_claimed)),
        t,
      )
  unfolding release_item release actor_from_ctx map_error
  release_item-closed now req t q ctx here closed known =
      let (i, e) = ctx-some env req.identity known in
      let (item, got, p, _) = get-of_stored env laws t req.id q here in
      let status : item.proto.status ≡ status_closed = ap (λ x. x.status) p ∙ closed in
      rw (known, e, got, status) refl

  -- what a `CloseItem` and the calls of the inbox after it leave
  abbrev pub after_close : Time → CloseItemRequest → List (Call Any) → S → S
  after_close now req calls s = after_all env calls (close_item env now req s).1

  -- After a `CloseItem` that succeeded and any calls of the inbox after it, a `CloseItem` and a
  -- `ReleaseItem` of the same id by any identity that is accepted answer with the code
  -- FailedPrecondition, the one for the terminal status and the other for a status that is not
  -- "claimed", and leave the store as it is.
  pub closed_item_codes :
      (now now' : Time) (req req' : CloseItemRequest) (to_free : ItemRequest) (s : S)
      (resp : InboxItem Any) (calls : List (Call Any)) (ctx ctx' : Context)
      → (close_item env now req s).0 ≡ ok resp
      → req'.id ≡ req.id
      → to_free.id ≡ req.id
      → ctx_with_identity env req'.identity ≡ ok ctx
      → ctx_with_identity env to_free.identity ≡ ok ctx'
      → (close_item env now' req' (after_close now req calls s) ≡ (
        err (of_inbox code_failed_precondition (terminal_status status_closed)),
        after_close now req calls s,
      ))
        × (release_item env now' to_free (after_close now req calls s) ≡ (
          err (
              of_inbox code_failed_precondition
                (invalid_transition to_free.id status_closed status_claimed)),
          after_close now req calls s,
        ))
  closed_item_codes now now' req req' to_free s resp calls ctx ctx' h same same' known known' =
      let (by, item, done, left) = close_item-ok now req s resp h in
      let ((q, here, closed), _, _, _) =
        close_final env laws by now req.id req.reason s item calls by now req.reason done in
      let there : stored env.store (after_close now req calls s) req.id
          ≡ some (entity_type, value q) =
        ap (λ t. stored env.store (after_all env calls t) req.id) left ∙ here in
      (
        close_item-closed now' req' _ q ctx (rw same there) closed known,
        release_item-closed now' to_free _ q ctx' (rw same' there) closed known',
      )

module _ {S Set Any Foreign : Type 0} (env : Env S Set Any Foreign) where
  -- the principal type that the handler takes
  abbrev pub type_or_user : ProtoIdentity → String
  type_or_user who = if who.principal_type == "" then env.principal_user else who.principal_type

  pub ctx_with_identity-actor :
      IdentityLaws env
      → (who : ProtoIdentity) (ctx : Context) → ctx_with_identity env (some who) ≡ ok ctx
      → actor_from_ctx ctx ≡ ok (type_or_user who <> ":" <> who.principal_id)
  unfolding ctx_with_identity actor_from_ctx
  ctx_with_identity-actor laws who ctx h =
      go
        (env.new_identity who.tenant_id who.workspace_id who.principal_id (type_or_user who)
          who.roles)
        (λ i.
          laws.made who.tenant_id who.workspace_id who.principal_id (type_or_user who) who.roles i)
        h
    where
      go :
          (r : Fallible Identity)
          → ((i : Identity)
              → r ≡ value i
              → (i.principal_id ≡ who.principal_id) × (i.principal_type ≡ type_or_user who))
          → with_identity env r ≡ ok ctx
          → actor_from_ctx ctx ≡ ok (type_or_user who <> ":" <> who.principal_id)
      go (failure text) made h = cc
      go (value i) made h =
          let (a, b) = made i refl in
          let e : some i ≡ ctx = ok-same h in
          subst (λ c. actor_from_ctx c ≡ ok (type_or_user who <> ":" <> who.principal_id)) e
            (rw (a, b) refl)

  -- A `ClaimItem` that succeeds answers with the item under the id asked for, in status "claimed",
  -- and the last event of its log is the claim, at the time of the call, by the principal of the
  -- request; a request without a principal type counts as one by a user.
  pub claim_item-records :
      StoreLaws env.store
      → IdentityLaws env
      → (now : Time) (who : ProtoIdentity) (id : String) (s : S) (resp : InboxItem Any)
      → (claim_item env now (record { identity = some who; id = id }) s).0 ≡ ok resp
      → (resp.id ≡ id)
        × (resp.item.status ≡ status_claimed)
        × (last? resp.item.events
            ≡ some
                (record (new_proto_event env
                  (type_or_user who <> ":" <> who.principal_id)
                  (item_claimed (type_or_user who <> ":" <> who.principal_id))) { at = some now }))
  unfolding claim_item to_proto stamp new_proto_event
  claim_item-records laws idents now who id s resp h =
      let (ctx, known, e1, h1) = continue-ok (ctx_with_identity env (some who)) _ s h in
      let (item, done, e2, ok_e2) =
        continue-ok (map_err map_error (claim env ctx now id s).0) _ _ h1 in
      let made : to_proto env item ≡ resp = ok-same ok_e2 in
      let (actor, p, by, was_open, m) = claim-Moved env laws ctx now id s (map_err-ok _ _ done) in
      let same_actor : actor ≡ type_or_user who <> ":" <> who.principal_id =
        ok-same (sym by ∙ ctx_with_identity-actor idents who ctx known) in
      (
        ap (λ r. r.id) (sym made) ∙ m.own_id,
        ap (λ r. r.item.status) (sym made) ∙ ap (λ q. q.status) m.proto,
        ap (λ r. last? r.item.events) (sym made)
            ∙ ap (λ q. last? q.events) m.proto
            ∙ last?-append p.events _
            ∙ ap (λ a. some (stamp now (new_proto_event env a (item_claimed a)))) same_actor,
      )
