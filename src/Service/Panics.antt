-- ===== src/Service/Panics.antt =====
-- Panics of the handler of service/service.go.
use inbox.Prelude.{arith, String, ◌≡◌, sym, subst, Option, none, some}
use inbox.Effect.{Fallible, value, failure, Outcome, ok, map_err, Exec, continue, pure}
use inbox.Effect.Blocks.{
  NoPanic, Safe, ok-NoPanic, continue-Safe, map_err-NoPanic, pure-Safe, Safe-NoPanic,
}
use inbox.Proto.{Time}
use inbox.Proto.Service.{
  ProtoIdentity, CreateItemRequest, ItemRequest, ReassignItemRequest, CommentOnItemRequest,
  AddEventRequest, CloseItemRequest, TagItemRequest, UntagItemRequest,
}
use inbox.External.{Identity, Context, Env}
use inbox.Inbox.Item.{actor_from_ctx}
use inbox.Inbox.Errors.{Error}
use inbox.Inbox.Events
use inbox.Inbox.Panics
use inbox.Service.Convert.{ConnectError, map_error, actor_str, with_identity, ctx_with_identity}
use inbox.Service.Handler

module _ {S Set Any Foreign : Type 0} (env : Env S Set Any Foreign) where
  ctx-NoPanic : (id : Option ProtoIdentity) → NoPanic (ctx_with_identity env id)
  unfolding ctx_with_identity
  ctx-NoPanic id = record { no_text = λ text. ground arith }

  -- A context that the handler builds has an identity.
  pub ctx-some :
      (id : Option ProtoIdentity) {ctx : Context}
      → ctx_with_identity env id ≡ ok ctx
      → (i : Identity) × (ctx ≡ some i)
  unfolding ctx_with_identity
  ctx-some none h = cc
  ctx-some (some id) h = go _ h
    where
      go :
          (r : Fallible Identity) {ctx : Context}
          → with_identity env r ≡ ok ctx
          → (i : Identity) × (ctx ≡ some i)
      go (value i) h = (i, cc)
      go (failure text) h = cc

  actor-NoPanic :
      (id : Option ProtoIdentity) (ctx : Context)
      → ctx_with_identity env id ≡ ok ctx
      → NoPanic (actor_from_ctx ctx)
  unfolding actor_from_ctx
  actor-NoPanic id ctx h =
      let (i, e) = ctx-some id h in subst (λ c. NoPanic (actor_from_ctx c)) (sym e) (ok-NoPanic _)

  -- the shape of a method: the identity, the call, and its result made into a response
  abbrev calling :
      {A B : Type 0}
      → Option ProtoIdentity
      → (Context → Exec S Error A)
      → (A → B)
      → Exec S ConnectError B
  calling id m f s =
      continue (ctx_with_identity env id)
        (λ ctx t. continue (map_err map_error (m ctx t).0) (λ a. pure (f a)) (m ctx t).1) s

  calling-Safe :
      {A B : Type 0} (id : Option ProtoIdentity) (m : Context → Exec S Error A) (f : A → B) (s : S)
      → ((ctx : Context) → NoPanic (actor_from_ctx ctx) → Safe (m ctx s))
      → Safe (calling id m f s)
  calling-Safe id m f s safe =
      continue-Safe (ctx_with_identity env id) _ s (ctx-NoPanic id) λ ctx known.
        continue-Safe (map_err map_error (m ctx s).0) _ _
          (map_err-NoPanic _ _ (Safe-NoPanic (safe ctx (actor-NoPanic id ctx known))))
          (λ a _. pure-Safe _ _)

  reads-Safe : {A : Type 0} (r : Outcome Error A) (s : S) → NoPanic r → Safe (r, s)
  reads-Safe r s h = record { no_text = h.no_text }

  module _ (now : Time) (s : S) where
    create_item-Safe :
        (id : String) (req : CreateItemRequest Any) → Safe (Handler.create_item env now id req s)
    unfolding Handler.create_item
    create_item-Safe id req =
        calling-Safe req.identity _ _ s
          (λ ctx has. Panics.create_item-Safe env ctx has now id s (Handler.meta_of env req))

    get_item-Safe : (req : ItemRequest) → Safe (Handler.get_item env req s)
    unfolding Handler.get_item
    get_item-Safe req =
        calling-Safe req.identity _ _ s
          (λ ctx has. reads-Safe _ s (Panics.get-NoPanic env req.id s))

    claim_item-Safe : (req : ItemRequest) → Safe (Handler.claim_item env now req s)
    unfolding Handler.claim_item
    claim_item-Safe req =
        calling-Safe req.identity _ _ s (λ ctx has. Panics.claim-Safe env ctx has now req.id s)

    release_item-Safe : (req : ItemRequest) → Safe (Handler.release_item env now req s)
    unfolding Handler.release_item
    release_item-Safe req =
        calling-Safe req.identity _ _ s (λ ctx has. Panics.release-Safe env ctx has now req.id s)

    reassign_item-Safe : (req : ReassignItemRequest) → Safe (Handler.reassign_item env now req s)
    unfolding Handler.reassign_item
    reassign_item-Safe req = calling-Safe req.identity _ _ s (λ ctx has.
        Panics.reassign-Safe env ctx has now req.id req.from_actor req.to_actor req.reason s)

    comment_on_item-Safe :
        (req : CommentOnItemRequest) → Safe (Handler.comment_on_item env now req s)
    unfolding Handler.comment_on_item
    comment_on_item-Safe req = calling-Safe req.identity _ _ s (λ ctx has.
        Panics.comment-Safe env ctx has now req.id s req.body (Handler.comment_opts req))

    close_item-Safe : (req : CloseItemRequest) → Safe (Handler.close_item env now req s)
    unfolding Handler.close_item
    close_item-Safe req =
        calling-Safe req.identity _ _ s
          (λ ctx has. Panics.close-Safe env ctx has now req.id s req.reason)

    tag_item-Safe : (req : TagItemRequest) → Safe (Handler.tag_item env now req s)
    unfolding Handler.tag_item
    tag_item-Safe req =
        calling-Safe req.identity _ _ s
          (λ ctx has. Panics.tag-Safe env ctx has now req.id s req.tags)

    untag_item-Safe : (req : UntagItemRequest) → Safe (Handler.untag_item env now req s)
    unfolding Handler.untag_item
    untag_item-Safe req =
        calling-Safe req.identity _ _ s
          (λ ctx has. Panics.untag-Safe env ctx has now req.id s req.tag)

    add_event-Safe : (req : AddEventRequest Any) → Safe (Handler.add_event env now req s)
    unfolding Handler.add_event actor_str
    add_event-Safe req =
        continue-Safe (ctx_with_identity env req.identity) _ s (ctx-NoPanic req.identity)
          λ ctx known.
            let (i, e) = ctx-some req.identity known in
            continue-Safe (actor_str ctx) _ s
              (subst (λ c. NoPanic (actor_str c)) (sym e) (ok-NoPanic _))
              λ actor _.
                continue-Safe (map_err map_error (Events.add_event env now req.id _ s).0) _ _
                  (map_err-NoPanic _ _ (Safe-NoPanic (Panics.add_event-Safe env now req.id _ s)))
                  (λ _ _. pure-Safe _ _)

    -- Whatever the store holds and returns, and whatever the tags and identity packages return, the
    -- methods that write and `GetItem` end in a response or an error on every request, never in a
    -- panic, one without an identity included.
    pub handler-Safe :
        (id : String)
        → ((req : CreateItemRequest Any) → Safe (Handler.create_item env now id req s))
          × ((req : ItemRequest) → Safe (Handler.get_item env req s))
          × ((req : ItemRequest) → Safe (Handler.claim_item env now req s))
          × ((req : ItemRequest) → Safe (Handler.release_item env now req s))
          × ((req : ReassignItemRequest) → Safe (Handler.reassign_item env now req s))
          × ((req : CommentOnItemRequest) → Safe (Handler.comment_on_item env now req s))
          × ((req : AddEventRequest Any) → Safe (Handler.add_event env now req s))
          × ((req : CloseItemRequest) → Safe (Handler.close_item env now req s))
          × ((req : TagItemRequest) → Safe (Handler.tag_item env now req s))
          × ((req : UntagItemRequest) → Safe (Handler.untag_item env now req s))
    handler-Safe id = (
      create_item-Safe id,
      get_item-Safe,
      claim_item-Safe,
      release_item-Safe,
      reassign_item-Safe,
      comment_on_item-Safe,
      add_event-Safe,
      close_item-Safe,
      tag_item-Safe,
      untag_item-Safe,
    )
