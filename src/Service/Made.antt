-- ===== src/Service/Made.antt =====
-- The calls of the package's methods that the methods of the handler make.
use inbox.Prelude.{String, ◌≡◌, refl, ◌∙◌, Option, none, some}
use inbox.Effect.{Outcome, ok, err, panic, Exec, lift, rethrow, pure, ◌>>=◌}
use inbox.Effect.Kept.{continue-same, kept_laws}
use inbox.Proto.{Time}
use inbox.Proto.Service.{ItemRequest, CommentOnItemRequest, CloseItemRequest}
use inbox.External.{Context, Env}
use inbox.Inbox.Errors.{Error}
use inbox.Inbox.History
use inbox.Inbox.History.{after}
use inbox.Inbox.Item.{Item}
use inbox.Inbox.Events
use inbox.Inbox.Lifecycle
use inbox.Service.Convert.{ConnectError, map_error, to_proto, ctx_with_identity}
use inbox.Service.Handler.{claim_item, release_item, close_item, comment_on_item, comment_opts}

module _ {S Set Any Foreign : Type 0} (env : Env S Set Any Foreign) where
  -- The store after the call of a method, if there is one, in the context that the service makes of
  -- an identity. Where it makes none there is no call.
  abbrev pub made :
      Option (History.Method Any) → Outcome ConnectError Context → String → Time → S → S
  made none r id now s = s
  made (some method) (ok ctx) id now s = after env ctx now id method s
  made (some method) (err e) id now s = s
  made (some method) (panic text) id now s = s

  module _ (id : String) (now : Time) where
    -- the form of the methods of the service
    method-made :
        (method : History.Method Any) (r : Outcome ConnectError Context)
        (m : Context → Exec S Error (Item Set Any)) (s : S)
        → ((ctx : Context) → (m ctx s).1 ≡ after env ctx now id method s)
        → ((lift r >>= λ ctx. rethrow map_error (m ctx) >>= λ item. pure (to_proto env item)) s).1
          ≡ made (some method) r id now s
    method-made method (ok ctx) m s h =
        continue-same (rethrow map_error (m ctx) s).0 (λ item. pure (to_proto env item)) (m ctx s).1
          (λ item. search kept_laws)
        ∙ h ctx
    method-made method (err e) m s h = refl
    method-made method (panic text) m s h = refl

  pub claim_item-made :
      (now : Time) (req : ItemRequest) (s : S)
      → (claim_item env now req s).1
        ≡ made (some History.claim) (ctx_with_identity env req.identity) req.id now s
  unfolding claim_item
  claim_item-made now req s =
      method-made req.id now History.claim _ (λ ctx. Lifecycle.claim env ctx now req.id) s
        (λ ctx. refl)

  pub release_item-made :
      (now : Time) (req : ItemRequest) (s : S)
      → (release_item env now req s).1
        ≡ made (some History.release) (ctx_with_identity env req.identity) req.id now s
  unfolding release_item
  release_item-made now req s =
      method-made req.id now History.release _ (λ ctx. Lifecycle.release env ctx now req.id) s
        (λ ctx. refl)

  pub close_item-made :
      (now : Time) (req : CloseItemRequest) (s : S)
      → (close_item env now req s).1
        ≡ made (some (History.close req.reason)) (ctx_with_identity env req.identity) req.id now s
  unfolding close_item
  close_item-made now req s =
      method-made req.id now (History.close req.reason) _
        (λ ctx. Lifecycle.close env ctx now req.id req.reason) s (λ ctx. refl)

  pub comment_on_item-made :
      (now : Time) (req : CommentOnItemRequest) (s : S)
      → (comment_on_item env now req s).1
        ≡ made
            (some (History.comment req.body (comment_opts req)))
            (ctx_with_identity env req.identity)
            req.id
            now
            s
  unfolding comment_on_item
  comment_on_item-made now req s =
      method-made req.id now (History.comment req.body (comment_opts req)) _
        (λ ctx. Events.comment env ctx now req.id req.body (comment_opts req)) s (λ ctx. refl)
