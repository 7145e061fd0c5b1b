-- ===== src/Service/Calls.antt =====
-- What the methods of the handler that the interface calls do to the store, as calls of the
-- package's methods.
use inbox.Prelude.{String, ◌≡◌, refl, ◌∙◌, Option, some}
use inbox.Effect.{Outcome, ok, err, panic, Exec, continue, lift, rethrow, ◌>>=◌}
use inbox.Effect.Kept.{Kept, continue-same, kept_laws}
use inbox.Proto.{Time}
use inbox.Proto.Service.{ItemRequest, CommentOnItemRequest, CloseItemRequest}
use inbox.External.{Context, Env}
use inbox.Inbox.Events
use inbox.Inbox.History.{Method, claim, release, close, comment, after}
use inbox.Inbox.Item.{CommentOpts}
use inbox.Inbox.Lifecycle
use inbox.Service.Handler

-- what leads from one store to the other: nothing, or the call of the method, if there is one, on
-- the item
pub data Does {S Set Any Foreign : Type 0} (env : Env S Set Any Foreign) (id : String) (now : Time)
    (called : Option (Method Any)) (s t : S) : Type 0 where
  does_nothing : t ≡ s → Does env id now called s t
  does_call :
      (ctx : Context) (method : Method Any)
      → called ≡ some method
      → t ≡ after env ctx now id method s
      → Does env id now called s t

module _ {S Set Any Foreign : Type 0} (env : Env S Set Any Foreign) (id : String) (now : Time)
    (called : Option (Method Any)) where
  pub Does-same : {s t u : S} → u ≡ t → Does env id now called s t → Does env id now called s u
  Does-same e (does_nothing h) = does_nothing (e ∙ h)
  Does-same e (does_call ctx method same h) = does_call ctx method same (e ∙ h)

  -- An action that does at most that call, on that item.
  pub record Acts {E A : Type 0} (m : Exec S E A) : Type 0 where
    pub does : (s : S) → Does env id now called s (m s).1

  module _ {E A : Type 0} where
    pub Kept-Acts : {m : Exec S E A} → Kept m → Acts m
    Kept-Acts h = record { does = λ s. does_nothing (h.same s) }

    pub rethrow-Acts : {F : Type 0} (f : E → F) {m : Exec S E A} → Acts m → Acts (rethrow f m)
    rethrow-Acts f h = record { does = λ s. h.does s }

  module _ {E A B : Type 0} where
    continue-Does :
        (r : Outcome E A) (k : A → Exec S E B) (s : S)
        → ((a : A) → Acts (k a))
        → Does env id now called s (continue r k s).1
    continue-Does (ok a) k s h = (h a).does s
    continue-Does (err e) k s h = does_nothing refl
    continue-Does (panic text) k s h = does_nothing refl

    -- a pure part before the call, and what follows the call
    pub lift-Acts :
        (r : Outcome E A) {k : A → Exec S E B} → ((a : A) → Acts (k a)) → Acts (lift r >>= k)
    lift-Acts r {k} h = record { does = λ s. continue-Does r k s h }

    pub then-Acts :
        {m : Exec S E A} {k : A → Exec S E B} → Acts m → ((a : A) → Kept (k a)) → Acts (m >>= k)
    then-Acts {m} {k} h rest = record {
      does = λ s. Does-same (continue-same (m s).0 k (m s).1 rest) (h.does s);
    }

module _ {S Set Any Foreign : Type 0} (env : Env S Set Any Foreign) (id : String) (now : Time) where
  module _ (ctx : Context) where
    claim-Acts : Acts env id now (some claim) (Lifecycle.claim env ctx now id)
    claim-Acts = record { does = λ s. does_call ctx claim refl refl }

    release-Acts : Acts env id now (some release) (Lifecycle.release env ctx now id)
    release-Acts = record { does = λ s. does_call ctx release refl refl }

    close-Acts :
        (reason : String)
        → Acts env id now (some (close reason)) (Lifecycle.close env ctx now id reason)
    close-Acts reason = record { does = λ s. does_call ctx (close reason) refl refl }

    comment-Acts :
        (body : String) (opts : Option CommentOpts)
        → Acts env id now (some (comment body opts)) (Events.comment env ctx now id body opts)
    comment-Acts body opts = record { does = λ s. does_call ctx (comment body opts) refl refl }

pub ruleset acts_laws = (lift-Acts, then-Acts, rethrow-Acts, kept_laws)

module _ {S Set Any Foreign : Type 0} (env : Env S Set Any Foreign) (now : Time) where
  pub claim_item-Acts :
      (req : ItemRequest) → Acts env req.id now (some claim) (Handler.claim_item env now req)
  unfolding Handler.claim_item
  claim_item-Acts req = search (acts_laws, claim-Acts)

  pub release_item-Acts :
      (req : ItemRequest) → Acts env req.id now (some release) (Handler.release_item env now req)
  unfolding Handler.release_item
  release_item-Acts req = search (acts_laws, release-Acts)

  pub close_item-Acts :
      (req : CloseItemRequest)
      → Acts env req.id now (some (close req.reason)) (Handler.close_item env now req)
  unfolding Handler.close_item
  close_item-Acts req = search (acts_laws, close-Acts)

  pub comment_on_item-Acts :
      (req : CommentOnItemRequest)
      → Acts env req.id now
          (some (comment req.body (Handler.comment_opts req)))
          (Handler.comment_on_item env now req)
  unfolding Handler.comment_on_item
  comment_on_item-Acts req = search (acts_laws, comment-Acts)
