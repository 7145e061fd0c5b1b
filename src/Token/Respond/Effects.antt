-- ===== src/Token/Respond/Effects.antt =====
-- What the submission of a presigned link does to the store.
use inbox.Prelude.{
  String, ◌≡◌, ◌≢◌, refl, sym, ◌∙◌, ap, subst, inl, inr, true, Bool-cases, some, List, ◌==◌, eq_iff,
}
use inbox.Effect.{Fallible, value, failure, Outcome, ok, err, panic}
use inbox.Effect.Blocks.{ok-same}
use inbox.Proto.{Time, ProtoItem}
use inbox.External.{Context, Env}
use inbox.External.Store.{StoreLaws, stored}
use inbox.Inbox.Errors.{Error, is, err_terminal_status}
use inbox.Inbox.Status.{status_closed, is_terminal}
use inbox.Inbox.Item.{Item, entity_type, actor_from_ctx}
use inbox.Inbox.Lifecycle.{close}
use inbox.Inbox.Lifecycle.Success.{close-Moved}
use inbox.Inbox.Lifecycle.Refusal.{close-terminal, close-again}
use inbox.Inbox.Evolution.{StatusPath-terminal}
use inbox.Inbox.Evolution.Store.{get-stored, get-of_stored}
use inbox.Inbox.History.{Call, after_all}
use inbox.Inbox.History.Evolves.{after_all-HasSuccessor}
use inbox.Token.Signing.{Claims, scope_respond}
use inbox.Token.Respond.{
  Toast, toast_text, submitted, claims_context, close_toast, respond, respond_to, handle_post,
}

module _ {S Set Any Foreign : Type 0} (env : Env S Set Any Foreign) (laws : StoreLaws env.store)
    (verify : Time → String → Fallible Claims) (failed : Context) where
  -- An item that is stored in a terminal status.
  abbrev pub Ended : S → String → Type 0
  Ended s id =
      (q : ProtoItem Any) × (stored env.store s id ≡ some (entity_type, value q))
      × (is_terminal q.status ≡ true)

  abbrev pub reason : String
  reason = "submitted via presigned link"

  -- A close whose toast is the success toast has ended the item or found it ended.
  close_toast-Ended :
      (ctx : Context) (now : Time) (id : String) (s : S)
      → close_toast env verify failed (close env ctx now id reason s).0 ≡ ok submitted
      → Ended (close env ctx now id reason s).1 id
        × (actor : String) × (actor_from_ctx ctx ≡ ok actor)
  unfolding is_terminal
  close_toast-Ended ctx now id s h = go _ refl h
    where
      go :
          (r : Outcome Error (Item Set Any))
          → (close env ctx now id reason s).0 ≡ r
          → close_toast env verify failed r ≡ ok submitted
          → Ended (close env ctx now id reason s).1 id
            × (actor : String) × (actor_from_ctx ctx ≡ ok actor)
      go (ok item) e h =
          let (actor, p, known, live, m) = close-Moved env laws ctx now id reason s e in
          let was_closed : item.proto.status ≡ status_closed = ap (λ x. x.status) m.proto in
          ((item.proto, m.now_stored, ap is_terminal was_closed), actor, known)
      go (err f) e h = elim (Bool-cases (is f err_terminal_status)) [
        | inr live ↦ cc (live, h)
        | inl ended ↦
            let (actor, item, known, got, terminal, same) =
              close-terminal env ctx now id reason s e ended in
            let (here, _) = get-stored env laws s id item got in
            ((item.proto, ap (λ t. stored env.store t id) same ∙ here, terminal), actor, known)
      ]
      go (panic text) e h = cc

  -- A submission without a link that is verified for the scope "respond" is answered with an error
  -- and leaves the store as it is.
  pub handle_post-no_scope :
      (now : Time) (signals : Fallible String) (s : S)
      → ((tok : String) (claims : Claims)
          → signals ≡ value tok
          → verify now tok ≡ value claims
          → claims.scope ≢ scope_respond)
      → (text : String) × (handle_post env verify failed now signals s ≡ (ok (toast_text text), s))
  unfolding handle_post
  handle_post-no_scope now (failure text) s h = (text, refl)
  handle_post-no_scope now (value tok) s h = go (verify now tok) refl
    where
      go :
          (r : Fallible Claims)
          → verify now tok ≡ r
          → (text : String) × (respond_to env verify failed now r s ≡ (ok (toast_text text), s))
      go (failure text) e = ("invalid or expired link", refl)
      go (value claims) e = elim (Bool-cases (claims.scope == scope_respond)) [
        | inl may ↦ absurd (h tok claims refl e ((eq_iff claims.scope scope_respond).0 may))
        | inr not ↦ ("this link is view-only", rw not refl)
      ]

  not_success :
      {text : String} → ◌≡◌ {A = Outcome Error Toast} (ok (toast_text text)) (ok submitted) → ⊥
  not_success h = cc (ok-same h)

  -- what a submission that was answered with success was
  record Accepted (now : Time) (signals : Fallible String) (s : S) : Type 0 where
    tok : String
    claims : Claims
    sent : signals ≡ value tok
    checked : verify now tok ≡ value claims
    scope : claims.scope ≡ scope_respond
    done : handle_post env verify failed now signals s ≡ respond env verify failed now claims s

  respond-Ended :
      (now : Time) (claims : Claims) (s : S)
      → (respond env verify failed now claims s).0 ≡ ok submitted
      → Ended (respond env verify failed now claims s).1 claims.item_id
        × (actor : String) × (actor_from_ctx (claims_context env verify failed claims) ≡ ok actor)
  unfolding respond
  respond-Ended now claims s h =
      close_toast-Ended (claims_context env verify failed claims) now claims.item_id s h

  after_all-Ended :
      (calls : List (Call Any)) (s : S) (id : String)
      → Ended s id
      → Ended (after_all env calls s) id
  after_all-Ended calls s id (q, here, ended) =
      let (p, there, later) = after_all-HasSuccessor env laws calls s id q here in
      (p, there, ap is_terminal (StatusPath-terminal later.path ended) ∙ ended)

  -- a link for an item that has ended
  handle_post-Ended :
      (now : Time) (signals : Fallible String) (s : S) (tok : String) (claims : Claims)
      (actor : String)
      → signals ≡ value tok
      → verify now tok ≡ value claims
      → claims.scope ≡ scope_respond
      → actor_from_ctx (claims_context env verify failed claims) ≡ ok actor
      → Ended s claims.item_id
      → handle_post env verify failed now signals s ≡ (ok submitted, s)
  unfolding handle_post respond
  handle_post-Ended now signals s tok claims actor sent checked scope known (q, here, ended) =
      let (item, got, p, _) = get-of_stored env laws s claims.item_id q here in
      let terminal : is_terminal item.proto.status ≡ true =
        ap (λ x. is_terminal x.status) p ∙ ended in
      let again =
        close-again env (claims_context env verify failed claims) now claims.item_id reason actor s
          item known got terminal in
      rw (sent, checked, (eq_iff claims.scope scope_respond).1 scope, again) refl

  handle_post-Accepted :
      (now : Time) (signals : Fallible String) (s : S)
      → (handle_post env verify failed now signals s).0 ≡ ok submitted
      → Accepted now signals s
  unfolding handle_post
  handle_post-Accepted now (failure text) s h = cc
  handle_post-Accepted now (value tok) s h = go (verify now tok) refl (ap (λ r. r) h)
    where
      go :
          (r : Fallible Claims)
          → verify now tok ≡ r
          → (respond_to env verify failed now r s).0 ≡ ok submitted
          → Accepted now (value tok) s
      go (failure text) e h = cc
      go (value claims) e h = elim (Bool-cases (claims.scope == scope_respond)) [
        | inr not ↦ absurd (not_success (rw not at h))
        | inl may ↦ record {
          tok = tok;
          claims = claims;
          sent = refl;
          checked = e;
          scope = (eq_iff claims.scope scope_respond).0 may;
          done = ap (λ r. respond_to env verify failed now r s) e ∙ rw may refl;
        }
      ]

  -- a link that has expired, or that is no longer verified for another reason
  handle_post-refused :
      (now : Time) (signals : Fallible String) (s : S) (tok text : String)
      → signals ≡ value tok
      → verify now tok ≡ failure text
      → handle_post env verify failed now signals s ≡ (ok (toast_text "invalid or expired link"), s)
  unfolding handle_post
  handle_post-refused now signals s tok text sent checked = rw (sent, checked) refl

  -- What the same link is answered at another time: success if it is verified, and else that it is
  -- invalid or expired.
  abbrev pub again_toast : Fallible Claims → Toast
  again_toast (value claims) = submitted
  again_toast (failure text) = toast_text "invalid or expired link"

  again :
      (now : Time) (signals : Fallible String) (s : S) (tok : String) (claims : Claims)
      (actor : String)
      → signals ≡ value tok
      → ((claims' : Claims) → verify now tok ≡ value claims' → claims' ≡ claims)
      → claims.scope ≡ scope_respond
      → actor_from_ctx (claims_context env verify failed claims) ≡ ok actor
      → Ended s claims.item_id
      → (r : Fallible Claims) → verify now tok ≡ r
      → handle_post env verify failed now signals s ≡ (ok (again_toast r), s)
  again now signals s tok claims actor sent fixed scope known ended (failure text) e =
      handle_post-refused now signals s tok text sent e
  again now signals s tok claims actor sent fixed scope known ended (value claims') e =
      handle_post-Ended now signals s tok claims actor sent (e ∙ ap value (fixed claims' e)) scope
        known ended

  -- After a submission that was answered with success, the item of the link is stored in a terminal
  -- status. Whatever calls of the inbox follow, submitting the same link at another time changes
  -- nothing: it is answered with success if the link is still verified, and with "invalid or expired
  -- link" if it is not. The claims of a link do not depend on the time at which it is verified.
  pub handle_post-twice :
      (now now' : Time) (signals : Fallible String) (s : S) (calls : List (Call Any))
      → ((tok : String) (claims claims' : Claims)
          → verify now tok ≡ value claims
          → verify now' tok ≡ value claims'
          → claims' ≡ claims)
      → (handle_post env verify failed now signals s).0 ≡ ok submitted
      → (tok : String) × (claims : Claims) × (signals ≡ value tok)
        × (verify now tok ≡ value claims)
        × Ended (handle_post env verify failed now signals s).1 claims.item_id
        × (handle_post env verify failed now' signals
              (after_all env calls (handle_post env verify failed now signals s).1)
            ≡ (
              ok (again_toast (verify now' tok)),
              after_all env calls (handle_post env verify failed now signals s).1,
            ))
  handle_post-twice now now' signals s calls fixed h =
      let a = handle_post-Accepted now signals s h in
      let (ended, actor, known) = respond-Ended now a.claims s (sym (ap (λ x. x.0) a.done) ∙ h) in
      let ended' = subst (λ x. Ended x.1 a.claims.item_id) (sym a.done) ended in
      (
        a.tok,
        a.claims,
        a.sent,
        a.checked,
        ended',
        again now' signals _ a.tok a.claims actor a.sent
            (λ claims' e. fixed a.tok a.claims claims' a.checked e) a.scope known
            (after_all-Ended calls _ a.claims.item_id ended') (verify now' a.tok) refl,
      )
