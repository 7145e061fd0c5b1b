-- ===== src/Token/Respond/Actor.antt =====
-- The actor of a presigned link in the log of the item that it closes.
use Prim.Native.Char.{Char, code}
use Prim.Native.String.append
use text.Mathlib.TextLemmas.{append_assoc}
use inbox.Prelude.{
  arith, String, ◌≡◌, ◌≢◌, refl, sym, ◌∙◌, ap, ◌<>◌, eq_iff, eq_refl, nat_eq, false, none, some, [],
}
use inbox.Effect.{Fallible, value, ok}
use inbox.Effect.Blocks.{ok-same}
use inbox.Proto.{Time, ProtoItem, item_closed}
use inbox.External.{Identity, Context, Env}
use inbox.External.Identities.{IdentityLaws}
use inbox.External.Store.{StoreLaws, stored}
use inbox.Inbox.Status.{status_closed}
use inbox.Inbox.Item.{Item, entity_type, actor_from_ctx, new_proto_event, stamp}
use inbox.Inbox.Lifecycle.{close}
use inbox.Inbox.Lifecycle.Outcome.{moved}
use inbox.Inbox.Lifecycle.Success.{close-Moved}
use inbox.Token.Signing.{Claims}
use inbox.Token.Respond.{cut_colon, principal_in, principal_of, context_of, claims_context, respond}

-- A text is cut at the first ':' if there is none before it.
colon-append : (rest : String) → ":" <> rest ≡ String.◌∷◌ ":" rest
colon-append rest = append.cons ":" "" rest ∙ ap (String.◌∷◌ ":") (append.nil rest)

cut_cons :
    (c : Char) (s : String)
    → cut_colon (String.◌∷◌ c s) ≡ none
    → (nat_eq (code c) 58 ≡ false) × (cut_colon s ≡ none)
unfolding cut_colon
cut_cons c s h = ground arith

cut_colon-append :
    (prefix rest : String)
    → cut_colon prefix ≡ none
    → cut_colon (prefix <> (":" <> rest)) ≡ some (prefix, rest)
unfolding cut_colon
cut_colon-append String.[] rest h = ap cut_colon (append.nil (":" <> rest) ∙ colon-append rest)
cut_colon-append (String.◌∷◌ c s) rest h =
    let (other, none_later) = cut_cons c s h in
    ap cut_colon (append.cons c s (":" <> rest))
    ∙ rw (other, cut_colon-append s rest none_later) refl

module _ {S Set Any Foreign : Type 0} (env : Env S Set Any Foreign)
    (verify : Time → String → Fallible Claims) (failed : Context) where
  principal_of-user :
      (id : String)
      → cut_colon env.principal_user ≡ none
      → env.principal_user ≢ ""
      → principal_of env verify (env.principal_user <> ":" <> id) ≡ (env.principal_user, id)
  unfolding principal_of
  principal_of-user id plain named =
      ap (λ t. principal_in env verify t (cut_colon t)) (append_assoc env.principal_user ":" id)
      ∙ ap (principal_in env verify (env.principal_user <> (":" <> id)))
          (cut_colon-append env.principal_user id plain)
      ∙ ground (arith, eq_iff env.principal_user "", eq_refl env.principal_user)

  claims_context-actor :
      IdentityLaws env
      → (claims : Claims) (id : String) (i : Identity) → cut_colon env.principal_user ≡ none
      → env.principal_user ≢ ""
      → claims.actor ≡ env.principal_user <> ":" <> id
      → env.new_identity "token" "token" id env.principal_user [] ≡ value i
      → actor_from_ctx (claims_context env verify failed claims) ≡ ok claims.actor
  unfolding claims_context actor_from_ctx
  claims_context-actor laws claims id i plain named same made =
      let user : principal_of env verify claims.actor ≡ (env.principal_user, id) =
        ap (principal_of env verify) same ∙ principal_of-user id plain named in
      let (a, b) = laws.made "token" "token" id env.principal_user [] i made in
      ap
        (λ x.
          actor_from_ctx
            (context_of env verify failed (env.new_identity "token" "token" x.1 x.0 [])))
        user
      ∙ ap (λ r. actor_from_ctx (context_of env verify failed r)) made
      ∙ ap (λ t. ok (t <> ":" <> i.principal_id)) b
      ∙ ap (λ t. ok (env.principal_user <> ":" <> t)) a
      ∙ ap ok (sym same)

  -- When the actor of a link is a user that `identity.New` accepts, and the link is for an item that
  -- is not terminal, a submission that closes it stores it as closed with one more event at the end
  -- of its log: the close, by the actor as the link writes it, at the time of the submission.
  pub respond-records :
      StoreLaws env.store
      → IdentityLaws env
      → (now : Time) (claims : Claims) (id : String) (i : Identity) (s : S) (item : Item Set Any)
      → cut_colon env.principal_user ≡ none
      → env.principal_user ≢ ""
      → claims.actor ≡ env.principal_user <> ":" <> id
      → env.new_identity "token" "token" id env.principal_user [] ≡ value i
      → (close env
          (claims_context env verify failed claims)
          now
          claims.item_id
          "submitted via presigned link"
          s).0
        ≡ ok item
      → (p : ProtoItem Any) × (stored env.store s claims.item_id ≡ some (entity_type, value p))
        × (stored env.store (respond env verify failed now claims s).1 claims.item_id
            ≡ some (
              entity_type,
              value (
                  moved p status_closed
                    (record (new_proto_event env claims.actor
                      (item_closed claims.actor "submitted via presigned link")) {
                        at = some now;
                      })),
            ))
  unfolding respond stamp new_proto_event
  respond-records laws idents now claims id i s item plain named same made h =
      let ctx = claims_context env verify failed claims in
      let (actor, p, known, live, m) =
        close-Moved env laws ctx now claims.item_id "submitted via presigned link" s h in
      let by : actor ≡ claims.actor =
        ok-same (sym known ∙ claims_context-actor idents claims id i plain named same made) in
      let e : item.proto
          ≡ moved p status_closed (
              stamp now (
                new_proto_event env claims.actor
                  (item_closed claims.actor "submitted via presigned link"))) =
        m.proto
        ∙ ap
            (λ a.
              moved p status_closed
                (stamp now (new_proto_event env a (item_closed a "submitted via presigned link"))))
            by in
      (p, m.found, m.now_stored ∙ ap (λ q. some (entity_type, value q)) e)
