-- ===== src/Ui/Convert/RoundTrip.antt =====
-- Items and identities through the service's messages and back.
use inbox.Prelude.{
  arith, ◌≡◌, ◌≢◌, refl, sym, ◌∙◌, ap, ◌<>◌, ◌==◌, eq_iff, some, List, [], ◌∷◌, if◌then◌else◌,
}
use inbox.Effect.{Outcome, ok}
use inbox.Effect.Blocks.{ok-same}
use inbox.Proto.Service.{ProtoIdentity}
use inbox.External.{Identity, Context, Env}
use inbox.External.Tags.{TagLaws}
use inbox.External.Identities.{IdentityLaws}
use inbox.Inbox.Item.{Item, actor_from_ctx}
use inbox.Service.Convert.{ConnectError, to_proto, to_proto_slice, ctx_with_identity}
use inbox.Service.Statuses.{type_or_user, ctx_with_identity-actor}
use inbox.Ui.Convert.{actor_str, identity_to_proto, from_proto, from_proto_slice}

module _ {S Set Any Foreign : Type 0} (env : Env S Set Any Foreign) where
  from_proto-to_proto :
      TagLaws env.tags → (item : Item Set Any) → from_proto env (to_proto env item) ≡ item
  unfolding from_proto to_proto
  from_proto-to_proto laws item =
      ap (λ t. record item { tags = t }) (laws.from_strings-strings item.tags)

  -- The interface shows the items that the service sends as the inbox has them.
  pub from_proto_slice-to_proto_slice :
      TagLaws env.tags
      → (items : List (Item Set Any)) → from_proto_slice env (to_proto_slice env items) ≡ items
  unfolding from_proto_slice to_proto_slice
  from_proto_slice-to_proto_slice laws [] = refl
  from_proto_slice-to_proto_slice laws (i ∷ items) =
      rw (from_proto-to_proto laws i, from_proto_slice-to_proto_slice laws items) refl

  pub own_type :
      (i : Identity)
      → i.principal_type ≢ ""
      → (if i.principal_type == "" then env.principal_user else i.principal_type) ≡ i.principal_type
  own_type i typed = ground (arith, eq_iff i.principal_type "")

  -- An identity with a type, sent by the interface and accepted by the service, acts in the inbox as
  -- the actor that the interface shows.
  pub ctx_with_identity-identity_to_proto :
      IdentityLaws env
      → (i : Identity) (who : ProtoIdentity) (ctx : Context) → i.principal_type ≢ ""
      → ◌≡◌ {A = Outcome ConnectError ProtoIdentity} (identity_to_proto (some i)) (ok who)
      → ctx_with_identity env (some who) ≡ ok ctx
      → actor_from_ctx ctx ≡ actor_str (some i)
  unfolding identity_to_proto actor_str
  ctx_with_identity-identity_to_proto laws i who ctx typed sent known =
      let same = ok-same sent in
      let type : type_or_user env who ≡ i.principal_type =
        ap (λ w. type_or_user env w) (sym same) ∙ own_type i typed in
      ctx_with_identity-actor env laws who ctx known
      ∙ ap (λ t. ok (t <> ":" <> who.principal_id)) type
      ∙ ap (λ w. ok (i.principal_type <> ":" <> w.principal_id)) (sym same)
