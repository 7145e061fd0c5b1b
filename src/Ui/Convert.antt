-- ===== src/Ui/Convert.antt =====
-- The conversions of ui/handler.go.
pub mod RoundTrip
use inbox.Prelude.{String, Option, none, some, List, [], ◌∷◌, ◌<>◌}
use inbox.Effect.{Outcome, ok, panic}
use inbox.Proto.{Time}
use inbox.Proto.Service.{ProtoIdentity, InboxItem}
use inbox.External.{Context, Env}
use inbox.Inbox.Item.{Item}

unfoldable pub actor_str : {E : Type 0} → Context → Outcome E String
actor_str none = panic "identity: no identity in context"
actor_str (some id) = ok (id.principal_type <> ":" <> id.principal_id)

unfoldable pub identity_to_proto : {E : Type 0} → Context → Outcome E ProtoIdentity
identity_to_proto none = panic "identity: no identity in context"
identity_to_proto (some id) = ok (record {
  tenant_id = id.tenant_id;
  workspace_id = id.workspace_id;
  principal_id = id.principal_id;
  principal_type = id.principal_type;
  roles = id.roles;
})

-- the zero time where there is no time
abbrev as_time : Option Time → Time
as_time none = 0
as_time (some t) = t

module _ {S Set Any Foreign : Type 0} (env : Env S Set Any Foreign) where
  unfoldable pub from_proto : InboxItem Any → Item Set Any
  from_proto pb = record {
    id = pb.id;
    proto = pb.item;
    tags = env.tags.from_strings pb.tags;
    created_at = as_time pb.created_at;
    updated_at = as_time pb.updated_at;
  }

  unfoldable pub from_proto_slice : List (InboxItem Any) → List (Item Set Any)
  unfolding from_proto
  from_proto_slice [] = []
  from_proto_slice (pb ∷ pbs) = from_proto pb ∷ from_proto_slice pbs
