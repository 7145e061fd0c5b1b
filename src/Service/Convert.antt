-- ===== src/Service/Convert.antt =====
-- service/convert.go, and `mapError` and `actorStr` of service/service.go
use inbox.Prelude.{String, ◌<>◌, ◌==◌, Option, none, some, List, [], ◌∷◌, if◌then◌else◌}
use inbox.Effect.{Fallible, value, failure, Outcome, ok, err, panic}
use inbox.Proto.Service.{ProtoIdentity, InboxItem}
use inbox.External.{Identity, Context, Env}
use inbox.Inbox.Errors.{Error, is, err_not_found, err_invalid_transition, err_terminal_status}
use inbox.Inbox.Item.{Item}

-- the codes of `connect` that the service and the generated code use
pub data Code : Type 0 where
  code_invalid_argument code_not_found code_failed_precondition code_internal : Code
  code_unimplemented : Code

-- `connect.NewError(code, err)`, of an error of the inbox or of another
pub data ConnectError : Type 0 where
  of_inbox : Code → Error → ConnectError
  of_text : Code → String → ConnectError

unfoldable pub map_error : Error → ConnectError
map_error e =
    if is e err_not_found
    then of_inbox code_not_found e
    else if is e err_invalid_transition
    then of_inbox code_failed_precondition e
    else if is e err_terminal_status
    then of_inbox code_failed_precondition e
    else of_inbox code_internal e

unfoldable pub actor_str : Context → Outcome ConnectError String
actor_str none = panic "identity: no identity in context"
actor_str (some id) = ok (id.principal_type <> ":" <> id.principal_id)

module _ {S Set Any Foreign : Type 0} (env : Env S Set Any Foreign) where
  unfoldable pub to_proto : Item Set Any → InboxItem Any
  to_proto item = record {
    id = item.id;
    item = item.proto;
    tags = env.tags.strings item.tags;
    created_at = some item.created_at;
    updated_at = some item.updated_at;
  }

  unfoldable pub to_proto_slice : List (Item Set Any) → List (InboxItem Any)
  unfolding to_proto
  to_proto_slice [] = []
  to_proto_slice (item ∷ items) = to_proto item ∷ to_proto_slice items

  abbrev pub with_identity : Fallible Identity → Outcome ConnectError Context
  with_identity (failure text) = err (of_text code_invalid_argument text)
  with_identity (value ident) = ok (some ident)

  unfoldable pub ctx_with_identity : Option ProtoIdentity → Outcome ConnectError Context
  ctx_with_identity none = err (of_text code_invalid_argument "identity is required")
  ctx_with_identity (some id) =
      let type = if id.principal_type == "" then env.principal_user else id.principal_type in
      with_identity (env.new_identity id.tenant_id id.workspace_id id.principal_id type id.roles)
