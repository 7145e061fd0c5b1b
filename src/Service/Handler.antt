-- ===== src/Service/Handler.antt =====
-- service/service.go: one function per method of `Handler`.
use inbox.Prelude.{
  ℕ, zero, suc, ℤ, pos, negsuc, String, Bool, false, ◌||◌, not, Option, none, some, List, length,
  is_nil, last?, nat_eq, if◌then◌else◌,
}
use inbox.Effect.{Outcome, ok, panic, Exec, pure, lift, reads, rethrow, ◌>>=◌, ◌>>◌}
use inbox.Proto.{Time, Event}
use inbox.Proto.Service.{
  InboxItem, CreateItemRequest, ItemRequest, ListItemsRequest, ListItemsResponse,
  SearchItemsRequest, ReassignItemRequest, CommentOnItemRequest, AddEventRequest, CloseItemRequest,
  TagItemRequest, UntagItemRequest,
}
use inbox.External.{Env}
use inbox.Inbox.Item.{Item, Meta, CommentOpts}
use inbox.Inbox.Create
use inbox.Inbox.Get
use inbox.Inbox.Events
use inbox.Inbox.Lifecycle
use inbox.Inbox.Tagging
use inbox.Service.Convert.{
  ConnectError, map_error, actor_str, to_proto, to_proto_slice, ctx_with_identity,
}

-- `int(req.Msg.PageSize) > 0 && len(items) == int(req.Msg.PageSize)`
abbrev pub is_full : ℤ → ℕ → Bool
is_full (pos zero) n = false
is_full (pos (suc size)) n = nat_eq n (suc size)
is_full (negsuc size) n = false

-- `items[len(items)-1].UpdatedAt` of a full page
unfoldable pub next_cursor :
    {Set Any : Type 0} → ℤ → List (Item Set Any) → Outcome ConnectError (Option Time)
next_cursor page_size items =
    if is_full page_size (length items)
    then elim (last? items) [
      | none ↦ panic "index out of range"
      | some last ↦ ok (some last.updated_at)
    ]
    else ok none

abbrev pub comment_opts : CommentOnItemRequest → Option CommentOpts
comment_opts req =
    if not (is_nil req.visibility) || not (is_nil req.refs)
    then some (record { visibility = req.visibility; refs = req.refs })
    else none

module _ {S Set Any Foreign : Type 0} (env : Env S Set Any Foreign) where
  -- The payload type of a request counts only with a payload.
  unfoldable pub meta_of : CreateItemRequest Any → Meta Set Any Foreign
  meta_of req = record {
    title = req.title;
    description = req.description;
    deadline = req.deadline;
    payload = none;
    tags = if is_nil req.tags then env.tags.empty else env.tags.from_strings req.tags;
    idempotency_key = req.idempotency_key;
    payload_any = req.payload;
    payload_type_name = elim req.payload [ none ↦ "" | some _ ↦ req.payload_type ];
  }

  unfoldable pub create_item :
      Time → String → CreateItemRequest Any → Exec S ConnectError (InboxItem Any)
  unfolding ctx_with_identity meta_of to_proto map_error
  create_item now id req = do
    ctx ← lift (ctx_with_identity env req.identity)
    item ← rethrow map_error (Create.create_item env ctx now id (meta_of req))
    pure (to_proto env item)

  unfoldable pub get_item : ItemRequest → Exec S ConnectError (InboxItem Any)
  unfolding ctx_with_identity to_proto map_error
  get_item req = do
    ctx ← lift (ctx_with_identity env req.identity)
    item ← rethrow map_error (reads (Get.get env req.id))
    pure (to_proto env item)

  unfoldable pub list_items : ListItemsRequest → Exec S ConnectError (ListItemsResponse Any)
  unfolding ctx_with_identity to_proto_slice map_error next_cursor
  list_items req = do
    ctx ← lift (ctx_with_identity env req.identity)
    items ← rethrow map_error (
        reads (
          Get.list_by_tags env req.tags
            (record { page_size = req.page_size; cursor = req.cursor })))
    next ← lift (next_cursor req.page_size items)
    pure (record { items = to_proto_slice env items; next_cursor = next })

  unfoldable pub search_items : SearchItemsRequest → Exec S ConnectError (List (InboxItem Any))
  unfolding ctx_with_identity to_proto_slice map_error
  search_items req = do
    ctx ← lift (ctx_with_identity env req.identity)
    items ← rethrow map_error (
        reads
          (Get.search_items env req.query (record { page_size = req.page_size; cursor = none })))
    pure (to_proto_slice env items)

  unfoldable pub claim_item : Time → ItemRequest → Exec S ConnectError (InboxItem Any)
  unfolding ctx_with_identity to_proto map_error
  claim_item now req = do
    ctx ← lift (ctx_with_identity env req.identity)
    item ← rethrow map_error (Lifecycle.claim env ctx now req.id)
    pure (to_proto env item)

  unfoldable pub release_item : Time → ItemRequest → Exec S ConnectError (InboxItem Any)
  unfolding ctx_with_identity to_proto map_error
  release_item now req = do
    ctx ← lift (ctx_with_identity env req.identity)
    item ← rethrow map_error (Lifecycle.release env ctx now req.id)
    pure (to_proto env item)

  unfoldable pub reassign_item : Time → ReassignItemRequest → Exec S ConnectError (InboxItem Any)
  unfolding ctx_with_identity to_proto map_error
  reassign_item now req = do
    ctx ← lift (ctx_with_identity env req.identity)
    item ←
        rethrow map_error
          (Events.reassign env ctx now req.id req.from_actor req.to_actor req.reason)
    pure (to_proto env item)

  unfoldable pub comment_on_item : Time → CommentOnItemRequest → Exec S ConnectError (InboxItem Any)
  unfolding ctx_with_identity to_proto map_error
  comment_on_item now req = do
    ctx ← lift (ctx_with_identity env req.identity)
    item ← rethrow map_error (Events.comment env ctx now req.id req.body (comment_opts req))
    pure (to_proto env item)

  unfoldable pub add_event : Time → AddEventRequest Any → Exec S ConnectError (InboxItem Any)
  unfolding ctx_with_identity to_proto map_error actor_str
  add_event now req = do
    ctx ← lift (ctx_with_identity env req.identity)
    actor ← lift (actor_str ctx)
    let evt : Event Any = record {
      at = none;
      actor = actor;
      action = "";
      detail = req.detail;
      data_type = req.data_type;
      event_data = req.event_data;
    }
    item ← rethrow map_error (Events.add_event env now req.id evt)
    pure (to_proto env item)

  unfoldable pub close_item : Time → CloseItemRequest → Exec S ConnectError (InboxItem Any)
  unfolding ctx_with_identity to_proto map_error
  close_item now req = do
    ctx ← lift (ctx_with_identity env req.identity)
    item ← rethrow map_error (Lifecycle.close env ctx now req.id req.reason)
    pure (to_proto env item)

  unfoldable pub tag_item : Time → TagItemRequest → Exec S ConnectError (Unit {0})
  unfolding ctx_with_identity map_error
  tag_item now req = do
    ctx ← lift (ctx_with_identity env req.identity)
    rethrow map_error (Tagging.tag env ctx now req.id req.tags)
    pure tt

  unfoldable pub untag_item : Time → UntagItemRequest → Exec S ConnectError (Unit {0})
  unfolding ctx_with_identity map_error
  untag_item now req = do
    ctx ← lift (ctx_with_identity env req.identity)
    rethrow map_error (Tagging.untag env ctx now req.id req.tag)
    pure tt
