-- ===== src/Ui/Actions/Panics.antt =====
-- Panics of the actions and the detail views of ui/actions.go and ui/detail.go.
use inbox.Prelude.{String, refl, none, some, [], ◌<>◌, ◌==◌, if◌then◌else◌}
use inbox.Effect.{Fallible, value, failure, Outcome, ok, err, panic}
use inbox.Effect.Blocks.{Safe}
use inbox.Proto.{Time}
use inbox.Proto.Service.{
  InboxItem, ProtoIdentity, ItemRequest, CloseItemRequest, CommentOnItemRequest,
}
use inbox.External.{Identity, Env}
use inbox.Inbox.Item.{Item}
use inbox.Service.Convert.{ConnectError}
use inbox.Service.Handler.{get_item, claim_item, release_item, close_item, comment_on_item}
use inbox.Service.Panics.{handler-Safe}
use inbox.Ui.Convert.{actor_str, identity_to_proto}
use inbox.Ui.Detail.{Providers, build_detail_data}
use inbox.Ui.Actions.{
  Sent, drawer, row, not_found, nothing, wide, finish, sent_of, respond_with_detail, handle_claim,
  handle_release, handle_close, handle_comment, handle_detail, handle_detail_reload,
  handle_row_reload,
}

module _ {S Set Any Foreign Component : Type 0} (env : Env S Set Any Foreign)
    (providers : Providers Set Any Component) (base_path : String) where
  abbrev sent : Identity → ProtoIdentity
  sent i = record {
    tenant_id = i.tenant_id;
    workspace_id = i.workspace_id;
    principal_id = i.principal_id;
    principal_type = i.principal_type;
    roles = i.roles;
  }

  finish-Safe :
      (i : Identity) (msg : String) (r : Outcome ConnectError (InboxItem Any)) (s t : S)
      → Safe (r, t)
      → Safe (finish env providers base_path (some i) msg r s)
  unfolding respond_with_detail actor_str
  finish-Safe i msg (ok pb) s t h = record { no_text = λ text. cc }
  finish-Safe i msg (err e) s t h = record { no_text = λ text. cc }
  finish-Safe i msg (panic text) s t h = absurd (h.no_text text refl)

  sent_of-Safe :
      (f : Item Set Any → Sent Set Any Component) (g : ConnectError → Sent Set Any Component)
      (r : Outcome ConnectError (InboxItem Any)) (s t : S)
      → Safe (r, t)
      → Safe (sent_of env providers base_path f g r s)
  sent_of-Safe f g (ok pb) s t h = record { no_text = λ text. cc }
  sent_of-Safe f g (err e) s t h = record { no_text = λ text. cc }
  sent_of-Safe f g (panic text) s t h = absurd (h.no_text text refl)

  handle_comment-Safe :
      (i : Identity) (now : Time) (id : String) (signals : Fallible String) (s : S)
      → ((req : CommentOnItemRequest) → Safe (comment_on_item env now req s))
      → Safe (handle_comment env providers base_path (some i) now id signals s)
  unfolding handle_comment identity_to_proto
  handle_comment-Safe i now id (failure text) s commented = record { no_text = λ t. cc }
  handle_comment-Safe i now id (value body) s commented =
      let req : CommentOnItemRequest = record {
        identity = some (sent i);
        id = id;
        body = body;
        visibility = [];
        refs = [];
      } in
      finish-Safe i "Comment added" (comment_on_item env now req s).0
        (comment_on_item env now req s).1 _ (commented req)

  -- For a user with an identity no action and no view of an item panics, whatever the store and the
  -- other packages return, and whether or not the signals of the page can be read.
  pub actions-Safe :
      (i : Identity) (now : Time) (id read : String) (signals : Fallible String) (s : S)
      → Safe (handle_claim env providers base_path (some i) now id s)
        × Safe (handle_release env providers base_path (some i) now id s)
        × Safe (handle_close env providers base_path (some i) now id read s)
        × Safe (handle_comment env providers base_path (some i) now id signals s)
        × Safe (handle_detail env providers base_path (some i) id s)
        × Safe (handle_detail_reload env providers base_path (some i) id s)
        × Safe (handle_row_reload env providers base_path (some i) id s)
  unfolding handle_claim handle_release handle_close handle_comment handle_detail
      handle_detail_reload handle_row_reload actor_str identity_to_proto
  actions-Safe i now id read signals s =
      let (_, got, claimed, released, _, commented, _, closed, _, _) = handler-Safe env now s id in
      let req : ItemRequest = record { identity = some (sent i); id = id } in
      let reason = if read == "" then "closed" else read in
      let done : CloseItemRequest = record { identity = some (sent i); id = id; reason = reason } in
      let r = (get_item env req s).0 in
      let t = (get_item env req s).1 in
      let detail = λ (item : Item Set Any).
        build_detail_data env providers base_path item
          (i.principal_type <> ":" <> i.principal_id) in
      (
        finish-Safe i "Item claimed" (claim_item env now req s).0 (claim_item env now req s).1 _
            (claimed req),
        finish-Safe i "Item released" (release_item env now req s).0 (release_item env now req s).1
            _ (released req),
        finish-Safe i "Item closed" (close_item env now done s).0 (close_item env now done s).1 _
            (closed done),
        handle_comment-Safe i now id signals s commented,
        sent_of-Safe (λ item. drawer (detail item) (wide env providers base_path (detail item)))
            not_found r t t (got req),
        sent_of-Safe (λ item. drawer (detail item) none) not_found r t t (got req),
        sent_of-Safe row (λ e. nothing) r t t (got req),
      )
