-- ===== src/Rpc/Client.antt =====
-- `NewInboxServiceClient`, its struct and the client's methods, in
-- gen/inbox/v1/inboxv1connect/service.connect.go.
use inbox.Prelude.{String, ◌<>◌}
use inbox.Effect.{Exec}
use inbox.Rpc.Procedure.{Procedure, procedure_path, Request, Response}
use inbox.Rpc.Connect.{Connect, HttpHandler, ClientError, trim_right_slashes}

-- a `*connect.Client` of a procedure, through its `CallUnary`
abbrev UnaryClient : Type 0 → Type 0 → Procedure → Type 0
UnaryClient S Any p = Request Any p → Exec S ClientError (Response Any p)

-- `InboxServiceClient`
abbrev ServiceClient : Type 0 → Type 0 → Type 0
ServiceClient S Any = (p : Procedure) → UnaryClient S Any p

-- `inboxServiceClient`
pub record Clients (S Any : Type 0) : Type 0 where
  pub create_item : UnaryClient S Any Procedure.create_item
  pub get_item : UnaryClient S Any Procedure.get_item
  pub list_items : UnaryClient S Any Procedure.list_items
  pub search_items : UnaryClient S Any Procedure.search_items
  pub claim_item : UnaryClient S Any Procedure.claim_item
  pub release_item : UnaryClient S Any Procedure.release_item
  pub reassign_item : UnaryClient S Any Procedure.reassign_item
  pub comment_on_item : UnaryClient S Any Procedure.comment_on_item
  pub add_event : UnaryClient S Any Procedure.add_event
  pub close_item : UnaryClient S Any Procedure.close_item
  pub tag_item : UnaryClient S Any Procedure.tag_item
  pub untag_item : UnaryClient S Any Procedure.untag_item

-- the methods of `inboxServiceClient`
abbrev pub call : {S Any : Type 0} → Clients S Any → ServiceClient S Any
call c Procedure.create_item req = c.create_item req
call c Procedure.get_item req = c.get_item req
call c Procedure.list_items req = c.list_items req
call c Procedure.search_items req = c.search_items req
call c Procedure.claim_item req = c.claim_item req
call c Procedure.release_item req = c.release_item req
call c Procedure.reassign_item req = c.reassign_item req
call c Procedure.comment_on_item req = c.comment_on_item req
call c Procedure.add_event req = c.add_event req
call c Procedure.close_item req = c.close_item req
call c Procedure.tag_item req = c.tag_item req
call c Procedure.untag_item req = c.untag_item req

-- `NewInboxServiceClient` without options
unfoldable pub new_service_client :
    {S Any Body Reply : Type 0}
    → Connect S Any Body Reply
    → HttpHandler S Body Reply
    → String
    → Clients S Any
unfolding trim_right_slashes
new_service_client connect http_client base_url =
    let base = trim_right_slashes base_url in
    record {
      create_item =
          connect.call_unary Procedure.create_item http_client
            (base <> procedure_path Procedure.create_item);
      get_item =
          connect.call_unary Procedure.get_item http_client
            (base <> procedure_path Procedure.get_item);
      list_items =
          connect.call_unary Procedure.list_items http_client
            (base <> procedure_path Procedure.list_items);
      search_items =
          connect.call_unary Procedure.search_items http_client
            (base <> procedure_path Procedure.search_items);
      claim_item =
          connect.call_unary Procedure.claim_item http_client
            (base <> procedure_path Procedure.claim_item);
      release_item =
          connect.call_unary Procedure.release_item http_client
            (base <> procedure_path Procedure.release_item);
      reassign_item =
          connect.call_unary Procedure.reassign_item http_client
            (base <> procedure_path Procedure.reassign_item);
      comment_on_item =
          connect.call_unary Procedure.comment_on_item http_client
            (base <> procedure_path Procedure.comment_on_item);
      add_event =
          connect.call_unary Procedure.add_event http_client
            (base <> procedure_path Procedure.add_event);
      close_item =
          connect.call_unary Procedure.close_item http_client
            (base <> procedure_path Procedure.close_item);
      tag_item =
          connect.call_unary Procedure.tag_item http_client
            (base <> procedure_path Procedure.tag_item);
      untag_item =
          connect.call_unary Procedure.untag_item http_client
            (base <> procedure_path Procedure.untag_item);
    }
