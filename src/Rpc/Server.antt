-- ===== src/Rpc/Server.antt =====
-- `NewInboxServiceHandler` and `UnimplementedInboxServiceHandler`, in
-- gen/inbox/v1/inboxv1connect/service.connect.go.
use inbox.Prelude.{String, ◌<>◌, ◌==◌, if◌then◌else◌}
use inbox.Effect.{pure, raise, ◌>>=◌}
use inbox.Service.Convert.{of_text, code_unimplemented}
use inbox.Rpc.Procedure.{
  Procedure, create_item, get_item, list_items, search_items, claim_item, release_item,
  reassign_item, comment_on_item, add_event, close_item, tag_item, untag_item, procedure_path,
  ServiceHandler,
}
use inbox.Rpc.Connect.{Connect, answered, not_found, HttpHandler, url_path}

module _ {S Any Body Reply : Type 0} (connect : Connect S Any Body Reply)
    (svc : ServiceHandler S Any) where
  -- the handler of a procedure at work
  abbrev pub serves : Procedure → HttpHandler S Body Reply
  serves p r = do reply ← connect.unary p (svc p) r.body; pure (answered reply)

  -- the function behind `http.HandlerFunc`
  unfoldable pub serve_http : HttpHandler S Body Reply
  serve_http r =
      let path = url_path r.url in
      if path == procedure_path create_item
      then serves create_item r
      else if path == procedure_path get_item
      then serves get_item r
      else if path == procedure_path list_items
      then serves list_items r
      else if path == procedure_path search_items
      then serves search_items r
      else if path == procedure_path claim_item
      then serves claim_item r
      else if path == procedure_path release_item
      then serves release_item r
      else if path == procedure_path reassign_item
      then serves reassign_item r
      else if path == procedure_path comment_on_item
      then serves comment_on_item r
      else if path == procedure_path add_event
      then serves add_event r
      else if path == procedure_path close_item
      then serves close_item r
      else if path == procedure_path tag_item
      then serves tag_item r
      else if path == procedure_path untag_item
      then serves untag_item r
      else pure not_found

-- the path on which the handler is mounted
abbrev pub mount_path : String
mount_path = "/inbox.v1.InboxService/"

abbrev not_implemented : String → String
not_implemented method = method <> " is not implemented"

unfoldable unimplemented : (S Any : Type 0) → ServiceHandler S Any
unimplemented S Any create_item req =
    raise (of_text code_unimplemented (not_implemented "inbox.v1.InboxService.CreateItem"))
unimplemented S Any get_item req =
    raise (of_text code_unimplemented (not_implemented "inbox.v1.InboxService.GetItem"))
unimplemented S Any list_items req =
    raise (of_text code_unimplemented (not_implemented "inbox.v1.InboxService.ListItems"))
unimplemented S Any search_items req =
    raise (of_text code_unimplemented (not_implemented "inbox.v1.InboxService.SearchItems"))
unimplemented S Any claim_item req =
    raise (of_text code_unimplemented (not_implemented "inbox.v1.InboxService.ClaimItem"))
unimplemented S Any release_item req =
    raise (of_text code_unimplemented (not_implemented "inbox.v1.InboxService.ReleaseItem"))
unimplemented S Any reassign_item req =
    raise (of_text code_unimplemented (not_implemented "inbox.v1.InboxService.ReassignItem"))
unimplemented S Any comment_on_item req =
    raise (of_text code_unimplemented (not_implemented "inbox.v1.InboxService.CommentOnItem"))
unimplemented S Any add_event req =
    raise (of_text code_unimplemented (not_implemented "inbox.v1.InboxService.AddEvent"))
unimplemented S Any close_item req =
    raise (of_text code_unimplemented (not_implemented "inbox.v1.InboxService.CloseItem"))
unimplemented S Any tag_item req =
    raise (of_text code_unimplemented (not_implemented "inbox.v1.InboxService.TagItem"))
unimplemented S Any untag_item req =
    raise (of_text code_unimplemented (not_implemented "inbox.v1.InboxService.UntagItem"))
