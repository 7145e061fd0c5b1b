-- ===== src/Rpc/Local.antt =====
-- service/local.go: the client that calls the handler of the service in-process.
use inbox.Prelude.{String, none, some}
use inbox.Effect.{pure}
use inbox.Proto.{Time}
use inbox.External.{Env}
use inbox.Service.Handler
use inbox.Rpc.Procedure.{
  ServiceHandler, create_item, get_item, list_items, search_items, claim_item, release_item,
  reassign_item, comment_on_item, add_event, close_item, tag_item, untag_item,
}
use inbox.Rpc.Connect.{Connect, HttpHandler, not_found, url_path, cut_prefix}
use inbox.Rpc.Client.{Clients, new_service_client}
use inbox.Rpc.Server.{serve_http, mount_path}

module _ {S Body Reply : Type 0} where
  -- `http.ServeMux` with one pattern that ends in "/", at a path without "." and empty parts
  abbrev serve_mux : String → HttpHandler S Body Reply → HttpHandler S Body Reply
  serve_mux pattern handler r = elim (cut_prefix pattern (url_path r.url)) [
    | none ↦ pure not_found
    | some _ ↦ handler r
  ]

  -- `localRoundTripper.RoundTrip`, which records what the handler writes
  abbrev round_trip : HttpHandler S Body Reply → HttpHandler S Body Reply
  round_trip handler r = handler r

module _ {S Any Body Reply : Type 0} where
  unfoldable pub new_local_client : Connect S Any Body Reply → ServiceHandler S Any → Clients S Any
  unfolding new_service_client serve_http
  new_local_client connect h =
      new_service_client connect (round_trip (serve_mux mount_path (serve_http connect h)))
        "http://in-process"

-- `*Handler` as an `InboxServiceHandler`: `now` is the clock and `id` the identifier that is made for
-- a new item.
abbrev pub methods :
    {S Set Any Foreign : Type 0} → Env S Set Any Foreign → Time → String → ServiceHandler S Any
methods env now id create_item req = Handler.create_item env now id req
methods env now id get_item req = Handler.get_item env req
methods env now id list_items req = Handler.list_items env req
methods env now id search_items req = Handler.search_items env req
methods env now id claim_item req = Handler.claim_item env now req
methods env now id release_item req = Handler.release_item env now req
methods env now id reassign_item req = Handler.reassign_item env now req
methods env now id comment_on_item req = Handler.comment_on_item env now req
methods env now id add_event req = Handler.add_event env now req
methods env now id close_item req = Handler.close_item env now req
methods env now id tag_item req = Handler.tag_item env now req
methods env now id untag_item req = Handler.untag_item env now req
