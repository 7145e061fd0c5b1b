-- ===== src/Ui/Server/Calls.antt =====
-- What a request does to the store, as a call of the package's methods.
use inbox.Prelude.{String, ◌==◌, if◌then◌else◌, ◌≡◌, refl, Option, none, some}
use inbox.Effect.{Fallible, value, failure, Outcome, ok, err, panic, Exec}
use inbox.Effect.Kept.{Kept, kept_laws}
use inbox.Proto.{Time}
use inbox.Proto.Service.{InboxItem}
use inbox.External.{Context, Env}
use inbox.Html.{Web}
use inbox.Inbox.History
use inbox.Inbox.History.{Method}
use inbox.Html.Document.{DsxContext}
use inbox.Service.Calls.{
  Does, Acts, does_nothing, Does-same, Kept-Acts, acts_laws, claim_item-Acts, release_item-Acts,
  close_item-Acts, comment_on_item-Acts,
}
use inbox.Service.Convert.{ConnectError}
use inbox.Ui.Actions.{
  finish, act, respond_with_detail, handle_claim, handle_release, handle_close, handle_comment,
}
use inbox.Ui.Config.{Config}
use inbox.Ui.Detail.{Providers}
use inbox.Ui.Server.{
  Reader, Endpoint, queue_page, my_work_page, search_page, detail, detail_reload, row_reload, claim,
  release, close, comment, Route, routes, Chi, run_endpoint, dispatch, serve,
}
use inbox.Ui.Server.Reads.{
  handle_queue-Kept, handle_my_work-Kept, handle_search-Kept, handle_detail-Kept,
  handle_detail_reload-Kept, handle_row_reload-Kept,
}

-- the reason of a close, and the call for a comment whose text can be read
abbrev pub reason_of : String → String
reason_of read = if read == "" then "closed" else read

abbrev comment_of : {Any : Type 0} → Fallible String → Option (Method Any)
comment_of (value body) = some (History.comment body none)
comment_of (failure text) = none

module _ {S Set Any Foreign Component : Type 0} (env : Env S Set Any Foreign)
    (providers : Providers Set Any Component) (base_path : String) (ctx : Context) (now : Time)
    (id : String) where
  respond-Kept :
      (pb : InboxItem Any) (msg : String)
      → Kept (respond_with_detail env providers base_path ctx pb msg)
  unfolding respond_with_detail
  respond-Kept pb msg = search kept_laws

  pub finish-same :
      (msg : String) (r : Outcome ConnectError (InboxItem Any)) (s : S)
      → (finish env providers base_path ctx msg r s).1 ≡ s
  finish-same msg (ok pb) s = (respond-Kept pb msg).same s
  finish-same msg (err e) s = refl
  finish-same msg (panic text) s = refl

  act-Acts :
      (called : Option (Method Any)) (msg : String) {call : Exec S ConnectError (InboxItem Any)}
      → Acts env id now called call
      → Acts env id now called (act env providers base_path ctx msg call)
  act-Acts called msg {call} h = record {
    does = λ s. Does-same env id now called (finish-same msg (call s).0 (call s).1) (h.does s);
  }

  handle_claim-Acts :
      Acts env id now (some History.claim) (handle_claim env providers base_path ctx now id)
  unfolding handle_claim
  handle_claim-Acts = search (acts_laws, act-Acts, claim_item-Acts)

  handle_release-Acts :
      Acts env id now (some History.release) (handle_release env providers base_path ctx now id)
  unfolding handle_release
  handle_release-Acts = search (acts_laws, act-Acts, release_item-Acts)

  handle_close-Acts :
      (read : String)
      → Acts env id now
          (some (History.close (reason_of read)))
          (handle_close env providers base_path ctx now id read)
  unfolding handle_close
  handle_close-Acts read = search (acts_laws, act-Acts, close_item-Acts)

  handle_comment-Acts :
      (signals : Fallible String)
      → Acts env id now
          (comment_of signals)
          (handle_comment env providers base_path ctx now id signals)
  unfolding handle_comment
  handle_comment-Acts (failure text) = record { does = λ s. does_nothing refl }
  handle_comment-Acts (value body) = search (acts_laws, act-Acts, comment_on_item-Acts)

module _ {Request S Set Any Foreign Component Page Bus : Type 0} (env : Env S Set Any Foreign)
    (web : Web) (reader : Reader Request) (dsx : DsxContext) (parse : String → Fallible Time)
    (status : String → Fallible String) (cfg : Config Request Set Any Component Page Bus) where
  -- the call that an endpoint makes
  abbrev called_by : Endpoint → Request → Option (Method Any)
  called_by claim r = some History.claim
  called_by release r = some History.release
  called_by close r = some (History.close (reason_of (reader.close_signal r)))
  called_by comment r = comment_of (reader.comment_signal r)
  called_by _ r = none

  run_endpoint-Acts :
      (endpoint : Endpoint) (r : Request) (ctx : Context) (id : String) (now : Time)
      → Acts env id now
          (called_by endpoint r)
          (run_endpoint env web reader dsx parse status cfg endpoint r ctx id now)
  unfolding run_endpoint
  run_endpoint-Acts queue_page r ctx id now = search (Kept-Acts, kept_laws, handle_queue-Kept)
  run_endpoint-Acts my_work_page r ctx id now = search (Kept-Acts, kept_laws, handle_my_work-Kept)
  run_endpoint-Acts search_page r ctx id now = search (Kept-Acts, kept_laws, handle_search-Kept)
  run_endpoint-Acts detail r ctx id now = search (Kept-Acts, kept_laws, handle_detail-Kept)
  run_endpoint-Acts detail_reload r ctx id now =
      search (Kept-Acts, kept_laws, handle_detail_reload-Kept)
  run_endpoint-Acts row_reload r ctx id now = search (Kept-Acts, kept_laws, handle_row_reload-Kept)
  run_endpoint-Acts claim r ctx id now = search (acts_laws, handle_claim-Acts)
  run_endpoint-Acts release r ctx id now = search (acts_laws, handle_release-Acts)
  run_endpoint-Acts close r ctx id now = search (acts_laws, handle_close-Acts)
  run_endpoint-Acts comment r ctx id now = search (acts_laws, handle_comment-Acts)

  -- the item of a request, by the path of the route that is found, and the call of the route
  abbrev pub item_of : Option (Route × String) → String
  item_of none = ""
  item_of (some (route, id)) = id

  abbrev pub call_of : Option (Route × String) → Request → Option (Method Any)
  call_of none r = none
  call_of (some (route, id)) r = called_by route.endpoint r

  dispatch-Acts :
      (found : Option (Route × String)) (r : Request) (ctx : Context) (now : Time)
      → Acts env
          (item_of found)
          now
          (call_of found r)
          (dispatch env web reader dsx parse status cfg found r ctx now)
  dispatch-Acts none r ctx now = search (Kept-Acts, kept_laws)
  dispatch-Acts (some (route, id)) r ctx now = run_endpoint-Acts route.endpoint r ctx id now

  pub serve-Does :
      (chi : Chi Request) (r : Request) (now : Time) (s : S)
      → Does env
          (item_of (chi.find routes r))
          now
          (call_of (chi.find routes r) r)
          s
          (serve env web reader dsx parse status cfg chi r now s).1
  unfolding serve
  serve-Does chi r now s =
      (dispatch-Acts (chi.find routes r) r (some (cfg.identity_fn r)) now).does s
