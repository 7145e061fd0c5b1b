-- ===== src/Ui/Server.antt =====
-- The HTTP handler of the interface: `Handler`, the middleware and `renderPage` of ui/handler.go, the
-- ends of the handlers of ui/queue.go, ui/mywork.go and ui/search.go, and `readSearchQuery`. The
-- router of go-chi/chi finds the route of a request.
pub mod Reads
pub mod Paths
pub mod Links
pub mod Calls
pub mod Made
pub mod Requests
use inbox.Prelude.{ℕ, String, ◌==◌, Option, none, some, List, [], ◌∷◌, if◌then◌else◌}
use inbox.Effect.{Fallible, value, failure, Exec, pure, ◌>>=◌}
use inbox.Proto.{Time}
use inbox.External.{Identity, Context, Env}
use inbox.Service.Convert.{ConnectError}
use inbox.Html.{Html, Web}
use inbox.Html.Document.{DsxContext}
use inbox.Ui.Actions.{
  Sent, handle_claim, handle_release, handle_close, handle_comment, handle_detail,
  handle_detail_reload, handle_row_reload,
}
use inbox.Ui.Config.{Config, ConfigOption, configure, default_config}
use inbox.Ui.Filters.{FilterRequest}
use inbox.Ui.Layout.{DefaultPage, default_layout}
use inbox.Ui.Queue.{Answer, shows, internal_error, handle_queue, handle_my_work, handle_search}
use inbox.Ui.Render.MyWork.{mywork_content}
use inbox.Ui.Render.Queue.{queue_table, queue_content}
use inbox.Ui.Render.Search.{search_results, search_content}

-- What the handlers read of a request.
pub record Reader (Request : Type 0) : Type 0 where
  pub header_accept : Request → String
  pub filter_request : Request → FilterRequest
  -- the signal "q" of the form "search", "reason" of "close-form", what of it is read where reading
  -- fails, and "body" of "comment-form"
  pub search_signal : Request → Fallible String
  pub close_signal : Request → String
  pub comment_signal : Request → Fallible String

pub data Method : Type 0 where
  method_get method_post : Method
  other_method : String → Method

-- the handlers of the routes
pub data Endpoint : Type 0 where
  queue_page my_work_page search_page detail detail_reload row_reload claim release close comment :
      Endpoint

pub record Route : Type 0 where
  pub method : Method
  pub pattern : String
  pub endpoint : Endpoint

-- the routes that `Handler` registers
abbrev pub routes : List Route
routes =
    (record { method = method_get; pattern = "/"; endpoint = queue_page })
    ∷ (record { method = method_get; pattern = "/mywork"; endpoint = my_work_page })
    ∷ (record { method = method_get; pattern = "/search"; endpoint = search_page })
    ∷ (record { method = method_get; pattern = "/items/{id}"; endpoint = detail })
    ∷ (record { method = method_get; pattern = "/items/{id}/detail"; endpoint = detail_reload })
    ∷ (record { method = method_get; pattern = "/items/{id}/row"; endpoint = row_reload })
    ∷ (record { method = method_post; pattern = "/items/{id}/claim"; endpoint = claim })
    ∷ (record { method = method_post; pattern = "/items/{id}/release"; endpoint = release })
    ∷ (record { method = method_post; pattern = "/items/{id}/close"; endpoint = close })
    ∷ (record { method = method_post; pattern = "/items/{id}/comment"; endpoint = comment })
    ∷ []

-- `chi.Router`: the route of a request, if there is one, and `chi.URLParam(r, "id")`
pub record Chi (Request : Type 0) : Type 0 where
  pub method_of : Request → Method
  pub find : List Route → Request → Option (Route × String)

-- `readSearchQuery`: the signal, or the parameter "q"
unfoldable pub read_search_query : Fallible String → String → String
read_search_query (value q) plain = if q == "" then plain else q
read_search_query (failure text) plain = plain

-- what `renderPage` renders
pub data Shown (Component Page : Type 0) : Type 0 where
  default_page : DefaultPage Component → Shown Component Page
  laid_out : Page → Shown Component Page

-- The answer to a request: a page, a component that is sent alone, `http.Error` with a status, what
-- an action sends, or the answer of the router where it finds no route.
pub data Reply (Set Any Component Page : Type 0) : Type 0 where
  page : Shown Component Page → Reply Set Any Component Page
  patch : Html Component → Reply Set Any Component Page
  http_error : ℕ → ConnectError → Reply Set Any Component Page
  sent : Sent Set Any Component → Reply Set Any Component Page
  no_route : Reply Set Any Component Page

module _ {Request S Set Any Foreign Component Page Bus : Type 0} (env : Env S Set Any Foreign)
    (web : Web) (reader : Reader Request) (dsx : DsxContext) (parse : String → Fallible Time)
    (status : String → Fallible String) where
  module _ (cfg : Config Request Set Any Component Page Bus) where
    abbrev shown_in :
        Option (String → Html Component → Page) → String → Html Component → Shown Component Page
    shown_in none path content = default_page (default_layout web dsx cfg.base_path path content)
    shown_in (some layout) path content = laid_out (layout path content)

    unfoldable pub render_page : String → Html Component → Shown Component Page
    render_page path content = shown_in cfg.layout_fn path content

    -- the end of a page's handler: the fragment for an event stream, the page otherwise
    abbrev pub reply_of :
        {Data : Type 0}
        → Request
        → String
        → (Data → Html Component)
        → (Data → Html Component)
        → Answer Data
        → Reply Set Any Component Page
    reply_of r path fragment content (shows d) =
        if reader.header_accept r == "text/event-stream"
        then patch (fragment d)
        else page (render_page path (content d))
    reply_of r path fragment content (internal_error e) = http_error 500 e

    -- the handler of an endpoint, in the context that the middleware makes
    unfoldable pub run_endpoint :
        Endpoint
        → Request
        → Context
        → String
        → Time
        → Exec S ConnectError (Reply Set Any Component Page)
    unfolding read_search_query render_page handle_search
    run_endpoint queue_page r ctx id now = do
      let query = (reader.filter_request r).query
      answer ←
          handle_queue env cfg.filters cfg.base_path parse status ctx (reader.filter_request r)
            (query "cursor")
      pure (reply_of r "/" (queue_table env web now) (queue_content env web now) answer)
    run_endpoint my_work_page r ctx id now = do
      let query = (reader.filter_request r).query
      answer ←
          handle_my_work env cfg.filters cfg.base_path parse status ctx (reader.filter_request r)
            (query "cursor")
      pure (reply_of r "/mywork" (queue_table env web now) (mywork_content env web now) answer)
    run_endpoint search_page r ctx id now = do
      let query = (reader.filter_request r).query
      answer ←
          handle_search env cfg.base_path ctx
            (read_search_query (reader.search_signal r) (query "q"))
      pure (reply_of r "/search" (search_results env web now) (search_content env web now) answer)
    run_endpoint detail r ctx id now = do
      answer ← handle_detail env cfg.content_providers cfg.base_path ctx id
      pure (sent answer)
    run_endpoint detail_reload r ctx id now = do
      answer ← handle_detail_reload env cfg.content_providers cfg.base_path ctx id
      pure (sent answer)
    run_endpoint row_reload r ctx id now = do
      answer ← handle_row_reload env cfg.content_providers cfg.base_path ctx id
      pure (sent answer)
    run_endpoint claim r ctx id now = do
      answer ← handle_claim env cfg.content_providers cfg.base_path ctx now id
      pure (sent answer)
    run_endpoint release r ctx id now = do
      answer ← handle_release env cfg.content_providers cfg.base_path ctx now id
      pure (sent answer)
    run_endpoint close r ctx id now = do
      answer ←
          handle_close env cfg.content_providers cfg.base_path ctx now id (reader.close_signal r)
      pure (sent answer)
    run_endpoint comment r ctx id now = do
      answer ←
          handle_comment env cfg.content_providers cfg.base_path ctx now id
            (reader.comment_signal r)
      pure (sent answer)

    abbrev pub dispatch :
        Option (Route × String)
        → Request
        → Context
        → Time
        → Exec S ConnectError (Reply Set Any Component Page)
    dispatch none r ctx now = pure no_route
    dispatch (some (route, id)) r ctx now = run_endpoint route.endpoint r ctx id now

    -- `actorMiddleware` around the router
    unfoldable pub serve :
        Chi Request → Request → Time → Exec S ConnectError (Reply Set Any Component Page)
    serve chi r now = dispatch (chi.find routes r) r (some (cfg.identity_fn r)) now

  -- `Handler`; `zero` is the identity that `identity.New` gives with an error.
  abbrev pub handler :
      Identity
      → List (ConfigOption (Config Request Set Any Component Page Bus))
      → Chi Request
      → Request
      → Time
      → Exec S ConnectError (Reply Set Any Component Page)
  unfolding default_config
  handler zero opts chi r now = serve (configure opts (default_config env zero)) chi r now
