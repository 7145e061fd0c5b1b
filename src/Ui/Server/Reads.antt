-- ===== src/Ui/Server/Reads.antt =====
-- What requests leave in the store.
use mathlib.Core.List.{Memᴰ}
use inbox.Prelude.{String, ◌≡◌, refl, sym, ◌∙◌, Option, none, some, List, [], ◌∷◌, subst, All}
use inbox.Effect.{Fallible, Outcome, ok, err, panic, Exec}
use inbox.Effect.Kept.{Kept, kept_laws}
use inbox.Proto.{Time}
use inbox.External.{Context, Env}
use inbox.Html.{Web}
use inbox.Html.Document.{DsxContext}
use inbox.Proto.Service.{InboxItem, ItemRequest, ListItemsRequest, SearchItemsRequest}
use inbox.Service.Convert.{ConnectError}
use inbox.Service.Handler.{get_item, list_items, search_items}
use inbox.Inbox.Item.{Item}
use inbox.Ui.Detail.{Providers}
use inbox.Ui.Filters.{FilterConfig, FilterRequest}
use inbox.Ui.Actions.{Sent, sent_of, viewed, handle_detail, handle_detail_reload, handle_row_reload}
use inbox.Ui.Config.{Config}
use inbox.Ui.Queue.{answers, handle_queue, handle_my_work, handle_search, search_with}
use inbox.Ui.Server.{Reader, method_get, Route, routes, Chi, run_endpoint, dispatch, serve}

-- A route that is found is one of the routes, and of the method of the request.
pub record ChiLaws {Request : Type 0} (chi : Chi Request) : Type 0 where
  pub found :
      (list : List Route) (r : Request) (route : Route) (id : String)
      → chi.find list r ≡ some (route, id)
      → Memᴰ route list × (route.method ≡ chi.method_of r)

answers-Kept :
    {S A B : Type 0} (f : A → B) {m : Exec S ConnectError A} → Kept m → Kept (answers f m)
answers-Kept f h = record { same = λ s. h.same s }

module _ {S Set Any Foreign : Type 0} (env : Env S Set Any Foreign) where
  get_item-Kept : (req : ItemRequest) → Kept (get_item env req)
  unfolding get_item
  get_item-Kept req = search kept_laws

  list_items-Kept : (req : ListItemsRequest) → Kept (list_items env req)
  unfolding list_items
  list_items-Kept req = search kept_laws

  search_items-Kept : (req : SearchItemsRequest) → Kept (search_items env req)
  unfolding search_items
  search_items-Kept req = search kept_laws

  module _ {Component : Type 0} (providers : Providers Set Any Component) (base_path : String) where
    sent_of-same :
        (f : Item Set Any → Sent Set Any Component) (g : ConnectError → Sent Set Any Component)
        (r : Outcome ConnectError (InboxItem Any)) (s : S)
        → (sent_of env providers base_path f g r s).1 ≡ s
    sent_of-same f g (ok pb) s = refl
    sent_of-same f g (err e) s = refl
    sent_of-same f g (panic text) s = refl

    viewed-Kept :
        (f : Item Set Any → Sent Set Any Component) (g : ConnectError → Sent Set Any Component)
        {m : Exec S ConnectError (InboxItem Any)}
        → Kept m
        → Kept (viewed env providers base_path f g m)
    viewed-Kept f g {m} h = record { same = λ s. sent_of-same f g (m s).0 (m s).1 ∙ h.same s }

    pub handle_detail-Kept :
        (ctx : Context) (id : String) → Kept (handle_detail env providers base_path ctx id)
    unfolding handle_detail
    handle_detail-Kept ctx id = search (kept_laws, viewed-Kept, get_item-Kept)

    pub handle_detail_reload-Kept :
        (ctx : Context) (id : String) → Kept (handle_detail_reload env providers base_path ctx id)
    unfolding handle_detail_reload
    handle_detail_reload-Kept ctx id = search (kept_laws, viewed-Kept, get_item-Kept)

    pub handle_row_reload-Kept :
        (ctx : Context) (id : String) → Kept (handle_row_reload env providers base_path ctx id)
    unfolding handle_row_reload
    handle_row_reload-Kept ctx id = search (kept_laws, viewed-Kept, get_item-Kept)

  module _ (filters : List FilterConfig) (base_path : String) (parse : String → Fallible Time)
      (status : String → Fallible String) where
    pub handle_queue-Kept :
        (ctx : Context) (r : FilterRequest) (cursor : String)
        → Kept (handle_queue env filters base_path parse status ctx r cursor)
    unfolding handle_queue
    handle_queue-Kept ctx r cursor = search (kept_laws, answers-Kept, list_items-Kept)

    pub handle_my_work-Kept :
        (ctx : Context) (r : FilterRequest) (cursor : String)
        → Kept (handle_my_work env filters base_path parse status ctx r cursor)
    unfolding handle_my_work
    handle_my_work-Kept ctx r cursor = search (kept_laws, answers-Kept, list_items-Kept)

  pub handle_search-Kept :
      (base_path : String) (ctx : Context) (query : String)
      → Kept (handle_search env base_path ctx query)
  unfolding handle_search search_with
  handle_search-Kept base_path ctx query = search (kept_laws, answers-Kept, search_items-Kept)

module _ {A : Type 0} (P : A → Type 0) where
  pub All-Mem : (list : List A) {a : A} → All P list → Memᴰ a list → P a
  All-Mem [] hs mem = elim mem [ ]
  All-Mem (x ∷ xs) (h, hs) (Memᴰ.head e) = subst P (sym e) h
  All-Mem (x ∷ xs) (h, hs) (Memᴰ.tail mem) = All-Mem xs hs mem

module _ {Request S Set Any Foreign Component Page Bus : Type 0} (env : Env S Set Any Foreign)
    (web : Web) (reader : Reader Request) (dsx : DsxContext) (parse : String → Fallible Time)
    (status : String → Fallible String) (cfg : Config Request Set Any Component Page Bus) where
  -- a route of GET has a handler that leaves the store as it is
  abbrev GetKept : Route → Type 0
  GetKept route =
      route.method ≡ method_get
      → (r : Request) (ctx : Context) (id : String) (now : Time)
      → Kept (run_endpoint env web reader dsx parse status cfg route.endpoint r ctx id now)

  pub routes-GetKept : All GetKept routes
  unfolding run_endpoint
  routes-GetKept = (
    λ _ r ctx id now. search (kept_laws, handle_queue-Kept),
    (
      λ _ r ctx id now. search (kept_laws, handle_my_work-Kept),
      (
        λ _ r ctx id now. search (kept_laws, handle_search-Kept),
        (
          λ _ r ctx id now. search (kept_laws, handle_detail-Kept),
          (
            λ _ r ctx id now. search (kept_laws, handle_detail_reload-Kept),
            (
              λ _ r ctx id now. search (kept_laws, handle_row_reload-Kept),
              (λ e. cc, (λ e. cc, (λ e. cc, (λ e. cc, tt)))),
            ),
          ),
        ),
      ),
    ),
  )

  dispatch-Kept :
      (found : Option (Route × String)) (r : Request) (ctx : Context) (now : Time)
      → ((route : Route) (id : String)
          → found ≡ some (route, id)
          → Memᴰ route routes × (route.method ≡ method_get))
      → Kept (dispatch env web reader dsx parse status cfg found r ctx now)
  dispatch-Kept none r ctx now h = search kept_laws
  dispatch-Kept (some (route, id)) r ctx now h =
      let (mem, is_get) = h route id refl in
      All-Mem GetKept routes routes-GetKept mem is_get r ctx id now

  -- A GET request leaves the store as it is, whatever its route, the identity it comes with and what
  -- the store and the other packages return.
  pub serve-same :
      (chi : Chi Request)
      → ChiLaws chi
      → (r : Request) (now : Time) (s : S) → chi.method_of r ≡ method_get
      → (serve env web reader dsx parse status cfg chi r now s).1 ≡ s
  unfolding serve
  serve-same chi laws r now s is_get =
      (dispatch-Kept (chi.find routes r) r (some (cfg.identity_fn r)) now λ route id e.
          let (mem, same) = laws.found routes r route id e in (mem, same ∙ is_get)).same
        s
