-- ===== src/Ui/Server/Links.antt =====
-- The requests of the buttons and links that the pages show, against the routes.
use mathlib.Core.List.{Memᴰ}
use inbox.Prelude.{
  String, ◌==◌, refl, sym, subst, Bool, Bool-cases, true, false, inl, inr, ◌&&◌, not, Option, none,
  some, List, [], ◌∷◌, map, is_nil, All, All-append, if◌then◌else◌,
}
use inbox.Proto.{Time}
use inbox.External.{Env}
use inbox.Html.{Web}
use inbox.Html.Collect.{click_of, link_of, collect}
use inbox.Inbox.Item.{Item}
use inbox.Inbox.Status.{is_terminal}
use inbox.Schema.{ItemSchema, Signals}
use inbox.Schema.Completion.{completion, clicks-schema_provider_render}
use inbox.Schema.Provider.{schema_provider_render}
use inbox.Ui.Detail.{DetailData, RenderContext}
use inbox.Ui.Queue.{QueueData, SearchData}
use inbox.Ui.Render.Buttons.{offered, clicks-detail_drawer}
use inbox.Ui.Render.Rows.{item_link, next_link, page_links, pages-links}
use inbox.Ui.Render.Detail.{detail_drawer}
use inbox.Ui.Render.Queue.{queue_content}
use inbox.Ui.Render.MyWork.{mywork_content}
use inbox.Ui.Render.Search.{search_content}
use inbox.Ui.Server.Paths.{
  CallsRoute, item_action, next_action, search_action, claim_action, release_action, close_action,
  comment_action,
}

abbrev pub ids_of : {Set Any : Type 0} → List (Item Set Any) → List String
ids_of items = map (λ i. i.id) items

module _ {S Set Any Foreign : Type 0} (web : Web) (base_path : String) (Component : Type 0)
    (env : Env S Set Any Foreign) (now : Time) (ids : List String) where
  items-CallsRoute :
      (items : List (Item Set Any))
      → ((id : String) → Memᴰ id (ids_of items) → Memᴰ id ids)
      → All (CallsRoute web base_path ids) (map (item_link Component env web now base_path) items)
  items-CallsRoute [] shown = tt
  items-CallsRoute (item ∷ items) shown = (
    item_action web base_path ids item.id (shown item.id (Memᴰ.head refl)),
    items-CallsRoute items (λ id m. shown id (Memᴰ.tail m)),
  )

  next-CallsRoute :
      (t : Option Time)
      → All (CallsRoute web base_path ids) (next_link Component env web now base_path t)
  next-CallsRoute none = tt
  next-CallsRoute (some t) = (next_action web base_path ids (web.format_rfc3339 t), tt)

All-if :
    {A : Type 0} (P : A → Type 0) (b : Bool) (list : List A)
    → All P list
    → All P (if b then [] else list)
All-if P true list h = tt
All-if P false list h = h

module _ {S Set Any Foreign : Type 0} (Component : Type 0) (env : Env S Set Any Foreign) (web : Web)
    (now : Time) where
  offered-CallsRoute :
      (d : DetailData Set Any Component)
      → All (CallsRoute web d.base_path (d.item.id ∷ [])) (offered env web now d)
  offered-CallsRoute d = elim (Bool-cases (d.item.proto.status == "open")) [
    | inl e ↦ rw e (claim_action web d.base_path _ d.item.id (Memᴰ.head refl), tt)
    | inr e ↦ elim (Bool-cases (d.item.proto.status == "claimed" && d.is_claimant)) [
      | inl e' ↦ rw (e, e') (release_action web d.base_path _ d.item.id (Memᴰ.head refl), tt)
      | inr e' ↦ rw (e, e') tt
    ]
  ]

  page-CallsRoute :
      (d : QueueData Set Any)
      → All (CallsRoute web d.base_path (ids_of d.items)) (page_links Component env web now d)
  page-CallsRoute d =
      All-append (CallsRoute web d.base_path (ids_of d.items)) _ _
        (items-CallsRoute web d.base_path Component env now _ d.items (λ id m. m))
        (next-CallsRoute web d.base_path Component env now _ d.next_cursor)

  completion-CallsRoute :
      (marshal : Signals → String) (unmarshal : Any → Option ItemSchema)
      (rc : RenderContext Set Any) (form : Option ItemSchema)
      → All
          (CallsRoute web rc.base_path (rc.item.id ∷ []))
          (completion Component web marshal unmarshal rc form)
  completion-CallsRoute marshal unmarshal rc none = tt
  completion-CallsRoute marshal unmarshal rc (some s) =
      elim (Bool-cases (not (is_terminal rc.item.proto.status) && s.client_completable)) [
        | inl e ↦ rw e (close_action web rc.base_path _ rc.item.id (Memᴰ.head refl), tt)
        | inr e ↦ rw e tt
      ]

  -- Every click action of the drawer, of the form in it, of the queue, of the work of an actor and of
  -- the search requests a route of the interface, with the method of the route, with a query or none,
  -- and for an item that is shown there. (The plain links of an item are no such actions.)
  pub actions-CallsRoute :
      (marshal : Signals → String) (unmarshal : Any → Option ItemSchema)
      (drawer : DetailData Set Any Component) (rc : RenderContext Set Any)
      (page : QueueData Set Any) (found : SearchData Set Any)
      → All
          (CallsRoute web drawer.base_path (drawer.item.id ∷ []))
          (collect click_of (detail_drawer env web now drawer))
        × All (CallsRoute web rc.base_path (rc.item.id ∷ [])) (
            collect click_of
              (schema_provider_render {Component = Component} web marshal unmarshal rc))
        × All
            (CallsRoute web page.base_path (ids_of page.items))
            (collect link_of (queue_content {Component = Component} env web now page))
        × All
            (CallsRoute web page.base_path (ids_of page.items))
            (collect link_of (mywork_content {Component = Component} env web now page))
        × All
            (CallsRoute web found.base_path (ids_of found.items))
            (collect link_of (search_content {Component = Component} env web now found))
  actions-CallsRoute marshal unmarshal drawer rc page found =
      let (in_queue, in_work, in_search) = pages-links Component env web now page found in
      (
        subst (All (CallsRoute web drawer.base_path (drawer.item.id ∷ [])))
            (sym (clicks-detail_drawer env web now drawer))
            (All-append _ (offered env web now drawer) _ (offered-CallsRoute drawer)
              (comment_action web drawer.base_path _ drawer.item.id (Memᴰ.head refl), tt)),
        subst (All (CallsRoute web rc.base_path (rc.item.id ∷ [])))
            (sym (clicks-schema_provider_render Component web marshal unmarshal rc))
            (completion-CallsRoute marshal unmarshal rc _),
        subst (All (CallsRoute web page.base_path (ids_of page.items))) (sym in_queue)
            (page-CallsRoute page),
        subst (All (CallsRoute web page.base_path (ids_of page.items))) (sym in_work) (
            All-if (CallsRoute web page.base_path (ids_of page.items)) (is_nil page.items) _
              (page-CallsRoute page)),
        subst (All (CallsRoute web found.base_path (ids_of found.items))) (sym in_search) (
          search_action web found.base_path _,
          All-if (CallsRoute web found.base_path (ids_of found.items)) (found.query == "") _
              (items-CallsRoute web found.base_path Component env now _ found.items (λ id m. m)),
        ),
      )
