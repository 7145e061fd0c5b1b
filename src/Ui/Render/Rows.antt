-- ===== src/Ui/Render/Rows.antt =====
-- The rows of the pages, by what a click of them fetches.
use inbox.Prelude.{
  String, ◌<>◌, ◌==◌, ◌≡◌, refl, Bool, true, false, not, ◌&&◌, Option, none, some, List, [], ◌∷◌,
  ◌++◌, map, is_nil, append-nil, if◌then◌else◌,
}
use inbox.Proto.{Time}
use inbox.External.{Env}
use inbox.Html.{Web}
use inbox.Html.Collect.{link_of, collect, collect-for_each_none, collect-for_each_one, collect_laws}
use inbox.Inbox.Item.{Item}
use inbox.Ui.Filters.{FilterConfig}
use inbox.Ui.Queue.{QueueData, SearchData}
use inbox.Ui.Render.Queue.{
  stat_chip, filter_select, filter_option, priority_badge, queue_filters, row_deadline, load_more,
  queue_row, queue_table, queue_content,
}
use inbox.Ui.Render.MyWork.{mywork_content}
use inbox.Ui.Render.Search.{search_empty_state, queue_of, search_results, search_content}

listed :
    {A : Type 0} (b : Bool) (f : A → String) (list : List A)
    → (if not b && not (is_nil list) then map f list else []) ≡ (if b then [] else map f list)
listed true f list = refl
listed false f [] = refl
listed false f (a ∷ list) = refl

module _ (Component : Type 0) (web : Web) where
  links-stat_chip :
      (count label color : String)
      → collect link_of (stat_chip {Component = Component} web count label color) ≡ []
  unfolding stat_chip
  links-stat_chip count label color = simp collect_laws

  links-priority_badge :
      (priority : String)
      → collect link_of (priority_badge {Component = Component} web priority) ≡ []
  unfolding priority_badge
  links-priority_badge priority = simp collect_laws

  links-filter_select :
      (base_path : String) (f : FilterConfig)
      → collect link_of (filter_select {Component = Component} web base_path f) ≡ []
  unfolding filter_select
  links-filter_select base_path f = simp (
    collect_laws,
    collect-for_each_none link_of (filter_option {Component = Component} web)
        (λ opt. simp collect_laws) f.options,
  )

module _ {S Set Any Foreign : Type 0} (Component : Type 0) (env : Env S Set Any Foreign) (web : Web)
    (now : Time) where
  links-queue_filters :
      (d : QueueData Set Any)
      → collect link_of (queue_filters {Component = Component} env web now d) ≡ []
  unfolding queue_filters
  links-queue_filters d = simp (
    collect_laws,
    collect-for_each_none link_of (filter_select web d.base_path)
        (links-filter_select Component web d.base_path) d.filters,
  )

  links-row_deadline :
      (t : Option Time) → collect link_of (row_deadline {Component = Component} env web now t) ≡ []
  unfolding row_deadline
  links-row_deadline none = simp collect_laws
  links-row_deadline (some t) = simp collect_laws

  -- what a click of a row fetches
  abbrev pub item_link : String → Item Set Any → String
  item_link base_path item = web.get (base_path <> "/items/" <> item.id)

  links-queue_row :
      (base_path : String) (item : Item Set Any)
      → collect link_of (queue_row {Component = Component} env web now base_path item)
        ≡ item_link base_path item ∷ []
  unfolding queue_row
  links-queue_row base_path item = simp (collect_laws, links-row_deadline item.proto.deadline)

  -- the button for the next page
  abbrev pub next_link : String → Option Time → List String
  next_link base_path none = []
  next_link base_path (some t) = web.get (base_path <> "/?cursor=" <> web.format_rfc3339 t) ∷ []

  links-load_more :
      (base_path : String) (t : Option Time)
      → collect link_of (load_more {Component = Component} env web now base_path t)
        ≡ next_link base_path t
  unfolding load_more
  links-load_more base_path none = simp collect_laws
  links-load_more base_path (some t) = simp collect_laws

  abbrev pub page_links : QueueData Set Any → List String
  page_links d = map (item_link d.base_path) d.items ++ next_link d.base_path d.next_cursor

  links-queue_table :
      (d : QueueData Set Any)
      → collect link_of (queue_table {Component = Component} env web now d) ≡ page_links d
  unfolding queue_table
  links-queue_table d = simp (
    collect_laws,
    links-load_more d.base_path d.next_cursor,
    collect-for_each_one link_of (queue_row env web now d.base_path) (item_link d.base_path)
        (links-queue_row d.base_path) d.items,
  )

  links-queue_content :
      (d : QueueData Set Any)
      → collect link_of (queue_content {Component = Component} env web now d) ≡ page_links d
  unfolding queue_content
  links-queue_content d = simp (
    collect_laws,
    links-stat_chip Component web,
    links-queue_filters d,
    links-queue_table d,
    append-nil,
  )

  links-mywork_content :
      (d : QueueData Set Any)
      → collect link_of (mywork_content {Component = Component} env web now d)
        ≡ (if is_nil d.items then [] else page_links d)
  unfolding mywork_content
  links-mywork_content d = simp (collect_laws, links-queue_table d, append-nil)

  links-search_empty_state :
      (title subtitle : String)
      → collect link_of (search_empty_state {Component = Component} title subtitle) ≡ []
  unfolding search_empty_state
  links-search_empty_state title subtitle = simp collect_laws

  -- the button of the search
  abbrev pub search_link : SearchData Set Any → String
  search_link d = web.get_form (d.base_path <> "/search") "search"

  links-search_results :
      (d : SearchData Set Any)
      → collect link_of (search_results {Component = Component} env web now d)
        ≡ (if d.query == "" then [] else map (item_link d.base_path) d.items)
  unfolding search_results
  links-search_results d =
      simp (collect_laws, links-queue_table (queue_of d), links-search_empty_state, append-nil)
        (listed (d.query == "") (item_link d.base_path) d.items)

  -- What a click of the pages fetches, in their order. The queue and the work of an actor have a
  -- row for each item, which fetches the item, and then, exactly if there is a next cursor, a
  -- button for the page at that cursor; the work of an actor without items has neither. The
  -- search has its button, and a row for each item found unless the query is empty.
  pub pages-links :
      (d : QueueData Set Any) (found : SearchData Set Any)
      → (collect link_of (queue_content {Component = Component} env web now d) ≡ page_links d)
        × (collect link_of (mywork_content {Component = Component} env web now d)
            ≡ (if is_nil d.items then [] else page_links d))
        × (collect link_of (search_content {Component = Component} env web now found)
            ≡ search_link found
              ∷ (if found.query == "" then [] else map (item_link found.base_path) found.items))
  unfolding search_content
  pages-links d found = (
    links-queue_content d,
    links-mywork_content d,
    simp (collect_laws, links-search_results found, append-nil),
  )
