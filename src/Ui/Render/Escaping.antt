-- ===== src/Ui/Render/Escaping.antt =====
-- What is written without escaping: the same texts for any data that take the same branches.
use mathlib.Core.List.{map}
use inbox.Prelude.{
  String, ◌==◌, ◌≡◌, refl, ap, sym, ◌∙◌, Bool, true, false, Option, none, some, List, [], ◌∷◌, ◌++◌,
  is_nil,
}
use inbox.Proto.{Time, Event}
use inbox.External.{Env}
use inbox.Html.{Html, Web, for_each}
use inbox.Html.Collect.{markup_of, collect, collect-append, collect_laws}
use inbox.Inbox.Item.{Item}
use inbox.Inbox.Tagging.{tag_value}
use inbox.Ui.Queue.{QueueData}
use inbox.Ui.Detail.{Link, DetailData}
use inbox.Ui.Render.Actions.{comment_form}
use inbox.Ui.Render.Queue.{row_deadline, load_more, queue_row, queue_table}
use inbox.Ui.Render.Detail.{
  event_item, link_item, related, content_of, activity, deadline_field, title_of, fields_of,
  actions_of, detail_drawer,
}

abbrev is_some : {A : Type 0} → Option A → Bool
is_some none = false
is_some (some a) = true

-- a loop whose body takes the same branches for elements of the same shape
module _ {Component A C : Type 0} (g g' : A → Html Component) (shape : A → C)
    (respects : (a a' : A)
      → shape a ≡ shape a'
      → collect markup_of (g a) ≡ collect markup_of (g' a')) where
  markups-for_each :
      (list list' : List A)
      → map shape list ≡ map shape list'
      → collect markup_of (for_each g list) ≡ collect markup_of (for_each g' list')
  markups-for_each [] [] h = refl
  markups-for_each [] (a ∷ list') h = cc
  markups-for_each (a ∷ list) [] h = cc
  markups-for_each (a ∷ list) (a' ∷ list') h =
      collect-append markup_of (g a) (for_each g list)
      ∙ ap (λ found. found ++ collect markup_of (for_each g list)) (respects a a' (cc))
      ∙ ap (λ found. collect markup_of (g' a') ++ found) (markups-for_each list list' (cc))
      ∙ sym (collect-append markup_of (g' a') (for_each g' list'))

is_nil-map :
    {A C : Type 0} (shape : A → C) (list list' : List A)
    → map shape list ≡ map shape list'
    → is_nil list ≡ is_nil list'
is_nil-map shape [] [] h = refl
is_nil-map shape [] (a ∷ list') h = cc
is_nil-map shape (a ∷ list) [] h = cc
is_nil-map shape (a ∷ list) (a' ∷ list') h = refl

-- the branches that a row takes
abbrev RowShape : Type 0
RowShape = Bool × Bool × Bool

module _ {S Set Any Foreign : Type 0} (Component : Type 0) (env : Env S Set Any Foreign) (web : Web)
    (now : Time) where
  abbrev row_shape : Item Set Any → RowShape
  row_shape item = (
    item.proto.description == "",
    tag_value env item "priority" == "urgent",
    tag_value env item "priority" == "high",
  )

  markups-row_deadline :
      (t : Option Time)
      → collect markup_of (row_deadline {Component = Component} env web now t) ≡ []
  unfolding row_deadline
  markups-row_deadline none = simp collect_laws
  markups-row_deadline (some t) = simp collect_laws

  markups-queue_row :
      (base_path base_path' : String) (item item' : Item Set Any)
      → row_shape item ≡ row_shape item'
      → collect markup_of (queue_row {Component = Component} env web now base_path item)
        ≡ collect markup_of (queue_row {Component = Component} env web now base_path' item')
  unfolding queue_row
  markups-queue_row base_path base_path' item item' h =
      simp (collect_laws, markups-row_deadline, ap (λ s. s.0) h, ap (λ s. s.1) h, ap (λ s. s.2) h)

  markups-load_more :
      (base_path base_path' : String) (t t' : Option Time)
      → is_some t ≡ is_some t'
      → collect markup_of (load_more {Component = Component} env web now base_path t)
        ≡ collect markup_of (load_more {Component = Component} env web now base_path' t')
  unfolding load_more
  markups-load_more base_path base_path' none none h = refl
  markups-load_more base_path base_path' none (some t') h = cc
  markups-load_more base_path base_path' (some t) none h = cc
  markups-load_more base_path base_path' (some t) (some t') h = simp collect_laws

  -- two pages whose tables take the same branches
  pub record SameTable (d d' : QueueData Set Any) : Type 0 where
    pub rows : map row_shape d.items ≡ map row_shape d'.items
    pub next : is_some d.next_cursor ≡ is_some d'.next_cursor

  markups-queue_table :
      (d d' : QueueData Set Any)
      → SameTable d d'
      → collect markup_of (queue_table {Component = Component} env web now d)
        ≡ collect markup_of (queue_table {Component = Component} env web now d')
  unfolding queue_table
  markups-queue_table d d' h = simp (
    collect_laws,
    markups-for_each (queue_row {Component = Component} env web now d.base_path)
        (queue_row env web now d'.base_path) row_shape (markups-queue_row d.base_path d'.base_path)
        d.items d'.items h.rows,
    is_nil-map row_shape d.items d'.items h.rows,
    markups-load_more d.base_path d'.base_path d.next_cursor d'.next_cursor h.next,
  )

-- the branches that an event takes
abbrev event_shape : {Any : Type 0} → Event Any → Bool
event_shape evt = evt.detail == ""

abbrev link_shape : Link → Unit {0}
link_shape link = tt

module _ (Component : Type 0) (web : Web) where
  markups-event_item :
      {Any : Type 0} (now now' : Time) (evt evt' : Event Any)
      → event_shape evt ≡ event_shape evt'
      → collect markup_of (event_item {Component = Component} now evt)
        ≡ collect markup_of (event_item {Component = Component} now' evt')
  unfolding event_item
  markups-event_item now now' evt evt' h = simp (collect_laws, h)

  markups-activity :
      {Any : Type 0} (now now' : Time) (events events' : List (Event Any))
      → map event_shape events ≡ map event_shape events'
      → collect markup_of (activity {Component = Component} now events)
        ≡ collect markup_of (activity {Component = Component} now' events')
  unfolding activity
  markups-activity now now' events events' h = simp (
    collect_laws,
    markups-for_each (event_item {Component = Component} now) (event_item now') event_shape
        (markups-event_item now now') events events' h,
    is_nil-map event_shape events events' h,
  )

  markups-related :
      (links links' : List Link)
      → map link_shape links ≡ map link_shape links'
      → collect markup_of (related {Component = Component} links)
        ≡ collect markup_of (related {Component = Component} links')
  unfolding related
  markups-related links links' h = simp (
    collect_laws,
    markups-for_each (link_item {Component = Component}) link_item link_shape
        (λ link link' e. simp collect_laws) links links' h,
    is_nil-map link_shape links links' h,
  )

  markups-content_of :
      (c c' : Option Component)
      → is_some c ≡ is_some c'
      → collect markup_of (content_of c) ≡ collect markup_of (content_of c')
  unfolding content_of
  markups-content_of none none h = refl
  markups-content_of none (some c') h = cc
  markups-content_of (some c) none h = cc
  markups-content_of (some c) (some c') h = simp collect_laws

  markups-deadline_field :
      (t t' : Option Time)
      → is_some t ≡ is_some t'
      → collect markup_of (deadline_field {Component = Component} web t)
        ≡ collect markup_of (deadline_field {Component = Component} web t')
  unfolding deadline_field
  markups-deadline_field none none h = refl
  markups-deadline_field none (some t') h = cc
  markups-deadline_field (some t) none h = cc
  markups-deadline_field (some t) (some t') h = simp collect_laws

module _ {S Set Any Foreign Component : Type 0} (env : Env S Set Any Foreign) (web : Web)
    (now : Time) (d d' : DetailData Set Any Component) where
  -- two drawers that take the same branches
  pub record SameDrawer : Type 0 where
    pub description : (d.item.proto.description == "") ≡ (d'.item.proto.description == "")
    pub team : (tag_value env d.item "team" == "") ≡ (tag_value env d'.item "team" == "")
    pub assignee :
        (tag_value env d.item "assignee" == "") ≡ (tag_value env d'.item "assignee" == "")
    pub priority :
        (tag_value env d.item "priority" == "") ≡ (tag_value env d'.item "priority" == "")
    pub deadline : is_some d.item.proto.deadline ≡ is_some d'.item.proto.deadline
    pub links : map link_shape d.links ≡ map link_shape d'.links
    pub content : is_some d.content ≡ is_some d'.content
    pub is_open : (d.item.proto.status == "open") ≡ (d'.item.proto.status == "open")
    pub is_claimed : (d.item.proto.status == "claimed") ≡ (d'.item.proto.status == "claimed")
    pub is_claimant : d.is_claimant ≡ d'.is_claimant
    pub events : map event_shape d.item.proto.events ≡ map event_shape d'.item.proto.events

  module _ (h : SameDrawer) where
    markups-title_of :
        collect markup_of (title_of env web now d) ≡ collect markup_of (title_of env web now d')
    unfolding title_of
    markups-title_of = simp (collect_laws, h.description)

    markups-fields_of :
        collect markup_of (fields_of env web now d) ≡ collect markup_of (fields_of env web now d')
    unfolding fields_of
    markups-fields_of = simp (
      collect_laws,
      h.team,
      h.assignee,
      h.priority,
      markups-deadline_field Component web d.item.proto.deadline d'.item.proto.deadline h.deadline,
    )

    markups-actions_of :
        collect markup_of (actions_of env web now d) ≡ collect markup_of (actions_of env web now d')
    unfolding actions_of
    markups-actions_of = simp (collect_laws, h.is_open, h.is_claimed, h.is_claimant)

    markups-comment_form :
        collect markup_of (comment_form web d) ≡ collect markup_of (comment_form web d')
    unfolding comment_form
    markups-comment_form = simp collect_laws

    markups-detail_drawer :
        collect markup_of (detail_drawer env web now d)
        ≡ collect markup_of (detail_drawer env web now d')
    unfolding detail_drawer
    markups-detail_drawer = simp (
      collect_laws,
      markups-title_of,
      markups-fields_of,
      markups-related Component web d.links d'.links h.links,
      markups-content_of Component web d.content d'.content h.content,
      markups-actions_of,
      markups-activity Component web now now d.item.proto.events d'.item.proto.events h.events,
      markups-comment_form,
    )

module _ {S Set Any Foreign Component : Type 0} (env : Env S Set Any Foreign) (web : Web)
    (now : Time) (d d' : QueueData Set Any) (e e' : DetailData Set Any Component) where
  -- What is written without escaping does not depend on the texts of the items: the tables of two
  -- pages whose rows agree in whether there is a description and whether the priority is urgent or
  -- high, and which both have a next cursor or both have none, have the same unescaped texts, and so
  -- have two drawers that take the same branches.
  pub markups-same :
      SameTable Component env web now d d'
      → SameDrawer env web now e e'
      → (collect markup_of (queue_table {Component = Component} env web now d)
          ≡ collect markup_of (queue_table {Component = Component} env web now d'))
        × (collect markup_of (detail_drawer env web now e)
            ≡ collect markup_of (detail_drawer env web now e'))
  markups-same table drawer = (
    markups-queue_table Component env web now d d' table,
    markups-detail_drawer env web now e e' drawer,
  )
