-- ===== src/Ui/Render/Buttons.antt =====
-- The buttons of the drawer.
use inbox.Prelude.{
  String, ◌<>◌, ◌==◌, ◌≡◌, Bool-cases, inl, inr, ◌&&◌, Option, none, some, List, [], ◌∷◌, ◌++◌,
  if◌then◌else◌,
}
use inbox.Proto.{Time, Event}
use inbox.External.{Env}
use inbox.Html.{Web}
use inbox.Html.Collect.{click_of, collect, collect-for_each_none, collect_laws}
use inbox.Ui.Detail.{Link, DetailData}
use inbox.Ui.Render.Actions.{comment_form}
use inbox.Ui.Render.Detail.{
  event_item, link_item, related, content_of, activity, deadline_field, title_of, fields_of,
  actions_of, detail_drawer,
}

module _ (Component : Type 0) where
  clicks-event_item :
      {Any : Type 0} (now : Time) (evt : Event Any)
      → collect click_of (event_item {Component = Component} now evt) ≡ []
  unfolding event_item
  clicks-event_item now evt = simp collect_laws

  clicks-activity :
      {Any : Type 0} (now : Time) (events : List (Event Any))
      → collect click_of (activity {Component = Component} now events) ≡ []
  unfolding activity
  clicks-activity now events =
      simp (
        collect_laws,
        collect-for_each_none click_of (event_item now) (clicks-event_item now) events,
      )

  clicks-related :
      (links : List Link) → collect click_of (related {Component = Component} links) ≡ []
  unfolding related
  clicks-related links = simp (
    collect_laws,
    collect-for_each_none click_of (link_item {Component = Component}) (λ link. simp collect_laws)
        links,
  )

  clicks-content_of : (content : Option Component) → collect click_of (content_of content) ≡ []
  unfolding content_of
  clicks-content_of none = simp collect_laws
  clicks-content_of (some c) = simp collect_laws

  clicks-deadline_field :
      (web : Web) (t : Option Time)
      → collect click_of (deadline_field {Component = Component} web t) ≡ []
  unfolding deadline_field
  clicks-deadline_field web none = simp collect_laws
  clicks-deadline_field web (some t) = simp collect_laws

module _ {S Set Any Foreign Component : Type 0} (env : Env S Set Any Foreign) (web : Web)
    (now : Time) (d : DetailData Set Any Component) where
  clicks-title_of : collect click_of (title_of env web now d) ≡ []
  unfolding title_of
  clicks-title_of = simp collect_laws

  clicks-fields_of : collect click_of (fields_of env web now d) ≡ []
  unfolding fields_of
  clicks-fields_of = simp (collect_laws, clicks-deadline_field Component web d.item.proto.deadline)

  -- the action on the item that its status and the user allow
  abbrev pub offered : List String
  offered =
      if d.item.proto.status == "open"
      then web.post (d.base_path <> "/items/" <> d.item.id <> "/claim") ∷ []
      else if d.item.proto.status == "claimed" && d.is_claimant
      then web.post (d.base_path <> "/items/" <> d.item.id <> "/release") ∷ []
      else []

  clicks-actions_of : collect click_of (actions_of env web now d) ≡ offered
  unfolding actions_of
  clicks-actions_of = elim (Bool-cases (d.item.proto.status == "open")) [
    | inl e ↦ rw e (simp collect_laws)
    | inr e ↦ elim (Bool-cases (d.item.proto.status == "claimed")) [
      | inl e' ↦ elim (Bool-cases d.is_claimant) [
        | inl c ↦ rw (e, e', c) (simp collect_laws)
        | inr c ↦ rw (e, e', c) (simp collect_laws)
      ]
      | inr e' ↦ rw (e, e') (simp collect_laws)
    ]
  ]

  clicks-comment_form :
      collect click_of (comment_form web d)
      ≡ web.post_form (d.base_path <> "/items/" <> d.item.id <> "/comment") "comment-form" ∷ []
  unfolding comment_form
  clicks-comment_form = simp collect_laws

  -- The drawer of an item has the button to claim it exactly if it is open, the button to release
  -- it exactly if it is claimed by the user of the page, and then the button of the comment form,
  -- and no other button of its own.
  pub clicks-detail_drawer :
      collect click_of (detail_drawer env web now d)
      ≡ offered
        ++ web.post_form (d.base_path <> "/items/" <> d.item.id <> "/comment") "comment-form" ∷ []
  unfolding detail_drawer
  clicks-detail_drawer = simp (
    collect_laws,
    clicks-title_of,
    clicks-fields_of,
    clicks-comment_form,
    clicks-related Component d.links,
    clicks-content_of Component d.content,
    clicks-actions_of,
    clicks-activity Component now d.item.proto.events,
  )
