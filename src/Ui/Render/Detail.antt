-- ===== src/Ui/Render/Detail.antt =====
-- The drawer of an item: ui/detail_templ.go.
use inbox.Prelude.{String, ◌==◌, not, ◌&&◌, ◌||◌, Option, none, some, List, [], ◌∷◌, ◌++◌, is_nil}
use inbox.Proto.{Time, Event}
use inbox.External.{Env}
use inbox.Inbox.Tagging.{tag_value}
use inbox.Html.{
  markup, escaped, variant, check_context, write, badge, component, Html, Web, for_each, when,
}
use inbox.Ui.Labels.{event_label, status_badge_variant, actor_display_name, format_age, age_text}
use inbox.Ui.Detail.{Link, DetailData}
use inbox.Ui.Render.Actions.{section_label, action_buttons, comment_form}

-- `AsTime` of no timestamp: 1970, in nanoseconds since Go's zero time
abbrev unix_epoch : Time
unix_epoch = 62135596800000000000

abbrev event_time : Option Time → Time
event_time none = unix_epoch
event_time (some t) = t

module _ {Component : Type 0} where
  unfoldable meta_field : String → String → Html Component
  meta_field label value =
      check_context
      ∷ write (
          markup
            "<div><div class=\"text-[11px] uppercase tracking-widest text-base-content/30 font-medium\">")
      ∷ write (escaped label)
      ∷ write (markup "</div><div class=\"text-sm mt-0.5\">")
      ∷ write (escaped value)
      ∷ write (markup "</div></div>")
      ∷ []

  unfoldable pub event_item : {Any : Type 0} → Time → Event Any → Html Component
  unfolding event_label actor_display_name format_age age_text
  event_item now evt =
      check_context
        ∷ write (
            markup
              "<div class=\"flex gap-2.5 py-2\"><div class=\"w-1 h-1 rounded-full bg-base-content/15 mt-1.5 shrink-0\"></div><div class=\"flex-1 min-w-0\"><div class=\"flex items-baseline justify-between gap-2\"><div class=\"flex items-baseline gap-1.5\"><span class=\"text-xs font-medium\">")
        ∷ write (escaped (event_label evt.data_type))
        ∷ write (markup "</span> <span class=\"text-[11px] text-base-content/30\">")
        ∷ write (escaped (actor_display_name evt.actor))
        ∷ write (
            markup
              "</span></div><span class=\"text-[11px] text-base-content/25 tabular-nums shrink-0\">")
        ∷ write (escaped (age_text (format_age now (event_time evt.at))))
        ∷ write (markup "</span></div>")
        ∷ when (not (evt.detail == "")) (
            write (markup "<p class=\"text-xs text-base-content/50 mt-0.5 leading-relaxed\">")
            ∷ write (escaped evt.detail)
            ∷ write (markup "</p>")
            ∷ [])
      ++ write (markup "</div></div>") ∷ []

  abbrev pub link_item : Link → Html Component
  link_item link =
      write (markup "<a href=\"")
      ∷ write (escaped link.url)
      ∷ write (markup "\" target=\"_blank\" class=\"link link-hover text-sm\">")
      ∷ write (escaped link.label)
      ∷ write (markup "</a>")
      ∷ []

  unfoldable pub related : List Link → Html Component
  unfolding section_label
  related links = when (not (is_nil links)) (
      write (markup "<div class=\"py-4\">") ∷ section_label "Related"
      ++ (write (markup "<div class=\"flex flex-col gap-1 mt-2.5\">") ∷ for_each link_item links
          ++ write (markup "</div></div>") ∷ []))

  unfoldable pub content_of : Option Component → Html Component
  content_of none = []
  content_of (some content) =
      write (markup "<div class=\"py-4\">") ∷ component content ∷ write (markup "</div>") ∷ []

  unfoldable pub activity : {Any : Type 0} → Time → List (Event Any) → Html Component
  unfolding section_label event_item
  activity now events = when (not (is_nil events)) (
      write (markup "<div class=\"py-4\">") ∷ section_label "Activity"
      ++ (write (markup "<div class=\"mt-2.5\">") ∷ for_each (event_item now) events
          ++ write (markup "</div></div>") ∷ []))

  -- a field of a tag, if the item has it
  abbrev field_of : String → String → (String → String) → Html Component
  field_of label value text = when (not (value == "")) (meta_field label (text value))

  unfoldable pub deadline_field : Web → Option Time → Html Component
  unfolding meta_field
  deadline_field web none = []
  deadline_field web (some t) = meta_field "Deadline" (web.format_deadline t)

module _ {S Set Any Foreign Component : Type 0} (env : Env S Set Any Foreign) (web : Web)
    (now : Time) where
  unfoldable pub title_of : DetailData Set Any Component → Html Component
  unfolding status_badge_variant
  title_of d =
      check_context
      ∷ write (
          markup
            "<div class=\"divide-y divide-base-200\" data-signals='{\"__link\":\"\"}' data-effect=\"if($__link){navigator.clipboard.writeText($__link);$__link='';}\"><div class=\"pb-4\"><div class=\"flex items-start justify-between gap-3\"><h2 class=\"text-base font-semibold tracking-tight leading-snug\">")
      ∷ write (escaped d.item.proto.title)
      ∷ write (markup "</h2><div class=\"flex items-center gap-1.5 shrink-0\">")
      ∷ badge (variant (status_badge_variant d.item.proto.status))
          (escaped d.item.proto.status ∷ [])
      ∷ write (markup "</div></div>")
      ∷ when (not (d.item.proto.description == "")) (
          write (markup "<p class=\"text-xs text-base-content/50 mt-1.5 leading-relaxed\">")
          ∷ write (escaped d.item.proto.description)
          ∷ write (markup "</p>")
          ∷ [])

  unfoldable pub fields_of : DetailData Set Any Component → Html Component
  unfolding tag_value meta_field deadline_field actor_display_name format_age age_text
  fields_of d =
      write (markup "</div><div class=\"py-4\"><div class=\"grid grid-cols-3 gap-x-4 gap-y-2.5\">")
        ∷ field_of "Team" (tag_value env d.item "team") (λ team. team)
      ++ (field_of "Assignee" (tag_value env d.item "assignee") actor_display_name
          ++ (field_of "Priority" (tag_value env d.item "priority") (λ priority. priority)
              ++ (deadline_field web d.item.proto.deadline
                  ++ (meta_field "Age" (age_text (format_age now d.item.created_at))
                      ++ write (markup "</div></div>") ∷ []))))

  unfoldable pub actions_of : DetailData Set Any Component → Html Component
  unfolding action_buttons
  actions_of d =
      when (d.item.proto.status == "open" || d.item.proto.status == "claimed" && d.is_claimant) (
        write (markup "<div class=\"py-4\">") ∷ action_buttons web d
        ++ write (markup "</div>") ∷ [])

  unfoldable pub detail_drawer : DetailData Set Any Component → Html Component
  detail_drawer d =
      title_of d
      ++ (fields_of d
          ++ (related d.links
              ++ (content_of d.content
                  ++ (actions_of d
                      ++ (activity now d.item.proto.events
                          ++ (write (markup "<div class=\"pt-4\">") ∷ comment_form web d
                              ++ write (markup "</div></div>") ∷ []))))))
