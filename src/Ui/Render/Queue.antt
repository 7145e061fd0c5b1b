-- ===== src/Ui/Render/Queue.antt =====
-- The table of items and the page of the queue: ui/queue_templ.go.
use inbox.Prelude.{
  ℕ, ltb, String, ◌<>◌, ◌==◌, not, true, Option, none, some, [], ◌∷◌, ◌++◌, length, is_nil,
  if◌then◌else◌,
}
use inbox.Proto.{Time}
use inbox.External.{Env}
use inbox.Inbox.Item.{Item}
use inbox.Inbox.Tagging.{tag_value}
use inbox.Html.{
  markup, escaped, raw_signals, on, on_click, watch, variant, variant_error, variant_warning,
  check_context, write, css_items, attributes, badge, Html, Web, for_each, when, class_of,
}
use inbox.Html.Decimal.{decimal}
use inbox.Ui.Filters.{FilterConfig, build_filter_signals_json}
use inbox.Ui.Labels.{filter_key, status_badge_variant, actor_display_name, format_age, age_text}
use inbox.Ui.Queue.{Counts, QueueData}

-- `counts[key]`, 0 on a missing key
abbrev count_at : Counts → String → ℕ
count_at [] key = 0
count_at ((k, n) ∷ counts) key = let rest = count_at counts key in if k == key then n else rest

module _ {Component : Type 0} (web : Web) where
  unfoldable pub stat_chip : String → String → String → Html Component
  stat_chip count label color_class =
      let classes =
        ("font-semibold tabular-nums", true)
        ∷ (color_class, not (color_class == ""))
        ∷ ("text-base-content/70", color_class == "")
        ∷ [] in
      check_context
      ∷ write (markup "<span class=\"flex items-center gap-1.5 text-sm\">")
      ∷ css_items classes
      ∷ write (markup "<span class=\"")
      ∷ class_of web classes
      ∷ write (markup "\">")
      ∷ write (escaped count)
      ∷ write (markup "</span> <span class=\"text-base-content/30\">")
      ∷ write (escaped label)
      ∷ write (markup "</span></span>")
      ∷ []

  -- a chip of the items of a priority, if there are any
  abbrev priority_chip : ℕ → String → String → Html Component
  priority_chip n label color_class = when (ltb 0 n) (stat_chip (decimal n) label color_class)

  unfoldable pub filter_option : String → Html Component
  filter_option opt =
      write (markup "<option value=\"")
      ∷ write (escaped opt)
      ∷ write (markup "\">")
      ∷ write (escaped opt)
      ∷ write (markup "</option>")
      ∷ []

  -- a round of the loop over the filters
  unfoldable pub filter_select : String → FilterConfig → Html Component
  unfolding filter_key filter_option
  filter_select base_path f =
      write (
          markup
            "<select class=\"select select-bordered select-sm select-ghost min-w-[120px] text-xs\" data-bind=\"")
        ∷ write (escaped (filter_key f.tag_prefix))
        ∷ write (markup "\"")
        ∷ attributes (on "change" (web.get (base_path <> "/")))
        ∷ write (markup "><option value=\"\">")
        ∷ write (escaped f.label)
        ∷ write (markup "</option> ")
        ∷ for_each filter_option f.options
      ++ write (markup "</select>") ∷ []

  unfoldable pub priority_badge : String → Html Component
  priority_badge priority =
      check_context
      ∷ (if priority == "urgent"
          then badge variant_error (escaped priority ∷ []) ∷ []
          else if priority == "high"
          then badge variant_warning (escaped priority ∷ []) ∷ []
          else write (markup "<span class=\"text-xs text-base-content/40\">")
            ∷ write (escaped priority)
            ∷ write (markup "</span>")
            ∷ [])

module _ {S Set Any Foreign Component : Type 0} (env : Env S Set Any Foreign) (web : Web)
    (now : Time) where
  unfoldable pub queue_filters : QueueData Set Any → Html Component
  unfolding filter_select build_filter_signals_json
  queue_filters d =
      check_context
        ∷ write (markup "<div id=\"queue-filters\" class=\"flex gap-2 items-center\"")
        ∷ attributes (raw_signals (build_filter_signals_json d.filters d.active))
        ∷ write (markup ">")
        ∷ for_each (filter_select web d.base_path) d.filters
      ++ write (markup "</div>") ∷ []

  abbrev row_description : String → Html Component
  row_description description = when (not (description == "")) (
      write (markup "<div class=\"text-xs text-base-content/40 mt-0.5 truncate max-w-xs\">")
      ∷ write (escaped description)
      ∷ write (markup "</div>")
      ∷ [])

  unfoldable pub row_deadline : Option Time → Html Component
  row_deadline none = []
  row_deadline (some t) = write (escaped (web.format_deadline t)) ∷ []

  unfoldable pub queue_row : String → Item Set Any → Html Component
  unfolding tag_value row_deadline priority_badge status_badge_variant actor_display_name format_age
      age_text
  queue_row base_path item =
      let classes =
        (
          "hover:bg-base-200/50 cursor-pointer transition-colors border-b border-base-200/60 last:border-0",
          true,
        )
        ∷ ("border-l-2 border-l-error", tag_value env item "priority" == "urgent")
        ∷ [] in
      check_context
        ∷ css_items classes
        ∷ write (markup "<tr id=\"")
        ∷ write (escaped ("row-" <> item.id))
        ∷ write (markup "\" class=\"")
        ∷ class_of web classes
        ∷ write (markup "\"")
        ∷ attributes (on_click (web.get (base_path <> "/items/" <> item.id)))
        ∷ write (markup "><td class=\"py-3\"><div class=\"font-medium text-sm leading-snug\">")
        ∷ write (escaped item.proto.title)
        ∷ write (markup "</div>")
        ∷ row_description item.proto.description
      ++ (write (markup "</td><td class=\"py-3\">")
            ∷ badge (variant (status_badge_variant item.proto.status))
                (escaped item.proto.status ∷ [])
            ∷ write (markup "</td><td class=\"py-3\">")
            ∷ priority_badge web (tag_value env item "priority")
          ++ (write (markup "</td><td class=\"py-3 text-xs text-base-content/60\">")
                ∷ write (escaped (tag_value env item "team"))
                ∷ write (markup "</td><td class=\"py-3 text-xs text-base-content/60\">")
                ∷ write (escaped (actor_display_name (tag_value env item "assignee")))
                ∷ write
                    (markup "</td><td class=\"py-3 text-xs text-base-content/40 tabular-nums\">")
                ∷ write (escaped (age_text (format_age now item.created_at)))
                ∷ write
                    (markup "</td><td class=\"py-3 text-xs text-base-content/40 tabular-nums\">")
                ∷ row_deadline item.proto.deadline
              ++ write (markup "</td></tr>") ∷ []))

  abbrev empty_row : Html Component
  empty_row =
      write (
        markup
          "<tr><td colspan=\"7\" class=\"py-16\"><div class=\"text-center space-y-3\"><div class=\"text-4xl opacity-20\">")
      ∷ write (escaped "✉")
      ∷ write (
          markup
            "</div><p class=\"text-base-content/40 font-medium\">Queue is empty</p><p class=\"text-xs text-base-content/30\">All caught up — no items matching your filters</p></div></td></tr>")
      ∷ []

  unfoldable pub load_more : String → Option Time → Html Component
  load_more base_path none = []
  load_more base_path (some t) =
      write (
        markup
          "<div class=\"flex justify-center pt-1\"><button class=\"btn btn-ghost btn-sm text-xs\"")
      ∷ attributes (on_click (web.get (base_path <> "/?cursor=" <> web.format_rfc3339 t)))
      ∷ write (markup ">Load more</button></div>")
      ∷ []

  unfoldable pub queue_table : QueueData Set Any → Html Component
  unfolding queue_row load_more
  queue_table d =
      check_context
        ∷ write (markup "<div id=\"queue-list\"")
        ∷ when (not (d.stream_reload_url == ""))
            (attributes (watch "inboxitem" 300 d.stream_reload_url) ∷ [])
      ++ (write (
              markup
                " class=\"bg-base-100 border border-base-300 rounded-lg overflow-hidden\"><table id=\"queue-table\" class=\"table table-sm\"><thead><tr class=\"border-b border-base-300 bg-base-200/30\"><th class=\"text-xs uppercase tracking-wider text-base-content/40 font-medium py-3\">Title</th><th class=\"text-xs uppercase tracking-wider text-base-content/40 font-medium py-3 w-24\">Status</th><th class=\"text-xs uppercase tracking-wider text-base-content/40 font-medium py-3 w-24\">Priority</th><th class=\"text-xs uppercase tracking-wider text-base-content/40 font-medium py-3 w-28\">Team</th><th class=\"text-xs uppercase tracking-wider text-base-content/40 font-medium py-3 w-28\">Assignee</th><th class=\"text-xs uppercase tracking-wider text-base-content/40 font-medium py-3 w-20\">Age</th><th class=\"text-xs uppercase tracking-wider text-base-content/40 font-medium py-3 w-32\">Deadline</th></tr></thead> <tbody>")
            ∷ when (is_nil d.items) empty_row
          ++ (for_each (queue_row d.base_path) d.items
              ++ (write (markup "</tbody></table></div>") ∷ load_more d.base_path d.next_cursor)))

  unfoldable pub queue_content : QueueData Set Any → Html Component
  queue_content d =
      check_context
        ∷ write (
            markup
              "<div class=\"space-y-5\"><div class=\"flex items-end justify-between\"><div><h1 class=\"text-2xl font-bold tracking-tight\">Queue</h1><div class=\"flex items-center gap-4 mt-2\">")
        ∷ stat_chip web (decimal (length d.items)) "total" ""
      ++ (priority_chip web (count_at d.priority_counts "urgent") "urgent" "text-error"
          ++ (priority_chip web (count_at d.priority_counts "high") "high" "text-warning"
              ++ (write (markup "</div></div>") ∷ queue_filters d
                  ++ (write (markup "</div>") ∷ queue_table d ++ write (markup "</div>") ∷ []))))
