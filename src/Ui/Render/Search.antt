-- ===== src/Ui/Render/Search.antt =====
-- The page of a search: ui/search_templ.go.
use inbox.Prelude.{
  ℕ, nat_eq, String, ◌<>◌, ◌==◌, not, ◌&&◌, none, [], ◌∷◌, ◌++◌, length, is_nil, if◌then◌else◌,
}
use inbox.Proto.{Time}
use inbox.External.{Env}
use inbox.Html.{markup, escaped, on, on_click, bind, check_context, write, attributes, Html, Web}
use inbox.Html.Decimal.{decimal}
use inbox.Ui.Queue.{QueueData, SearchData}
use inbox.Ui.Render.Queue.{queue_table}

unfoldable pub result_noun : ℕ → String
result_noun count = if nat_eq count 1 then "result" else "results"

unfoldable pub search_empty_state : {Component : Type 0} → String → String → Html Component
search_empty_state title subtitle =
    check_context
    ∷ write (
        markup
          "<div class=\"flex flex-col items-center py-20 text-center\"><div class=\"w-12 h-12 rounded-full bg-base-200 flex items-center justify-center mb-4\"><svg class=\"w-6 h-6 text-base-content/25\" fill=\"none\" stroke=\"currentColor\" viewBox=\"0 0 24 24\"><path stroke-linecap=\"round\" stroke-linejoin=\"round\" stroke-width=\"1.5\" d=\"M21 21l-6-6m2-5a7 7 0 11-14 0 7 7 0 0114 0z\"></path></svg></div><p class=\"text-base-content/50 font-medium\">")
    ∷ write (escaped title)
    ∷ write (markup "</p><p class=\"text-xs text-base-content/30 mt-1\">")
    ∷ write (escaped subtitle)
    ∷ write (markup "</p></div>")
    ∷ []

-- a page of a queue of which only the items and the path are given
abbrev pub queue_of : {Set Any : Type 0} → SearchData Set Any → QueueData Set Any
queue_of d = record {
  items = d.items;
  filters = [];
  active = [];
  base_path = d.base_path;
  stream_reload_url = "";
  next_cursor = none;
  priority_counts = [];
}

module _ {S Set Any Foreign Component : Type 0} (env : Env S Set Any Foreign) (web : Web)
    (now : Time) where
  unfoldable pub search_results : SearchData Set Any → Html Component
  search_results d =
      check_context
        ∷ write (markup "<div id=\"search-results\">")
        ∷ (if not (d.query == "") && not (is_nil d.items)
            then write (
                markup
                  "<p class=\"text-sm text-base-content/40 mb-4\"><span class=\"font-medium text-base-content tabular-nums\">")
              ∷ write (escaped (decimal (length d.items)))
              ∷ write (markup "</span> ")
              ∷ write (escaped (" " <> result_noun (length d.items) <> " found"))
              ∷ write (markup "</p>")
              ∷ queue_table env web now (queue_of d)
            else if not (d.query == "")
            then search_empty_state "No results found"
                "Try a different keyword or check your spelling"
            else search_empty_state "Search across all items"
                "Find items by title, description, or content")
      ++ write (markup "</div>") ∷ []

  unfoldable pub search_content : SearchData Set Any → Html Component
  search_content d =
      let fetch = web.get_form (d.base_path <> "/search") "search" in
      check_context
        ∷ write (
            markup
              "<div class=\"space-y-6\"><div><h1 class=\"text-2xl font-bold tracking-tight\">Search</h1><p class=\"text-sm text-base-content/40 mt-1\">Find items by title or description</p></div>")
        ∷ write (markup "<div data-signals=\"")
        ∷ write (escaped (web.new_signals "search" (("q", d.query) ∷ [])))
        ∷ write (
            markup
              "\"><div class=\"join w-full shadow-sm\"><div class=\"relative flex-1\"><input type=\"text\" class=\"input input-bordered join-item w-full pl-10\" placeholder=\"Search by title or description...\"")
        ∷ attributes (bind "search" "q")
        ∷ attributes
            (on "keydown" ("if(event.key==='Enter'){event.preventDefault();" <> fetch <> "}"))
        ∷ write (
            markup
              "> <svg class=\"absolute left-3 top-1/2 -translate-y-1/2 w-4 h-4 text-base-content/30\" fill=\"none\" stroke=\"currentColor\" viewBox=\"0 0 24 24\"><path stroke-linecap=\"round\" stroke-linejoin=\"round\" stroke-width=\"2\" d=\"M21 21l-6-6m2-5a7 7 0 11-14 0 7 7 0 0114 0z\"></path></svg></div><button class=\"btn btn-neutral join-item\"")
        ∷ attributes (on_click fetch)
        ∷ write (markup ">Search</button></div></div>")
        ∷ search_results d
      ++ write (markup "</div>") ∷ []
