-- ===== src/Ui/Render/MyWork.antt =====
-- The page of an actor's claimed items: ui/mywork_templ.go.
use inbox.Prelude.{◌<>◌, [], ◌∷◌, ◌++◌, is_nil, if◌then◌else◌}
use inbox.Proto.{Time}
use inbox.External.{Env}
use inbox.Html.{markup, escaped, check_context, write, Html, Web}
use inbox.Ui.Queue.{QueueData}
use inbox.Ui.Render.Queue.{queue_table}

module _ {S Set Any Foreign Component : Type 0} (env : Env S Set Any Foreign) (web : Web)
    (now : Time) where
  unfoldable pub mywork_content : QueueData Set Any → Html Component
  mywork_content d =
      check_context
        ∷ write (
            markup
              "<div class=\"space-y-6\"><div><h1 class=\"text-2xl font-bold tracking-tight\">My Work</h1><p class=\"text-sm text-base-content/40 mt-1\">Items you've claimed</p></div>")
        ∷ (if is_nil d.items
            then write (
                markup
                  "<div class=\"border border-base-300 rounded-lg py-16\"><div class=\"text-center space-y-3\"><div class=\"text-4xl opacity-15\">")
              ∷ write (escaped "📋")
              ∷ write (
                  markup
                    "</div><p class=\"text-base-content/40 font-medium\">Nothing here yet</p><p class=\"text-xs text-base-content/30\">Claim items from the queue to start working</p><a href=\"")
              ∷ write (escaped (d.base_path <> "/"))
              ∷ write
                  (markup "\" class=\"btn btn-neutral btn-sm mt-4\">Go to Queue</a></div></div>")
              ∷ []
            else queue_table env web now d)
      ++ write (markup "</div>") ∷ []
