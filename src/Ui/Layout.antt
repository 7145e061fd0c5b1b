-- ===== src/Ui/Layout.antt =====
-- The layout of a page where no other is configured: ui/layout_templ.go. The components of
-- dsx/ui/navbar make the bar from the steps of their children.
use inbox.Prelude.{String, ◌<>◌, ◌==◌, ◌||◌, Bool, true, [], ◌∷◌, ◌++◌, if◌then◌else◌}
use inbox.Html.{markup, escaped, check_context, write, css_items, Html, Web, class_of}
use inbox.Html.Document.{DsxContext, BasePage}

-- `navbar.Navbar` of a class, with the children of `navbar.Start` and `navbar.End` and what is
-- written between the two
pub record Navbar (Component : Type 0) : Type 0 where
  pub class : String
  pub start : Html Component
  pub between : Html Component
  pub end_part : Html Component

-- The document: the children of `base` are its steps, the bar, and then the steps of `rest`.
pub record DefaultPage (Component : Type 0) : Type 0 where
  pub base : BasePage Component
  pub navbar : Navbar Component
  pub rest : Html Component

module _ {Component : Type 0} where
  unfoldable default_head : Html Component
  default_head =
      check_context
      ∷ write (
          markup
            "<link rel=\"stylesheet\" href=\"/assets/css/output.css\"><link rel=\"stylesheet\" href=\"/theme/theme.css\"><script type=\"module\" src=\"/assets/js/datastar.js\"></script>")
      ∷ []

  -- a tab: whether it is active, its URL, and what is written after it
  unfoldable tab : Web → Bool → String → String → Html Component
  tab web is_active url rest =
      let classes = ("tab", true) ∷ ("tab-active", is_active) ∷ [] in
      css_items classes
      ∷ write (markup "<a role=\"tab\" class=\"")
      ∷ class_of web classes
      ∷ write (markup "\" href=\"")
      ∷ write (escaped url)
      ∷ write (markup rest)
      ∷ []

  unfoldable default_navbar : Web → String → String → Navbar Component
  unfolding tab
  default_navbar web base_path current_path = record {
    class = "bg-base-200";
    start =
        write (markup "<a class=\"btn btn-ghost text-xl\" href=\"")
        ∷ write (escaped (base_path <> "/"))
        ∷ write (markup "\">Inbox</a>")
        ∷ [];
    between = write (markup " ") ∷ [];
    end_part =
        write (markup "<div role=\"tablist\" class=\"tabs tabs-boxed\">")
          ∷ tab web (current_path == "/" || current_path == "") (base_path <> "/") "\">Queue</a> "
        ++ (tab web (current_path == "/mywork") (base_path <> "/mywork") "\">My Work</a> "
            ++ tab web (current_path == "/search") (base_path <> "/search") "\">Search</a></div>");
  }

  unfoldable pub default_layout :
      Web → DsxContext → String → String → Html Component → DefaultPage Component
  unfolding default_head default_navbar
  default_layout web dsx base_path current_path content = record {
    base = record {
      title = "Inbox";
      csrf_token = dsx.csrf_token;
      theme = if dsx.theme == "" then "neo-light" else dsx.theme;
      head = default_head;
      children = write (markup "<div class=\"flex flex-col h-screen\">") ∷ [];
    };
    navbar = default_navbar web base_path current_path;
    rest =
        write (markup "<main class=\"flex-1 overflow-auto p-4\">") ∷ content
        ++ write (markup "</main></div>") ∷ [];
  }
