-- ===== src/Showcase.antt =====
-- The demo program's site: cmd/inboxui/layout_templ.go, and the options that the `Setup` of
-- cmd/inboxui/main.go gives to the interface. The packages of dsx make the dashboard and the fragment.
pub mod Content
use inbox.Prelude.{String, ◌<>◌, Option, none, some, List, [], ◌∷◌}
use inbox.External.{Identity}
use inbox.Html.{markup, check_context, write, component, Html, Web}
use inbox.Html.Document.{DsxContext, BasePage}
use inbox.Schema.{ItemSchema, Signals}
use inbox.Schema.Provider.{schema_provider_render}
use inbox.Ui.Config.{
  Config, ConfigOption, with_identity, with_filter, with_content_provider, with_base_path,
  with_layout, with_bus,
}
use inbox.Ui.Detail.{Provider}

pub data Icon : Type 0 where
  inbox_icon clipboard_list search_icon : Icon

-- `layouts.NavItem` and `layouts.NavGroup`
pub record NavItem : Type 0 where
  pub label : String
  pub href : String
  pub icon : Icon

pub record NavGroup : Type 0 where
  pub title : String
  pub items : List NavItem

-- `layouts.DashboardProps`, with the fields of the branding and of the theme toggle; the children
-- are those of `base`.
pub record Dashboard (Component : Type 0) : Type 0 where
  pub base : BasePage Component
  pub app_name : String
  pub app_href : String
  pub nav : List NavGroup
  pub current_path : String
  pub header_actions : Html Component
  pub dark_theme : String
  pub light_theme : String

abbrev inbox_nav : List NavGroup
inbox_nav =
    (record {
      title = "Inbox";
      items =
          (record { label = "Queue"; href = "/inbox"; icon = inbox_icon })
          ∷ (record { label = "My Work"; href = "/inbox/mywork"; icon = clipboard_list })
          ∷ (record { label = "Search"; href = "/inbox/search"; icon = search_icon })
          ∷ [];
    })
    ∷ []

module _ {Component : Type 0} where
  unfoldable showcase_head : Html Component
  showcase_head =
      check_context
      ∷ write (
          markup
            "<link rel=\"stylesheet\" href=\"/assets/css/output.css\"><link rel=\"stylesheet\" href=\"/theme/theme.css\"><script type=\"module\" src=\"/assets/js/datastar.js\"></script><script src=\"/assets/js/watch-worker.js\"></script>")
      ∷ []

  -- `fragment` is `showcase.Fragment`
  unfoldable identity_switcher_fragment : (String → String → Component) → Html Component
  identity_switcher_fragment fragment =
      check_context ∷ component (fragment "identity-switcher" "/showcase/identities") ∷ []

  unfoldable showcase_layout_templ :
      (String → String → Component) → DsxContext → String → Html Component → Dashboard Component
  unfolding showcase_head identity_switcher_fragment
  showcase_layout_templ fragment dsx current_path content = record {
    base = record {
      title = "Inbox";
      csrf_token = dsx.csrf_token;
      theme = dsx.theme;
      head = showcase_head;
      children = content;
    };
    app_name = "Neo";
    app_href = "/inbox";
    nav = inbox_nav;
    current_path = "/inbox" <> current_path;
    header_actions = identity_switcher_fragment fragment;
    dark_theme = "neo-dark";
    light_theme = "neo-light";
  }

-- `id, _ := identity.FromContext(ctx)`, where `zero` comes with a miss
abbrev identity_or : Identity → Option Identity → Identity
identity_or zero none = zero
identity_or zero (some id) = id

-- `schemaProvider{}`; `of_html` is a component that takes the steps.
abbrev pub schema_provider :
    {Set Any Component : Type 0}
    → Web
    → (Signals → String)
    → (Any → Option ItemSchema)
    → (Html Component → Component)
    → Provider Set Any Component
schema_provider web marshal unmarshal of_html = record {
  render = λ rc. of_html (schema_provider_render web marshal unmarshal rc);
  render_rich = none;
  workflow_status = none;
}

module _ {Request Set Any Component Bus : Type 0} (web : Web) (marshal : Signals → String)
    (unmarshal : Any → Option ItemSchema) (fragment : String → String → Component)
    (dsx : DsxContext) (of_html : Html Component → Component) where
  -- the options of the mounted interface
  unfoldable pub showcase_options :
      Bus
      → Identity
      → (Request → Option Identity)
      → List (ConfigOption (Config Request Set Any Component (Dashboard Component) Bus))
  unfolding showcase_layout_templ
  showcase_options bus zero from_context =
      with_base_path "/inbox"
      ∷ with_bus bus
      ∷ with_layout (showcase_layout_templ fragment dsx)
      ∷ with_content_provider "schema.v1.ItemSchema" (schema_provider web marshal unmarshal of_html)
      ∷ with_content_provider "inbox.v1.ItemSchema" (schema_provider web marshal unmarshal of_html)
      ∷ with_identity (λ r. identity_or zero (from_context r))
      ∷ with_filter (record {
        label = "Priority";
        tag_prefix = "priority:";
        options = "urgent" ∷ "high" ∷ "normal" ∷ "low" ∷ [];
      })
      ∷ with_filter (record {
        label = "Team";
        tag_prefix = "team:";
        options = "compliance" ∷ "ops" ∷ "finance" ∷ [];
      })
      ∷ with_filter (record {
        label = "Type";
        tag_prefix = "type:";
        options = "approval" ∷ "review" ∷ "input_required" ∷ [];
      })
      ∷ []
