-- ===== src/Ui/Config.antt =====
-- The configuration of the interface and its options: ui/config.go.
use inbox.Prelude.{String, Option, none, some, List, [], ◌∷◌, ◌++◌}
use inbox.Effect.{Fallible, value, failure}
use inbox.External.{Identity, Env}
use inbox.Html.{Html}
use inbox.Ui.Detail.{Provider, Providers}
use inbox.Ui.Filters.{FilterConfig}

-- `config`. A layout makes a `Page` of the current path and the content; a map of providers has the
-- newest first.
pub record Config (Request Set Any Component Page Bus : Type 0) : Type 0 where
  pub identity_fn : Request → Identity
  pub filters : List FilterConfig
  pub content_providers : Providers Set Any Component
  pub base_path : String
  pub layout_fn : Option (String → Html Component → Page)
  pub bus : Option Bus

-- the identity that comes with an error is `zero`
abbrev pub or_zero : Identity → Fallible Identity → Identity
or_zero zero (value id) = id
or_zero zero (failure text) = zero

-- `Option`, for a configuration
abbrev pub ConfigOption : Type 0 → Type 0
ConfigOption C = C → C

-- `for _, o := range opts { o(cfg) }`
abbrev pub configure : {C : Type 0} → List (ConfigOption C) → ConfigOption C
configure [] c = c
configure (o ∷ opts) c = configure opts (o c)

module _ {Request Set Any Component Page Bus : Type 0} where
  unfoldable pub default_config :
      {S Foreign : Type 0}
      → Env S Set Any Foreign
      → Identity
      → Config Request Set Any Component Page Bus
  default_config env zero =
      let id =
        or_zero zero (env.new_identity "default" "default" "anonymous" env.principal_service []) in
      record {
        identity_fn = λ r. id;
        filters = [];
        content_providers = [];
        base_path = "";
        layout_fn = none;
        bus = none;
      }

  abbrev pub with_identity :
      (Request → Identity) → ConfigOption (Config Request Set Any Component Page Bus)
  with_identity f c = record c { identity_fn = f }

  abbrev pub with_filter : FilterConfig → ConfigOption (Config Request Set Any Component Page Bus)
  with_filter f c = record c { filters = c.filters ++ f ∷ [] }

  abbrev pub with_content_provider :
      String → Provider Set Any Component → ConfigOption (Config Request Set Any Component Page Bus)
  with_content_provider payload_type provider c = record c {
    content_providers = (payload_type, provider) ∷ c.content_providers;
  }

  abbrev pub with_base_path : String → ConfigOption (Config Request Set Any Component Page Bus)
  with_base_path path c = record c { base_path = path }

  abbrev pub with_layout :
      (String → Html Component → Page) → ConfigOption (Config Request Set Any Component Page Bus)
  with_layout f c = record c { layout_fn = some f }

  abbrev pub with_bus : Bus → ConfigOption (Config Request Set Any Component Page Bus)
  with_bus bus c = record c { bus = some bus }
