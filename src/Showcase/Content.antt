-- ===== src/Showcase/Content.antt =====
-- What the drawer of the demo program's site holds.
use inbox.Prelude.{
  String, ◌≡◌, refl, ◌==◌, ◌||◌, Bool, Bool-cases, inl, inr, Option, none, some, if◌then◌else◌,
}
use inbox.External.{Identity, Env}
use inbox.Html.{Html, Web}
use inbox.Html.Document.{DsxContext}
use inbox.Inbox.Item.{Item}
use inbox.Schema.{ItemSchema, Signals}
use inbox.Schema.Provider.{schema_provider_render}
use inbox.Ui.Config.{Config, configure, default_config}
use inbox.Ui.Detail.{provider_for, build_detail_data}
use inbox.Showcase.{Dashboard, showcase_options}

abbrev pub holds_schema : String → Bool
holds_schema payload_type =
    "inbox.v1.ItemSchema" == payload_type || "schema.v1.ItemSchema" == payload_type

module _ {Request S Set Any Foreign Component Bus : Type 0} (env : Env S Set Any Foreign)
    (web : Web) (marshal : Signals → String) (unmarshal : Any → Option ItemSchema)
    (fragment : String → String → Component) (dsx : DsxContext)
    (of_html : Html Component → Component) (bus : Bus) (zero : Identity)
    (from_context : Request → Option Identity) where
  abbrev pub site : Config Request Set Any Component (Dashboard Component) Bus
  site =
      configure (showcase_options web marshal unmarshal fragment dsx of_html bus zero from_context)
        (default_config env zero)

  pub content-site :
      (item : Item Set Any) (actor : String)
      → (build_detail_data env site.content_providers site.base_path item actor).content ≡ (
          if holds_schema item.proto.payload_type
          then some (
              of_html (
                schema_provider_render web marshal unmarshal
                  (record { item = item; actor = actor; base_path = "/inbox" })))
          else none)
  unfolding build_detail_data provider_for default_config showcase_options
  content-site item actor = elim (Bool-cases ("inbox.v1.ItemSchema" == item.proto.payload_type)) [
    | inl e ↦ rw e refl
    | inr e ↦ rw e (elim (Bool-cases ("schema.v1.ItemSchema" == item.proto.payload_type)) [
      | inl e' ↦ rw e' refl
      | inr e' ↦ rw e' refl
    ])
  ]
