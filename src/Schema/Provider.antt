-- ===== src/Schema/Provider.antt =====
-- `schemaProvider.Render` of cmd/inboxui/schemaprovider.go. `templ.NopComponent` takes no step.
use inbox.Prelude.{String, ◌<>◌, not, Bool, ◌&&◌, Option, none, some, [], if◌then◌else◌}
use inbox.Html.{Html, Web}
use inbox.Inbox.Status.{is_terminal}
use inbox.Schema.{ItemSchema, Signals, try_parse}
use inbox.Schema.Render.Forms.{payload}
use inbox.Ui.Detail.{RenderContext}

-- the URL of the button, empty if there is none
abbrev pub submit_url : Bool → Bool → String → String → String
submit_url is_closed completable base_path id =
    if not is_closed && completable then base_path <> "/items/" <> id <> "/close" else ""

-- the form of a payload, if there is one
unfoldable pub schema_of :
    {Any : Type 0} → (Any → Option ItemSchema) → String → Option Any → Option ItemSchema
unfolding try_parse
schema_of unmarshal payload_type none = none
schema_of unmarshal payload_type (some p) = try_parse unmarshal payload_type p

module _ {Set Any Component : Type 0} (web : Web) (marshal : Signals → String)
    (unmarshal : Any → Option ItemSchema) where
  abbrev pub payload_of : RenderContext Set Any → Option ItemSchema → Html Component
  payload_of rc none = []
  payload_of rc (some s) = payload web marshal s (record {
    item_id = rc.item.id;
    base_path = rc.base_path;
    status = rc.item.proto.status;
    submit_url =
        submit_url (is_terminal rc.item.proto.status) s.client_completable rc.base_path rc.item.id;
  })

  unfoldable pub schema_provider_render : RenderContext Set Any → Html Component
  unfolding schema_of is_terminal
  schema_provider_render rc =
      payload_of rc (schema_of unmarshal rc.item.proto.payload_type rc.item.proto.payload)
