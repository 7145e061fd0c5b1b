-- ===== src/Token/Page/Buttons.antt =====
-- The button of the page of a link.
use inbox.Prelude.{String, ◌==◌, ◌≡◌, Option, none, some, List, [], ◌∷◌, append-nil, if◌then◌else◌}
use inbox.Html.{Web}
use inbox.Html.Collect.{click_of, collect, collect-for_each_none, collect_laws}
use inbox.Inbox.Status.{is_terminal}
use inbox.Schema.{DisplayField, FormField, ItemSchema, Signals}
use inbox.Schema.Render.Forms.{field}
use inbox.Schema.Render.Buttons.{clicks-field}
use inbox.Token.Respond.{ClientData}
use inbox.Token.Page.{
  DsxContext, display_value, display_grid, form_fields, form_of, client_schema_form,
  client_standalone_page,
}

module _ (Component : Type 0) (web : Web) (marshal : Signals → String) where
  clicks-display_grid :
      (display : List DisplayField)
      → collect click_of (display_grid {Component = Component} display) ≡ []
  unfolding display_grid
  clicks-display_grid display = simp (
    collect_laws,
    collect-for_each_none click_of (display_value {Component = Component}) (λ d. simp collect_laws)
        display,
  )

  clicks-form_fields :
      (fields : List FormField) (scope : String)
      → collect click_of (form_fields {Component = Component} fields scope) ≡ []
  unfolding form_fields
  clicks-form_fields fields scope = simp (
    collect_laws,
    collect-for_each_none click_of (field {Component = Component}) (clicks-field Component) fields,
  )

  -- the button of a form that answers
  abbrev pub response : Option ItemSchema → String → List String
  response none scope = []
  response (some s) scope = if scope == "respond" then web.post "/respond" ∷ [] else []

  clicks-form_of :
      (schema : Option ItemSchema) (token scope : String)
      → collect click_of (form_of {Component = Component} web marshal schema token scope)
        ≡ response schema scope
  unfolding client_schema_form
  clicks-form_of none token scope = simp collect_laws
  clicks-form_of (some s) token scope =
      simp
        (collect_laws, clicks-display_grid s.display, clicks-form_fields s.fields scope, append-nil)

  -- The page of a link has a button exactly if the item is not terminal, the page has a form and
  -- the scope of the link is "respond"; the button answers the link.
  pub clicks-client_standalone_page :
      {Set Any : Type 0} (dsx : DsxContext) (d : ClientData Set Any ItemSchema)
      → collect click_of (client_standalone_page {Component = Component} web marshal dsx d).children
        ≡ (if is_terminal d.item.proto.status then [] else response d.schema d.scope)
  unfolding client_standalone_page
  clicks-client_standalone_page dsx d =
      simp (collect_laws, clicks-form_of d.schema d.token d.scope, append-nil)
