-- ===== src/Token/Page.antt =====
-- The page of a presigned link: cmd/inboxui/token/render_templ.go. `layouts.Base` of dsx makes the
-- document from its properties and the steps of its children.
pub mod Buttons
use inbox.Prelude.{
  String, ◌<>◌, ◌==◌, not, ◌&&◌, false, Option, none, some, List, [], ◌∷◌, ◌++◌, is_nil,
  if◌then◌else◌,
}
use inbox.Html.{
  markup, escaped, variant_neutral, check_context, write, button, Html, Web, for_each, when,
}
use inbox.Html.Document.{DsxContext, BasePage}
use inbox.Inbox.Status.{is_terminal}
use inbox.Schema.{DisplayField, FormField, ItemSchema, Signals, build_signals}
use inbox.Schema.Render.Forms.{field}
use inbox.Token.Respond.{ClientData}

module _ {Component : Type 0} where
  unfoldable token_head : Html Component
  token_head =
      check_context
      ∷ write (
          markup
            "<link rel=\"stylesheet\" href=\"/assets/css/output.css\"><link rel=\"stylesheet\" href=\"/theme/theme.css\"><script type=\"module\" src=\"/assets/js/datastar.js\"></script>")
      ∷ []

  abbrev pub display_value : DisplayField → Html Component
  display_value d =
      write (
          markup
            "<div><div class=\"text-[11px] uppercase tracking-widest text-base-content/30 font-medium\">")
        ∷ write (escaped d.label)
        ∷ write (markup "</div>")
        ∷ (if d.mono
            then write (markup "<div class=\"text-sm font-mono mt-1\">")
              ∷ write (escaped d.value)
              ∷ write (markup "</div>")
              ∷ []
            else write (markup "<div class=\"text-sm font-medium mt-1\">")
              ∷ write (escaped d.value)
              ∷ write (markup "</div>")
              ∷ [])
      ++ write (markup "</div>") ∷ []

  unfoldable pub display_grid : List DisplayField → Html Component
  display_grid display = when (not (is_nil display)) (
      write (markup "<div class=\"grid grid-cols-2 gap-x-6 gap-y-3\">")
        ∷ for_each display_value display
      ++ write (markup "</div>") ∷ [])

  unfoldable pub form_fields : List FormField → String → Html Component
  form_fields fields scope = when (not (is_nil fields) && scope == "respond") (
      write (markup "<div class=\"space-y-5\">") ∷ for_each field fields
      ++ write (markup "</div>") ∷ [])

  abbrev submit_button : Web → String → Html Component
  submit_button web scope = when (scope == "respond") (
      button
        (record {
          variant = variant_neutral;
          is_small = false;
          class = "w-full";
          on_click = web.post "/respond";
        })
        ((markup "Submit") ∷ [])
      ∷ [])

  -- `clientSchemaForm` of a page with a schema
  unfoldable pub client_schema_form :
      Web → (Signals → String) → ItemSchema → String → String → Html Component
  unfolding build_signals
  client_schema_form web marshal schema token scope =
      check_context
        ∷ write (markup "<div class=\"space-y-6\" data-signals=\"")
        ∷ write (escaped (build_signals marshal schema))
        ∷ write (markup "\" data-signals__client=\"")
        ∷ write (escaped ("{\"token\":\"" <> token <> "\"}"))
        ∷ write (markup "\">")
        ∷ display_grid schema.display
      ++ (when (not (is_nil schema.display) && not (is_nil schema.fields))
            (write (markup "<div class=\"border-t border-base-200\"></div>") ∷ [])
          ++ (form_fields schema.fields scope
              ++ (submit_button web scope ++ write (markup "</div>") ∷ [])))

  abbrev pub form_of :
      Web → (Signals → String) → Option ItemSchema → String → String → Html Component
  form_of web marshal none token scope =
      write
        (markup "<p class=\"text-base-content/40 text-sm\">No form available for this item.</p>")
      ∷ []
  form_of web marshal (some schema) token scope = client_schema_form web marshal schema token scope

  unfoldable pub client_standalone_page :
      {Set Any : Type 0}
      → Web
      → (Signals → String)
      → DsxContext
      → ClientData Set Any ItemSchema
      → BasePage Component
  unfolding token_head
  client_standalone_page web marshal dsx d = record {
    title = d.item.proto.title;
    csrf_token = dsx.csrf_token;
    theme = if dsx.theme == "" then "neo-light" else dsx.theme;
    head = token_head;
    children =
        write (
            markup
              "<div class=\"min-h-screen bg-base-200/40\"><div class=\"border-b border-base-300 bg-base-100\"><div class=\"max-w-xl mx-auto px-6 py-4\"><span class=\"text-sm font-semibold tracking-tight text-base-content/60\">Inbox</span></div></div><div class=\"max-w-xl mx-auto px-6 py-10\"><div class=\"bg-base-100 rounded-xl border border-base-300 overflow-hidden\"><div class=\"px-8 pt-8 pb-6 border-b border-base-200\"><h1 class=\"text-xl font-semibold tracking-tight\">")
          ∷ write (escaped d.item.proto.title)
          ∷ write (markup "</h1>")
          ∷ when (not (d.item.proto.description == "")) (
              write (markup "<p class=\"text-sm text-base-content/50 mt-2 leading-relaxed\">")
              ∷ write (escaped d.item.proto.description)
              ∷ write (markup "</p>")
              ∷ [])
        ++ (write (markup "</div><div class=\"px-8 py-6\">")
              ∷ (if is_terminal d.item.proto.status
                  then write (
                      markup
                        "<div class=\"flex items-center gap-3 bg-success/5 border border-success/15 rounded-lg p-4\"><svg class=\"w-5 h-5 text-success shrink-0\" fill=\"none\" stroke=\"currentColor\" viewBox=\"0 0 24 24\"><path stroke-linecap=\"round\" stroke-linejoin=\"round\" stroke-width=\"2\" d=\"M5 13l4 4L19 7\"></path></svg><p class=\"text-sm text-success\">This item has been completed. Thank you.</p></div>")
                    ∷ []
                  else form_of web marshal d.schema d.token d.scope)
            ++ write (
                markup
                  "</div></div><p class=\"text-center text-xs text-base-content/20 mt-6\">Secured link — do not share</p></div></div>")
              ∷ []);
  }
