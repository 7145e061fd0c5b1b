-- ===== src/Schema/Render/Display.antt =====
-- The read-only fields, and `FieldLabel`, of cmd/inboxui/schema/render_templ.go.
use inbox.Prelude.{ℕ, ltb, String, ◌==◌, not, Bool, true, false, List, [], ◌∷◌, ◌++◌, if◌then◌else◌}
use inbox.Html.{markup, escaped, check_context, write, css_items, Html, Web, when, class_of}
use inbox.Schema.{DisplayField}

unfoldable alert_classes : String → String
alert_classes variant =
    if variant == "error"
    then "bg-error/10 text-error border-error/20"
    else if variant == "warning"
    then "bg-warning/10 text-warning-content border-warning/20"
    else if variant == "success"
    then "bg-success/10 text-success border-success/20"
    else "bg-info/10 text-info-content border-info/20"

-- `splitDisplay`: the fields without a type, and the others
unfoldable pub split_display : List DisplayField → List DisplayField × List DisplayField
split_display [] = ([], [])
split_display (f ∷ fields) =
    let (info, blocks) = split_display fields in
    if f.type == "" then (f ∷ info, blocks) else (info, f ∷ blocks)

unfoldable pub info_grid_class : ℕ → String
info_grid_class count = if ltb 1 count then "grid grid-cols-2 gap-x-4 gap-y-2" else ""

module _ {Component : Type 0} where
  unfoldable pub field_label : String → Bool → Html Component
  field_label label required =
      check_context
        ∷ write (markup "<label class=\"text-xs font-medium\">")
        ∷ write (escaped label)
        ∷ write (markup " ")
        ∷ when required (write (markup "<span class=\"text-error ml-0.5\">*</span>") ∷ [])
      ++ write (markup "</label>") ∷ []

  -- `if d.Label != ""` around a label
  abbrev label_of : DisplayField → Html Component
  label_of d = when (not (d.label == "")) (field_label d.label false)

  abbrev image_display : DisplayField → Html Component
  image_display d =
      write (markup "<div>") ∷ label_of d
      ++ write (markup "<img src=\"")
        ∷ write (escaped d.value)
        ∷ write (markup "\" alt=\"")
        ∷ write (escaped d.label)
        ∷ write (
            markup
              "\" class=\"mt-1.5 rounded-lg max-h-48 object-contain border border-base-300\"></div>")
        ∷ []

  abbrev document_display : DisplayField → Html Component
  document_display d =
      write (markup "<div>") ∷ label_of d
      ++ write (markup "<a href=\"")
        ∷ write (escaped d.value)
        ∷ write (
            markup
              "\" target=\"_blank\" class=\"mt-1.5 inline-flex items-center gap-2 text-sm text-accent hover:underline\"><svg class=\"w-4 h-4\" fill=\"none\" stroke=\"currentColor\" viewBox=\"0 0 24 24\"><path stroke-linecap=\"round\" stroke-linejoin=\"round\" stroke-width=\"2\" d=\"M12 10v6m0 0l-3-3m3 3l3-3m2 8H7a2 2 0 01-2-2V5a2 2 0 012-2h5.586a1 1 0 01.707.293l5.414 5.414a1 1 0 01.293.707V19a2 2 0 01-2 2z\"></path></svg> ")
        ∷ write (escaped d.label)
        ∷ write (markup "</a></div>")
        ∷ []

  abbrev markdown_display : DisplayField → Html Component
  markdown_display d =
      write (markup "<div class=\"prose prose-sm max-w-none text-base-content/70\">")
      ∷ write (escaped d.value)
      ∷ write (markup "</div>")
      ∷ []

  abbrev alert_display : Web → DisplayField → Html Component
  alert_display web d =
      let classes =
        ("rounded-lg px-3 py-2.5 text-sm border", true) ∷ (alert_classes d.variant, true) ∷ [] in
      css_items classes
        ∷ write (markup "<div class=\"")
        ∷ class_of web classes
        ∷ write (markup "\">")
        ∷ when (not (d.label == "")) (
            write (markup "<span class=\"font-medium\">")
            ∷ write (escaped d.label)
            ∷ write (markup ": </span> ")
            ∷ [])
      ++ write (escaped d.value) ∷ write (markup "</div>") ∷ []

  abbrev mono_value : Bool → String → Html Component
  mono_value mono value =
      if mono
      then write (markup "<div class=\"text-sm font-mono mt-0.5\">")
        ∷ write (escaped value)
        ∷ write (markup "</div>")
        ∷ []
      else write (markup "<div class=\"text-sm mt-0.5\">")
        ∷ write (escaped value)
        ∷ write (markup "</div>")
        ∷ []

  abbrev plain_display : DisplayField → Html Component
  plain_display d =
      write (
          markup
            " <div><div class=\"text-[11px] uppercase tracking-widest text-base-content/30 font-medium\">")
        ∷ write (escaped d.label)
        ∷ write (markup "</div>")
        ∷ mono_value d.mono d.value
      ++ write (markup "</div>") ∷ []

  unfoldable pub display_field : Web → DisplayField → Html Component
  unfolding field_label alert_classes
  display_field web d =
      check_context
      ∷ (if d.type == "image"
          then image_display d
          else if d.type == "document"
          then document_display d
          else if d.type == "markdown"
          then markdown_display d
          else if d.type == "alert"
          then alert_display web d
          else plain_display d)
