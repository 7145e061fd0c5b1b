-- ===== src/Schema/Render/Forms.antt =====
-- `Field` and `Payload` of cmd/inboxui/schema/render_templ.go.
use inbox.Prelude.{String, ◌==◌, not, true, List, [], ◌∷◌, ◌++◌, length, is_nil, if◌then◌else◌}
use inbox.Html.{
  markup, escaped, variant_success, check_context, write, css_items, button, Html, Web, for_each,
  when, class_of,
}
use inbox.Schema.{FormField, ItemSchema, Signals, build_signals, DisplayField}
use inbox.Schema.Render.Display.{field_label, display_field, split_display, info_grid_class}
use inbox.Schema.Render.Inputs.{
  textarea_input, select_input, checkbox_input, multiselect_input, file_input, image_input,
  date_input, phone_input, email_input, number_input, otp_input, signature_input, rating_input,
  text_input,
}

module _ {Component : Type 0} where
  -- `switch f.Type`
  unfoldable pub input_of : FormField → Html Component
  input_of f =
      if f.type == "textarea"
      then textarea_input f
      else if f.type == "select"
      then select_input f
      else if f.type == "checkbox"
      then checkbox_input f
      else if f.type == "multiselect"
      then multiselect_input f
      else if f.type == "file"
      then file_input f
      else if f.type == "image"
      then image_input f
      else if f.type == "date"
      then date_input f
      else if f.type == "phone"
      then phone_input f
      else if f.type == "email"
      then email_input f
      else if f.type == "number"
      then number_input f
      else if f.type == "otp"
      then otp_input f
      else if f.type == "signature"
      then signature_input
      else if f.type == "rating"
      then rating_input f
      else text_input f

  unfoldable pub field : FormField → Html Component
  unfolding field_label
  field f =
      check_context ∷ write (markup "<div>") ∷ field_label f.label f.required
      ++ (when (not (f.description == "")) (
            write (markup "<p class=\"text-[11px] text-base-content/40 mt-0.5 leading-relaxed\">")
            ∷ write (escaped f.description)
            ∷ write (markup "</p>")
            ∷ [])
          ++ (input_of f ++ write (markup "</div>") ∷ []))

-- `PayloadContext`
pub record PayloadContext : Type 0 where
  pub item_id : String
  pub base_path : String
  pub status : String
  pub submit_url : String

module _ {Component : Type 0} (web : Web) (marshal : Signals → String) where
  unfoldable pub info_grid : List DisplayField → Html Component
  info_grid info =
      let classes = (info_grid_class (length info), true) ∷ [] in
      when (not (is_nil info)) (
        write
            (markup "<div class=\"rounded-lg bg-base-200/30 border border-base-200 px-3 py-2.5\">")
          ∷ css_items classes
          ∷ write (markup "<div class=\"")
          ∷ class_of web classes
          ∷ write (markup "\">")
          ∷ for_each (display_field web) info
        ++ write (markup "</div></div>") ∷ [])

  unfoldable pub block_list : List DisplayField → Html Component
  block_list blocks = when (not (is_nil blocks)) (
      write (markup "<div class=\"space-y-2.5\">") ∷ for_each (display_field web) blocks
      ++ write (markup "</div>") ∷ [])

  unfoldable pub field_list : List FormField → Html Component
  field_list fields = when (not (is_nil fields)) (
      write (markup "<div class=\"space-y-3\">") ∷ for_each field fields
      ++ write (markup "</div>") ∷ [])

  unfoldable pub submit : String → Html Component
  submit url = when (not (url == "")) (
      write (markup "<div class=\"flex flex-wrap gap-2\">")
      ∷ button
          (record {
            variant = variant_success;
            is_small = true;
            class = "";
            on_click = web.post url;
          })
          ((markup "Submit") ∷ [])
      ∷ write (markup "</div>")
      ∷ [])

  unfoldable pub payload : ItemSchema → PayloadContext → Html Component
  unfolding build_signals split_display
  payload schema pc =
      let (info, blocks) = split_display schema.display in
      check_context
        ∷ write (markup "<div class=\"space-y-4\" data-signals=\"")
        ∷ write (escaped (build_signals marshal schema))
        ∷ write (markup "\">")
        ∷ info_grid info
      ++ (block_list blocks
          ++ (field_list schema.fields ++ (submit pc.submit_url ++ write (markup "</div>") ∷ [])))
