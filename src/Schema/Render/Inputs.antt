-- ===== src/Schema/Render/Inputs.antt =====
-- The inputs of `Field`, one for each type of a field, in cmd/inboxui/schema/render_templ.go.
use inbox.Prelude.{ℕ, suc, ℤ, pos, String, ◌<>◌, ◌==◌, not, [], ◌∷◌, ◌++◌, if◌then◌else◌}
use inbox.Html.{markup, escaped, write, Html, for_each, when}
use inbox.Html.Decimal.{decimal}
use inbox.Schema.{FormField}

unfoldable file_accept : String → String → String
file_accept custom fallback = if not (custom == "") then custom else fallback

unfoldable field_placeholder : String → String → String
field_placeholder custom fallback = if not (custom == "") then custom else fallback

-- the signal of a field
abbrev signal_name : FormField → String
signal_name f = "schema." <> f.name

module _ {Component : Type 0} where
  unfoldable pub textarea_input : FormField → Html Component
  textarea_input f =
      write (
        markup
          "<textarea class=\"textarea textarea-bordered textarea-sm w-full mt-1.5\" placeholder=\"")
      ∷ write (escaped f.placeholder)
      ∷ write (markup "\" rows=\"2\" data-bind=\"")
      ∷ write (escaped (signal_name f))
      ∷ write (markup "\">")
      ∷ write (escaped f.default_value)
      ∷ write (markup "</textarea>")
      ∷ []

  abbrev pub select_option : String → String → Html Component
  select_option default opt =
      write (markup "<option value=\"")
        ∷ write (escaped opt)
        ∷ write (markup "\"")
        ∷ when (opt == default) (write (markup " selected") ∷ [])
      ++ write (markup ">") ∷ write (escaped opt) ∷ write (markup "</option>") ∷ []

  unfoldable pub select_input : FormField → Html Component
  select_input f =
      write (markup "<select class=\"select select-bordered select-sm w-full mt-1.5\" data-bind=\"")
        ∷ write (escaped (signal_name f))
        ∷ write (markup "\">")
        ∷ when (not (f.placeholder == "")) (
            write (markup "<option value=\"\">")
            ∷ write (escaped f.placeholder)
            ∷ write (markup "</option> ")
            ∷ [])
      ++ (for_each (select_option f.default_value) f.options ++ write (markup "</select>") ∷ [])

  unfoldable pub checkbox_input : FormField → Html Component
  checkbox_input f =
      write (
          markup
            "<label class=\"flex items-center gap-2 mt-1.5 cursor-pointer\"><input type=\"checkbox\" class=\"checkbox checkbox-xs\" data-bind=\"")
        ∷ write (escaped (signal_name f))
        ∷ write (markup "\"")
        ∷ when (f.default_value == "true") (write (markup " checked") ∷ [])
      ++ (write (markup "> ")
            ∷ when (not (f.placeholder == "")) (
                write (markup "<span class=\"text-xs text-base-content/60\">")
                ∷ write (escaped f.placeholder)
                ∷ write (markup "</span>")
                ∷ [])
          ++ write (markup "</label>") ∷ [])

  abbrev pub multiselect_option : FormField → String → Html Component
  multiselect_option f opt =
      write (
        markup
          "<label class=\"flex items-center gap-2 cursor-pointer\"><input type=\"checkbox\" class=\"checkbox checkbox-xs\" data-bind=\"")
      ∷ write (escaped ("schema." <> f.name <> "_" <> opt))
      ∷ write (markup "\"> <span class=\"text-xs\">")
      ∷ write (escaped opt)
      ∷ write (markup "</span></label>")
      ∷ []

  unfoldable pub multiselect_input : FormField → Html Component
  multiselect_input f =
      write (markup "<div class=\"space-y-1.5 mt-1.5\">")
        ∷ for_each (multiselect_option f) f.options
      ++ write (markup "</div>") ∷ []

  -- `if f.MaxSizeMb > 0`, with the texts of the template
  unfoldable pub max_size : String → String → ℤ → Html Component
  max_size before after (pos (suc n)) =
      write (markup before)
      ∷ write (escaped ("Max " <> decimal (suc n) <> " MB"))
      ∷ write (markup after)
      ∷ []
  max_size before after _ = []

  unfoldable pub file_input : FormField → Html Component
  file_input f =
      write (
          markup
            "<input type=\"file\" class=\"file-input file-input-bordered file-input-sm w-full mt-1.5\" accept=\"")
        ∷ write (escaped f.accept)
        ∷ write (markup "\"")
        ∷ when f.multiple (write (markup " multiple") ∷ [])
      ++ write (markup "> ")
        ∷ max_size "<p class=\"text-[11px] text-base-content/30 mt-1\">" "</p>" f.max_size_mb

  unfoldable pub image_input : FormField → Html Component
  unfolding file_accept
  image_input f =
      write (
          markup
            "<input type=\"file\" class=\"file-input file-input-bordered file-input-sm w-full mt-1.5\" accept=\"")
        ∷ write (escaped (file_accept f.accept "image/*"))
        ∷ write (markup "\"")
        ∷ when f.multiple (write (markup " multiple") ∷ [])
      ++ write (markup "> ")
        ∷ max_size "<p class=\"text-[11px] text-base-content/30 mt-1\">" "</p>" f.max_size_mb

  unfoldable pub date_input : FormField → Html Component
  date_input f =
      write (
        markup
          "<input type=\"date\" class=\"input input-bordered input-sm w-full mt-1.5\" value=\"")
      ∷ write (escaped f.default_value)
      ∷ write (markup "\" data-bind=\"")
      ∷ write (escaped (signal_name f))
      ∷ write (markup "\">")
      ∷ []

  unfoldable pub phone_input : FormField → Html Component
  unfolding field_placeholder
  phone_input f =
      write (
        markup
          "<input type=\"tel\" class=\"input input-bordered input-sm w-full mt-1.5\" placeholder=\"")
      ∷ write (escaped (field_placeholder f.placeholder "+1 (555) 000-0000"))
      ∷ write (markup "\" value=\"")
      ∷ write (escaped f.default_value)
      ∷ write (markup "\" data-bind=\"")
      ∷ write (escaped (signal_name f))
      ∷ write (markup "\">")
      ∷ []

  unfoldable pub email_input : FormField → Html Component
  unfolding field_placeholder
  email_input f =
      write (
        markup
          "<input type=\"email\" class=\"input input-bordered input-sm w-full mt-1.5\" placeholder=\"")
      ∷ write (escaped (field_placeholder f.placeholder "name@example.com"))
      ∷ write (markup "\" value=\"")
      ∷ write (escaped f.default_value)
      ∷ write (markup "\" data-bind=\"")
      ∷ write (escaped (signal_name f))
      ∷ write (markup "\">")
      ∷ []

  unfoldable pub number_input : FormField → Html Component
  number_input f =
      write (
        markup
          "<input type=\"number\" class=\"input input-bordered input-sm w-full mt-1.5\" placeholder=\"")
      ∷ write (escaped f.placeholder)
      ∷ write (markup "\" value=\"")
      ∷ write (escaped f.default_value)
      ∷ write (markup "\" data-bind=\"")
      ∷ write (escaped (signal_name f))
      ∷ write (markup "\">")
      ∷ []

  unfoldable pub otp_input : FormField → Html Component
  otp_input f =
      write (
        markup
          "<input type=\"text\" class=\"input input-bordered input-sm w-full mt-1.5 tracking-[0.5em] text-center font-mono\" placeholder=\"000000\" maxlength=\"6\" inputmode=\"numeric\" autocomplete=\"one-time-code\" data-bind=\"")
      ∷ write (escaped (signal_name f))
      ∷ write (markup "\">")
      ∷ []

  unfoldable pub signature_input : Html Component
  signature_input =
      write (
        markup
          "<div class=\"mt-1.5 border border-base-300 rounded-lg bg-base-200/30 h-24 flex items-center justify-center\"><span class=\"text-xs text-base-content/30\">Signature pad</span></div>")
      ∷ []

  abbrev star : FormField → ℕ → Html Component
  star f i =
      write (markup "<input type=\"radio\" class=\"mask mask-star-2 bg-warning\" name=\"")
        ∷ write (escaped ("schema_" <> f.name))
        ∷ write (markup "\"")
        ∷ when (decimal i == f.default_value) (write (markup " checked") ∷ [])
      ++ write (markup ">") ∷ []

  unfoldable pub rating_input : FormField → Html Component
  rating_input f =
      write (markup "<div class=\"flex gap-1 mt-1.5\">")
        ∷ for_each (star f) (1 ∷ 2 ∷ 3 ∷ 4 ∷ 5 ∷ [])
      ++ write (markup "</div>") ∷ []

  unfoldable pub text_input : FormField → Html Component
  text_input f =
      write (
        markup
          "<input type=\"text\" class=\"input input-bordered input-sm w-full mt-1.5\" placeholder=\"")
      ∷ write (escaped f.placeholder)
      ∷ write (markup "\" value=\"")
      ∷ write (escaped f.default_value)
      ∷ write (markup "\" data-bind=\"")
      ∷ write (escaped (signal_name f))
      ∷ write (markup "\">")
      ∷ []
