-- ===== src/Schema/Render/Buttons.antt =====
-- The buttons of the forms.
use inbox.Prelude.{zero, suc, ℤ, pos, negsuc, String, ◌≡◌, []}
use inbox.Html.{Web}
use inbox.Html.Collect.{click_of, collect, collect-for_each_none, collect_laws}
use inbox.Schema.{DisplayField, FormField}
use inbox.Schema.Render.Display.{display_field}
use inbox.Schema.Render.Inputs.{
  textarea_input, select_input, select_option, checkbox_input, multiselect_input,
  multiselect_option, max_size, file_input, image_input, date_input, phone_input, email_input,
  number_input, otp_input, signature_input, rating_input, text_input,
}
use inbox.Schema.Render.Forms.{input_of, field}

module _ (Component : Type 0) where
  pub clicks-display_field :
      (web : Web) (d : DisplayField)
      → collect click_of (display_field {Component = Component} web d) ≡ []
  unfolding display_field
  clicks-display_field web d = simp collect_laws

  clicks-max_size :
      (before after : String) (n : ℤ)
      → collect click_of (max_size {Component = Component} before after n) ≡ []
  unfolding max_size
  clicks-max_size before after (pos zero) = simp collect_laws
  clicks-max_size before after (pos (suc n)) = simp collect_laws
  clicks-max_size before after (negsuc n) = simp collect_laws

  clicks-textarea_input :
      (f : FormField) → collect click_of (textarea_input {Component = Component} f) ≡ []
  unfolding textarea_input
  clicks-textarea_input f = simp collect_laws

  clicks-checkbox_input :
      (f : FormField) → collect click_of (checkbox_input {Component = Component} f) ≡ []
  unfolding checkbox_input
  clicks-checkbox_input f = simp collect_laws

  clicks-date_input : (f : FormField) → collect click_of (date_input {Component = Component} f) ≡ []
  unfolding date_input
  clicks-date_input f = simp collect_laws

  clicks-phone_input :
      (f : FormField) → collect click_of (phone_input {Component = Component} f) ≡ []
  unfolding phone_input
  clicks-phone_input f = simp collect_laws

  clicks-email_input :
      (f : FormField) → collect click_of (email_input {Component = Component} f) ≡ []
  unfolding email_input
  clicks-email_input f = simp collect_laws

  clicks-number_input :
      (f : FormField) → collect click_of (number_input {Component = Component} f) ≡ []
  unfolding number_input
  clicks-number_input f = simp collect_laws

  clicks-otp_input : (f : FormField) → collect click_of (otp_input {Component = Component} f) ≡ []
  unfolding otp_input
  clicks-otp_input f = simp collect_laws

  clicks-text_input : (f : FormField) → collect click_of (text_input {Component = Component} f) ≡ []
  unfolding text_input
  clicks-text_input f = simp collect_laws

  clicks-select_input :
      (f : FormField) → collect click_of (select_input {Component = Component} f) ≡ []
  unfolding select_input
  clicks-select_input f = simp (
    collect_laws,
    collect-for_each_none click_of (select_option {Component = Component} f.default_value)
        (λ opt. simp collect_laws) f.options,
  )

  clicks-multiselect_input :
      (f : FormField) → collect click_of (multiselect_input {Component = Component} f) ≡ []
  unfolding multiselect_input
  clicks-multiselect_input f = simp (
    collect_laws,
    collect-for_each_none click_of (multiselect_option {Component = Component} f)
        (λ opt. simp collect_laws) f.options,
  )

  clicks-rating_input :
      (f : FormField) → collect click_of (rating_input {Component = Component} f) ≡ []
  unfolding rating_input
  clicks-rating_input f = simp collect_laws

  clicks-file_input : (f : FormField) → collect click_of (file_input {Component = Component} f) ≡ []
  unfolding file_input
  clicks-file_input f = simp (collect_laws, clicks-max_size)

  clicks-image_input :
      (f : FormField) → collect click_of (image_input {Component = Component} f) ≡ []
  unfolding image_input
  clicks-image_input f = simp (collect_laws, clicks-max_size)

  clicks-signature_input : collect click_of (signature_input {Component = Component}) ≡ []
  unfolding signature_input
  clicks-signature_input = simp collect_laws

  clicks-input_of : (f : FormField) → collect click_of (input_of {Component = Component} f) ≡ []
  unfolding input_of
  clicks-input_of f = simp (
    collect_laws, clicks-textarea_input, clicks-checkbox_input, clicks-date_input,
    clicks-phone_input, clicks-email_input, clicks-number_input, clicks-otp_input,
    clicks-text_input, clicks-select_input, clicks-multiselect_input, clicks-rating_input,
    clicks-file_input, clicks-image_input, clicks-signature_input,
  )

  pub clicks-field : (f : FormField) → collect click_of (field {Component = Component} f) ≡ []
  unfolding field
  clicks-field f = simp (collect_laws, clicks-input_of f)
