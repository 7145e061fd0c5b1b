-- ===== src/Schema/Completion.antt =====
-- Which forms can be sent: the buttons of the drawer's content and of the page of a link.
use Prim.Native.Char.{Char}
use Prim.Native.String.append
use text.Mathlib.TextLemmas.{cons≢nil}
use inbox.Prelude.{
  String, ◌<>◌, ◌==◌, ◌≡◌, refl, ap, ◌∙◌, eq_iff, Bool, true, false, not, ◌&&◌, Bool-cases, inl,
  inr, Option, none, some, List, [], ◌∷◌, append-nil, if◌then◌else◌,
}
use inbox.Html.{Web}
use inbox.Html.Collect.{click_of, collect, collect-for_each_none, collect_laws}
use inbox.Inbox.Status.{is_terminal}
use inbox.Schema.{DisplayField, FormField, ItemSchema, Signals}
use inbox.Schema.Render.Display.{display_field}
use inbox.Schema.Render.Forms.{
  field, info_grid, block_list, field_list, submit, PayloadContext, payload,
}
use inbox.Schema.Render.Buttons.{clicks-display_field, clicks-field}
use inbox.Schema.Provider.{submit_url, schema_of, payload_of, schema_provider_render}
use inbox.Ui.Detail.{RenderContext}

cons-ne_empty : (c : Char) (s : String) → (String.◌∷◌ c s == "") ≡ false
cons-ne_empty c s = elim (Bool-cases (String.◌∷◌ c s == "")) [
  | inl e ↦ absurd (cons≢nil ((eq_iff _ _).0 e))
  | inr e ↦ e
]

append-ne_empty : (s t : String) → (t == "") ≡ false → (s <> t == "") ≡ false
append-ne_empty String.[] t h = ap (λ x. x == "") (append.nil t) ∙ h
append-ne_empty (String.◌∷◌ c s) t h =
    ap (λ x. x == "") (append.cons c s t) ∙ cons-ne_empty c (s <> t)

module _ (Component : Type 0) (web : Web) (marshal : Signals → String) where
  clicks-info_grid :
      (info : List DisplayField)
      → collect click_of (info_grid {Component = Component} web marshal info) ≡ []
  unfolding info_grid
  clicks-info_grid info = simp (
    collect_laws,
    collect-for_each_none click_of (display_field {Component = Component} web)
        (clicks-display_field Component web) info,
  )

  clicks-block_list :
      (blocks : List DisplayField)
      → collect click_of (block_list {Component = Component} web marshal blocks) ≡ []
  unfolding block_list
  clicks-block_list blocks = simp (
    collect_laws,
    collect-for_each_none click_of (display_field {Component = Component} web)
        (clicks-display_field Component web) blocks,
  )

  clicks-field_list :
      (fields : List FormField)
      → collect click_of (field_list {Component = Component} web marshal fields) ≡ []
  unfolding field_list
  clicks-field_list fields = simp (
    collect_laws,
    collect-for_each_none click_of (field {Component = Component}) (clicks-field Component) fields,
  )

  clicks-submit :
      (url : String)
      → collect click_of (submit {Component = Component} web marshal url)
        ≡ (if url == "" then [] else web.post url ∷ [])
  unfolding submit
  clicks-submit url = elim (Bool-cases (url == "")) [
    | inl e ↦ rw e (simp collect_laws)
    | inr e ↦ rw e (simp collect_laws)
  ]

  clicks-payload :
      (s : ItemSchema) (pc : PayloadContext)
      → collect click_of (payload {Component = Component} web marshal s pc)
        ≡ (if pc.submit_url == "" then [] else web.post pc.submit_url ∷ [])
  unfolding payload
  clicks-payload s pc = simp (
    collect_laws,
    clicks-info_grid,
    clicks-block_list,
    clicks-field_list s.fields,
    clicks-submit pc.submit_url,
    append-nil,
  )

module _ {Set Any : Type 0} (Component : Type 0) (web : Web) (marshal : Signals → String)
    (unmarshal : Any → Option ItemSchema) (rc : RenderContext Set Any) where
  -- the button that closes the item, of a form that completes it
  abbrev pub completion : Option ItemSchema → List String
  completion none = []
  completion (some s) =
      if not (is_terminal rc.item.proto.status) && s.client_completable
      then web.post (rc.base_path <> "/items/" <> rc.item.id <> "/close") ∷ []
      else []

  url_or_none :
      (is_closed completable : Bool)
      → let url = submit_url is_closed completable rc.base_path rc.item.id in
        (if url == "" then [] else web.post url ∷ []) ≡ (
          if not is_closed && completable
          then web.post (rc.base_path <> "/items/" <> rc.item.id <> "/close") ∷ []
          else [])
  url_or_none true completable = refl
  url_or_none false false = refl
  url_or_none false true =
      rw (append-ne_empty (rc.base_path <> "/items/" <> rc.item.id) "/close" refl)

  clicks-payload_of :
      (parsed : Option ItemSchema)
      → collect click_of (payload_of {Component = Component} web marshal unmarshal rc parsed)
        ≡ completion parsed
  clicks-payload_of none = simp collect_laws
  clicks-payload_of (some s) =
      clicks-payload Component web marshal s _
      ∙ url_or_none (is_terminal rc.item.proto.status) s.client_completable

  -- The content of the drawer for an item has a button exactly if the payload of the item parses to a
  -- form that completes it and the item is not terminal; the button closes the item.
  pub clicks-schema_provider_render :
      collect click_of (schema_provider_render {Component = Component} web marshal unmarshal rc)
      ≡ completion (schema_of unmarshal rc.item.proto.payload_type rc.item.proto.payload)
  unfolding schema_provider_render
  clicks-schema_provider_render =
      clicks-payload_of (schema_of unmarshal rc.item.proto.payload_type rc.item.proto.payload)
