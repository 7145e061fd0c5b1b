-- ===== src/Html.antt =====
-- Templates: what the components that `templ generate` writes into the *_templ.go files do. A
-- component is the sequence of the steps that it takes on its writer. Each step may fail, and the
-- first failure ends the rendering, as every `if templ_7745c5c3_Err != nil` says.
pub mod Decimal
pub mod Collect
pub mod Document
use inbox.Prelude.{
  ℕ, String, Bool, true, false, Option, none, some, List, [], ◌∷◌, ◌++◌, if◌then◌else◌,
}
use inbox.Proto.{Time}

-- `WriteString` of a text of the template, and of `templ.EscapeString` of a value
pub data Piece : Type 0 where
  markup escaped : String → Piece

-- attributes made by github.com/laenen-partners/dsx: `ds.RawSignals(json)`, `ds.On(event, action)`,
-- `ds.OnClick(action)`, `ds.Bind(form, field)`, and `stream.Watch` of a topic with the delay in
-- milliseconds and the URL that is fetched
pub data Attribute : Type 0 where
  raw_signals : String → Attribute
  on : String → String → Attribute
  on_click : String → Attribute
  bind : String → String → Attribute
  watch : String → ℕ → String → Attribute

-- `badge.Props` of a soft, extra small badge: `badge.Variant(s)` or a constant
pub data Badge : Type 0 where
  variant : String → Badge
  variant_error variant_warning : Badge

pub data ButtonVariant : Type 0 where
  variant_neutral variant_ghost variant_success : ButtonVariant

-- `button.Props`; the size is small or the default.
pub record Button : Type 0 where
  pub variant : ButtonVariant
  pub is_small : Bool
  pub class : String
  pub on_click : String

-- A step of a template. `Component` is `templ.Component` of other code.
pub data Step (Component : Type 0) : Type 0 where
  -- `ctx.Err()` at the start of a component
  check_context : Step Component
  write : Piece → Step Component
  -- `templ.RenderCSSItems`, of classes with the condition of each
  css_items : List (String × Bool) → Step Component
  -- `templ.RenderAttributes`
  attributes : Attribute → Step Component
  -- `Render` with the children that it is given
  badge : Badge → List Piece → Step Component
  button : Button → List Piece → Step Component
  component : Component → Step Component

abbrev pub Html : Type 0 → Type 0
Html Component = List (Step Component)

-- What the templates call of templ, dsx and `time.Time.Format`, as texts.
pub record Web : Type 0 where
  -- `templ.CSSClasses(items).String()`
  pub css_classes : List (String × Bool) → String
  -- `ds.Get(url)` and `ds.Post(url)`, and with `ds.WithFilterSignals(form)`
  pub get : String → String
  pub post : String → String
  pub get_form : String → String → String
  pub post_form : String → String → String
  -- `ds.NewSignals(form, fields).DataSignals`
  pub new_signals : String → List (String × String) → String
  -- the formats `time.RFC3339` and "Jan 02, 15:04"
  pub format_rfc3339 : Time → String
  pub format_deadline : Time → String

module _ {Component : Type 0} where
  -- the children of a component for each of a list
  abbrev pub for_each : {A : Type 0} → (A → Html Component) → List A → Html Component
  for_each f [] = []
  for_each f (a ∷ list) = f a ++ for_each f list

  abbrev pub when : Bool → Html Component → Html Component
  when b html = if b then html else []

  -- a class attribute: the CSS of its items is written before the element
  abbrev pub class_of : Web → List (String × Bool) → Step Component
  class_of web items = write (escaped (web.css_classes items))

-- What the writer does with each step: an error or none, and its state after.
pub record Writer (W Component : Type 0) : Type 0 where
  pub context_error : W → Option String
  -- `templruntime.GetBuffer`: whether the writer is the buffer of a component around this one, and
  -- `templruntime.ReleaseBuffer`
  pub get_buffer : W → Bool × W
  pub release_buffer : W → Option String × W
  pub write_string : String → W → Option String × W
  pub escape_string : String → String
  pub render_css_items : List (String × Bool) → W → Option String × W
  pub render_attributes : Attribute → W → Option String × W
  pub render_badge : Badge → (W → Option String × W) → W → Option String × W
  pub render_button : Button → (W → Option String × W) → W → Option String × W
  pub render_component : Component → W → Option String × W

module _ {W : Type 0} where
  -- `if err != nil { return err }`
  abbrev unless_failed : Option String × W → (W → Option String × W) → Option String × W
  unless_failed (some e, w) k = (some e, w)
  unless_failed (none, w) k = k w

module _ {W Component : Type 0} (writer : Writer W Component) where
  abbrev run_piece : Piece → W → Option String × W
  run_piece (markup text) w = writer.write_string text w
  run_piece (escaped text) w = writer.write_string (writer.escape_string text) w

  run_pieces : List Piece → W → Option String × W
  run_pieces [] w = (none, w)
  run_pieces (p ∷ pieces) w = unless_failed (run_piece p w) (λ w'. run_pieces pieces w')

  run_step : Step Component → W → Option String × W
  unfolding run_pieces
  run_step check_context w = (writer.context_error w, w)
  run_step (write p) w = run_piece p w
  run_step (css_items items) w = writer.render_css_items items w
  run_step (attributes a) w = writer.render_attributes a w
  run_step (badge b children) w = writer.render_badge b (run_pieces children) w
  run_step (button b children) w = writer.render_button b (run_pieces children) w
  run_step (component c) w = writer.render_component c w

  -- the steps up to the first that fails
  unfoldable pub render : Html Component → W → Option String × W
  unfolding run_step
  render [] w = (none, w)
  render (step ∷ html) w = unless_failed (run_step step w) (λ w'. render html w')

  -- The deferred release of a component's own buffer, whose error counts if there is no other.
  abbrev released : Bool → Option String × W → Option String × W
  released true r = r
  released false (some e, w) = (some e, (writer.release_buffer w).1)
  released false (none, w) = writer.release_buffer w

  abbrev buffered : Html Component → W → Option String × W
  buffered html w = let (is_buffer, w') = writer.get_buffer w in released is_buffer (render html w')

  -- `Render`: the context is tested before the buffer is taken.
  unfoldable render_to : Html Component → W → Option String × W
  unfolding render
  render_to (check_context ∷ html) w =
      unless_failed (writer.context_error w, w) (λ w'. buffered html w')
  render_to html w = buffered html w
