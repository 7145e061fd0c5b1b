-- ===== src/Html/Collect.antt =====
-- What a reader finds in a component: the buttons, the links and the texts, in their order.
use mathlib.Core.List.{map}
use inbox.Prelude.{
  String, Bool, true, false, ◌≡◌, refl, ap, sym, ◌∙◌, List, [], ◌∷◌, ◌++◌, append_assoc,
  if◌then◌else◌,
}
use inbox.Html.{
  Piece, markup, escaped, on_click, Step, write, attributes, badge, button, Html, for_each,
}

-- the action of a button
abbrev pub click_of : {Component : Type 0} → Step Component → List String
click_of (button b children) = b.on_click ∷ []
click_of _ = []

-- the action of an element that can be clicked
abbrev pub link_of : {Component : Type 0} → Step Component → List String
link_of (attributes (on_click action)) = action ∷ []
link_of _ = []

abbrev markup_of_piece : Piece → List String
markup_of_piece (markup text) = text ∷ []
markup_of_piece (escaped text) = []

abbrev text_of_piece : Piece → List String
text_of_piece (markup text) = []
text_of_piece (escaped text) = text ∷ []

module _ {A B : Type 0} where
  abbrev flat_map : (A → List B) → List A → List B
  flat_map f [] = []
  flat_map f (a ∷ list) = f a ++ flat_map f list

-- the texts that are written without escaping
abbrev pub markup_of : {Component : Type 0} → Step Component → List String
markup_of (write p) = markup_of_piece p
markup_of (badge b children) = flat_map markup_of_piece children
markup_of (button b children) = flat_map markup_of_piece children
markup_of _ = []

-- the texts that are escaped
abbrev pub text_of : {Component : Type 0} → Step Component → List String
text_of (write p) = text_of_piece p
text_of (badge b children) = flat_map text_of_piece children
text_of (button b children) = flat_map text_of_piece children
text_of _ = []

module _ {Component B : Type 0} (f : Step Component → List B) where
  unfoldable pub collect : Html Component → List B
  collect [] = []
  collect (step ∷ html) = f step ++ collect html

  pub collect-nil : collect [] ≡ []
  unfolding collect
  collect-nil = refl

  pub collect-cons :
      (step : Step Component) (html : Html Component)
      → collect (step ∷ html) ≡ f step ++ collect html
  unfolding collect
  collect-cons step html = refl

  pub collect-append : (xs ys : Html Component) → collect (xs ++ ys) ≡ collect xs ++ collect ys
  unfolding collect
  collect-append [] ys = refl
  collect-append (step ∷ xs) ys =
      ap (λ found. f step ++ found) (collect-append xs ys)
      ∙ sym (append_assoc (f step) (collect xs) (collect ys))

  pub collect-if :
      (b : Bool) (x y : Html Component)
      → collect (if b then x else y) ≡ (if b then collect x else collect y)
  collect-if true x y = refl
  collect-if false x y = refl

  collect-for_each :
      {A : Type 0} (g : A → Html Component) (list : List A)
      → collect (for_each g list) ≡ flat_map (λ a. collect (g a)) list
  unfolding collect
  collect-for_each g [] = refl
  collect-for_each g (a ∷ list) =
      collect-append (g a) (for_each g list)
      ∙ ap (λ found. collect (g a) ++ found) (collect-for_each g list)

  pub collect-for_each_none :
      {A : Type 0} (g : A → Html Component)
      → ((a : A) → collect (g a) ≡ [])
      → (list : List A) → collect (for_each g list) ≡ []
  unfolding collect
  collect-for_each_none g none_of [] = refl
  collect-for_each_none g none_of (a ∷ list) =
      collect-append (g a) (for_each g list)
      ∙ ap (λ found. found ++ collect (for_each g list)) (none_of a)
      ∙ collect-for_each_none g none_of list

  pub collect-for_each_one :
      {A : Type 0} (g : A → Html Component) (h : A → B)
      → ((a : A) → collect (g a) ≡ h a ∷ [])
      → (list : List A) → collect (for_each g list) ≡ map h list
  unfolding collect
  collect-for_each_one g h one_of [] = refl
  collect-for_each_one g h one_of (a ∷ list) =
      collect-append (g a) (for_each g list)
      ∙ ap (λ found. found ++ collect (for_each g list)) (one_of a)
      ∙ ap (λ found. h a ∷ found) (collect-for_each_one g h one_of list)

pub if_same : {A : Type 0} (b : Bool) (x : A) → (if b then x else x) ≡ x
if_same true x = refl
if_same false x = refl

-- These compute what is found in a component, with the lemmas of its loops listed.
pub ruleset collect_laws = (collect-nil, collect-cons, collect-append, collect-if, if_same)
