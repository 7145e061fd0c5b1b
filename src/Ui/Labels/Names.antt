-- ===== src/Ui/Labels/Names.antt =====
-- The filter keys and the actor names of ui/helpers.go.
use Prim.Native.Char.{Char, code}
use Prim.Native.String.append
use inbox.Prelude.{
  arith, String, ◌≡◌, refl, sym, subst, ◌∙◌, ap, ◌<>◌, ◌==◌, eq_iff, nat_eq, true, false,
  Bool-cases, ◌⊎◌, inl, inr, Option, Option-cases, none, some,
}
use text.Mathlib.TextEquality.{Char-path}
use text.Mathlib.TextLemmas.{cons≢nil}
use inbox.Token.Respond.{cut_colon}
use inbox.Ui.Labels.{filter_key, after_last, actor_display_name}

some_same : {A : Type 0} {a b : A} → some a ≡ some b → a ≡ b
some_same h = cc

code_of_colon : (c : Char) → nat_eq (code c) 58 ≡ true → code c ≡ code ":"
code_of_colon c h = ground arith

cut-after_last : (s : String) → after_last s ≡ none → cut_colon s ≡ none
unfolding after_last cut_colon
cut-after_last String.[] h = refl
cut-after_last (String.◌∷◌ c s) h = ground (arith, cut-after_last s)

no_name :
    (c : Char) (s : String) {name : String}
    → after_last s ≡ none
    → nat_eq (code c) 58 ≡ false
    → after_last (String.◌∷◌ c s) ≡ some name
    → ⊥
unfolding after_last
no_name c s none_later other h = ground arith

-- where an actor's name stands
after_last-parts :
    (actor name : String)
    → after_last actor ≡ some name
    → (prefix : String) × (actor ≡ prefix <> (":" <> name)) × (cut_colon name ≡ none)
unfolding after_last
after_last-parts String.[] name h = cc
after_last-parts (String.◌∷◌ c s) name h = elim (Option-cases (after_last s)) [
  | inr (t, later) ↦
      let (prefix, e, plain) = after_last-parts s name (later ∙ (rw later at h)) in
      (String.◌∷◌ c prefix, ap (String.◌∷◌ c) e ∙ sym (append.cons c prefix (":" <> name)), plain)
  | inl none_later ↦ elim (Bool-cases (nat_eq (code c) 58)) [
    | inr other ↦ absurd (no_name c s none_later other h)
    | inl colon ↦
        let same : s ≡ name = some_same (rw (none_later, colon) at h) in
        (
          "",
          ap (λ x. String.◌∷◌ x s) (Char-path c ":" (code_of_colon c colon))
              ∙ sym (append.cons ":" "" s ∙ ap (String.◌∷◌ ":") (append.nil s))
              ∙ ap (λ t. ":" <> t) same
              ∙ sym (append.nil (":" <> name)),
          ap cut_colon (sym same) ∙ cut-after_last s none_later,
        )
  ]
]

ends_in_colon : (s : String) → (s <> ":" == "") ≡ false
ends_in_colon String.[] = ap (λ t. t == "") (append.nil ":")
ends_in_colon (String.◌∷◌ c s) =
    ap (λ t. t == "") (append.cons c s ":")
    ∙ ground (arith, eq_iff (String.◌∷◌ c (s <> ":")) "", cons≢nil {x = c} {xs = s <> ":"})

-- A key with a ':' put at its end is found again.
filter_key-colon : (key : String) → filter_key (key <> ":") ≡ key
unfolding filter_key
filter_key-colon String.[] = ap filter_key (append.nil ":")
filter_key-colon (String.◌∷◌ c s) =
    ap filter_key (append.cons c s ":") ∙ rw (ends_in_colon s) ground (arith, filter_key-colon s)

-- the last of the parts of an actor that ':' separates
abbrev pub NamePart : String → String → Type 0
NamePart actor name =
    (cut_colon name ≡ none)
    × ((name ≡ actor) ⊎ ((prefix : String) × (actor ≡ prefix <> (":" <> name))))

abbrev name_in : String → Option String → String
name_in actor found = elim found [ none ↦ actor | some name ↦ name ]

-- The name that is shown for an actor has no ':', and the actor is the name or ends in a ':' and the name.
actor_display_name-parts : (actor : String) → NamePart actor (actor_display_name actor)
unfolding actor_display_name
actor_display_name-parts actor = elim (Option-cases (after_last actor)) [
  | inl whole ↦
      subst (NamePart actor) (sym (ap (name_in actor) whole)) (cut-after_last actor whole, inl refl)
  | inr (name, e) ↦
      let (prefix, parts, plain) = after_last-parts actor name e in
      subst (NamePart actor) (sym (ap (name_in actor) e)) (plain, inr (prefix, parts))
]
