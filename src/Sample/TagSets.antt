-- ===== src/Sample/TagSets.antt =====
-- The laws of the tags and identity packages, at the sample.
use mathlib.Core.List.{Memᴰ}
use inbox.Prelude.{
  arith, String, ◌≡◌, refl, sym, ◌∙◌, ap, true, none, some, List, [], ◌∷◌, ◌++◌, Option-cases,
  eq_iff, inl, inr,
}
use inbox.Effect.{Fallible, value}
use inbox.External.Tags.{TagLaws}
use inbox.External.Identities.{IdentityLaws}
use inbox.Sample.Memory.{
  strip_prefix, append_text, key_of, without_key, first_value, holds, holds_all, build_tag,
  tag_lists, sample,
}

strip-append : (s t : String) → strip_prefix s (append_text s t) ≡ some t
strip-append String.[] t = refl
strip-append (String.◌∷◌ c s) t = ground (arith, strip-append s t)

-- No tag is both a status and an assignee.
assignee-of_status :
    (t w : String)
    → strip_prefix (key_of "status") t ≡ some w
    → strip_prefix (key_of "assignee") t ≡ none
assignee-of_status String.[] w h = cc
assignee-of_status (String.◌∷◌ c t) w h = ground arith

assignee-kept :
    (ts : List String)
    → first_value (without_key ts "status") "assignee" ≡ first_value ts "assignee"
assignee-kept [] = refl
assignee-kept (t ∷ ts) = elim (Option-cases (strip_prefix (key_of "status") t)) [
  | inl n ↦ rw n (
      ap (λ r. elim (strip_prefix (key_of "assignee") t) [ none ↦ r | some v ↦ v ])
        (assignee-kept ts))
  | inr (w, e) ↦ rw (e, assignee-of_status t w e) (assignee-kept ts)
]

-- the two functions on a tag without the key
other_first :
    (t key : String) (ts : List String)
    → strip_prefix (key_of key) t ≡ none
    → first_value (t ∷ ts) key ≡ first_value ts key
other_first t key ts n = ap {B = String} (λ o. elim o [ none ↦ first_value ts key | some v ↦ v ]) n

other_kept :
    (t key : String) (ts : List String)
    → strip_prefix (key_of key) t ≡ none
    → without_key (t ∷ ts) key ≡ t ∷ without_key ts key
other_kept t key ts n =
    ap {B = List String}
      (λ o. elim o [ none ↦ t ∷ without_key ts key | some v ↦ without_key ts key ]) n

own_dropped :
    (t key w : String) (ts : List String)
    → strip_prefix (key_of key) t ≡ some w
    → without_key (t ∷ ts) key ≡ without_key ts key
own_dropped t key w ts e =
    ap {B = List String}
      (λ o. elim o [ none ↦ t ∷ without_key ts key | some v ↦ without_key ts key ]) e

none_left : (ts : List String) (key : String) → first_value (without_key ts key) key ≡ ""
none_left [] key = refl
none_left (t ∷ ts) key = elim (Option-cases (strip_prefix (key_of key) t)) [
  | inl n ↦
      ap (λ l. first_value l key) (other_kept t key ts n)
      ∙ other_first t key (without_key ts key) n
      ∙ none_left ts key
  | inr (w, e) ↦ ap (λ l. first_value l key) (own_dropped t key w ts e) ∙ none_left ts key
]

holds-mem : (t : String) (ts : List String) → Memᴰ t ts → holds ts t ≡ true
holds-mem t [] m = elim m [ ]
holds-mem t (u ∷ ts) (Memᴰ.head e) = ground (arith, eq_iff u t)
holds-mem t (u ∷ ts) (Memᴰ.tail m) = ground (arith, holds-mem t ts m)

holds_all-mem :
    (xs ts : List String) → ((t : String) → Memᴰ t ts → Memᴰ t xs) → holds_all xs ts ≡ true
holds_all-mem xs [] h = refl
holds_all-mem xs (t ∷ ts) h =
    rw (holds-mem t xs (h t (Memᴰ.head refl)), holds_all-mem xs ts (λ u m. h u (Memᴰ.tail m))) refl

mem-first : (t : String) (ts s : List String) → Memᴰ t ts → Memᴰ t (ts ++ s)
mem-first t [] s m = elim m [ ]
mem-first t (u ∷ ts) s (Memᴰ.head e) = Memᴰ.head e
mem-first t (u ∷ ts) s (Memᴰ.tail m) = Memᴰ.tail (mem-first t ts s m)

value-same : {A : Type 0} {a b : A} → ◌≡◌ {A = Fallible A} (value a) (value b) → a ≡ b
value-same h = cc

first_value-new :
    (s t : List String) (key v : String)
    → append_text (key_of key) v ∷ s ≡ t
    → first_value t key ≡ v
first_value-new s t key v h =
    sym (ap (λ l. first_value l key) h)
    ∙ ap {B = String} (λ o. elim o [ none ↦ first_value s key | some w ↦ w ])
        (strip-append (key_of key) v)

built :
    (actor tag : String)
    → build_tag "assignee" actor ≡ value tag
    → tag ≡ append_text (key_of "assignee") actor
built actor tag h = ground arith

pub sample-TagLaws : TagLaws tag_lists
sample-TagLaws = record {
  from_strings-strings = λ s. refl;
  value_of-with_value = λ s t key v h. first_value-new _ t key v (value-same h);
  assignee-with_status = λ s t v h. rw (← value-same h) (assignee-kept s);
  value_of-without = none_left;
  has_all-merge = λ s ts. holds_all-mem (ts ++ s) ts (λ t m. mem-first t ts s m);
  status-merge = λ s actor tag h. rw (built actor tag h) refl;
}

pub sample-IdentityLaws : IdentityLaws sample
sample-IdentityLaws = record { made = λ tenant workspace principal type roles i h. ground arith }
