-- ===== src/Ui/Queue/Requested.antt =====
-- The tags of the filters that have a value in a request of ui/queue.go and ui/mywork.go.
use mathlib.Core.List.{Memᴰ}
use inbox.Prelude.{
  arith, String, ◌<>◌, ◌==◌, ◌≡◌, ◌≢◌, eq_iff, Bool-cases, inl, inr, Option, none, [], refl, sym,
  ◌∙◌, ap, subst, false, some, List, ◌∷◌,
}
use inbox.Effect.{Fallible, value, failure}
use inbox.Ui.Filters.{
  FilterConfig, FilterRequest, Values, value_at, signal_value, put_value, read_from,
  read_filter_values, filter_tags,
}
use inbox.Ui.Labels.{filter_key}

-- what a request gives for a key: a signal that is a string, or a query parameter
abbrev signal_text : Option (Fallible String) → String
signal_text none = ""
signal_text (some (value v)) = v
signal_text (some (failure text)) = ""

abbrev pub requested : FilterRequest → String → String
requested r key = elim r.signals [ some raw ↦ signal_text (raw key) | none ↦ r.query key ]

value_at-put :
    (key v : String) (values : Values) → v ≢ "" → value_at (put_value key v values) key ≡ v
value_at-put key v values h = ground (arith, eq_iff v "", eq_iff key key)

module _ (source : String → String) where
  value_at-put_other :
      (k key : String) (values : Values)
      → value_at values key ≡ source key
      → value_at (put_value k (source k) values) key ≡ source key
  value_at-put_other k key values h = elim (Bool-cases (source k == "")) [
    | inl absent ↦ rw absent h
    | inr given ↦ elim (Bool-cases (k == key)) [
      | inl same ↦ rw (given, same) (ap source ((eq_iff k key).0 same))
      | inr other ↦ rw (given, other) h
    ]
  ]

  read_from-keeps :
      (filters : List FilterConfig) (values : Values) (key : String)
      → value_at values key ≡ source key
      → value_at (read_from source filters values) key ≡ source key
  read_from-keeps [] values key h = h
  read_from-keeps (f ∷ filters) values key h =
      read_from-keeps filters _ key (value_at-put_other (filter_key f.tag_prefix) key values h)

  value_at-read_from :
      (filters : List FilterConfig) (values : Values) (f : FilterConfig)
      → Memᴰ f filters
      → source (filter_key f.tag_prefix) ≢ ""
      → value_at (read_from source filters values) (filter_key f.tag_prefix)
        ≡ source (filter_key f.tag_prefix)
  value_at-read_from [] values f m h = elim m [ ]
  value_at-read_from (g ∷ filters) values f (Memᴰ.head e) h =
      read_from-keeps filters _ (filter_key f.tag_prefix) (
        subst
          (λ x.
            value_at (put_value (filter_key x.tag_prefix) (source (filter_key x.tag_prefix)) values)
              (filter_key f.tag_prefix)
            ≡ source (filter_key f.tag_prefix))
          e (value_at-put (filter_key f.tag_prefix) _ values h))
  value_at-read_from (g ∷ filters) values f (Memᴰ.tail m) h = value_at-read_from filters _ f m h

value_at-read_filter_values :
    (filters : List FilterConfig) (r : FilterRequest) (f : FilterConfig)
    → Memᴰ f filters
    → requested r (filter_key f.tag_prefix) ≢ ""
    → value_at (read_filter_values filters r) (filter_key f.tag_prefix)
      ≡ requested r (filter_key f.tag_prefix)
unfolding read_filter_values
value_at-read_filter_values filters r f m h = go r.signals refl
  where
    go :
        (o : Option (String → Option (Fallible String)))
        → r.signals ≡ o
        → value_at (read_filter_values filters r) (filter_key f.tag_prefix)
          ≡ requested r (filter_key f.tag_prefix)
    go none e = rw e (value_at-read_from r.query filters [] f m (rw e at h))
    go (some raw) e =
        rw e (value_at-read_from (λ key. signal_value (raw key)) filters [] f m (rw e at h))

given_value :
    (values : Values) (f : FilterConfig)
    → value_at values (filter_key f.tag_prefix) ≢ ""
    → (value_at values (filter_key f.tag_prefix) == "") ≡ false
given_value values f h = ground (arith, eq_iff (value_at values (filter_key f.tag_prefix)) "")

mem-filter_tags :
    (filters : List FilterConfig) (values : Values) (f : FilterConfig)
    → Memᴰ f filters
    → value_at values (filter_key f.tag_prefix) ≢ ""
    → Memᴰ (f.tag_prefix <> value_at values (filter_key f.tag_prefix)) (filter_tags filters values)
unfolding filter_tags
mem-filter_tags [] values f m h = elim m [ ]
mem-filter_tags (g ∷ filters) values f (Memᴰ.head e) h =
    subst
      (λ x.
        Memᴰ (f.tag_prefix <> value_at values (filter_key f.tag_prefix))
          (filter_tags (x ∷ filters) values))
      e (rw (given_value values f h) (Memᴰ.head refl))
mem-filter_tags (g ∷ filters) values f (Memᴰ.tail m) h =
    let later = mem-filter_tags filters values f m h in
    elim (Bool-cases (value_at values (filter_key g.tag_prefix) == "")) [
      | inl absent ↦ rw absent later
      | inr given ↦ rw given (Memᴰ.tail later)
    ]

pub filter_tags-active :
    (filters : List FilterConfig) (r : FilterRequest) (f : FilterConfig)
    → Memᴰ f filters
    → requested r (filter_key f.tag_prefix) ≢ ""
    → Memᴰ
        (f.tag_prefix <> requested r (filter_key f.tag_prefix))
        (filter_tags filters (read_filter_values filters r))
filter_tags-active filters r f m h =
    let e = value_at-read_filter_values filters r f m h in
    subst (λ v. Memᴰ (f.tag_prefix <> v) (filter_tags filters (read_filter_values filters r))) e
      (mem-filter_tags filters _ f m (λ absent. h (sym e ∙ absent)))
