-- ===== src/Inbox/Get/Filter.antt =====
-- The listing by tags of get.go: what the filter keeps, and the page that is asked for.
use mathlib.Core.List.{Memᴰ}
use inbox.Prelude.{
  arith, ℕ, zero, suc, ◌⊎◌, ◌^◌, negsuc, is_nonpos, ◌≤◌, ◌<◌, ℤ, pos, int32, String, ◌≡◌, refl, sym,
  ◌∙◌, ap, subst, true, false, inl, inr, Bool-cases, Option, some, none, List, [], ◌∷◌, length,
  is_nil, All,
}
use inbox.Effect.{Fallible, value, ok, of_fallible}
use inbox.Effect.Blocks.{and_then-ok, of_fallible-ok}
use inbox.External.{TagLib, StoredEntity, Env}
use inbox.Inbox.Item.{Item, ListOpts, entity_type, item_from_entity, items_from_entities}
use inbox.Inbox.Get.{keep_tagged, filter_by_tags, page_size_or, list_by_tags}

module _ {Set Any : Type 0} (lib : TagLib Set) where
  -- The item that an entity decodes to keeps its id and its tags.
  item_from_entity-ok :
      (e : StoredEntity Any) {item : Item Set Any}
      → item_from_entity lib e ≡ ok item
      → (item.id ≡ e.id) × (item.tags ≡ lib.from_strings e.tags)
  unfolding item_from_entity
  item_from_entity-ok e h = ground arith

  abbrev pub Passes : Set → StoredEntity Any → Type 0
  Passes req e = lib.has_all (lib.from_strings e.tags) req ≡ true

  keep_tagged-length :
      (req : Set) (es : List (StoredEntity Any)) → length (keep_tagged lib req es) ≤ length es
  unfolding keep_tagged
  keep_tagged-length req [] = omega arith
  keep_tagged-length req (e ∷ es) = ground (arith, keep_tagged-length req es)

  -- One entity that fails the filter makes the page shorter.
  pub keep_tagged-lt :
      (req : Set) (es : List (StoredEntity Any)) (e : StoredEntity Any)
      → Memᴰ e es
      → lib.has_all (lib.from_strings e.tags) req ≡ false
      → length (keep_tagged lib req es) < length es
  unfolding keep_tagged
  keep_tagged-lt req [] e m h = elim m [ ]
  keep_tagged-lt req (x ∷ es) e (Memᴰ.head p) h =
      let failed : lib.has_all (lib.from_strings x.tags) req ≡ false = rw (← p) h in
      rw failed (omega (arith, keep_tagged-length req es))
  keep_tagged-lt req (x ∷ es) e (Memᴰ.tail m) h = ground (arith, keep_tagged-lt req es e m h)

  items_from_entities-length :
      (es : List (StoredEntity Any)) (items : List (Item Set Any))
      → items_from_entities lib es ≡ ok items
      → length items ≡ length es
  unfolding items_from_entities
  items_from_entities-length [] items h = ground arith
  items_from_entities-length (e ∷ es) items h =
      let (item, one, h1) = and_then-ok (item_from_entity lib e) _ h in
      let (rest, others, h2) = and_then-ok (items_from_entities lib es) _ h1 in
      let ih = items_from_entities-length es rest others in ground (arith, ih)

  kept-All :
      (req : Set) (es : List (StoredEntity Any)) (items : List (Item Set Any))
      → items_from_entities lib (keep_tagged lib req es) ≡ ok items
      → All (λ i. lib.has_all i.tags req ≡ true) items
  unfolding items_from_entities keep_tagged
  kept-All req [] [] h = tt
  kept-All req [] (i ∷ items) h = cc
  kept-All req (e ∷ es) items h = elim (Bool-cases (lib.has_all (lib.from_strings e.tags) req)) [
    | inr failed ↦ kept-All req es items (rw failed at h)
    | inl passed ↦
        let (item, one, h1) = and_then-ok (item_from_entity lib e) _ (rw passed at h) in
        let (rest, others, h2) =
          and_then-ok (items_from_entities lib (keep_tagged lib req es)) _ h1 in
        let same : item ∷ rest ≡ items = cc in
        subst (All (λ i. lib.has_all i.tags req ≡ true)) same (
          ap (λ t. lib.has_all t req) (item_from_entity-ok e one).1 ∙ passed,
          kept-All req es rest others,
        )
  ]

  kept_complete :
      (req : Set) (es : List (StoredEntity Any)) (items : List (Item Set Any))
      (e : StoredEntity Any)
      → items_from_entities lib (keep_tagged lib req es) ≡ ok items
      → Memᴰ e es
      → Passes req e
      → (i : Item Set Any) × Memᴰ i items × (i.id ≡ e.id)
  unfolding items_from_entities keep_tagged
  kept_complete req [] items e h m p = elim m [ ]
  kept_complete req (x ∷ es) items e h (Memᴰ.head same_entity) p =
      let passed : Passes req x = rw (← same_entity) p in
      let (item, one, h1) = and_then-ok (item_from_entity lib x) _ (rw passed at h) in
      let (rest, others, h2) =
        and_then-ok (items_from_entities lib (keep_tagged lib req es)) _ h1 in
      let same : item ∷ rest ≡ items = cc in
      (
        item,
        subst (Memᴰ item) same (Memᴰ.head refl),
        (item_from_entity-ok x one).0 ∙ ap (λ y. y.id) (sym same_entity),
      )
  kept_complete req (x ∷ es) items e h (Memᴰ.tail m) p =
      elim (Bool-cases (lib.has_all (lib.from_strings x.tags) req)) [
        | inr failed ↦ kept_complete req es items e (rw failed at h) m p
        | inl passed ↦
            let (item, one, h1) = and_then-ok (item_from_entity lib x) _ (rw passed at h) in
            let (rest, others, h2) =
              and_then-ok (items_from_entities lib (keep_tagged lib req es)) _ h1 in
            let same : item ∷ rest ≡ items = cc in
            let (i, there, own) = kept_complete req es rest e others m p in
            (i, subst (Memᴰ i) same (Memᴰ.tail there), own)
      ]

  filter_by_tags-ok :
      (entities kept : List (StoredEntity Any)) (tags : List String)
      → filter_by_tags lib entities tags ≡ ok kept
      → (req : Set) × (lib.must_new tags ≡ some req) × (keep_tagged lib req entities ≡ kept)
  unfolding filter_by_tags
  filter_by_tags-ok entities kept tags h = go (lib.must_new tags) refl
    where
      go :
          (o : Option Set)
          → lib.must_new tags ≡ o
          → (req : Set) × (lib.must_new tags ≡ some req) × (keep_tagged lib req entities ≡ kept)
      go none e = absurd (ground arith)
      go (some req) e = (req, e, ground arith)

module _ {S Set Any Foreign : Type 0} (env : Env S Set Any Foreign) where
  -- The page of entities that the listing reads from the store.
  abbrev pub page : ListOpts → S → Fallible (List (StoredEntity Any))
  page opts s =
      env.store.get_entities_by_type s entity_type (int32 (page_size_or opts.page_size (pos 50)))
        opts.cursor

  -- A listing by at least one tag that succeeds reads one page of entities and returns, for the tag
  -- set of the request, only items that have all its tags, and an item for every entity of the page
  -- that has them.
  pub list_by_tags-filters :
      (tags : List String) (opts : ListOpts) (s : S) (items : List (Item Set Any))
      → is_nil tags ≡ false
      → list_by_tags env tags opts s ≡ ok items
      → (req : Set) × (entities : List (StoredEntity Any)) × (env.tags.must_new tags ≡ some req)
        × (page opts s ≡ value entities)
        × All (λ i. env.tags.has_all i.tags req ≡ true) items
        × ((e : StoredEntity Any)
            → Memᴰ e entities
            → Passes env.tags req e
            → (i : Item Set Any) × Memᴰ i items × (i.id ≡ e.id))
        × (length items ≡ length (keep_tagged env.tags req entities))
  unfolding list_by_tags
  list_by_tags-filters [] opts s items some_tag h = cc
  list_by_tags-filters (t ∷ tags) opts s items some_tag h =
      let (entities, read, h1) = and_then-ok (of_fallible _ (page opts s)) _ h in
      let (kept, filtered, h2) = and_then-ok (filter_by_tags env.tags entities (t ∷ tags)) _ h1 in
      let (req, made, same) = filter_by_tags-ok env.tags entities kept (t ∷ tags) filtered in
      let h3 : items_from_entities env.tags (keep_tagged env.tags req entities) ≡ ok items =
        ap (items_from_entities env.tags) same ∙ h2 in
      (
        req,
        entities,
        made,
        of_fallible-ok _ _ read,
        kept-All env.tags req entities items h3,
        λ e m p. kept_complete env.tags req entities items e h3 m p,
        items_from_entities-length env.tags _ items h3,
      )

-- what an `int32` holds
abbrev FitsInt32 : ℤ → Type 0
FitsInt32 (pos n) = n < 2 ^ 31
FitsInt32 (negsuc n) = n < 2 ^ 31

-- For every page size that fits an `int32`, the store is asked for at least one entity and at most
-- 2 ^ 31 - 1; the size is the one given if that is positive, and 50 otherwise.
page_size_bounds :
    (n : ℤ)
    → FitsInt32 n
    → (k : ℕ) × (int32 (page_size_or n (pos 50)) ≡ pos k)
      × (0 < k)
      × (k < 2 ^ 31)
      × ((n ≡ pos k) ⊎ ((is_nonpos n ≡ true) × (k ≡ 50)))
page_size_bounds (pos zero) h = (50, refl, omega arith, omega arith, inr (refl, refl))
page_size_bounds (pos (suc n)) h = (suc n, ground arith, omega arith, omega arith, inl refl)
page_size_bounds (negsuc n) h = (50, refl, omega arith, omega arith, inr (refl, refl))
