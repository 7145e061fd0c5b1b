-- ===== src/Service/Paging.antt =====
-- The pages of `ListItems`.
use mathlib.Core.List.{Memᴰ}
use inbox.Prelude.{
  arith, ℕ, zero, suc, ◌<◌, ◌≤◌, ◌≢◌, ℤ, pos, negsuc, ◌≡◌, refl, sym, ◌∙◌, ap, true, false, inl,
  inr, ◌⊎◌, Bool-cases, none, some, List, [], ◌∷◌, length, is_nil, last?, nat_eq,
}
use inbox.Effect.{value, ok, map_err}
use inbox.Effect.Blocks.{continue-ok, ok-same, map_err-ok}
use inbox.Proto.Service.{ListItemsRequest, ListItemsResponse, InboxItem}
use inbox.External.{Env, StoredEntity}
use inbox.Inbox.Item.{Item, ListOpts}
use inbox.Inbox.Get.{keep_tagged, list_by_tags}
use inbox.Inbox.Get.Filter.{page, list_by_tags-filters, keep_tagged-lt}
use inbox.Service.Convert.{map_error, ctx_with_identity, to_proto, to_proto_slice}
use inbox.Service.Handler.{is_full, next_cursor, list_items}

nat_eq-≡ : (m n : ℕ) → nat_eq m n ≡ true → m ≡ n
nat_eq-≡ m n h = ground arith

last-some : {A : Type 0} (xs : List A) (n : ℕ) → length xs ≡ suc n → (x : A) × (last? xs ≡ some x)
last-some [] n h = absurd (omega arith)
last-some (x ∷ []) n h = (x, refl)
last-some (x ∷ y ∷ xs) n h = last-some (y ∷ xs) (length xs) refl

-- A page is full when it has as many items as a positive page size asks for.
abbrev pub Full : {A : Type 0} → ℤ → List A → Type 0
Full size items = (n : ℕ) × (size ≡ pos (suc n)) × (length items ≡ suc n)

module _ {A : Type 0} where
  is_full-Full : (size : ℤ) (items : List A) → is_full size (length items) ≡ true → Full size items
  is_full-Full (pos zero) items h = cc
  is_full-Full (pos (suc n)) items h = (n, refl, nat_eq-≡ _ _ h)
  is_full-Full (negsuc n) items h = cc

  Full-is_full : (size : ℤ) (items : List A) → Full size items → is_full size (length items) ≡ true
  Full-is_full size items (n, e, l) = rw (e, l) (ground arith)

module _ {S Set Any Foreign : Type 0} (env : Env S Set Any Foreign) where
  abbrev pub opts_of : ListItemsRequest → ListOpts
  opts_of req = record { page_size = req.page_size; cursor = req.cursor }

  -- what a response of `ListItems` was made of
  pub list_items-ok :
      (req : ListItemsRequest) (s : S) (resp : ListItemsResponse Any)
      → (list_items env req s).0 ≡ ok resp
      → (items : List (Item Set Any)) × (list_by_tags env req.tags (opts_of req) s ≡ ok items)
        × (next_cursor req.page_size items ≡ ok resp.next_cursor)
        × (resp.items ≡ to_proto_slice env items)
  unfolding list_items
  list_items-ok req s resp h =
      let (ctx, known, e1, h1) = continue-ok (ctx_with_identity env req.identity) _ s h in
      let (items, read, e2, h2) =
        continue-ok (map_err map_error (list_by_tags env req.tags (opts_of req) s)) _ s h1 in
      let (next, cursor, e3, h3) = continue-ok (next_cursor req.page_size items) _ s h2 in
      let made : record { items = to_proto_slice env items; next_cursor = next } ≡ resp =
        ok-same h3 in
      (
        items,
        map_err-ok _ _ read,
        cursor ∙ ap (λ r. ok (r.next_cursor)) made,
        sym (ap (λ r. r.items) made),
      )

  to_proto_slice-length :
      (items : List (Item Set Any)) → length (to_proto_slice env items) ≡ length items
  unfolding to_proto_slice
  to_proto_slice-length [] = refl
  to_proto_slice-length (i ∷ items) = ap suc (to_proto_slice-length items)

  to_proto_slice-last :
      (items : List (Item Set Any)) (i : Item Set Any)
      → last? items ≡ some i
      → last? (to_proto_slice env items) ≡ some (to_proto env i)
  unfolding to_proto_slice
  to_proto_slice-last [] i h = cc
  to_proto_slice-last (x ∷ []) i h = cc
  to_proto_slice-last (x ∷ y ∷ items) i h = to_proto_slice-last (y ∷ items) i h

  next_cursor-Full :
      (size : ℤ) (items : List (Item Set Any))
      → Full size items
      → (i : Item Set Any) × (last? items ≡ some i)
        × (next_cursor size items ≡ ok (some i.updated_at))
  unfolding next_cursor
  next_cursor-Full size items full =
      let (n, e, l) = full in
      let (i, last) = last-some items n l in (i, last, rw (Full-is_full size items full, last) refl)

  next_cursor_short :
      (size : ℤ) (items : List (Item Set Any))
      → is_full size (length items) ≡ false
      → next_cursor size items ≡ ok none
  unfolding next_cursor
  next_cursor_short size items short = rw short refl

  -- A response of `ListItems` has a next cursor exactly if the page size is positive and the response
  -- has that many items, and the cursor is then the update time of the last of them.
  pub list_items-next_cursor :
      (req : ListItemsRequest) (s : S) (resp : ListItemsResponse Any)
      → (list_items env req s).0 ≡ ok resp
      → ((Full req.page_size resp.items)
          × (i : InboxItem Any) × (last? resp.items ≡ some i)
          × (resp.next_cursor ≡ i.updated_at)
          × (resp.next_cursor ≢ none))
        ⊎ ((resp.next_cursor ≡ none) × (Full req.page_size resp.items → ⊥))
  unfolding to_proto
  list_items-next_cursor req s resp h =
      let (items, read, cursor, shown) = list_items-ok req s resp h in
      let same : length resp.items ≡ length items = ap length shown ∙ to_proto_slice-length items in
      elim (Bool-cases (is_full req.page_size (length items))) [
        | inl full ↦
            let (n, e, l) = is_full-Full req.page_size items full in
            let (i, last, next) = next_cursor-Full req.page_size items (n, e, l) in
            let given : resp.next_cursor ≡ some i.updated_at = ok-same (sym cursor ∙ next) in
            inl (
              (n, e, same ∙ l),
              to_proto env i,
              ap last? shown ∙ to_proto_slice-last items i last,
              given,
              λ missing. cc,
            )
        | inr short ↦ inr (
          ok-same (sym cursor ∙ next_cursor_short req.page_size items short),
          λ full.
              let (n, e, l) = full in cc (Full-is_full req.page_size items (n, e, sym same ∙ l)),
        )
      ]

  -- The filter by tags runs on the page that was read. When the page size asked for is positive and
  -- the store gives a page of at most that many entities, one entity of the page without the tags
  -- asked for is enough: a response of `ListItems` then has no next cursor, whatever the store holds
  -- after that page.
  pub list_items-ends_early :
      (req : ListItemsRequest) (s : S) (resp : ListItemsResponse Any) (n : ℕ)
      (entities : List (StoredEntity Any)) (tag_set : Set) (e : StoredEntity Any)
      → (list_items env req s).0 ≡ ok resp
      → req.page_size ≡ pos (suc n)
      → is_nil req.tags ≡ false
      → page env (opts_of req) s ≡ value entities
      → length entities ≤ suc n
      → env.tags.must_new req.tags ≡ some tag_set
      → Memᴰ e entities
      → env.tags.has_all (env.tags.from_strings e.tags) tag_set ≡ false
      → resp.next_cursor ≡ none
  list_items-ends_early req s resp n entities tag_set e h size some_tag read bound made there
        fails =
      let (items, listed, cursor, shown) = list_items-ok req s resp h in
      let (tag_set', entities', made', read', _, _, counted) =
        list_by_tags-filters env req.tags (opts_of req) s items some_tag listed in
      let one : entities' ≡ entities = cc in
      let two : tag_set' ≡ tag_set = cc in
      let count : length items ≡ length (keep_tagged env.tags tag_set entities) =
        counted
        ∙ ap (λ t. length (keep_tagged env.tags t entities')) two
        ∙ ap (λ es. length (keep_tagged env.tags tag_set es)) one in
      let fewer : length (keep_tagged env.tags tag_set entities) < length entities =
        keep_tagged-lt env.tags tag_set entities e there fails in
      elim (list_items-next_cursor req s resp h) [
        | inr (ends, _) ↦ ends
        | inl ((m, size', l), _, _, _, _) ↦
            let shown_size : length resp.items ≡ length items =
              ap length shown ∙ to_proto_slice-length items in
            let same_size : suc m ≡ suc n = ground arith in absurd (omega arith)
      ]
