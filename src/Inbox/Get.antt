-- ===== src/Inbox/Get.antt =====
-- get.go
pub mod Filter
pub mod Staleness
pub mod Search
use inbox.Prelude.{
  ℕ, ◌+◌, ◌-◌, ℤ, pos, negsuc, is_nonpos, negate, int32, bytes, String, Bool, ◌==◌, none, some,
  List, [], ◌∷◌, ltb, last?, is_nil, if◌then◌else◌,
}
use inbox.Effect.{Fallible, value, failure, Outcome, ok, err, panic, and_then, of_fallible}
use inbox.Proto.{Time}
use inbox.External.{TagLib, StoredEntity, Env}
use inbox.Inbox.Errors.{Error, not_found, not_inbox_item, wrapped}
use inbox.Inbox.Item.{Item, ListOpts, entity_type, item_from_entity, items_from_entities}
use inbox.Inbox.Tokens.{tokenize}

-- `t.Add(d)`; no instant lies before Go's zero time, so stopping there changes no comparison.
abbrev pub add_duration : Time → ℤ → Time
add_duration t (pos n) = t + n
add_duration t (negsuc n) = t - (n + 1)

-- `Before` of an event's time, or of the creation time where there is no event or it has no time
unfoldable pub last_event_before : {Set Any : Type 0} → Item Set Any → Time → Bool
last_event_before item cutoff = elim (last? item.proto.events) [
  | none ↦ ltb item.created_at cutoff
  | some last ↦ elim last.at [ none ↦ ltb item.created_at cutoff | some t ↦ ltb t cutoff ]
]

-- the loop of `Stale`
unfoldable pub keep_stale : {Set Any : Type 0} → Time → List (Item Set Any) → List (Item Set Any)
unfolding last_event_before
keep_stale cutoff [] = []
keep_stale cutoff (item ∷ items) =
    let rest = keep_stale cutoff items in
    if last_event_before item cutoff then item ∷ rest else rest

-- the default page size
abbrev pub page_size_or : ℤ → ℤ → ℤ
page_size_or n default = if is_nonpos n then default else n

module _ {Set Any : Type 0} (lib : TagLib Set) where
  -- the loop of `filterByTags`
  unfoldable pub keep_tagged : Set → List (StoredEntity Any) → List (StoredEntity Any)
  keep_tagged req [] = []
  keep_tagged req (e ∷ entities) =
      let rest = keep_tagged req entities in
      if lib.has_all (lib.from_strings e.tags) req then e ∷ rest else rest

  -- `tags.MustNew` panics on a malformed tag.
  unfoldable pub filter_by_tags :
      List (StoredEntity Any) → List String → Outcome Error (List (StoredEntity Any))
  unfolding keep_tagged
  filter_by_tags entities required = elim (lib.must_new required) [
    | none ↦ panic "tags: malformed tag"
    | some req ↦ ok (keep_tagged req entities)
  ]

module _ {S Set Any Foreign : Type 0} (env : Env S Set Any Foreign) where
  abbrev of_entity : String → Fallible (StoredEntity Any) → Outcome Error (Item Set Any)
  of_entity item_id (failure text) = err (not_found text)
  of_entity item_id (value e) =
      if e.entity_type == entity_type
      then item_from_entity env.tags e
      else err (not_inbox_item item_id)

  unfoldable pub get : String → S → Outcome Error (Item Set Any)
  unfolding item_from_entity
  get item_id s = of_entity item_id (env.store.get_entity s item_id)

  unfoldable pub list_by_tags : List String → ListOpts → S → Outcome Error (List (Item Set Any))
  unfolding filter_by_tags items_from_entities
  list_by_tags tags opts s =
      and_then
        (of_fallible (wrapped "inbox: list items") (
          env.store.get_entities_by_type s entity_type
            (int32 (page_size_or opts.page_size (pos 50))) opts.cursor))
        λ entities.
          and_then (if is_nil tags then ok entities else filter_by_tags env.tags entities tags)
            (λ kept. items_from_entities env.tags kept)

  unfoldable pub search_items : String → ListOpts → S → Outcome Error (List (Item Set Any))
  unfolding tokenize items_from_entities
  search_items query opts s =
      let tokens = tokenize (bytes query) in
      if is_nil tokens
      then ok []
      else and_then
          (of_fallible (wrapped "inbox: search items")
            (env.store.find_by_tokens s entity_type tokens (page_size_or opts.page_size (pos 50))))
          (λ entities. items_from_entities env.tags entities)

  unfoldable semantic_search : List ℕ → ℤ → S → Outcome Error (List (Item Set Any))
  unfolding items_from_entities
  semantic_search vec top_k s =
      and_then
        (of_fallible (wrapped "inbox: semantic search")
          (env.store.find_by_embedding s entity_type vec (page_size_or top_k (pos 10))))
        (λ entities. items_from_entities env.tags entities)

  unfoldable pub stale : List String → ℤ → ListOpts → Time → S → Outcome Error (List (Item Set Any))
  unfolding list_by_tags keep_stale
  stale tags age opts now s =
      and_then (list_by_tags tags opts s)
        (λ items. ok (keep_stale (add_duration now (negate age)) items))
