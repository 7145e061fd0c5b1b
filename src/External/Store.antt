-- ===== src/External/Store.antt =====
-- What the entity store does with the data of its entities, as far as the inbox relies on it.
use inbox.Prelude.{String, ◌≡◌, ◌≢◌, Option, none, some, List, [], ◌∷◌}
use inbox.Effect.{Fallible, value, failure}
use inbox.Proto.{ProtoItem}
use inbox.External.{StoredEntity, WriteEntityOp, create, update, EntityStore}

-- The type and the data of an entity; the tags and times are left out.
abbrev pub Stored : Type 0 → Type 0
Stored Any = Option (String × Fallible (ProtoItem Any))

abbrev pub view : {Any : Type 0} → Fallible (StoredEntity Any) → Stored Any
view (failure text) = none
view (value e) = some (e.entity_type, e.decoded)

module _ {S Any : Type 0} (store : EntityStore S Any) where
  abbrev pub stored : S → String → Stored Any
  stored s id = view (store.get_entity s id)

  abbrev pub wrote : WriteEntityOp Any → S → Fallible (Unit {0})
  wrote op s = (store.batch_write (op ∷ []) s).0

  abbrev pub written : WriteEntityOp Any → S → S
  written op s = (store.batch_write (op ∷ []) s).1

  -- An entity is found under its own id. An update that succeeds replaces the data of the matched
  -- entity, a creation under an unused id that no anchor guards adds an entity of the type
  -- `inbox.v1.Item`, a batch that fails leaves the data alone, and so do the tag operations.
  -- Nothing else of the data changes.
  pub record StoreLaws : Type 0 where
    pub own_id :
        (s : S) (id : String) (e : StoredEntity Any) → store.get_entity s id ≡ value e → e.id ≡ id
    pub update_matched :
        (s : S) (op : WriteEntityOp Any) (type : String) (d : Fallible (ProtoItem Any))
        → op.action ≡ update
        → stored s op.matched_entity_id ≡ some (type, d)
        → wrote op s ≡ value tt
        → stored (written op s) op.matched_entity_id ≡ some (type, value op.item)
    pub update_other :
        (s : S) (op : WriteEntityOp Any) (j : String)
        → op.action ≡ update
        → j ≢ op.matched_entity_id
        → stored (written op s) j ≡ stored s j
    pub create_new :
        (s : S) (op : WriteEntityOp Any)
        → op.action ≡ create
        → op.anchors ≡ []
        → stored s op.id ≡ none
        → wrote op s ≡ value tt
        → stored (written op s) op.id ≡ some ("inbox.v1.Item", value op.item)
    pub create_other :
        (s : S) (op : WriteEntityOp Any) (j : String)
        → op.action ≡ create
        → j ≢ op.id
        → stored (written op s) j ≡ stored s j
    pub failed_write :
        (s : S) (op : WriteEntityOp Any) (text j : String)
        → wrote op s ≡ failure text
        → stored (written op s) j ≡ stored s j
    pub add_tags_data :
        (s : S) (id : String) (tags : List String) (j : String)
        → stored (store.add_tags id tags s).1 j ≡ stored s j
    pub remove_tag_data :
        (s : S) (id tag j : String) → stored (store.remove_tag id tag s).1 j ≡ stored s j
