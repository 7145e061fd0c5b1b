-- ===== src/Sample/Laws.antt =====
-- The laws of the entity store, at the memory store.
use inbox.Prelude.{arith, String, ◌≢◌, List, ◌++◌, ◌≡◌, eq_iff, eq_refl, none, some}
use inbox.Effect.{Fallible, value, failure}
use inbox.Proto.{ProtoItem}
use inbox.External.{StoredEntity, WriteEntityOp, create, update}
use inbox.External.Store.{StoreLaws, stored, wrote, written}
use inbox.Prelude.{ℕ}
use inbox.Sample.Memory.{Memory, sample, retag, drop_tag}

module _ (s : Memory) where
  abbrev after_write : WriteEntityOp ℕ → Memory
  after_write op = written sample.store op s

  find_own_id :
      (id : String) (e : StoredEntity ℕ) → sample.store.get_entity s id ≡ value e → e.id ≡ id
  find_own_id id e h = ground arith

  update_found :
      (op : WriteEntityOp ℕ) (type : String) (d : Fallible (ProtoItem ℕ))
      → op.action ≡ update
      → stored sample.store s op.matched_entity_id ≡ some (type, d)
      → wrote sample.store op s ≡ value tt
      → stored sample.store (after_write op) op.matched_entity_id ≡ some (type, value op.item)
  update_found op type d a before done = rw a (ground (arith, eq_refl op.matched_entity_id))

  update_rest :
      (op : WriteEntityOp ℕ) (j : String)
      → op.action ≡ update
      → j ≢ op.matched_entity_id
      → stored sample.store (after_write op) j ≡ stored sample.store s j
  update_rest op j a other = rw a (ground (arith, eq_iff j op.matched_entity_id))

  create_found :
      (op : WriteEntityOp ℕ)
      → op.action ≡ create
      → stored sample.store s op.id ≡ none
      → wrote sample.store op s ≡ value tt
      → stored sample.store (after_write op) op.id ≡ some ("inbox.v1.Item", value op.item)
  create_found op a free done = rw a (ground (arith, eq_refl op.id))

  create_rest :
      (op : WriteEntityOp ℕ) (j : String)
      → op.action ≡ create
      → j ≢ op.id
      → stored sample.store (after_write op) j ≡ stored sample.store s j
  create_rest op j a other = rw a (ground (arith, eq_iff j op.id))

  failed :
      (op : WriteEntityOp ℕ) (text j : String)
      → wrote sample.store op s ≡ failure text
      → stored sample.store (after_write op) j ≡ stored sample.store s j
  failed op text j h = ground arith

  retag_data :
      (f : List String → List String) (id j : String)
      → stored sample.store (retag f id s (s id)).1 j ≡ stored sample.store s j
  retag_data f id j = ground (arith, eq_iff j id)

pub sample-StoreLaws : StoreLaws sample.store
sample-StoreLaws = record {
  own_id = find_own_id;
  update_matched = update_found;
  update_other = update_rest;
  create_new = λ s op a no_anchor free done. create_found s op a free done;
  create_other = create_rest;
  failed_write = failed;
  add_tags_data = λ s id tags j. retag_data s (λ ts. ts ++ tags) id j;
  remove_tag_data = λ s id tag j. retag_data s (drop_tag tag) id j;
}
