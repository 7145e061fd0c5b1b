-- ===== src/Inbox/Evolution/Store.antt =====
-- How one operation on an item may change the store, and the rules by which each operation is
-- shown to do no more.
use inbox.Prelude.{
  arith, String, ◌≡◌, ◌≢◌, refl, ◌∙◌, Bool, true, false, some, List, eq_iff, if◌then◌else◌,
}
use inbox.Effect.{Fallible, value, failure, Outcome, ok, err, panic, pure, continue}
use inbox.Proto.{ProtoItem}
use inbox.External.{Env, StoredEntity, EntityStore}
use inbox.External.Store.{StoreLaws, stored, wrote, written}
use inbox.Inbox.Errors.{Error}
use inbox.Inbox.Item.{Item, entity_type, item_from_entity}
use inbox.Inbox.Get.{get}
use inbox.Inbox.Events.{update_op}
use inbox.Inbox.Evolution.{Successor}

module _ {S Any : Type 0} (store : EntityStore S Any) where
  pub record Same (s s' : S) : Type 0 where
    pub at : (j : String) → stored store s' j ≡ stored store s j

  -- The operation on `id` leaves the data of the store, or makes a later version of this item and
  -- leaves all other data.
  pub data Evolves (id : String) (s s' : S) : Type 0 where
    unchanged : Same s s' → Evolves id s s'
    evolved :
        (p q : ProtoItem Any)
        → stored store s id ≡ some (entity_type, value p)
        → stored store s' id ≡ some (entity_type, value q)
        → Successor p q
        → ((j : String) → j ≢ id → stored store s' j ≡ stored store s j)
        → Evolves id s s'

module _ {S Any : Type 0} {store : EntityStore S Any} where
  pub Same-refl : (s : S) → Same store s s
  Same-refl s = record { at = λ j. refl }

  pub Evolves-after-Same :
      {id : String} {s t u : S} → Same store s t → Evolves store id t u → Evolves store id s u
  Evolves-after-Same e (unchanged f) = unchanged (record { at = λ j. f.at j ∙ e.at j })
  Evolves-after-Same {id} e (evolved p q before after later rest) =
      evolved p q (rw (← (e.at id)) before) after later (λ j h. rest j h ∙ e.at j)

  -- the rule for the rest of a block
  pub continue-Evolves :
      {A B : Type 0} {id : String} {s t : S} (r : Outcome Error A) (k : A → S → Outcome Error B × S)
      → Same store s t
      → ((a : A) → r ≡ ok a → Evolves store id s (k a t).1)
      → Evolves store id s (continue r k t).1
  continue-Evolves (ok a) k e h = h a refl
  continue-Evolves (err x) k e h = unchanged e
  continue-Evolves (panic text) k e h = unchanged e

  pub finish-Evolves :
      {A B : Type 0} {id : String} {s t : S} (r : Outcome Error A) (b : B)
      → Evolves store id s t
      → Evolves store id s (continue r (λ _. pure b) t).1
  finish-Evolves (ok a) b h = h
  finish-Evolves (err x) b h = h
  finish-Evolves (panic text) b h = h

  pub continue-Same :
      {A B : Type 0} {s t : S} (r : Outcome Error A) (k : A → S → Outcome Error B × S)
      → Same store s t
      → ((a : A) → Same store s (k a t).1)
      → Same store s (continue r k t).1
  continue-Same (ok a) k e h = h a
  continue-Same (err x) k e h = e
  continue-Same (panic text) k e h = e

  pub if-Same :
      {B : Type 0} {s : S} (b : Bool) (m n : S → Outcome Error B × S)
      → Same store s (m s).1
      → Same store s (n s).1
      → Same store s ((if b then m else n) s).1
  if-Same true m n e f = e
  if-Same false m n e f = f

  -- the rule for a guarded block
  pub if-Evolves :
      {B : Type 0} {id : String} {s : S} (b : Bool) (m n : S → Outcome Error B × S)
      → (b ≡ true → Evolves store id s (m s).1)
      → (b ≡ false → Evolves store id s (n s).1)
      → Evolves store id s ((if b then m else n) s).1
  if-Evolves true m n e f = e refl
  if-Evolves false m n e f = f refl

  -- the write of a later version
  pub written-Evolves :
      StoreLaws store
      → (s : S) (id : String) (p q : ProtoItem Any) (tags : List String)
      → stored store s id ≡ some (entity_type, value p)
      → Successor p q
      → Evolves store id s (written store (update_op id q tags) s)
  written-Evolves laws s id p q tags before later = go (wrote store (update_op id q tags) s) refl
    where
      go :
          (r : Fallible (Unit {0}))
          → wrote store (update_op id q tags) s ≡ r
          → Evolves store id s (written store (update_op id q tags) s)
      go (failure text) e =
          unchanged (record { at = λ j. laws.failed_write s (update_op id q tags) text j e })
      go (value tt) e =
          evolved p q before (laws.update_matched s (update_op id q tags) _ _ refl before e) later
            (λ j h. laws.update_other s (update_op id q tags) j refl h)

module _ {S Set Any Foreign : Type 0} (env : Env S Set Any Foreign) where
  -- What `Get` returns is the stored data, under the id that was asked for.
  pub get-stored :
      StoreLaws env.store
      → (s : S) (id : String) (item : Item Set Any) → get env id s ≡ ok item
      → (stored env.store s id ≡ some (entity_type, value item.proto)) × (item.id ≡ id)
  unfolding get item_from_entity
  get-stored laws s id item h = go (env.store.get_entity s id) refl
    where
      go :
          (r : Fallible (StoredEntity Any))
          → env.store.get_entity s id ≡ r
          → (stored env.store s id ≡ some (entity_type, value item.proto)) × (item.id ≡ id)
      go (failure text) e = ground arith
      go (value x) e = ground (arith, eq_iff x.entity_type entity_type, laws.own_id s id x)

  -- What is stored as an inbox item, `Get` returns.
  pub get-of_stored :
      StoreLaws env.store
      → (s : S) (id : String) (p : ProtoItem Any)
      → stored env.store s id ≡ some (entity_type, value p)
      → (item : Item Set Any) × (get env id s ≡ ok item) × (item.proto ≡ p) × (item.id ≡ id)
  unfolding get item_from_entity
  get-of_stored laws s id p h = go (env.store.get_entity s id) refl
    where
      go :
          (r : Fallible (StoredEntity Any))
          → env.store.get_entity s id ≡ r
          → (item : Item Set Any) × (get env id s ≡ ok item) × (item.proto ≡ p) × (item.id ≡ id)
      go (failure text) e = absurd (ground arith)
      go (value x) e = (
        record {
          id = x.id;
          proto = p;
          tags = env.tags.from_strings x.tags;
          created_at = x.created_at;
          updated_at = x.updated_at;
        },
        ground (arith, eq_iff x.entity_type entity_type),
        refl,
        laws.own_id s id x e,
      )
