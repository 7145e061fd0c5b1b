-- ===== src/External.antt =====
-- The packages that the program calls and this repository does not hold: tags, identity,
-- entitystore and anypb, as the operations that the code uses of them. Laws that a theorem
-- needs are in the child modules.
pub mod Tags
pub mod Store
pub mod Identities
use inbox.Prelude.{ℕ, ℤ, Bytes, String, Bool, Option, List}
use inbox.Effect.{Fallible}
use inbox.Proto.{Time, ProtoItem, Message}

-- github.com/laenen-partners/tags
pub record TagLib (Set : Type 0) : Type 0 where
  pub empty : Set
  pub from_strings : List String → Set
  pub strings : Set → List String
  pub with_value : Set → String → String → Fallible Set
  pub without : Set → String → Set
  pub merge : Set → Set → Set
  pub build : String → String → Fallible String
  pub with_prefix : Set → String → Set
  pub value_of : Set → String → String
  pub has_all : Set → Set → Bool
  -- nothing where `MustNew` panics
  pub must_new : List String → Option Set

-- `identity.Context`
pub record Identity : Type 0 where
  pub tenant_id : String
  pub workspace_id : String
  pub principal_id : String
  pub principal_type : String
  pub roles : List String

-- A request's context, as far as the program reads it.
abbrev pub Context : Type 0
Context = Option Identity

-- `matching.StoredEntity`; `decoded` is what `GetData` gives into an `Item`.
pub record StoredEntity (Any : Type 0) : Type 0 where
  pub id : String
  pub entity_type : String
  pub decoded : Fallible (ProtoItem Any)
  pub tags : List String
  pub created_at : Time
  pub updated_at : Time

pub data WriteAction : Type 0 where
  create update : WriteAction

-- `store.WriteEntityOp`; `matching.AnchorQuery` is a field and a value.
pub record WriteEntityOp (Any : Type 0) : Type 0 where
  pub action : WriteAction
  pub id : String
  pub matched_entity_id : String
  pub item : ProtoItem Any
  pub tags : List String
  pub tokens : List (String × List Bytes)
  pub anchors : List (String × String)
  -- a `float32` that is 0 or 1 here
  pub confidence : ℕ

-- `*entitystore.EntityStore`, with `S` for what the store holds; a read leaves it alone.
-- A `float32` of a vector is its bit pattern.
pub record EntityStore (S Any : Type 0) : Type 0 where
  pub get_entity : S → String → Fallible (StoredEntity Any)
  pub batch_write : List (WriteEntityOp Any) → S → Fallible (Unit {0}) × S
  pub add_tags : String → List String → S → Fallible (Unit {0}) × S
  pub remove_tag : String → String → S → Fallible (Unit {0}) × S
  pub get_entities_by_type : S → String → ℤ → Option Time → Fallible (List (StoredEntity Any))
  pub find_by_tokens : S → String → List Bytes → ℤ → Fallible (List (StoredEntity Any))
  pub find_by_embedding : S → String → List ℕ → ℤ → Fallible (List (StoredEntity Any))

-- All that the inbox calls.
pub record Env (S Set Any Foreign : Type 0) : Type 0 where
  pub tags : TagLib Set
  pub store : EntityStore S Any
  -- `anypb.New`, nothing on an error
  pub new_any : Message Foreign → Option Any
  pub foreign_name : Foreign → String
  -- `identity.New` of tenant, workspace, principal, its type and roles, and two of the types
  pub new_identity : String → String → String → String → List String → Fallible Identity
  pub principal_user : String
  pub principal_service : String
