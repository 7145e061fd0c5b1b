-- ===== src/Sample/Memory.antt =====
-- A concrete environment.
use Prim.Native.Char.{code}
use inbox.Prelude.{
  ℕ, zero, suc, ℤ, pos, negsuc, String, Bool, true, false, ◌&&◌, ◌||◌, ◌==◌, nat_eq, Option, none,
  some, List, [], ◌∷◌, ◌++◌, if◌then◌else◌,
}
use inbox.Effect.{Fallible, value, failure}
use inbox.External.{
  TagLib, StoredEntity, WriteAction, WriteEntityOp, create, update, EntityStore, Identity, Env,
}

-- the text after "prefix", if it stands first
abbrev pub strip_prefix : String → String → Option String
strip_prefix String.[] t = some t
strip_prefix (String.◌∷◌ c s) String.[] = none
strip_prefix (String.◌∷◌ c s) (String.◌∷◌ d t) =
    let rest = strip_prefix s t in if nat_eq (code c) (code d) then rest else none

abbrev pub append_text : String → String → String
append_text String.[] t = t
append_text (String.◌∷◌ c s) t = String.◌∷◌ c (append_text s t)

abbrev pub key_of : String → String
key_of key = append_text key ":"

abbrev pub without_key : List String → String → List String
without_key [] key = []
without_key (t ∷ ts) key =
    let rest = without_key ts key in
    elim (strip_prefix (key_of key) t) [ none ↦ t ∷ rest | some _ ↦ rest ]

abbrev pub first_value : List String → String → String
first_value [] key = ""
first_value (t ∷ ts) key =
    let rest = first_value ts key in elim (strip_prefix (key_of key) t) [ none ↦ rest | some v ↦ v ]

abbrev pub with_prefix : List String → String → List String
with_prefix [] key = []
with_prefix (t ∷ ts) key =
    let rest = with_prefix ts key in
    elim (strip_prefix (key_of key) t) [ none ↦ rest | some _ ↦ t ∷ rest ]

abbrev pub holds : List String → String → Bool
holds [] tag = false
holds (t ∷ ts) tag = let rest = holds ts tag in if t == tag then true else rest

abbrev pub holds_all : List String → List String → Bool
holds_all tags [] = true
holds_all tags (t ∷ ts) = holds tags t && holds_all tags ts

-- an empty value or a wildcard makes no tag
abbrev pub build_tag : String → String → Fallible String
build_tag key v =
    if v == "" || v == "*" then failure "invalid value" else value (append_text (key_of key) v)

-- no empty tag
abbrev pub checked : List String → Option (List String)
checked [] = some []
checked (t ∷ ts) =
    let rest = checked ts in
    if t == "" then none else elim rest [ none ↦ none | some us ↦ some (t ∷ us) ]

abbrev pub tag_lists : TagLib (List String)
tag_lists = record {
  empty = [];
  from_strings = λ ts. ts;
  strings = λ ts. ts;
  with_value = λ ts key v. value (append_text (key_of key) v ∷ without_key ts key);
  without = without_key;
  merge = λ ts us. us ++ ts;
  build = build_tag;
  with_prefix = with_prefix;
  value_of = first_value;
  has_all = holds_all;
  must_new = checked;
}

abbrev pub Memory : Type 0
Memory = String → Option (StoredEntity ℕ)

abbrev find : Memory → String → Fallible (StoredEntity ℕ)
find s id = elim (s id) [ none ↦ failure "no such entity" | some e ↦ value (record e { id = id }) ]

abbrev pub put : Memory → String → StoredEntity ℕ → Memory
put s id e j = if j == id then some e else s j

abbrev new_entity : WriteEntityOp ℕ → StoredEntity ℕ
new_entity op = record {
  id = op.id;
  entity_type = "inbox.v1.Item";
  decoded = value op.item;
  tags = op.tags;
  created_at = 0;
  updated_at = 0;
}

abbrev put_new : WriteEntityOp ℕ → Memory → Option (StoredEntity ℕ) → Fallible (Unit {0}) × Memory
put_new op s none = (value tt, put s op.id (new_entity op))
put_new op s (some e) = (failure "exists", s)

abbrev put_update :
    WriteEntityOp ℕ → Memory → Option (StoredEntity ℕ) → Fallible (Unit {0}) × Memory
put_update op s none = (failure "no such entity", s)
put_update op s (some e) =
    (value tt, put s op.matched_entity_id (record e { decoded = value op.item; tags = op.tags }))

abbrev write_by : WriteAction → WriteEntityOp ℕ → Memory → Fallible (Unit {0}) × Memory
write_by create op s = put_new op s (s op.id)
write_by update op s = put_update op s (s op.matched_entity_id)

-- The first operation that fails undoes the batch.
abbrev write_all : List (WriteEntityOp ℕ) → Memory → Memory → Fallible (Unit {0}) × Memory
write_all [] start s = (value tt, s)
write_all (op ∷ ops) start s =
    let (r, s') = write_by op.action op s in
    let rest = write_all ops start s' in
    elim r [ value _ ↦ rest | failure text ↦ (failure text, start) ]

abbrev pub retag :
    (List String → List String)
    → String
    → Memory
    → Option (StoredEntity ℕ)
    → Fallible (Unit {0}) × Memory
retag f id s none = (failure "no such entity", s)
retag f id s (some e) = (value tt, put s id (record e { tags = f e.tags }))

abbrev pub drop_tag : String → List String → List String
drop_tag tag [] = []
drop_tag tag (t ∷ ts) = let rest = drop_tag tag ts in if t == tag then rest else t ∷ rest

-- the entities of the listed ids, `n` at most
abbrev collect : List String → ℕ → Memory → List (StoredEntity ℕ)
collect [] n s = []
collect (id ∷ ids) zero s = []
collect (id ∷ ids) (suc n) s =
    let rest = collect ids n s in
    let all_rest = collect ids (suc n) s in
    elim (s id) [ none ↦ all_rest | some e ↦ record e { id = id } ∷ rest ]

abbrev count_of : ℤ → ℕ
count_of (pos n) = n
count_of (negsuc n) = 0

abbrev memory_store : List String → EntityStore Memory ℕ
memory_store ids = record {
  get_entity = find;
  batch_write = λ ops s. write_all ops s s;
  add_tags = λ id tags s. retag (λ ts. ts ++ tags) id s (s id);
  remove_tag = λ id tag s. retag (drop_tag tag) id s (s id);
  get_entities_by_type = λ s type n cursor. value (collect ids (count_of n) s);
  find_by_tokens = λ s type tokens n. value (collect ids (count_of n) s);
  find_by_embedding = λ s type vec n. value (collect ids (count_of n) s);
}

abbrev make_identity : String → String → String → String → List String → Fallible Identity
make_identity tenant workspace principal type roles =
    if principal == ""
    then failure "principal is required"
    else value (record {
      tenant_id = tenant;
      workspace_id = workspace;
      principal_id = principal;
      principal_type = type;
      roles = roles;
    })

abbrev pub sample : Env Memory (List String) ℕ ℕ
sample = record {
  tags = tag_lists;
  store = memory_store ("a" ∷ "b" ∷ "c" ∷ []);
  new_any = λ msg. some 7;
  foreign_name = λ m. "google.protobuf.Struct";
  new_identity = make_identity;
  principal_user = "user";
  principal_service = "service";
}
