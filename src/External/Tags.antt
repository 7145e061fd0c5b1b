-- ===== src/External/Tags.antt =====
-- What the inbox relies on of the tags package.
use inbox.Prelude.{String, ◌≡◌, true, List, [], ◌∷◌}
use inbox.Effect.{value}
use inbox.External.{TagLib}

-- The strings of a set give the set again. `With` sets the value of a key and leaves the assignee, `Without` leaves no value of a key, and
-- `Merge` has all the tags that it adds and, for an assignee, leaves the status.
pub record TagLaws {Set : Type 0} (lib : TagLib Set) : Type 0 where
  pub from_strings-strings : (s : Set) → lib.from_strings (lib.strings s) ≡ s
  pub value_of-with_value :
      (s t : Set) (key v : String) → lib.with_value s key v ≡ value t → lib.value_of t key ≡ v
  pub assignee-with_status :
      (s t : Set) (v : String)
      → lib.with_value s "status" v ≡ value t
      → lib.value_of t "assignee" ≡ lib.value_of s "assignee"
  pub value_of-without : (s : Set) (key : String) → lib.value_of (lib.without s key) key ≡ ""
  pub has_all-merge :
      (s : Set) (ts : List String)
      → lib.has_all (lib.merge s (lib.from_strings ts)) (lib.from_strings ts) ≡ true
  pub status-merge :
      (s : Set) (actor tag : String)
      → lib.build "assignee" actor ≡ value tag
      → lib.value_of (lib.merge s (lib.from_strings (tag ∷ []))) "status" ≡ lib.value_of s "status"
