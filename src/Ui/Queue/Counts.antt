-- ===== src/Ui/Queue/Counts.antt =====
-- The counts on the stat cards of the queue.
use inbox.Prelude.{
  arith, ℕ, suc, ◌+◌, String, ◌≡◌, refl, ◌∙◌, ◌==◌, Bool-cases, inl, inr, List, [], ◌∷◌,
  if◌then◌else◌,
}
use inbox.External.{Env}
use inbox.Inbox.Item.{Item}
use inbox.Inbox.Tagging.{tag_value}
use inbox.Ui.Queue.{Counts, increment, count_priorities}

abbrev pub total : Counts → ℕ
total [] = 0
total ((p, n) ∷ counts) = n + total counts

total-increment : (p : String) (counts : Counts) → total (increment p counts) ≡ suc (total counts)
unfolding increment
total-increment p [] = refl
total-increment p ((q, n) ∷ counts) = ground (arith, total-increment p counts)

module _ {S Set Any Foreign : Type 0} (env : Env S Set Any Foreign) where
  -- how many items have a priority
  abbrev pub with_priority : List (Item Set Any) → ℕ
  with_priority [] = 0
  with_priority (item ∷ items) =
      let rest = with_priority items in
      if tag_value env item "priority" == "" then rest else suc rest

  -- The counts by priority add up to the items of the page that have a priority.
  total-count_priorities :
      (items : List (Item Set Any)) (counts : Counts)
      → total (count_priorities env items counts) ≡ with_priority items + total counts
  unfolding count_priorities
  total-count_priorities [] counts = omega arith
  total-count_priorities (item ∷ items) counts =
      elim (Bool-cases (tag_value env item "priority" == "")) [
        | inl missing ↦ rw missing (total-count_priorities items counts)
        | inr given ↦ rw given (
            total-count_priorities items (increment (tag_value env item "priority") counts)
            ∙ omega (arith, total-increment (tag_value env item "priority") counts))
      ]
