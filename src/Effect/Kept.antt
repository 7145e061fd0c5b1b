-- ===== src/Effect/Kept.antt =====
-- Actions that only read the store.
use inbox.Prelude.{◌≡◌, refl, ◌∙◌, Bool, true, false, if◌then◌else◌}
use inbox.Effect.{Outcome, ok, err, panic, Exec, continue, pure, lift, reads, rethrow, ◌>>=◌}

-- An action that leaves the store as it is.
pub record Kept {S E A : Type 0} (m : Exec S E A) : Type 0 where
  pub same : (s : S) → (m s).1 ≡ s

module _ {S E A : Type 0} where
  pub pure-Kept : (a : A) → Kept {S = S} {E = E} (pure a)
  pure-Kept a = record { same = λ s. refl }

  pub lift-Kept : (r : Outcome E A) → Kept {S = S} (lift r)
  lift-Kept r = record { same = λ s. refl }

  pub reads-Kept : (f : S → Outcome E A) → Kept (reads f)
  reads-Kept f = record { same = λ s. refl }

  pub rethrow-Kept : {F : Type 0} (f : E → F) {m : Exec S E A} → Kept m → Kept (rethrow f m)
  rethrow-Kept f h = record { same = λ s. h.same s }

  pub if-Kept : (b : Bool) {m n : Exec S E A} → Kept m → Kept n → Kept (if b then m else n)
  if-Kept true h k = h
  if-Kept false h k = k

module _ {S E A B : Type 0} where
  pub continue-same :
      (r : Outcome E A) (k : A → Exec S E B) (s : S)
      → ((a : A) → Kept (k a))
      → (continue r k s).1 ≡ s
  continue-same (ok a) k s h = (h a).same s
  continue-same (err e) k s h = refl
  continue-same (panic text) k s h = refl

  pub bind-Kept :
      {m : Exec S E A} {k : A → Exec S E B} → Kept m → ((a : A) → Kept (k a)) → Kept (m >>= k)
  bind-Kept {m} {k} h rest = record { same = λ s. continue-same (m s).0 k (m s).1 rest ∙ h.same s }

pub ruleset kept_laws = (bind-Kept, pure-Kept, lift-Kept, reads-Kept, rethrow-Kept, if-Kept)
