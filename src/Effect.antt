-- ===== src/Effect.antt =====
-- Go functions that return `(T, error)`, panic, and write to the store.
pub mod Blocks
pub mod Kept
use inbox.Prelude.{String}

-- The result of a call of other code: a value, or an error of which only the text is known.
pub data Fallible {ℓ} (A : Type ℓ) : Type ℓ where
  value : A → Fallible A
  failure : String → Fallible A

-- The result of a function of the program: it returns a value or an error, or it panics.
pub data Outcome {ℓ} (E A : Type ℓ) : Type ℓ where
  ok : A → Outcome E A
  err : E → Outcome E A
  panic : String → Outcome E A

-- What was written before an error or a panic stays written, so the state comes back beside it.
abbrev pub Exec : Type 0 → Type 0 → Type 0 → Type 0
Exec S E A = S → Outcome E A × S

module _ {E A : Type 0} where
  abbrev pub of_fallible : (String → E) → Fallible A → Outcome E A
  of_fallible wrap (value a) = ok a
  of_fallible wrap (failure text) = err (wrap text)

  abbrev pub settle : Outcome E A → Outcome E (Unit {0})
  settle (ok a) = ok tt
  settle (err e) = ok tt
  settle (panic text) = panic text

  -- `if err != nil { return nil, f(err) }`
  abbrev pub map_err : {F : Type 0} → (E → F) → Outcome E A → Outcome F A
  map_err f (ok a) = ok a
  map_err f (err e) = err (f e)
  map_err f (panic text) = panic text

module _ {S E A : Type 0} where
  abbrev pub pure : A → Exec S E A
  pure a s = (ok a, s)

  abbrev pub raise : E → Exec S E A
  raise e s = (err e, s)

  -- a pure part
  abbrev pub lift : Outcome E A → Exec S E A
  lift r s = (r, s)

  -- a call that only reads the store
  abbrev pub reads : (S → Outcome E A) → Exec S E A
  reads f s = (f s, s)

  -- a call that writes to the store, its error wrapped
  abbrev pub calls : (String → E) → (S → Fallible A × S) → Exec S E A
  calls wrap f s = let (r, s') = f s in (of_fallible wrap r, s')

  -- `_ = f()`: an error is dropped, a panic is not.
  abbrev pub ignore : Exec S E A → Exec S E (Unit {0})
  ignore m s = let (r, s') = m s in (settle r, s')

  -- `if err != nil { return nil, f(err) }` around a call
  abbrev pub rethrow : {F : Type 0} → (E → F) → Exec S E A → Exec S F A
  rethrow f m s = let (r, s') = m s in (map_err f r, s')

module _ {E A B : Type 0} where
  abbrev pub and_then : Outcome E A → (A → Outcome E B) → Outcome E B
  and_then (ok a) f = f a
  and_then (err e) f = err e
  and_then (panic text) f = panic text

module _ {S E A B : Type 0} where
  abbrev pub continue : Outcome E A → (A → Exec S E B) → Exec S E B
  continue (ok a) f s = f a s
  continue (err e) f s = (err e, s)
  continue (panic text) f s = (panic text, s)

  infixl 10 ◌>>=◌ ◌>>◌
  abbrev pub ◌>>=◌ : Exec S E A → (A → Exec S E B) → Exec S E B
  ◌>>=◌ m f s = let (r, s') = m s in continue r f s'

  abbrev pub ◌>>◌ : Exec S E A → Exec S E B → Exec S E B
  m >> n = m >>= λ _. n
