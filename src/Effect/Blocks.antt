-- ===== src/Effect/Blocks.antt =====
-- Reading a block backwards: what a success shows of its first call.
use inbox.Prelude.{◌⊎◌, inl, inr, ap, String, ◌≡◌, ◌≢◌, refl, Bool, true, false, if◌then◌else◌}
use inbox.Effect.{
  Fallible, value, failure, Outcome, ok, err, panic, of_fallible, and_then, pure, raise, continue,
  settle, map_err,
}

module _ {S E A B : Type 0} where
  pub continue-ok :
      (r : Outcome E A) (k : A → S → Outcome E B × S) (s : S) {b : B}
      → (continue r k s).0 ≡ ok b
      → (a : A) × (r ≡ ok a) × (continue r k s ≡ k a s) × ((k a s).0 ≡ ok b)
  continue-ok (ok a) k s h = (a, refl, refl, h)
  continue-ok (err e) k s h = cc
  continue-ok (panic text) k s h = cc

pub of_fallible-ok :
    {E A : Type 0} (wrap : String → E) (r : Fallible A) {a : A}
    → of_fallible wrap r ≡ ok a
    → r ≡ value a
of_fallible-ok wrap (value a) h = cc
of_fallible-ok wrap (failure text) h = cc

-- a block that ends in a write and a `return`
pub pure-ok :
    {S E B : Type 0} (wrap : String → E) (r : Fallible (Unit {0})) (b : B) (t : S) {b' : B}
    → (continue (of_fallible wrap r) (λ _. pure b) t).0 ≡ ok b'
    → (r ≡ value tt) × (b ≡ b') × (continue (of_fallible wrap r) (λ _. pure b) t ≡ (ok b, t))
pure-ok wrap (value tt) b t h = (refl, cc, refl)
pure-ok wrap (failure text) b t h = cc

-- An action that does not succeed and changes nothing.
abbrev pub Refused : {S E B : Type 0} → Outcome E B × S → S → Type 0
Refused {B} r s = ((b : B) → r.0 ≢ ok b) × (r.1 ≡ s)

module _ {S E A B : Type 0} where
  pub continue-Refused :
      (r : Outcome E A) (k : A → S → Outcome E B × S) (s : S)
      → ((a : A) → r ≡ ok a → Refused (k a s) s)
      → Refused (continue r k s) s
  continue-Refused (ok a) k s h = h a refl
  continue-Refused (err e) k s h = (λ b. cc, refl)
  continue-Refused (panic text) k s h = (λ b. cc, refl)

module _ {S E B : Type 0} where
  pub if-Refused :
      (b : Bool) (m n : S → Outcome E B × S) (s : S)
      → (b ≡ true → Refused (m s) s)
      → (b ≡ false → Refused (n s) s)
      → Refused ((if b then m else n) s) s
  if-Refused true m n s e f = e refl
  if-Refused false m n s e f = f refl

module _ {S E B : Type 0} where
  -- guards: `if !test { return err }` and `if test { return err }`
  pub then-ok :
      (b : Bool) (m : S → Outcome E B × S) (e : E) (s : S) {x : B}
      → ((if b then m else raise e) s).0 ≡ ok x
      → (b ≡ true) × ((if b then m else raise e) s ≡ m s)
  then-ok true m e s h = (refl, refl)
  then-ok false m e s h = cc

  pub else-ok :
      (b : Bool) (m : S → Outcome E B × S) (e : E) (s : S) {x : B}
      → ((if b then raise e else m) s).0 ≡ ok x
      → (b ≡ false) × ((if b then raise e else m) s ≡ m s)
  else-ok true m e s h = cc
  else-ok false m e s h = (refl, refl)

pub and_then-ok :
    {E A B : Type 0} (r : Outcome E A) (f : A → Outcome E B) {b : B}
    → and_then r f ≡ ok b
    → (a : A) × (r ≡ ok a) × (f a ≡ ok b)
and_then-ok (ok a) f h = (a, refl, h)
and_then-ok (err e) f h = cc
and_then-ok (panic text) f h = cc

-- no panic, of a pure part and of an action
pub record NoPanic {E A : Type 0} (r : Outcome E A) : Type 0 where
  pub no_text : (text : String) → r ≢ panic text

pub record Safe {S E A : Type 0} (r : Outcome E A × S) : Type 0 where
  pub no_text : (text : String) → r.0 ≢ panic text

pub ok-NoPanic : {E A : Type 0} (a : A) → NoPanic {E = E} (ok a)
ok-NoPanic a = record { no_text = λ text. cc }

pub of_fallible-NoPanic :
    {E A : Type 0} (wrap : String → E) (r : Fallible A) → NoPanic (of_fallible wrap r)
of_fallible-NoPanic wrap (value a) = record { no_text = λ text. cc }
of_fallible-NoPanic wrap (failure t) = record { no_text = λ text. cc }

module _ {S E A B : Type 0} where
  pub continue-Safe :
      (r : Outcome E A) (k : A → S → Outcome E B × S) (s : S)
      → NoPanic r
      → ((a : A) → r ≡ ok a → Safe (k a s))
      → Safe (continue r k s)
  continue-Safe (ok a) k s h rest = rest a refl
  continue-Safe (err e) k s h rest = record { no_text = λ text. cc }
  continue-Safe (panic t) k s h rest = absurd (h.no_text t refl)

module _ {S E B : Type 0} where
  pub pure-Safe : (b : B) (s : S) → Safe {E = E} (ok b, s)
  pure-Safe b s = record { no_text = λ text. cc }

  pub raise-Safe : (e : E) (s : S) → Safe {A = B} (err e, s)
  raise-Safe e s = record { no_text = λ text. cc }

  pub if-Safe :
      (b : Bool) (m n : S → Outcome E B × S) (s : S)
      → Safe (m s)
      → Safe (n s)
      → Safe ((if b then m else n) s)
  if-Safe true m n s e f = e
  if-Safe false m n s e f = f

  pub Safe-NoPanic : {r : Outcome E B × S} → Safe r → NoPanic r.0
  Safe-NoPanic h = record { no_text = h.no_text }

pub settle-Safe : {S E A : Type 0} (r : Outcome E A) (s : S) → NoPanic r → Safe (settle r, s)
settle-Safe (ok a) s h = record { no_text = λ text. cc }
settle-Safe (err e) s h = record { no_text = λ text. cc }
settle-Safe (panic t) s h = absurd (h.no_text t refl)

pub map_err-NoPanic :
    {E F A : Type 0} (f : E → F) (r : Outcome E A) → NoPanic r → NoPanic (map_err f r)
map_err-NoPanic f (ok a) h = record { no_text = λ text. cc }
map_err-NoPanic f (err e) h = record { no_text = λ text. cc }
map_err-NoPanic f (panic t) h = absurd (h.no_text t refl)

pub ok-same : {E A : Type 0} {a b : A} → ◌≡◌ {A = Outcome E A} (ok a) (ok b) → a ≡ b
ok-same h = cc

pub map_err-ok :
    {E F A : Type 0} (f : E → F) (r : Outcome E A) {a : A} → map_err f r ≡ ok a → r ≡ ok a
map_err-ok f (ok b) h = cc
map_err-ok f (err e) h = cc
map_err-ok f (panic text) h = cc

module _ {S E A B : Type 0} where
  -- where the error of a block came from
  pub continue-err :
      (r : Outcome E A) (k : A → S → Outcome E B × S) (s : S) {e : E}
      → (continue r k s).0 ≡ err e
      → (r ≡ err e) ⊎ ((a : A) × (r ≡ ok a) × (continue r k s ≡ k a s))
  continue-err (ok a) k s h = inr (a, refl, refl)
  continue-err (err e) k s h = inl (ap (λ x. x) cc)
  continue-err (panic text) k s h = cc
