-- ===== src/Inbox/Tokens/Words.antt =====
-- A description of the tokens of a text that does not follow the loop: the maximal runs of letters
-- and digits in lower case, each where it first occurs.
use inbox.Prelude.{
  arith, ℕ, ◌+◌, leb, nat_eq, ◌&&◌, Bool, Option, none, some, All, ◌≢◌, Bytes, ◌≡◌, refl, sym, ◌∙◌,
  ap, true, false, inl, inr, Bool-cases, List, [], ◌∷◌, ◌++◌, is_nil, append_assoc, append-nil,
  if◌then◌else◌,
}
use inbox.Inbox.Tokens.{
  is_alpha_num, lower, bytes_eq, contains, Scan, scan_byte, scan, finish, tokenize,
}

-- A byte as a word has it: a digit or a lower-case letter is itself, an upper-case letter is 32 more,
-- and any other byte is in no word.
unfoldable folded : ℕ → Option ℕ
folded c =
    if leb 48 c && leb c 57
    then some c
    else if leb 65 c && leb c 90
    then some (c + 32)
    else if leb 97 c && leb c 122
    then some c
    else none

-- the runs of a text that follows the unfinished run `word`
unfoldable pub runs : Bytes → Bytes → List Bytes
unfolding folded
runs word [] = if is_nil word then [] else word ∷ []
runs word (c ∷ text) = elim (folded c) [
  | some d ↦ runs (word ++ d ∷ []) text
  | none ↦ if is_nil word then runs [] text else word ∷ runs [] text
]

-- whether two words are the same, and whether a word is in a list
unfoldable same : Bytes → Bytes → Bool
same [] [] = true
same (a ∷ v) (b ∷ w) = let rest = same v w in if nat_eq a b then rest else false
same _ _ = false

unfoldable listed : Bytes → List Bytes → Bool
unfolding same
listed w [] = false
listed w (v ∷ seen) = let rest = listed w seen in if same v w then true else rest

-- the words that are not in `seen`, each once
unfoldable pub first_only : List Bytes → List Bytes → List Bytes
unfolding listed
first_only seen [] = []
first_only seen (w ∷ ws) =
    let kept = first_only (w ∷ seen) ws in
    let dropped = first_only seen ws in if listed w seen then dropped else w ∷ kept

-- no word occurs twice
abbrev pub Distinct : List Bytes → Type 0
Distinct [] = Unit
Distinct (w ∷ ws) = All (λ v. v ≢ w) ws × Distinct ws

bytes_eq-same : (v w : Bytes) → bytes_eq v w ≡ same v w
unfolding bytes_eq same
bytes_eq-same [] [] = refl
bytes_eq-same [] (b ∷ w) = refl
bytes_eq-same (a ∷ v) [] = refl
bytes_eq-same (a ∷ v) (b ∷ w) = ground (arith, bytes_eq-same v w)

contains-listed : (w : Bytes) (seen : List Bytes) → contains w seen ≡ listed w seen
unfolding contains listed
contains-listed w [] = refl
contains-listed w (v ∷ seen) = ground (arith, contains-listed w seen, bytes_eq-same v w)

same_refl : (w : Bytes) → same w w ≡ true
unfolding same
same_refl [] = refl
same_refl (a ∷ w) = ground (arith, same_refl w)

listed-head : (w : Bytes) (seen : List Bytes) → listed w (w ∷ seen) ≡ true
unfolding listed
listed-head w seen = rw same_refl refl

listed-tail : (w v : Bytes) (seen : List Bytes) → listed w seen ≡ true → listed w (v ∷ seen) ≡ true
unfolding listed
listed-tail w v seen h = ground arith

first_only-absent :
    (w : Bytes) (seen ws : List Bytes)
    → listed w seen ≡ true
    → All (λ v. v ≢ w) (first_only seen ws)
unfolding first_only
first_only-absent w seen [] h = tt
first_only-absent w seen (v ∷ ws) h = elim (Bool-cases (listed v seen)) [
  | inl old ↦ rw old (first_only-absent w seen ws h)
  | inr new ↦
      rw new (λ e. cc (new, h, e), first_only-absent w (v ∷ seen) ws (listed-tail w v seen h))
]

first_only-Distinct : (seen ws : List Bytes) → Distinct (first_only seen ws)
unfolding first_only
first_only-Distinct seen [] = tt
first_only-Distinct seen (w ∷ ws) = elim (Bool-cases (listed w seen)) [
  | inl old ↦ rw old (first_only-Distinct seen ws)
  | inr new ↦
      rw new
        (first_only-absent w (w ∷ seen) ws (listed-head w seen), first_only-Distinct (w ∷ seen) ws)
]

-- a byte of a word, and any other
folded-some : (c d : ℕ) → folded c ≡ some d → (is_alpha_num c ≡ true) × (lower c ≡ d)
unfolding folded is_alpha_num lower
folded-some c d h = ground arith

folded-none : (c : ℕ) → folded c ≡ none → is_alpha_num c ≡ false
unfolding folded is_alpha_num
folded-none c h = ground arith

abbrev state : List Bytes → List Bytes → Bytes → Scan
state tokens seen word = record { tokens = tokens; seen = seen; word = word }

finish-eq :
    (tokens seen : List Bytes) (word : Bytes)
    → finish (state tokens seen word) ≡ tokens ++ first_only seen (runs word [])
unfolding finish first_only runs
finish-eq tokens seen [] = sym (append-nil tokens)
finish-eq tokens seen (c ∷ word) = elim (Bool-cases (listed (c ∷ word) seen)) [
  | inl old ↦ rw (contains-listed, old) (sym (append-nil tokens))
  | inr new ↦ rw (contains-listed, new) refl
]

first_only_nil : [] ≡ first_only [] (runs [] [])
unfolding first_only runs
first_only_nil = refl

scan_letter :
    (c d : ℕ) (tokens seen : List Bytes) (word : Bytes)
    → folded c ≡ some d
    → scan_byte (state tokens seen word) c ≡ state tokens seen (word ++ d ∷ [])
unfolding scan_byte
scan_letter c d tokens seen word letter =
    let (is_letter, low) = folded-some c d letter in rw (is_letter, low) refl

runs_letter :
    (c d : ℕ) (text word : Bytes)
    → folded c ≡ some d
    → runs word (c ∷ text) ≡ runs (word ++ d ∷ []) text
unfolding runs
runs_letter c d text word letter = rw (runs, letter) refl

-- a byte that ends no word or the word `d ∷ word`
finish-scan_end :
    (c : ℕ) (text : Bytes) (tokens seen : List Bytes) (word : Bytes)
    → folded c ≡ none
    → ((ts ss : List Bytes)
        → finish (scan (state ts ss []) text) ≡ ts ++ first_only ss (runs [] text))
    → finish (scan (scan_byte (state tokens seen word) c) text)
      ≡ tokens ++ first_only seen (runs word (c ∷ text))
unfolding scan_byte runs first_only
finish-scan_end c text tokens seen [] e ih = rw (runs, e, folded-none c e) (ih tokens seen)
finish-scan_end c text tokens seen (d ∷ word) e ih = elim (Bool-cases (listed (d ∷ word) seen)) [
  | inl old ↦ rw (runs, e, folded-none c e, contains-listed, old) (ih tokens seen)
  | inr new ↦
      rw (runs, e, folded-none c e, contains-listed, new)
        (ih (tokens ++ (d ∷ word) ∷ []) ((d ∷ word) ∷ seen) ∙ append_assoc tokens _ _)
]

finish-scan_byte :
    (c : ℕ) (text : Bytes) (tokens seen : List Bytes) (word : Bytes)
    → ((ts ss : List Bytes) (w : Bytes)
        → finish (scan (state ts ss w) text) ≡ ts ++ first_only ss (runs w text))
    → (o : Option ℕ) → folded c ≡ o
    → finish (scan (scan_byte (state tokens seen word) c) text)
      ≡ tokens ++ first_only seen (runs word (c ∷ text))
finish-scan_byte c text tokens seen word ih (some d) letter =
    ap (λ s. finish (scan s text)) (scan_letter c d tokens seen word letter)
    ∙ ih tokens seen (word ++ d ∷ [])
    ∙ sym (ap (λ ws. tokens ++ first_only seen ws) (runs_letter c d text word letter))
finish-scan_byte c text tokens seen word ih none other =
    finish-scan_end c text tokens seen word other (λ ts ss. ih ts ss [])

-- The loop and what follows it, from any state.
finish-scan :
    (text : Bytes) (tokens seen : List Bytes) (word : Bytes)
    → finish (scan (state tokens seen word) text) ≡ tokens ++ first_only seen (runs word text)
unfolding scan
finish-scan [] tokens seen word = finish-eq tokens seen word
finish-scan (c ∷ text) tokens seen word =
    finish-scan_byte c text tokens seen word (finish-scan text) (folded c) refl

tokenize-eq : (text : Bytes) → tokenize text ≡ first_only [] (runs [] text)
unfolding tokenize
tokenize-eq [] = first_only_nil
tokenize-eq (c ∷ text) = finish-scan (c ∷ text) [] [] []

-- The tokens of a text are its maximal runs of ASCII letters and digits, with the letters in lower
-- case, each at its first occurrence; and no token occurs twice.
pub tokenize-eq-first_only :
    (text : Bytes) → (tokenize text ≡ first_only [] (runs [] text)) × Distinct (tokenize text)
tokenize-eq-first_only text =
    (tokenize-eq text, rw tokenize-eq (first_only-Distinct [] (runs [] text)))
