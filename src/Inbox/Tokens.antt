-- ===== src/Inbox/Tokens.antt =====
-- `tokenize`, `isAlphaNum`, `lower` and `buildTokens` of create.go, over bytes.
pub mod Words
pub mod Laws
use inbox.Prelude.{
  ℕ, ◌+◌, Bytes, bytes, String, Bool, true, false, ◌&&◌, ◌||◌, List, [], ◌∷◌, ◌++◌, leb, nat_eq,
  is_nil, if◌then◌else◌,
}

unfoldable pub is_alpha_num : ℕ → Bool
is_alpha_num c =
    (leb b'a' c && leb c b'z') || (leb b'A' c && leb c b'Z') || (leb b'0' c && leb c b'9')

unfoldable pub lower : ℕ → ℕ
lower c = if leb b'A' c && leb c b'Z' then c + 32 else c

unfoldable pub bytes_eq : Bytes → Bytes → Bool
bytes_eq [] [] = true
bytes_eq (a ∷ s) (b ∷ t) = nat_eq a b && bytes_eq s t
bytes_eq _ _ = false

-- `seen[t]`, for the words that the map holds
unfoldable pub contains : Bytes → List Bytes → Bool
unfolding bytes_eq
contains t [] = false
contains t (u ∷ seen) = bytes_eq u t || contains t seen

-- the variables of the loop
pub record Scan : Type 0 where
  pub tokens : List Bytes
  pub seen : List Bytes
  pub word : Bytes

-- the end of a word: `if !seen[t] { ... }` and `word = word[:0]`
unfoldable end_word : Scan → Scan
unfolding contains
end_word s =
    if contains s.word s.seen
    then record s { word = [] }
    else record { tokens = s.tokens ++ s.word ∷ []; seen = s.word ∷ s.seen; word = [] }

-- one round
unfoldable pub scan_byte : Scan → ℕ → Scan
unfolding is_alpha_num lower end_word
scan_byte s c =
    if is_alpha_num c
    then record s { word = s.word ++ lower c ∷ [] }
    else if is_nil s.word
    then s
    else end_word s

unfoldable pub scan : Scan → Bytes → Scan
unfolding scan_byte
scan s [] = s
scan s (c ∷ text) = scan (scan_byte s c) text

-- what follows the loop
unfoldable pub finish : Scan → List Bytes
unfolding contains
finish s =
    if is_nil s.word
    then s.tokens
    else if contains s.word s.seen
    then s.tokens
    else s.tokens ++ s.word ∷ []

-- An empty text takes no round.
unfoldable pub tokenize : Bytes → List Bytes
unfolding scan finish
tokenize text =
    if is_nil text then [] else finish (scan (record { tokens = []; seen = []; word = [] }) text)

-- The entry of the map for a field, absent if there is no token.
abbrev pub token_entry : String → List Bytes → List (String × List Bytes)
token_entry field [] = []
token_entry field (t ∷ ts) = (field, t ∷ ts) ∷ []

unfoldable pub build_tokens : String → String → List (String × List Bytes)
unfolding tokenize
build_tokens title description =
    token_entry "title" (tokenize (bytes title))
    ++ token_entry "description" (tokenize (bytes description))
