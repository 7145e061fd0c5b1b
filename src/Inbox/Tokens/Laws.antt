-- ===== src/Inbox/Tokens/Laws.antt =====
-- The tokens of create.go do not depend on the case of the text.
use inbox.Prelude.{ℕ, Bytes, ◌≡◌, refl, ◌∙◌, ap, arith, [], ◌∷◌, map}
use inbox.Inbox.Tokens.{is_alpha_num, lower, Scan, scan_byte, scan, finish, tokenize}

is_alpha_num-lower : (c : ℕ) → is_alpha_num (lower c) ≡ is_alpha_num c
unfolding is_alpha_num lower
is_alpha_num-lower c = ground arith

lower-lower : (c : ℕ) → lower (lower c) ≡ lower c
unfolding lower
lower-lower c = ground arith

scan_byte-lower : (s : Scan) (c : ℕ) → scan_byte s (lower c) ≡ scan_byte s c
unfolding scan_byte
scan_byte-lower s c = ground arith

scan-map-lower : (s : Scan) (text : Bytes) → scan s (map lower text) ≡ scan s text
unfolding scan
scan-map-lower s [] = refl
scan-map-lower s (c ∷ text) =
    scan-map-lower (scan_byte s (lower c)) text ∙ ap (λ r. scan r text) (scan_byte-lower s c)

-- The tokens do not depend on the case of the letters of the text.
pub tokenize-map-lower : (text : Bytes) → tokenize (map lower text) ≡ tokenize text
unfolding tokenize
tokenize-map-lower [] = refl
tokenize-map-lower (c ∷ text) =
    ap finish (scan-map-lower (record { tokens = []; seen = []; word = [] }) (c ∷ text))
