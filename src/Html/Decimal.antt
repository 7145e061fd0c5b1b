-- ===== src/Html/Decimal.antt =====
-- The texts of numbers: `fmt.Sprintf("%d", n)` of a length or a count, and the ages of
-- ui/helpers.go.
use Prim.Native.Char.{code}
use Prim.Native.String.append
use inbox.Prelude.{
  ℕ, zero, suc, ◌+◌, ◌-◌, ◌*◌, ◌/◌, ◌%◌, ◌<◌, ltb, arith, String, ◌<>◌, ◌≡◌, ap, ◌∙◌, Bool-cases,
  inl, inr, if◌then◌else◌,
}

digit : ℕ → String
digit zero = "0"
digit (suc zero) = "1"
digit (suc (suc zero)) = "2"
digit (suc (suc (suc zero))) = "3"
digit (suc (suc (suc (suc zero)))) = "4"
digit (suc (suc (suc (suc (suc zero))))) = "5"
digit (suc (suc (suc (suc (suc (suc zero)))))) = "6"
digit (suc (suc (suc (suc (suc (suc (suc zero))))))) = "7"
digit (suc (suc (suc (suc (suc (suc (suc (suc zero)))))))) = "8"
digit _ = "9"

-- a number below the fuel has fewer digits
digits : ℕ → ℕ → String
unfolding digit
digits zero n = ""
digits (suc fuel) n =
    let rest = digits fuel (n / 10) <> digit (n % 10) in if ltb n 10 then digit n else rest

unfoldable pub decimal : ℕ → String
unfolding digits
decimal n = digits (suc n) n

-- the number that a text of digits spells behind `n`
abbrev read_digits : ℕ → String → ℕ
read_digits n String.[] = n
read_digits n (String.◌∷◌ c s) = read_digits (n * 10 + (code c - 48)) s

read_digits-append :
    (n : ℕ) (s t : String) → read_digits n (s <> t) ≡ read_digits (read_digits n s) t
read_digits-append n String.[] t = ap (read_digits n) (append.nil t)
read_digits-append n (String.◌∷◌ c s) t =
    ap (read_digits n) (append.cons c s t) ∙ read_digits-append (n * 10 + (code c - 48)) s t

read_digits-digit : (n d : ℕ) → d < 10 → read_digits n (digit d) ≡ n * 10 + d
unfolding digit
read_digits-digit n zero h = omega arith
read_digits-digit n (suc zero) h = omega arith
read_digits-digit n (suc (suc zero)) h = omega arith
read_digits-digit n (suc (suc (suc zero))) h = omega arith
read_digits-digit n (suc (suc (suc (suc zero)))) h = omega arith
read_digits-digit n (suc (suc (suc (suc (suc zero))))) h = omega arith
read_digits-digit n (suc (suc (suc (suc (suc (suc zero)))))) h = omega arith
read_digits-digit n (suc (suc (suc (suc (suc (suc (suc zero))))))) h = omega arith
read_digits-digit n (suc (suc (suc (suc (suc (suc (suc (suc zero)))))))) h = omega arith
read_digits-digit n (suc (suc (suc (suc (suc (suc (suc (suc (suc zero))))))))) h = omega arith
read_digits-digit n (suc (suc (suc (suc (suc (suc (suc (suc (suc (suc d)))))))))) h =
    absurd (omega arith)

read_digits-digits : (fuel n : ℕ) → n < fuel → read_digits 0 (digits fuel n) ≡ n
unfolding digits
read_digits-digits zero n h = absurd (omega arith)
read_digits-digits (suc fuel) n h = elim (Bool-cases (ltb n 10)) [
  | inl small ↦ rw small (read_digits-digit 0 n (ground arith) ∙ omega arith)
  | inr large ↦
      rw (large, read_digits-append 0 (digits fuel (n / 10)) (digit (n % 10)))
        (read_digits-digit _ (n % 10) (omega arith)
          ∙ (rw (read_digits-digits fuel (n / 10) (ground arith)) (omega arith)))
]

-- The decimal text of a number reads as the number.
read_digits-decimal : (n : ℕ) → read_digits 0 (decimal n) ≡ n
unfolding decimal
read_digits-decimal n = read_digits-digits (suc n) n (omega arith)
