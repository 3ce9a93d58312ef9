-- ===== src/Value/Decimal.antt =====
-- `String(n)` of an integer, and the texts that the program takes for decimal identifiers.
use vennek.Prelude.{
  ℕ, zero, suc, ◌-◌, ◌+◌, ◌*◌, ◌/◌, ◌%◌, ◌≤◌, ◌<◌, ◌≡◌, refl, ◌∙◌, sym, ap, Bool, true, false, ◌&&◌,
  [], ◌∷◌, Text, ltb, leb, if◌then◌else◌, arith, Bool-cases, inl, inr,
}
use vennek.Value.{ℤ, pos, negsuc}

show_from : ℕ → ℕ → Text → Text
show_from zero n rest = rest
show_from (suc fuel) n rest =
    let more = show_from fuel (n / 10) ((48 + n % 10) ∷ rest) in
    if ltb n 10 then (48 + n) ∷ rest else more

-- Every round divides by ten, so `n + 1` rounds are enough.
unfoldable pub decimal : ℕ → Text
unfolding show_from
decimal n = show_from (suc n) n []

unfoldable pub decimal_int : ℤ → Text
decimal_int (pos n) = decimal n
decimal_int (negsuc n) = 45 ∷ decimal (n + 1)

unfoldable pub is_digit : ℕ → Bool
is_digit c = leb 48 c && leb c 57

unfoldable pub all_digits : Text → Bool
unfolding is_digit
all_digits [] = true
all_digits (c ∷ s) = is_digit c && all_digits s

-- /^[1-9][0-9]*$/
unfoldable pub is_canonical : Text → Bool
unfolding all_digits
is_canonical [] = false
is_canonical (c ∷ s) = (leb 49 c && leb c 57) && all_digits s

-- `BigInt(s)` of a text of digits.
unfoldable pub value_from : ℕ → Text → ℕ
value_from acc [] = acc
value_from acc (c ∷ s) = value_from (10 * acc + (c - 48)) s

abbrev pub value_of : Text → ℕ
value_of s = value_from 0 s

value-show_from :
    (fuel n : ℕ) (rest : Text) → n < fuel → value_from 0 (show_from fuel n rest) ≡ value_from n rest
unfolding show_from value_from
value-show_from zero n rest h = elim h [ ]
value-show_from (suc fuel) n rest h = elim (Bool-cases (ltb n 10)) [
  | inl small ↦ rw small (ap (λ k. value_from k rest) (omega arith))
  | inr large ↦ rw large (
      value-show_from fuel (n / 10) ((48 + n % 10) ∷ rest) (ground arith)
      ∙ ap (λ k. value_from k rest) (omega arith))
]

canonical-show_from :
    (fuel n : ℕ) (rest : Text)
    → n < fuel
    → 1 ≤ n
    → all_digits rest ≡ true
    → is_canonical (show_from fuel n rest) ≡ true
unfolding show_from is_canonical
canonical-show_from zero n rest h p d = elim h [ ]
canonical-show_from (suc fuel) n rest h p d = elim (Bool-cases (ltb n 10)) [
  | inl small ↦ rw small (ground arith)
  | inr large ↦ rw large (
      canonical-show_from fuel (n / 10) ((48 + n % 10) ∷ rest) (ground arith) (ground arith)
        (ground arith))
]

-- The printed form of a number reads back as that number.
pub value_of-decimal : (n : ℕ) → value_of (decimal n) ≡ n
unfolding decimal value_from
value_of-decimal n = value-show_from (suc n) n [] (omega arith)

pub is_canonical-decimal : (n : ℕ) → 1 ≤ n → is_canonical (decimal n) ≡ true
unfolding decimal all_digits
is_canonical-decimal n p = canonical-show_from (suc n) n [] (omega arith) p refl

pub decimal_injective : (m n : ℕ) → decimal m ≡ decimal n → m ≡ n
decimal_injective m n e = sym (value_of-decimal m) ∙ ap value_of e ∙ value_of-decimal n
