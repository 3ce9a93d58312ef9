-- ===== src/Metadata/Lengths.antt =====
-- `boundedText` against a description by code points.
use vennek.Prelude.{
  ℕ, ◌+◌, ◌≤◌, ◌≡◌, ◌↔◌, refl, Bool, true, false, List, [], ◌∷◌, Text, length, arith,
}
use vennek.Unicode.{is_high, is_low, code_points, byte_length, any_control, pair_value}
use vennek.Metadata.Bounded.{scan, bounded_text}

-- No code point is a lone surrogate.
abbrev pub IsWellFormed : List ℕ → Type 0
IsWellFormed [] = Unit {0}
IsWellFormed (c ∷ cs) = (is_high c ≡ false) × (is_low c ≡ false) × IsWellFormed cs

pair_value_lem : (c d : ℕ) → (is_high (pair_value c d) ≡ false) × (is_low (pair_value c d) ≡ false)
unfolding is_high is_low
pair_value_lem c d = ground arith

abbrev Fits : ℕ → ℕ → List ℕ → Type 0
Fits most count cs = IsWellFormed cs × (count + length cs ≤ most)

scan_iff :
    (most count : ℕ) (s : Text)
    → count ≤ most
    → (scan most count s ≡ true) ↔ Fits most count (code_points s)
unfolding scan code_points
scan_iff most count [] le = (λ _. (tt, omega arith), λ _. refl)
scan_iff most count (c ∷ []) le = ground arith
scan_iff most count (c ∷ d ∷ s) le =
    ground
      (arith, pair_value_lem c d, scan_iff most (count + 1) s, scan_iff most (count + 1) (d ∷ s))

abbrev pub NoControls : Bool → List ℕ → Type 0
NoControls false cs = Unit {0}
NoControls true cs = any_control cs ≡ false

-- `boundedText` accepts exactly the texts without a lone surrogate that have at most
-- `max_code_points` code points and `max_bytes` bytes in UTF-8 and, where it is asked to reject
-- them, no control, format or separator character.
pub bounded_text_iff :
    (value : Text) (max_code_points max_bytes : ℕ) (reject : Bool)
    → (bounded_text value max_code_points max_bytes reject ≡ true) ↔ (
        IsWellFormed (code_points value)
        × (length (code_points value) ≤ max_code_points)
        × (byte_length value ≤ max_bytes)
        × NoControls reject (code_points value))
unfolding bounded_text
bounded_text_iff value max_code_points max_bytes true =
    ground (arith, scan_iff max_code_points 0 value)
bounded_text_iff value max_code_points max_bytes false =
    ground (arith, scan_iff max_code_points 0 value)
