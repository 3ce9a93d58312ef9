-- ===== src/Metadata/Bounded.antt =====
-- `boundedText`, `boundedFileName` and `boundedMime`.
use vennek.Prelude.{
  ℕ, ◌+◌, Bool, true, false, ◌&&◌, ◌||◌, not, [], ◌∷◌, Text, leb, trim, same, codes, includes,
  length,
}
use vennek.Unicode.{is_high, is_low, code_points, byte_length, any_control}

-- The loop: no lone surrogate, and never more than `most` code points.
unfoldable pub scan : (most count : ℕ) → Text → Bool
scan most count [] = true
scan most count (c ∷ []) = not (is_high c || is_low c) && leb (count + 1) most
scan most count (c ∷ d ∷ s) = elim (is_high c) [
  | true ↦ elim (is_low d && leb (count + 1) most) [
    | true ↦ scan most (count + 1) s
    | false ↦ false
  ]
  | false ↦ elim (not (is_low c) && leb (count + 1) most) [
    | true ↦ scan most (count + 1) (d ∷ s)
    | false ↦ false
  ]
]

unfoldable pub bounded_text :
    Text → (max_code_points max_bytes : ℕ) → (reject_controls : Bool) → Bool
bounded_text value max_code_points max_bytes reject_controls =
    scan max_code_points 0 value
    && (leb (byte_length value) max_bytes
        && (not reject_controls || not (any_control (code_points value))))

abbrev pub max_file_name_bytes : ℕ
max_file_name_bytes = 512

abbrev pub max_mime_bytes : ℕ
max_mime_bytes = 128

unfoldable pub is_blank : Text → Bool
unfolding trim
is_blank s = leb (length (trim s)) 0

unfoldable pub bounded_file_name : Text → Bool
unfolding bounded_text is_blank includes same
bounded_file_name value =
    bounded_text value max_file_name_bytes max_file_name_bytes true
    && (not (is_blank value)
        && (not (includes value (codes "/"))
            && (not (includes value (codes "\\"))
                && (not (same value (codes ".")) && not (same value (codes ".."))))))

unfoldable pub bounded_mime : Text → Bool
unfolding bounded_text is_blank trim same
bounded_mime value =
    bounded_text value max_mime_bytes max_mime_bytes true
    && (not (is_blank value) && same (trim value) value)
