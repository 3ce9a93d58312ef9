-- ===== src/Unicode.antt =====
-- What the language says of code units and code points, as far as the program asks: surrogates,
-- `Buffer.byteLength(s, "utf8")`, and the classes `\p{Cc}`, `\p{Cf}`, `\p{Zl}` and `\p{Zp}`.
pub mod WellFormed
use vennek.Prelude.{
  ℕ, ◌+◌, ◌-◌, ◌*◌, Bool, true, false, ◌&&◌, ◌||◌, List, [], ◌∷◌, Text, ltb, leb, ◌==◌,
  if◌then◌else◌,
}

unfoldable pub is_high : ℕ → Bool
is_high c = leb 0xd800 c && leb c 0xdbff

unfoldable pub is_low : ℕ → Bool
is_low c = leb 0xdc00 c && leb c 0xdfff

abbrev pub pair_value : ℕ → ℕ → ℕ
pair_value high low = 0x10000 + (high - 0xd800) * 0x400 + (low - 0xdc00)

-- The code points of a text, as a `/u` pattern walks it: a lone surrogate stands for itself.
unfoldable pub code_points : Text → List ℕ
code_points [] = []
code_points (c ∷ []) = c ∷ []
code_points (c ∷ d ∷ s) = elim (is_high c && is_low d) [
  | true ↦ pair_value c d ∷ code_points s
  | false ↦ c ∷ code_points (d ∷ s)
]

-- Bytes of one code point in UTF-8; a lone surrogate becomes U+FFFD, three bytes.
unfoldable pub point_bytes : ℕ → ℕ
point_bytes c = if ltb c 0x80 then 1 else if ltb c 0x800 then 2 else if ltb c 0x10000 then 3 else 4

unfoldable pub bytes_of : List ℕ → ℕ
unfolding point_bytes
bytes_of [] = 0
bytes_of (c ∷ cs) = point_bytes c + bytes_of cs

unfoldable pub byte_length : Text → ℕ
unfolding bytes_of code_points
byte_length s = bytes_of (code_points s)

abbrev between : ℕ → ℕ → ℕ → Bool
between lo hi c = leb lo c && leb c hi

-- General category Cf, by ranges.
unfoldable pub is_format : ℕ → Bool
is_format c =
    c == 0xad
    || between 0x600 0x605 c
    || c == 0x61c
    || c == 0x6dd
    || c == 0x70f
    || between 0x890 0x891 c
    || c == 0x8e2
    || c == 0x180e
    || between 0x200b 0x200f c
    || between 0x202a 0x202e c
    || between 0x2060 0x2064 c
    || between 0x2066 0x206f c
    || c == 0xfeff
    || between 0xfff9 0xfffb c
    || c == 0x110bd
    || c == 0x110cd
    || between 0x13430 0x1343f c
    || between 0x1bca0 0x1bca3 c
    || between 0x1d173 0x1d17a c
    || c == 0xe0001
    || between 0xe0020 0xe007f c

-- \p{Cc}, \p{Cf}, \p{Zl} or \p{Zp}.
unfoldable pub is_control : ℕ → Bool
unfolding is_format
is_control c = leb c 0x1f || between 0x7f 0x9f c || is_format c || c == 0x2028 || c == 0x2029

unfoldable pub any_control : List ℕ → Bool
unfolding is_control
any_control [] = false
any_control (c ∷ cs) = is_control c || any_control cs
