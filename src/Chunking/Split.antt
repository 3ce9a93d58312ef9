-- ===== src/Chunking/Split.antt =====
-- chunkDocument.ts, `splitProse` and `splitCode`: the loops that cut a long text. Their fuel is the
-- length of the text; `none` would mean that it ran out.
pub mod Ends
pub mod Sizes
pub mod Surrogates
pub mod Covers
use vennek.Prelude.{
  ℕ, zero, suc, ◌+◌, ◌-◌, Bool, true, false, not, ◌&&◌, Option, none, some, List, [], ◌∷◌, ◌++◌,
  Text, ltb, leb, if◌then◌else◌, length, take, drop, trim, trim_start, trim_end, starts_with,
}
use vennek.Chunking.Cuts.{last_index_of, prose_cut, safe_cut, suffix_safe}

abbrev pub max_prose_carry : ℕ
max_prose_carry = 150

-- `if (piece) pieces.push(piece)`, and `pieces.filter(Boolean)`.
unfoldable pub push_piece : Text → List Text → List Text
push_piece [] pieces = pieces
push_piece (c ∷ s) pieces = (c ∷ s) ∷ pieces

unfoldable pub push_before : Text → Option (List Text) → Option (List Text)
unfolding push_piece
push_before piece none = none
push_before piece (some pieces) = some (push_piece piece pieces)

-- What the next round of `splitProse` cuts: the end of the piece is repeated before the tail.
unfoldable pub carry_over : Text → Text → Text
unfolding starts_with
carry_over [] tail = tail
carry_over (c ∷ carry) tail =
    if not (starts_with tail (c ∷ carry)) then (c ∷ carry) ++ 10 ∷ tail else tail

unfoldable pub prose_piece : Text → ℕ → Text
unfolding trim_end
prose_piece remaining cut = trim_end (take cut remaining)

unfoldable pub prose_rest : Text → ℕ → Text
unfolding carry_over suffix_safe prose_piece trim_start
prose_rest remaining cut =
    carry_over (suffix_safe (prose_piece remaining cut) max_prose_carry)
      (trim_start (drop cut remaining))

-- The loop of `splitProse`.
unfoldable pub prose_pieces : ℕ → Text → ℕ → ℕ → Option (List Text)
unfolding safe_cut prose_cut prose_piece prose_rest push_before push_piece trim
prose_pieces zero remaining target hard_cap = none
prose_pieces (suc fuel) remaining target hard_cap = elim (ltb hard_cap (length remaining)) [
  | true ↦
      let cut = safe_cut remaining (prose_cut remaining target) in
      push_before (prose_piece remaining cut)
        (prose_pieces fuel (prose_rest remaining cut) target hard_cap)
  | false ↦ some (push_piece (trim remaining) [])
]

unfoldable pub split_prose : Text → ℕ → ℕ → Option (List Text)
unfolding prose_pieces
split_prose content target hard_cap =
    if leb (length content) hard_cap
    then some (content ∷ [])
    else prose_pieces (suc (length content)) content target hard_cap

-- `if (cut <= 0) cut = hardCap`.
unfoldable pub positive_or : Option ℕ → ℕ → ℕ
positive_or (some (suc i)) hard_cap = suc i
positive_or (some zero) hard_cap = hard_cap
positive_or none hard_cap = hard_cap

unfoldable pub code_cut : Text → ℕ → ℕ
unfolding safe_cut positive_or last_index_of
code_cut remaining hard_cap =
    safe_cut remaining (positive_or (last_index_of 10 remaining hard_cap) hard_cap)

-- The loop of `splitCode`; the empty pieces are left out at once.
unfoldable pub code_pieces : ℕ → Text → ℕ → Option (List Text)
unfolding code_cut push_before push_piece trim_end trim_start
code_pieces zero remaining hard_cap = none
code_pieces (suc fuel) remaining hard_cap = elim (ltb hard_cap (length remaining)) [
  | true ↦
      let cut = code_cut remaining hard_cap in
      push_before (trim_end (take cut remaining))
        (code_pieces fuel (trim_start (drop cut remaining)) hard_cap)
  | false ↦ some (push_piece remaining [])
]

unfoldable pub split_code : Text → ℕ → Option (List Text)
unfolding code_pieces
split_code content hard_cap =
    if leb (length content) hard_cap
    then some (content ∷ [])
    else code_pieces (suc (length content)) content hard_cap
