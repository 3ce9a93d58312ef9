-- ===== src/Chunking/Split/Ends.antt =====
-- chunkDocument.ts: the end of the loops of `splitProse` and `splitCode`, and a rule for all of their
-- pieces.
use vennek.Prelude.{
  ℕ, zero, suc, ◌+◌, ◌-◌, ◌≤◌, ◌<◌, inl, inr, Option, none, some, List, [], ◌∷◌, Text, ltb, arith,
  length, take, drop, trim_start, trim_end, leb, ltb→lt, leb→le, trim, length-append, length-drop,
  Bool-cases,
}
use vennek.Prelude.Spaces.{length-trim_start-le}
use vennek.Prelude.Every.{All}
use vennek.Chunking.Cuts.{prose_cut, safe_cut, suffix_safe, last_index_of}
use vennek.Chunking.Cuts.Bounds.{prose_cut_bounds, safe_cut_bounds, length-suffix_safe-le}
use vennek.Chunking.Split.{
  max_prose_carry, push_piece, push_before, carry_over, prose_piece, prose_rest, prose_pieces,
  split_prose, positive_or, code_cut, code_pieces, split_code,
}

length-carry_over-le :
    (carry tail : Text) → length (carry_over carry tail) ≤ length carry + 1 + length tail
unfolding carry_over
length-carry_over-le [] tail = omega arith
length-carry_over-le (c ∷ carry) tail = ground (arith, length-append (c ∷ carry) (10 ∷ tail))

length-prose_rest-le :
    (remaining : Text) (cut : ℕ)
    → length (prose_rest remaining cut) ≤ max_prose_carry + 1 + (length remaining - cut)
unfolding prose_rest
length-prose_rest-le remaining cut = omega (
  arith,
  length-carry_over-le (suffix_safe (prose_piece remaining cut) max_prose_carry)
      (trim_start (drop cut remaining)),
  length-suffix_safe-le (prose_piece remaining cut) max_prose_carry,
  length-trim_start-le (drop cut remaining),
  length-drop cut remaining,
)

pub prose_rest-lt :
    (remaining : Text) (target hard_cap : ℕ)
    → 306 ≤ target
    → target ≤ hard_cap
    → hard_cap < length remaining
    → length (prose_rest remaining (safe_cut remaining (prose_cut remaining target)))
      < length remaining
prose_rest-lt remaining target hard_cap wide below long = omega (
  arith,
  length-prose_rest-le remaining (safe_cut remaining (prose_cut remaining target)),
  safe_cut_bounds remaining (prose_cut remaining target),
  prose_cut_bounds remaining target,
)

pub code_rest-lt :
    (remaining : Text) (hard_cap : ℕ)
    → 0 < hard_cap
    → hard_cap < length remaining
    → length (trim_start (drop (code_cut remaining hard_cap) remaining)) < length remaining
unfolding code_cut
code_rest-lt remaining hard_cap some_cap long =
    let requested = positive_or (last_index_of 10 remaining hard_cap) hard_cap in
    omega (
      arith,
      length-trim_start-le (drop (safe_cut remaining requested) remaining),
      length-drop (safe_cut remaining requested) remaining,
      safe_cut_bounds remaining requested,
    )

-- There is a result, and each of its pieces has the property.
abbrev pub Parts : (Text → Type 0) → Option (List Text) → Type 0
Parts P none = ⊥
Parts P (some pieces) = All P pieces

push_piece-All :
    (P : Text → Type 0) (piece : Text) (pieces : List Text)
    → P piece
    → All P pieces
    → All P (push_piece piece pieces)
unfolding push_piece
push_piece-All P [] pieces hp hps = hps
push_piece-All P (c ∷ s) pieces hp hps = (hp, hps)

push_before-Parts :
    (P : Text → Type 0) (piece : Text) (r : Option (List Text))
    → P piece
    → Parts P r
    → Parts P (push_before piece r)
unfolding push_before
push_before-Parts P piece none hp hr = hr
push_before-Parts P piece (some pieces) hp hr = push_piece-All P piece pieces hp hr

-- The cut that a round of `splitProse` makes.
abbrev pub round_cut : Text → ℕ → ℕ
round_cut remaining target = safe_cut remaining (prose_cut remaining target)

-- The rule of the loop of `splitProse`: what a round keeps of the rest, and gives to its piece. The
-- loop ends, where the target is over twice the carry.
module _ (W P : Text → Type 0) (target hard_cap : ℕ) (wide : 306 ≤ target)
    (below : target ≤ hard_cap) (whole : (s : Text) → W s → length s ≤ hard_cap → P s)
    (last : (s : Text) → W s → length s ≤ hard_cap → P (trim s))
    (piece : (s : Text) → W s → hard_cap < length s → P (prose_piece s (round_cut s target)))
    (rest : (s : Text) → W s → hard_cap < length s → W (prose_rest s (round_cut s target))) where
  prose_pieces-Parts :
      (fuel : ℕ) (remaining : Text)
      → length remaining < fuel
      → W remaining
      → Parts P (prose_pieces fuel remaining target hard_cap)
  unfolding prose_pieces
  prose_pieces-Parts zero remaining enough w = absurd (omega arith)
  prose_pieces-Parts (suc fuel) remaining enough w =
      elim (Bool-cases (ltb hard_cap (length remaining))) [
        | inl test ↦
            let long = ltb→lt hard_cap (length remaining) test in
            let shorter = prose_rest-lt remaining target hard_cap wide below long in
            let cut = round_cut remaining target in
            rw (prose_pieces, test)
              (push_before-Parts P (prose_piece remaining cut)
                (prose_pieces fuel (prose_rest remaining cut) target hard_cap)
                (piece remaining w long)
                (prose_pieces-Parts fuel (prose_rest remaining cut) (omega arith)
                  (rest remaining w long)))
        | inr short ↦
            rw (prose_pieces, short)
              (push_piece-All P (trim remaining) [] (last remaining w (ground arith)) tt)
      ]

  pub split_prose-Parts :
      (content : Text) → W content → Parts P (split_prose content target hard_cap)
  unfolding split_prose
  split_prose-Parts content w = elim (Bool-cases (leb (length content) hard_cap)) [
    | inl short ↦ rw short (whole content w (leb→le (length content) hard_cap short), tt)
    | inr long ↦ rw long (prose_pieces-Parts (suc (length content)) content (omega arith) w)
  ]

-- The rule of the loop of `splitCode`.
module _ (W P : Text → Type 0) (hard_cap : ℕ) (some_cap : 0 < hard_cap)
    (whole : (s : Text) → W s → length s ≤ hard_cap → P s)
    (piece : (s : Text) → W s → hard_cap < length s → P (trim_end (take (code_cut s hard_cap) s)))
    (rest : (s : Text)
      → W s
      → hard_cap < length s
      → W (trim_start (drop (code_cut s hard_cap) s))) where
  code_pieces-Parts :
      (fuel : ℕ) (remaining : Text)
      → length remaining < fuel
      → W remaining
      → Parts P (code_pieces fuel remaining hard_cap)
  unfolding code_pieces
  code_pieces-Parts zero remaining enough w = absurd (omega arith)
  code_pieces-Parts (suc fuel) remaining enough w =
      elim (Bool-cases (ltb hard_cap (length remaining))) [
        | inl test ↦
            let long = ltb→lt hard_cap (length remaining) test in
            let shorter = code_rest-lt remaining hard_cap some_cap long in
            let tail = trim_start (drop (code_cut remaining hard_cap) remaining) in
            rw (code_pieces, test)
              (push_before-Parts P (trim_end (take (code_cut remaining hard_cap) remaining))
                (code_pieces fuel tail hard_cap) (piece remaining w long)
                (code_pieces-Parts fuel tail (omega arith) (rest remaining w long)))
        | inr short ↦
            rw (code_pieces, short)
              (push_piece-All P remaining [] (whole remaining w (ground arith)) tt)
      ]

  pub split_code-Parts : (content : Text) → W content → Parts P (split_code content hard_cap)
  unfolding split_code
  split_code-Parts content w = elim (Bool-cases (leb (length content) hard_cap)) [
    | inl short ↦ rw short (whole content w (leb→le (length content) hard_cap short), tt)
    | inr long ↦ rw long (code_pieces-Parts (suc (length content)) content (omega arith) w)
  ]
