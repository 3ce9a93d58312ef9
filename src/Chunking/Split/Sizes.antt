-- ===== src/Chunking/Split/Sizes.antt =====
-- chunkDocument.ts: the lengths of the pieces of `splitProse` and `splitCode`.
use vennek.Prelude.{
  ℕ, suc, zero, ◌≤◌, ◌<◌, Option, none, some, Text, arith, length, take, length-take,
}
use vennek.Prelude.Spaces.{length-trim_end-le, length-trim-le}
use vennek.Chunking.Cuts.{prose_cut, last_index_of}
use vennek.Chunking.Cuts.Bounds.{AtMost, last_index_of-AtMost, prose_cut_bounds, safe_cut_bounds}
use vennek.Chunking.Split.{prose_piece, split_prose, positive_or, code_cut, split_code}
use vennek.Chunking.Split.Ends.{Parts, round_cut}
use vennek.Chunking.Split.Ends

abbrev pub Within : ℕ → Text → Type 0
Within n s = length s ≤ n

length-prose_piece-le :
    (remaining : Text) (target : ℕ)
    → 0 < target
    → target < length remaining
    → length (prose_piece remaining (round_cut remaining target)) ≤ target
unfolding prose_piece
length-prose_piece-le remaining target some_target long =
    let cut = round_cut remaining target in
    omega (
      arith,
      length-trim_end-le (take cut remaining),
      length-take cut remaining,
      safe_cut_bounds remaining (prose_cut remaining target),
      prose_cut_bounds remaining target,
    )

positive_or-le :
    (o : Option ℕ) (hard_cap : ℕ) → AtMost hard_cap o → positive_or o hard_cap ≤ hard_cap
unfolding positive_or
positive_or-le none hard_cap h = omega arith
positive_or-le (some zero) hard_cap h = omega arith
positive_or-le (some (suc i)) hard_cap h = h

code_cut-le :
    (remaining : Text) (hard_cap : ℕ)
    → 0 < hard_cap
    → hard_cap < length remaining
    → code_cut remaining hard_cap ≤ hard_cap
unfolding code_cut
code_cut-le remaining hard_cap some_cap long = omega (
  arith,
  safe_cut_bounds remaining (positive_or (last_index_of 10 remaining hard_cap) hard_cap),
  positive_or-le (last_index_of 10 remaining hard_cap) hard_cap
      (last_index_of-AtMost 10 remaining hard_cap),
)

pub split_prose-Within :
    (content : Text) (target hard_cap : ℕ)
    → 306 ≤ target
    → target ≤ hard_cap
    → Parts (Within hard_cap) (split_prose content target hard_cap)
split_prose-Within content target hard_cap wide below =
    Ends.split_prose-Parts (λ _. Unit {0}) (Within hard_cap) target hard_cap wide below
      (λ s _ short. short) (λ s _ short. omega (arith, length-trim-le s))
      (λ s _ long. omega (arith, length-prose_piece-le s target)) (λ _ _ _. tt) content tt

pub split_code-Within :
    (content : Text) (hard_cap : ℕ)
    → 0 < hard_cap
    → Parts (Within hard_cap) (split_code content hard_cap)
split_code-Within content hard_cap some_cap =
    Ends.split_code-Parts (λ _. Unit {0}) (Within hard_cap) hard_cap some_cap (λ s _ short. short)
      (λ s _ long. omega (
        arith,
        length-trim_end-le (take (code_cut s hard_cap) s),
        length-take (code_cut s hard_cap) s,
        code_cut-le s hard_cap some_cap long,
      ))
      (λ _ _ _. tt) content tt
