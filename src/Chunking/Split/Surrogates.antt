-- ===== src/Chunking/Split/Surrogates.antt =====
-- chunkDocument.ts: surrogate pairs in the pieces of a text.
use vennek.Prelude.{
  ℕ, zero, suc, ◌≤◌, ◌<◌, ◌≡◌, refl, sym, ap, ◌∙◌, Bool, true, false, not, ◌==◌, ==_iff, Option,
  none, some, [], ◌∷◌, ◌++◌, Text, arith, length, take, drop, get_elem?, trim_start, starts_with,
}
use mathlib.Core.Path.{subst}
use vennek.Unicode.{is_low}
use vennek.Unicode.WellFormed.{
  IsWellFormed, append-IsWellFormed, newline-IsWellFormed, if-IsWellFormed, trim_start-IsWellFormed,
  trim_end-IsWellFormed, trim-IsWellFormed,
}
use vennek.Chunking.Cuts.{unit_at, prose_cut, safe_cut, suffix_safe, last_index_of, later_index}
use vennek.Chunking.Cuts.Bounds.{prose_cut_bounds}
use vennek.Chunking.Cuts.Surrogates.{
  IsCut, IsCut-parts, before-IsCut, safe_cut-IsCut, suffix_safe-IsWellFormed,
}
use vennek.Chunking.Split.{
  max_prose_carry, carry_over, prose_piece, prose_rest, split_prose, positive_or, code_cut,
  split_code,
}
use vennek.Chunking.Split.Ends.{Parts, round_cut}
use vennek.Chunking.Split.Ends

carry_over-IsWellFormed :
    (carry tail : Text)
    → IsWellFormed carry
    → IsWellFormed tail
    → IsWellFormed (carry_over carry tail)
unfolding carry_over
carry_over-IsWellFormed [] tail hc ht = ht
carry_over-IsWellFormed (c ∷ carry) tail hc ht =
    if-IsWellFormed (not (starts_with tail (c ∷ carry))) ((c ∷ carry) ++ 10 ∷ tail) tail
      (append-IsWellFormed (c ∷ carry) (10 ∷ tail) hc (newline-IsWellFormed tail ht)) ht

prose_piece-IsWellFormed : (s : Text) (cut : ℕ) → IsCut cut s → IsWellFormed (prose_piece s cut)
unfolding prose_piece
prose_piece-IsWellFormed s cut h = trim_end-IsWellFormed (take cut s) h

prose_rest-IsWellFormed :
    (s : Text) (cut : ℕ) → IsWellFormed s → IsCut cut s → IsWellFormed (prose_rest s cut)
unfolding prose_rest
prose_rest-IsWellFormed s cut h c =
    carry_over-IsWellFormed (suffix_safe (prose_piece s cut) max_prose_carry)
      (trim_start (drop cut s))
      (suffix_safe-IsWellFormed (prose_piece s cut) max_prose_carry
        (prose_piece-IsWellFormed s cut c))
      (trim_start-IsWellFormed (drop cut s) (IsCut-parts cut s h c))

round_cut-IsCut :
    (s : Text) (target : ℕ)
    → 306 ≤ target
    → target < length s
    → IsWellFormed s
    → IsCut (round_cut s target) s
round_cut-IsCut s target wide long h =
    let far = prose_cut_bounds s target long in
    safe_cut-IsCut s (prose_cut s target) h (omega arith) (omega arith)

pub split_prose-IsWellFormed :
    (content : Text) (target hard_cap : ℕ)
    → 306 ≤ target
    → target ≤ hard_cap
    → IsWellFormed content
    → Parts IsWellFormed (split_prose content target hard_cap)
split_prose-IsWellFormed content target hard_cap wide below h =
    Ends.split_prose-Parts IsWellFormed IsWellFormed target hard_cap wide below (λ s w short. w)
      (λ s w short. trim-IsWellFormed s w)
      (λ s w long.
        prose_piece-IsWellFormed s (round_cut s target)
          (round_cut-IsCut s target wide (omega arith) w))
      (λ s w long.
        prose_rest-IsWellFormed s (round_cut s target) w
          (round_cut-IsCut s target wide (omega arith) w))
      content h

-- What `lastIndexOf` finds stands there.
abbrev Finds : ℕ → Text → Option ℕ → Type 0
Finds c s none = Unit {0}
Finds c s (some i) = get_elem? s i ≡ some c

later_index-Finds :
    (c x : ℕ) (s : Text) (o : Option ℕ) (here : Bool)
    → (here ≡ true → x ≡ c)
    → Finds c s o
    → Finds c (x ∷ s) (later_index o here)
unfolding later_index
later_index-Finds c x s (some i) here e h = h
later_index-Finds c x s none true e h = ap some (e refl)
later_index-Finds c x s none false e h = tt

last_index_of-Finds : (c : ℕ) (s : Text) (from : ℕ) → Finds c s (last_index_of c s from)
unfolding last_index_of
last_index_of-Finds c [] from = tt
last_index_of-Finds c (x ∷ s) zero = later_index-Finds c x s none (x == c) (==_iff x c).0 tt
last_index_of-Finds c (x ∷ s) (suc from) =
    later_index-Finds c x s (last_index_of c s from) (x == c) (==_iff x c).0
      (last_index_of-Finds c s from)

newline_not_low : unit_at is_low (some 10) ≡ false
unfolding unit_at is_low
newline_not_low = refl

safe_cut_one : (s : Text) → 1 < length s → safe_cut s 1 ≡ 1
unfolding safe_cut
safe_cut_one s long = ground arith

-- `cut <= 0 ? hardCap : cut` before `safeCut`.
positive_or-IsCut :
    (s : Text) (o : Option ℕ) (hard_cap : ℕ)
    → 2 ≤ hard_cap
    → 2 < length s
    → IsWellFormed s
    → Finds 10 s o
    → IsCut (safe_cut s (positive_or o hard_cap)) s
unfolding positive_or
positive_or-IsCut s none hard_cap wide long h found = safe_cut-IsCut s hard_cap h long wide
positive_or-IsCut s (some zero) hard_cap wide long h found = safe_cut-IsCut s hard_cap h long wide
positive_or-IsCut s (some (suc zero)) hard_cap wide long h found =
    subst (λ k. IsCut k s) (sym (safe_cut_one s (omega arith)))
      (before-IsCut 1 s h (ap (unit_at is_low) found ∙ newline_not_low))
positive_or-IsCut s (some (suc (suc i))) hard_cap wide long h found =
    safe_cut-IsCut s (suc (suc i)) h long (omega arith)

code_cut-IsCut :
    (s : Text) (hard_cap : ℕ)
    → 2 ≤ hard_cap
    → hard_cap < length s
    → IsWellFormed s
    → IsCut (code_cut s hard_cap) s
unfolding code_cut
code_cut-IsCut s hard_cap wide long h =
    positive_or-IsCut s (last_index_of 10 s hard_cap) hard_cap wide (omega arith) h
      (last_index_of-Finds 10 s hard_cap)

pub split_code-IsWellFormed :
    (content : Text) (hard_cap : ℕ)
    → 2 ≤ hard_cap
    → IsWellFormed content
    → Parts IsWellFormed (split_code content hard_cap)
split_code-IsWellFormed content hard_cap wide h =
    Ends.split_code-Parts IsWellFormed IsWellFormed hard_cap (omega arith) (λ s w short. w)
      (λ s w long.
        trim_end-IsWellFormed (take (code_cut s hard_cap) s)
          (code_cut-IsCut s hard_cap wide long w))
      (λ s w long.
        trim_start-IsWellFormed (drop (code_cut s hard_cap) s)
          (IsCut-parts (code_cut s hard_cap) s w (code_cut-IsCut s hard_cap wide long w)))
      content h
