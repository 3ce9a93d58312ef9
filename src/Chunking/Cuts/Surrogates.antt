-- ===== src/Chunking/Cuts/Surrogates.antt =====
-- chunkDocument.ts: `safeCut`, `suffixSafe` and `truncateSafe` at surrogate pairs.
use vennek.Prelude.{
  ℕ, zero, suc, ◌-◌, ◌≤◌, ◌<◌, min, max, ◌≡◌, ◌≢◌, inl, inr, refl, sym, ap, ◌∙◌, true, false,
  Option, none, some, [], ◌∷◌, ◌++◌, Text, if◌then◌else◌, arith, length, take, drop, get_elem?,
  take-append-drop, take-length, trim_end, Bool-cases, if_true, if_false,
}
use mathlib.Core.List.{foldl-append, append_assoc}
use mathlib.Core.Path.{subst}
use vennek.Unicode.{is_high, is_low}
use vennek.Unicode.WellFormed.{
  Scan, between, after_high, broken, scan_unit, scan, scan-broken, IsWellFormed, high_low,
  broken_not_between, trim_end-IsWellFormed,
}
use vennek.Prelude.Spaces.{trim_end-splits}
use vennek.Chunking.Cuts.{unit_at, safe_cut, truncate_end, truncate_safe, suffix_start, suffix_safe}

true_not_false : true ≢ false
true_not_false e = cc

-- The text can be cut after `n` units.
abbrev pub IsCut : ℕ → Text → Type 0
IsCut n s = scan between (take n s) ≡ between

pub IsCut-parts : (n : ℕ) (s : Text) → IsWellFormed s → IsCut n s → IsWellFormed (drop n s)
IsCut-parts n s h cut =
    ap (λ st. scan st (drop n s)) (sym cut)
    ∙ sym (foldl-append scan_unit between (take n s) (drop n s))
    ∙ ap (scan between) (take-append-drop n s)
    ∙ h

after_unit : (st : Scan) (c : ℕ) → scan_unit st c ≡ after_high → is_high c ≡ true
unfolding scan_unit
after_unit between c e = ground arith
after_unit after_high c e = ground arith
after_unit broken c e = cc

-- After a high surrogate the unit before the cut is one.
after-high :
    (n : ℕ) (s : Text) (st : Scan)
    → n < length s
    → scan st (take (suc n) s) ≡ after_high
    → unit_at is_high (get_elem? s n) ≡ true
unfolding unit_at
after-high n [] st h e = absurd (omega arith)
after-high zero (c ∷ s) st h e = after_unit st c e
after-high (suc n) (c ∷ s) st h e = after-high n s (scan_unit st c) (omega arith) e

low_next : (c : ℕ) (s : Text) → scan after_high (c ∷ s) ≡ between → is_low c ≡ true
unfolding scan_unit
low_next c s h = elim (Bool-cases (is_low c)) [
  | inl low ↦ low
  | inr other ↦ absurd (
      broken_not_between
        (sym (scan-broken s) ∙ ap (λ st. scan st s) (sym (if_false between broken other)) ∙ h))
]

-- In a well-formed text the unit behind such a cut is a low one.
after-low :
    (n : ℕ) (s : Text) (st : Scan)
    → scan st s ≡ between
    → scan st (take n s) ≡ after_high
    → unit_at is_low (get_elem? s n) ≡ true
unfolding unit_at
after-low zero [] st h e = cc
after-low zero (c ∷ s) st h e = low_next c s (subst (λ x. scan x (c ∷ s) ≡ between) e h)
after-low (suc n) [] st h e = cc
after-low (suc n) (c ∷ s) st h e = after-low n s (scan_unit st c) h e

-- No cut of a well-formed text is broken.
not_broken : (n : ℕ) (s : Text) → IsWellFormed s → scan between (take n s) ≢ broken
not_broken n s h e = broken_not_between (
    sym (scan-broken (drop n s))
    ∙ ap (λ st. scan st (drop n s)) (sym e)
    ∙ sym (foldl-append scan_unit between (take n s) (drop n s))
    ∙ ap (scan between) (take-append-drop n s)
    ∙ h)

IsCut-of :
    (n : ℕ) (s : Text) (st : Scan)
    → scan between (take n s) ≡ st
    → st ≢ after_high
    → st ≢ broken
    → IsCut n s
IsCut-of n s between e high broke = e
IsCut-of n s after_high e high broke = absurd (high refl)
IsCut-of n s broken e high broke = absurd (broke refl)

-- A text can be cut before a unit that is no low surrogate, and after one that is no high one.
pub before-IsCut :
    (n : ℕ) (s : Text) → IsWellFormed s → unit_at is_low (get_elem? s n) ≡ false → IsCut n s
before-IsCut n s h other =
    IsCut-of n s (scan between (take n s)) refl
      (λ e. true_not_false (sym (after-low n s between h e) ∙ other)) (not_broken n s h)

pub after-IsCut :
    (n : ℕ) (s : Text)
    → IsWellFormed s
    → n < length s
    → unit_at is_high (get_elem? s n) ≡ false
    → IsCut (suc n) s
after-IsCut n s h inside other =
    IsCut-of (suc n) s (scan between (take (suc n) s)) refl
      (λ e. true_not_false (sym (after-high n s between inside e) ∙ other)) (not_broken (suc n) s h)

high-not_low : (o : Option ℕ) → unit_at is_high o ≡ true → unit_at is_low o ≡ false
unfolding unit_at
high-not_low none h = refl
high-not_low (some c) h = high_low c h

-- `cut` before the step back over a high surrogate.
back_up-IsCut :
    (s : Text) (n : ℕ)
    → IsWellFormed s
    → n < length s
    → IsCut (if unit_at is_high (get_elem? s n) then n else suc n) s
back_up-IsCut s n h inside = elim (Bool-cases (unit_at is_high (get_elem? s n))) [
  | inl high ↦
      subst (λ k. IsCut k s) (sym (if_true n (suc n) high))
        (before-IsCut n s h (high-not_low (get_elem? s n) high))
  | inr other ↦
      subst (λ k. IsCut k s) (sym (if_false n (suc n) other)) (after-IsCut n s h inside other)
]

-- `safeCut` at two or more.
pub safe_cut-IsCut :
    (value : Text) (requested : ℕ)
    → IsWellFormed value
    → 2 < length value
    → 2 ≤ requested
    → IsCut (safe_cut value requested) value
unfolding safe_cut
safe_cut-IsCut value requested h long far =
    let n = max 1 (min requested (length value - 1)) - 1 in
    let same_cut : safe_cut value requested
        ≡ (if unit_at is_high (get_elem? value n) then n else suc n) =
      ground arith in
    subst (λ k. IsCut k value) (sym same_cut) (back_up-IsCut value n h (omega arith))

truncate_end-IsCut :
    (value : Text) (end : ℕ)
    → IsWellFormed value
    → end ≤ length value
    → IsCut (truncate_end value end) value
unfolding truncate_end
truncate_end-IsCut value zero h inside = refl
truncate_end-IsCut value (suc n) h inside =
    let same_cut : truncate_end value (suc n)
        ≡ (if unit_at is_high (get_elem? value n) then n else suc n) =
      ground arith in
    subst (λ k. IsCut k value) (sym same_cut) (back_up-IsCut value n h (omega arith))

pub truncate_safe-IsWellFormed :
    (value : Text) (max_length : ℕ)
    → IsWellFormed value
    → IsWellFormed (truncate_safe value max_length)
unfolding truncate_safe
truncate_safe-IsWellFormed value max_length h =
    trim_end-IsWellFormed (take (truncate_end value (min (length value) max_length)) value)
      (truncate_end-IsCut value (min (length value) max_length) h (omega arith))

low_inside : (n : ℕ) (s : Text) → unit_at is_low (get_elem? s n) ≡ true → n < length s
unfolding unit_at
low_inside n [] h = cc
low_inside zero (c ∷ s) h = omega arith
low_inside (suc n) (c ∷ s) h = omega (arith, low_inside n s h)

low-not_high : (o : Option ℕ) → unit_at is_low o ≡ true → unit_at is_high o ≡ false
unfolding unit_at is_high is_low
low-not_high none h = refl
low-not_high (some c) h = ground arith

suffix_start-IsCut :
    (value : Text) (start : ℕ) → IsWellFormed value → IsCut (suffix_start value start) value
unfolding suffix_start
suffix_start-IsCut value zero h = refl
suffix_start-IsCut value (suc n) h = elim (Bool-cases (unit_at is_low (get_elem? value (suc n)))) [
  | inl low ↦
      let same_cut : suffix_start value (suc n) ≡ suc (suc n) = ground arith in
      subst (λ k. IsCut k value) (sym same_cut)
        (after-IsCut (suc n) value h (low_inside (suc n) value low)
          (low-not_high (get_elem? value (suc n)) low))
  | inr other ↦
      let same_cut : suffix_start value (suc n) ≡ suc n = ground arith in
      subst (λ k. IsCut k value) (sym same_cut) (before-IsCut (suc n) value h other)
]

pub suffix_safe-IsWellFormed :
    (value : Text) (max_length : ℕ)
    → IsWellFormed value
    → IsWellFormed (suffix_safe value max_length)
unfolding suffix_safe
suffix_safe-IsWellFormed value max_length h =
    IsCut-parts (suffix_start value (length value - max_length)) value h
      (suffix_start-IsCut value (length value - max_length) h)

-- What `truncateSafe` keeps is a front of the text, and the text can be cut behind it.
pub truncate_safe-IsCut :
    (value : Text) (max_length : ℕ)
    → IsWellFormed value
    → IsCut (length (truncate_safe value max_length)) value
unfolding truncate_safe
truncate_safe-IsCut value max_length h =
    let end = truncate_end value (min (length value) max_length) in
    let (spaces, all, e) = trim_end-splits (take end value) in
    let front = trim_end (take end value) in
    let whole : front ++ (spaces ++ drop end value) ≡ value =
      sym (append_assoc front spaces (drop end value))
      ∙ ap (λ s. s ++ drop end value) e
      ∙ take-append-drop end value in
    subst IsWellFormed
      (sym (ap (take (length front)) (sym whole) ∙ take-length front (spaces ++ drop end value)))
      (truncate_safe-IsWellFormed value max_length h)
