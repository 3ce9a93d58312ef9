-- ===== src/Chunking/Cuts/Bounds.antt =====
-- Where `safeCut`, `proseCut`, `suffixSafe` and `truncateSafe` of chunkDocument.ts cut, in numbers.
use vennek.Prelude.{
  ℕ, zero, suc, ◌+◌, ◌-◌, ◌*◌, ◌≤◌, ◌<◌, min, max, ◌≡◌, Bool, true, false, Option, none, some, [],
  ◌∷◌, Text, ◌==◌, arith, length, take, length-take, length-drop,
}
use vennek.Prelude.Spaces.{length-trim_end-le}
use vennek.Chunking.Cuts.{
  prose_cut, not_below_half, safe_cut, suffix_safe, suffix_start, max_index, last_index_of,
  later_index, truncate_safe, truncate_end,
}

abbrev pub AtMost : ℕ → Option ℕ → Type 0
AtMost n none = Unit {0}
AtMost n (some i) = i ≤ n

later_index-AtMost :
    (n : ℕ) (o : Option ℕ) (here : Bool) → AtMost n o → AtMost (suc n) (later_index o here)
unfolding later_index
later_index-AtMost n (some i) here h = omega arith
later_index-AtMost n none true h = omega arith
later_index-AtMost n none false h = tt

pub last_index_of-AtMost : (c : ℕ) (s : Text) (from : ℕ) → AtMost from (last_index_of c s from)
unfolding last_index_of
last_index_of-AtMost c [] from = tt
last_index_of-AtMost c (x ∷ s) zero = ground arith
last_index_of-AtMost c (x ∷ s) (suc from) =
    later_index-AtMost from (last_index_of c s from) (x == c) (last_index_of-AtMost c s from)

max_index-AtMost : (n : ℕ) (i j : Option ℕ) → AtMost n i → AtMost n j → AtMost n (max_index i j)
unfolding max_index
max_index-AtMost n none j hi hj = hj
max_index-AtMost n (some i) none hi hj = hi
max_index-AtMost n (some i) (some j) hi hj = omega arith

not_below_half_bounds :
    (n : ℕ) (o : Option ℕ) → AtMost n o → (not_below_half n o ≤ n) × (n ≤ 2 * not_below_half n o)
unfolding not_below_half
not_below_half_bounds n none h = omega arith
not_below_half_bounds n (some i) h = ground arith

-- A cut of prose is at the target, or past its middle.
pub prose_cut_bounds :
    (content : Text) (target : ℕ)
    → target < length content
    → (prose_cut content target ≤ target) × (target ≤ 2 * prose_cut content target)
unfolding prose_cut
prose_cut_bounds content target long =
    let safe_target = min target (length content - 1) in
    let at_target : safe_target ≡ target = omega arith in
    let bounds =
      not_below_half_bounds safe_target
        (max_index (last_index_of b' ' content safe_target) (last_index_of 10 content safe_target))
        (max_index-AtMost safe_target (last_index_of b' ' content safe_target)
          (last_index_of 10 content safe_target) (last_index_of-AtMost b' ' content safe_target)
          (last_index_of-AtMost 10 content safe_target)) in
    (omega arith, omega arith)

-- A cut takes something, leaves something, and goes back by one unit at most.
pub safe_cut_bounds :
    (value : Text) (requested : ℕ)
    → 1 < length value
    → (0 < safe_cut value requested)
      × (safe_cut value requested < length value)
      × (min requested (length value - 1) ≤ safe_cut value requested + 1)
      × (safe_cut value requested ≤ max 1 requested)
unfolding safe_cut
safe_cut_bounds value requested long = ground arith

pub length-suffix_safe-le :
    (value : Text) (max_length : ℕ) → length (suffix_safe value max_length) ≤ max_length
unfolding suffix_safe suffix_start
length-suffix_safe-le value max_length = ground (
  arith,
  length-drop (length value - max_length) value,
  length-drop (length value - max_length + 1) value,
)

pub truncate_end-le : (value : Text) (end : ℕ) → truncate_end value end ≤ end
unfolding truncate_end
truncate_end-le value end = ground arith

pub length-truncate_safe-le :
    (value : Text) (max_length : ℕ) → length (truncate_safe value max_length) ≤ max_length
unfolding truncate_safe
length-truncate_safe-le value max_length =
    let end = truncate_end value (min (length value) max_length) in
    omega (
      arith,
      length-trim_end-le (take end value),
      length-take end value,
      truncate_end-le value (min (length value) max_length),
    )
