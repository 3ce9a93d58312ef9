-- ===== src/Chunking/Cuts.antt =====
-- chunkDocument.ts, where a text may be cut: `safeCut`, `proseCut`, `suffixSafe`, `truncateSafe`
-- and the `lastIndexOf` of the language.
pub mod Bounds
pub mod Surrogates
use vennek.Prelude.{
  ℕ, zero, suc, ◌+◌, ◌-◌, ◌*◌, min, max, Bool, true, false, ◌&&◌, Option, none, some, List, [], ◌∷◌,
  Text, ltb, ◌==◌, if◌then◌else◌, length, take, drop, get_elem?, trim_end,
}
use vennek.Unicode.{is_high, is_low}

-- `test(value.charCodeAt(index))`: outside the text the code is NaN, and the test fails.
unfoldable pub unit_at : (ℕ → Bool) → Option ℕ → Bool
unit_at test none = false
unit_at test (some c) = test c

unfoldable pub later_index : Option ℕ → Bool → Option ℕ
later_index (some i) here = some (suc i)
later_index none true = some 0
later_index none false = none

-- `value.lastIndexOf(c, from)`; `none` is -1.
unfoldable pub last_index_of : ℕ → Text → ℕ → Option ℕ
unfolding later_index
last_index_of c [] from = none
last_index_of c (x ∷ s) zero = later_index none (x == c)
last_index_of c (x ∷ s) (suc from) = later_index (last_index_of c s from) (x == c)

-- `Math.max` of two results of `lastIndexOf`.
unfoldable pub max_index : Option ℕ → Option ℕ → Option ℕ
max_index none j = j
max_index (some i) none = some i
max_index (some i) (some j) = some (max i j)

unfoldable pub not_below_half : ℕ → Option ℕ → ℕ
not_below_half target none = target
not_below_half target (some i) = if ltb target (2 * i) then i else target

unfoldable pub prose_cut : Text → ℕ → ℕ
unfolding not_below_half last_index_of max_index
prose_cut content target =
    let safe_target = min target (length content - 1) in
    not_below_half safe_target
      (max_index (last_index_of b' ' content safe_target) (last_index_of 10 content safe_target))

unfoldable pub safe_cut : Text → ℕ → ℕ
unfolding is_high unit_at
safe_cut value requested =
    let cut = max 1 (min requested (length value - 1)) in
    if unit_at is_high (get_elem? value (cut - 1)) then max 1 (cut - 1) else cut

unfoldable pub truncate_end : Text → ℕ → ℕ
unfolding is_high unit_at
truncate_end value end =
    if ltb 0 end && unit_at is_high (get_elem? value (end - 1)) then end - 1 else end

unfoldable pub truncate_safe : Text → ℕ → Text
unfolding truncate_end trim_end
truncate_safe value max_length =
    trim_end (take (truncate_end value (min (length value) max_length)) value)

unfoldable pub suffix_start : Text → ℕ → ℕ
unfolding is_low unit_at
suffix_start value start =
    if ltb 0 start && unit_at is_low (get_elem? value start) then start + 1 else start

unfoldable pub suffix_safe : Text → ℕ → Text
unfolding suffix_start
suffix_safe value max_length = drop (suffix_start value (length value - max_length)) value
