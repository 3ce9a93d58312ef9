-- ===== src/Chunking/Markdown.antt =====
-- chunkDocument.ts: heading lines and fences, and the bound on a heading. The regular expressions are
-- written out: `^\s{0,3}` is `skip_spaces 3`, and `run_of` counts a run of one character.
pub mod Surrogates
use vennek.Prelude.{
  ℕ, zero, suc, ◌+◌, Bool, true, false, not, ◌&&◌, ◌||◌, Option, none, some, List, [], ◌∷◌, ◌++◌,
  reverse, Text, codes, ltb, leb, ◌==◌, if◌then◌else◌, is_space, length, drop, trim, trim_start,
}
use vennek.Chunking.Cuts.{truncate_safe}

abbrev pub max_heading_chars : ℕ
max_heading_chars = 200

abbrev pub default_heading : Text
default_heading = codes "Document"

-- `a || b` on texts.
unfoldable pub or_text : Text → Text → Text
or_text [] other = other
or_text (c ∷ s) other = c ∷ s

unfoldable pub skip_spaces : ℕ → Text → Text
unfolding is_space
skip_spaces zero s = s
skip_spaces (suc n) [] = []
skip_spaces (suc n) (c ∷ s) = if is_space c then skip_spaces n s else c ∷ s

unfoldable pub run_of : ℕ → Text → ℕ
run_of c [] = 0
run_of c (x ∷ s) = if x == c then suc (run_of c s) else 0

unfoldable pub is_blank : ℕ → Bool
is_blank c = c == b' ' || c == 9

unfoldable pub skip_blanks : Text → Text
unfolding is_blank
skip_blanks [] = []
skip_blanks (c ∷ s) = if is_blank c then skip_blanks s else c ∷ s

unfoldable pub skip_blanks_end : Text → Text
unfolding skip_blanks
skip_blanks_end s = reverse (skip_blanks (reverse s))

unfoldable pub starts_blank : Text → Bool
unfolding is_blank
starts_blank [] = false
starts_blank (c ∷ s) = is_blank c

-- What `.` does not match.
unfoldable pub is_line_terminator : ℕ → Bool
is_line_terminator c = c == 10 || c == 13 || c == 0x2028 || c == 0x2029

unfoldable pub is_one_line : Text → Bool
unfolding is_line_terminator
is_one_line [] = true
is_one_line (c ∷ s) = not (is_line_terminator c) && is_one_line s

-- `.replace(/[ \t]+#+[ \t]*$/, "")` of a text with no blanks at its end, from that end.
unfoldable pub without_closing : Text → Text → Text
unfolding run_of starts_blank skip_blanks
without_closing body backwards =
    let hashes = run_of b'#' backwards in
    if ltb 0 hashes && starts_blank (drop hashes backwards)
    then reverse (skip_blanks (drop hashes backwards))
    else body

unfoldable pub heading_body : Text → Option Text
unfolding is_one_line without_closing trim
heading_body body =
    if is_one_line body then some (trim (without_closing body (reverse body))) else none

-- What follows the `#`s.
unfoldable pub after_hashes : Text → Option Text
unfolding starts_blank heading_body skip_blanks skip_blanks_end
after_hashes [] = some []
after_hashes (c ∷ s) =
    if starts_blank (c ∷ s) then heading_body (skip_blanks_end (skip_blanks (c ∷ s))) else none

unfoldable pub heading_level : ℕ → Text → Option Text
unfolding after_hashes
heading_level hashes s = if leb 1 hashes && leb hashes 6 then after_hashes (drop hashes s) else none

unfoldable pub markdown_heading : Text → Option Text
unfolding skip_spaces run_of heading_level
markdown_heading line = let s = skip_spaces 3 line in heading_level (run_of b'#' s) s

pub record Fence : Type 0 where
  pub marker : ℕ
  pub length : ℕ

unfoldable pub fence_of : ℕ → Text → Option Fence
unfolding run_of
fence_of marker s =
    if leb 3 (run_of marker s)
    then some (record { marker = marker; length = run_of marker s })
    else none

unfoldable pub opening_fence_of : Text → Option Fence
unfolding fence_of
opening_fence_of [] = none
opening_fence_of (c ∷ s) = if c == b'`' || c == b'~' then fence_of c (c ∷ s) else none

unfoldable pub opening_fence : Text → Option Fence
unfolding skip_spaces opening_fence_of
opening_fence line = opening_fence_of (skip_spaces 3 line)

unfoldable pub all_spaces : Text → Bool
unfolding is_space
all_spaces [] = true
all_spaces (c ∷ s) = is_space c && all_spaces s

unfoldable pub closing_fence : Text → Fence → Bool
unfolding skip_spaces run_of all_spaces
closing_fence line fence =
    let s = skip_spaces 3 line in
    let run = run_of fence.marker s in leb fence.length run && all_spaces (drop run s)

unfoldable pub bound_heading : Text → Text
unfolding or_text truncate_safe trim
bound_heading value = or_text (truncate_safe (trim value) max_heading_chars) default_heading

unfoldable pub heading_overflow : Text → Text
unfolding truncate_safe trim trim_start
heading_overflow value =
    let normalized = trim value in
    trim_start (drop (length (truncate_safe normalized max_heading_chars)) normalized)
