-- ===== src/Chunking/Markdown/Surrogates.antt =====
-- chunkDocument.ts: surrogate pairs in headings and their remainders.
use vennek.Prelude.{
  ℕ, zero, suc, ◌≡◌, inl, inr, refl, sym, ap, ◌∙◌, Bool, true, false, ◌&&◌, ◌==◌, ==_iff, Option,
  none, some, [], ◌∷◌, ◌++◌, reverse, Text, if◌then◌else◌, arith, length, drop, trim, is_space, leb,
  ltb, Bool-cases, if_true, if_false,
}
use mathlib.Core.List.{reverse-append, reverse-reverse, append_assoc}
use mathlib.Core.Path.{subst}
use vennek.Prelude.Every.{All, All-append, All-reverse}
use vennek.Unicode.{is_high, is_low}
use vennek.Unicode.WellFormed.{
  IsPlain, IsWellFormed, scan_unit, if-IsWellFormed, suffix-IsWellFormed, prefix-IsWellFormed,
  space-IsPlain, trim_start-IsWellFormed, trim-IsWellFormed,
}
use vennek.Chunking.Cuts.{truncate_safe}
use vennek.Chunking.Cuts.Surrogates.{truncate_safe-IsWellFormed, truncate_safe-IsCut, IsCut-parts}
use vennek.Chunking.Markdown.{
  max_heading_chars, default_heading, or_text, skip_spaces, run_of, is_blank, skip_blanks,
  skip_blanks_end, starts_blank, is_one_line, without_closing, heading_body, after_hashes,
  heading_level, markdown_heading, bound_heading, heading_overflow,
}

-- `t` without units of the front of `s` that are no surrogates.
abbrev Rest : Text → Text → Type 0
Rest s t = (front : Text) × All IsPlain front × (front ++ t ≡ s)

Rest-IsWellFormed : (s t : Text) → Rest s t → IsWellFormed s → IsWellFormed t
Rest-IsWellFormed s t (front, plain, e) h =
    suffix-IsWellFormed front t plain (subst IsWellFormed (sym e) h)

Rest-if :
    (test : Bool) (c : ℕ) (s t : Text)
    → (test ≡ true → IsPlain c)
    → Rest s t
    → Rest (c ∷ s) (if test then t else c ∷ s)
Rest-if true c s t plain_c (front, plain, e) = (c ∷ front, (plain_c refl, plain), ap (◌∷◌ c) e)
Rest-if false c s t plain_c r = ([], tt, refl)

Rest-trans : (s t u : Text) → Rest s t → Rest t u → Rest s u
Rest-trans s t u (front, plain, e) (next, plain', e') = (
  front ++ next,
  All-append IsPlain front next plain plain',
  append_assoc front next u ∙ ap (◌++◌ front) e' ∙ e,
)

-- The same at the other end.
Rest-reverse-IsWellFormed :
    (s t : Text) → Rest (reverse s) t → IsWellFormed s → IsWellFormed (reverse t)
Rest-reverse-IsWellFormed s t (front, plain, e) h =
    prefix-IsWellFormed (reverse t) (reverse front) (All-reverse IsPlain front plain)
      (subst IsWellFormed (sym (sym (reverse-append front t) ∙ ap reverse e ∙ reverse-reverse s)) h)

skip_spaces-Rest : (n : ℕ) (s : Text) → Rest s (skip_spaces n s)
unfolding skip_spaces
skip_spaces-Rest zero s = ([], tt, refl)
skip_spaces-Rest (suc n) [] = ([], tt, refl)
skip_spaces-Rest (suc n) (c ∷ s) =
    Rest-if (is_space c) c s (skip_spaces n s) (space-IsPlain c) (skip_spaces-Rest n s)

blank-IsPlain : (c : ℕ) → is_blank c ≡ true → IsPlain c
unfolding is_blank is_high is_low
blank-IsPlain c h = ground arith

skip_blanks-Rest : (s : Text) → Rest s (skip_blanks s)
unfolding skip_blanks
skip_blanks-Rest [] = ([], tt, refl)
skip_blanks-Rest (c ∷ s) =
    Rest-if (is_blank c) c s (skip_blanks s) (blank-IsPlain c) (skip_blanks-Rest s)

hash-IsPlain : IsPlain b'#'
unfolding is_high is_low
hash-IsPlain = (refl, refl)

drop-run-Rest : (c : ℕ) (s : Text) → IsPlain c → Rest s (drop (run_of c s) s)
unfolding run_of
drop-run-Rest c [] plain = ([], tt, refl)
drop-run-Rest c (x ∷ s) plain = elim (Bool-cases (x == c)) [
  | inl found ↦
      subst (λ n. Rest (x ∷ s) (drop n (x ∷ s))) (sym (if_true (suc (run_of c s)) 0 found))
        (Rest-if true x s (drop (run_of c s) s)
          (λ _. subst IsPlain (sym ((==_iff x c).0 found)) plain) (drop-run-Rest c s plain))
  | inr other ↦
      subst (λ n. Rest (x ∷ s) (drop n (x ∷ s))) (sym (if_false (suc (run_of c s)) 0 other))
        ([], tt, refl)
]

skip_blanks_end-IsWellFormed : (s : Text) → IsWellFormed s → IsWellFormed (skip_blanks_end s)
unfolding skip_blanks_end
skip_blanks_end-IsWellFormed s h =
    Rest-reverse-IsWellFormed s (skip_blanks (reverse s)) (skip_blanks-Rest (reverse s)) h

without_closing-IsWellFormed :
    (body : Text) → IsWellFormed body → IsWellFormed (without_closing body (reverse body))
unfolding without_closing
without_closing-IsWellFormed body h =
    let after = drop (run_of b'#' (reverse body)) (reverse body) in
    if-IsWellFormed (ltb 0 (run_of b'#' (reverse body)) && starts_blank after)
      (reverse (skip_blanks after)) body
      (Rest-reverse-IsWellFormed body (skip_blanks after)
        (Rest-trans (reverse body) after (skip_blanks after)
          (drop-run-Rest b'#' (reverse body) hash-IsPlain) (skip_blanks-Rest after))
        h)
      h

-- A result, if there is one, is well-formed.
abbrev pub WellFormed? : Option Text → Type 0
WellFormed? none = Unit {0}
WellFormed? (some s) = IsWellFormed s

WellFormed?-if :
    (test : Bool) (o : Option Text) → WellFormed? o → WellFormed? (if test then o else none)
WellFormed?-if true o h = h
WellFormed?-if false o h = tt

heading_body-IsWellFormed : (body : Text) → IsWellFormed body → WellFormed? (heading_body body)
unfolding heading_body
heading_body-IsWellFormed body h =
    WellFormed?-if (is_one_line body) (some (trim (without_closing body (reverse body)))) (
      trim-IsWellFormed (without_closing body (reverse body)) (without_closing-IsWellFormed body h))

after_hashes-IsWellFormed : (s : Text) → IsWellFormed s → WellFormed? (after_hashes s)
unfolding after_hashes
after_hashes-IsWellFormed [] h = refl
after_hashes-IsWellFormed (c ∷ s) h =
    let rest = skip_blanks (c ∷ s) in
    WellFormed?-if (starts_blank (c ∷ s)) (heading_body (skip_blanks_end rest)) (
      heading_body-IsWellFormed (skip_blanks_end rest) (
        skip_blanks_end-IsWellFormed rest
          (Rest-IsWellFormed (c ∷ s) rest (skip_blanks-Rest (c ∷ s)) h)))

pub markdown_heading-IsWellFormed :
    (line : Text) → IsWellFormed line → WellFormed? (markdown_heading line)
unfolding markdown_heading heading_level
markdown_heading-IsWellFormed line h =
    let s = skip_spaces 3 line in
    let hashes = run_of b'#' s in
    WellFormed?-if (leb 1 hashes && leb hashes 6) (after_hashes (drop hashes s)) (
      after_hashes-IsWellFormed (drop hashes s) (
        Rest-IsWellFormed line (drop hashes s)
          (Rest-trans line s (drop hashes s) (skip_spaces-Rest 3 line)
            (drop-run-Rest b'#' s hash-IsPlain))
          h))

pub or_text-IsWellFormed :
    (s other : Text) → IsWellFormed s → IsWellFormed other → IsWellFormed (or_text s other)
unfolding or_text
or_text-IsWellFormed [] other hs ho = ho
or_text-IsWellFormed (c ∷ s) other hs ho = hs

pub default_heading-IsWellFormed : IsWellFormed default_heading
unfolding scan_unit is_high is_low
default_heading-IsWellFormed = refl

pub bound_heading-IsWellFormed :
    (value : Text) → IsWellFormed value → IsWellFormed (bound_heading value)
unfolding bound_heading
bound_heading-IsWellFormed value h =
    or_text-IsWellFormed (truncate_safe (trim value) max_heading_chars) default_heading
      (truncate_safe-IsWellFormed (trim value) max_heading_chars (trim-IsWellFormed value h))
      default_heading-IsWellFormed

-- The truncated text is a well-formed front of the text, so the text can be cut behind it.
pub heading_overflow-IsWellFormed :
    (value : Text) → IsWellFormed value → IsWellFormed (heading_overflow value)
unfolding heading_overflow
heading_overflow-IsWellFormed value h =
    let bounded = truncate_safe (trim value) max_heading_chars in
    trim_start-IsWellFormed (drop (length bounded) (trim value)) (
      IsCut-parts (length bounded) (trim value) (trim-IsWellFormed value h)
        (truncate_safe-IsCut (trim value) max_heading_chars (trim-IsWellFormed value h)))
