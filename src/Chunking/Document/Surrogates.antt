-- ===== src/Chunking/Document/Surrogates.antt =====
-- chunkDocument.ts: surrogate pairs in the headings and contents of chunks.
use vennek.Prelude.{
  ℕ, suc, ◌≡◌, refl, sym, ap, ◌∙◌, Bool, true, false, inl, inr, ◌==◌, ==_iff, List, [], ◌∷◌, Text,
  if◌then◌else◌, arith, trim, Bool-cases, if_true, if_false,
}
use mathlib.Core.Path.{subst}
use vennek.Prelude.Every.{All}
use vennek.Value.{string}
use vennek.Unicode.{is_high, is_low}
use vennek.Unicode.WellFormed.{
  Scan, between, after_high, broken, scan_unit, scan, IsWellFormed, append-IsWellFormed,
  newline-IsWellFormed, trim-IsWellFormed, IsPlain, newline-IsPlain, before_plain,
}
use vennek.Chunking.Split.Surrogates.{split_prose-IsWellFormed, split_code-IsWellFormed}
use vennek.Chunking.Blocks.{Block, parse_blocks}
use vennek.Chunking.Markdown.Surrogates.{bound_heading-IsWellFormed, default_heading-IsWellFormed}
use vennek.Chunking.Blocks.Surrogates.{IsWellFormedBlock, parse_blocks-IsWellFormed}
use vennek.Chunking.Builder.{
  target_chars, hard_cap_chars, ok, Piece, with_remainder, onto_first, split_lines, collect,
}
use vennek.Chunking.Builder.Quality.{Holds, Holds-bind, Quality}
use vennek.Chunking.Builder.Invariant.{IsPiece, IsSource, IsBuilt, collect-IsBuilt}
use vennek.Chunking.Document.{
  DocumentChunk, has_content, number, chunk_normalized, chunk_text, chunk_document, unify_newlines,
}

abbrev whole_pairs : Quality
whole_pairs = record {
  IsHeading = IsWellFormed;
  IsWhole = IsWellFormed;
  IsPart = IsWellFormed;
  split_prose-Parts = λ text h.
      split_prose-IsWellFormed text target_chars hard_cap_chars (omega arith) (omega arith) h;
  split_code-Parts = λ text h. split_code-IsWellFormed text hard_cap_chars (omega arith) h;
  join-IsPart = λ s t hs ht _.
      append-IsWellFormed s (10 ∷ 10 ∷ t) hs
        (newline-IsWellFormed (10 ∷ t) (newline-IsWellFormed t ht));
}

with_remainder-IsWellFormed :
    (remainder content : Text)
    → IsWellFormed remainder
    → IsWellFormed content
    → IsWellFormed (with_remainder remainder content)
unfolding with_remainder
with_remainder-IsWellFormed [] content hr hc = hc
with_remainder-IsWellFormed (c ∷ s) content hr hc =
    append-IsWellFormed (c ∷ s) (10 ∷ 10 ∷ content) hr
      (newline-IsWellFormed (10 ∷ content) (newline-IsWellFormed content hc))

All-IsSource :
    (blocks : List Block) → All IsWellFormedBlock blocks → All (IsSource whole_pairs) blocks
All-IsSource [] h = tt
All-IsSource (block ∷ blocks) ((heading, remainder, content), rest) = (
  (
    bound_heading-IsWellFormed block.heading heading,
    remainder,
    content,
    with_remainder-IsWellFormed block.heading_remainder block.content remainder content,
  ),
  All-IsSource blocks rest,
)

-- The lines of a text that is read on from a state.
abbrev LinesFrom : Scan → List Text → Type 0
LinesFrom st [] = st ≡ between
LinesFrom st (line ∷ lines) = (scan st line ≡ between) × All IsWellFormed lines

onto_first-LinesFrom :
    (st : Scan) (c : ℕ) (lines : List Text)
    → LinesFrom (scan_unit st c) lines
    → LinesFrom st (onto_first c lines)
unfolding onto_first
onto_first-LinesFrom st c [] h = (h, tt)
onto_first-LinesFrom st c (line ∷ lines) h = h

LinesFrom-All : (lines : List Text) → LinesFrom between lines → All IsWellFormed lines
LinesFrom-All [] h = tt
LinesFrom-All (line ∷ lines) h = h

split_lines-LinesFrom : (s : Text) (st : Scan) → scan st s ≡ between → LinesFrom st (split_lines s)
unfolding split_lines
split_lines-LinesFrom [] st h = (h, tt)
split_lines-LinesFrom (c ∷ s) st h = elim (Bool-cases (c == 10)) [
  | inl newline ↦
      let plain = subst IsPlain (sym ((==_iff c 10).0 newline)) newline-IsPlain in
      let (ready, rest) = before_plain st c s plain h in
      subst (LinesFrom st)
        (sym (if_true ([] ∷ split_lines s) (onto_first c (split_lines s)) newline))
        (ready, LinesFrom-All (split_lines s) (split_lines-LinesFrom s between rest))
  | inr other ↦
      subst (LinesFrom st)
        (sym (if_false ([] ∷ split_lines s) (onto_first c (split_lines s)) other))
        (onto_first-LinesFrom st c (split_lines s) (split_lines-LinesFrom s (scan_unit st c) h))
]

-- A newline has the effect of the two that it stands for.
newline_once : (st : Scan) → scan_unit (scan_unit st 13) 10 ≡ scan_unit st 10
unfolding scan_unit is_high is_low
newline_once between = refl
newline_once after_high = refl
newline_once broken = refl

return_newline : (st : Scan) → scan_unit st 13 ≡ scan_unit st 10
unfolding scan_unit is_high is_low
return_newline between = refl
return_newline after_high = refl
return_newline broken = refl

as_newline : (st : Scan) (c : ℕ) → (c == 13) ≡ true → scan_unit st 10 ≡ scan_unit st c
as_newline st c e = sym (return_newline st) ∙ ap (scan_unit st) (sym ((==_iff c 13).0 e))

as_two :
    (st : Scan) (c d : ℕ)
    → (c == 13) ≡ true
    → (d == 10) ≡ true
    → scan_unit st 10 ≡ scan_unit (scan_unit st c) d
as_two st c d ec ed =
    sym (newline_once st)
    ∙ ap (λ x. scan_unit (scan_unit st x) 10) (sym ((==_iff c 13).0 ec))
    ∙ ap (scan_unit (scan_unit st c)) (sym ((==_iff d 10).0 ed))

last_unit :
    (test : Bool) (st : Scan) (c : ℕ)
    → (test ≡ true → scan_unit st 10 ≡ scan_unit st c)
    → scan_unit st (if test then 10 else c) ≡ scan_unit st c
last_unit true st c h = h refl
last_unit false st c h = refl

scan-unify_newlines : (s : Text) (st : Scan) → scan st (unify_newlines s) ≡ scan st s
unfolding unify_newlines
scan-unify_newlines [] st = refl
scan-unify_newlines (c ∷ []) st = last_unit (c == 13) st c (as_newline st c)
scan-unify_newlines (c ∷ d ∷ s) st = elim (Bool-cases (c == 13)) [
  | inl is_return ↦ elim (Bool-cases (d == 10)) [
    | inl newline ↦
        rw (unify_newlines, is_return, newline)
          (scan-unify_newlines s (scan_unit st 10)
            ∙ ap (λ x. scan x s) (as_two st c d is_return newline))
    | inr alone ↦
        rw (unify_newlines, is_return, alone)
          (scan-unify_newlines (d ∷ s) (scan_unit st 10)
            ∙ ap (λ x. scan x (d ∷ s)) (as_newline st c is_return))
  ]
  | inr other ↦ rw (unify_newlines, other) (scan-unify_newlines (d ∷ s) (scan_unit st c))
]

module _ {Hash : Type 0} (normalize : Text → Text) (sha256_hex : Text → Hash) where
  abbrev pub HasWholePairs : DocumentChunk Hash → Type 0
  HasWholePairs chunk = IsWellFormed chunk.heading × IsWellFormed chunk.content

  number-HasWholePairs :
      (pieces : List Piece) (n : ℕ)
      → All (IsPiece whole_pairs) pieces
      → All HasWholePairs (number normalize sha256_hex n pieces)
  unfolding number
  number-HasWholePairs [] n h = tt
  number-HasWholePairs (piece ∷ pieces) n h = elim (Bool-cases (has_content piece)) [
    | inl solid ↦ rw (number, solid) (h.0, number-HasWholePairs pieces (suc n) h.1)
    | inr blank ↦ rw (number, blank) (number-HasWholePairs pieces n h.1)
  ]

  chunk_normalized-Holds :
      (normalized : Text)
      → IsWellFormed normalized
      → Holds (All HasWholePairs) (chunk_normalized normalize sha256_hex normalized)
  unfolding chunk_normalized
  chunk_normalized-Holds [] h = tt
  chunk_normalized-Holds (c ∷ s) h =
      Holds-bind (IsBuilt whole_pairs) (All HasWholePairs) (collect (c ∷ s)) _
        (collect-IsBuilt whole_pairs (c ∷ s) h default_heading-IsWellFormed (
          All-IsSource (parse_blocks (split_lines (c ∷ s))) (
            parse_blocks-IsWellFormed (split_lines (c ∷ s))
              (LinesFrom-All (split_lines (c ∷ s)) (split_lines-LinesFrom (c ∷ s) between h)))))
        (λ built v. number-HasWholePairs built.chunks 0 v.pieces)

  -- If a document has no lone surrogate, and its normal form then has none, no heading and no
  -- content of its chunks has one: a pair is never cut, at the ends of chunks and of headings and
  -- where the end of a chunk is repeated.
  pub chunk_document-HasWholePairs :
      (text : Text) {chunks : List (DocumentChunk Hash)}
      → ((s : Text) → IsWellFormed s → IsWellFormed (normalize s))
      → IsWellFormed text
      → chunk_document normalize sha256_hex (string text) ≡ ok chunks
      → All HasWholePairs chunks
  unfolding chunk_document chunk_text
  chunk_document-HasWholePairs text normal h e =
      let unified = unify_newlines text in
      subst (Holds (All HasWholePairs)) e (
        chunk_normalized-Holds (trim (normalize unified)) (
          trim-IsWellFormed (normalize unified)
            (normal unified (scan-unify_newlines text between ∙ h))))
