-- ===== src/Chunking/Document/Bounds.antt =====
-- chunkDocument.ts: the end of `chunkDocument`, and the bounds on its results.
use vennek.Prelude.{
  ℕ, suc, ◌+◌, ◌≤◌, ◌<◌, ◌≡◌, ◌≢◌, refl, true, inl, inr, Option, none, some, List, [], ◌∷◌, ◌++◌,
  Text, arith, length, length-append, same, trim, Bool-cases, not,
}
use mathlib.Core.Path.{subst}
use vennek.Prelude.Every.{All}
use vennek.Value.{Value, as_text}
use vennek.Chunking.Cuts.{truncate_safe}
use vennek.Chunking.Cuts.Bounds.{length-truncate_safe-le}
use vennek.Chunking.Split.Sizes.{Within, split_prose-Within, split_code-Within}
use vennek.Chunking.Markdown.{or_text, bound_heading, max_heading_chars, default_heading}
use vennek.Chunking.Blocks.{Block, parse_blocks}
use vennek.Chunking.Builder.{
  target_chars, hard_cap_chars, ok, err, out_of_fuel, Piece, split_lines, collect,
}
use vennek.Chunking.Builder.Quality.{Holds, Holds-bind, Quality, total_chars}
use vennek.Chunking.Builder.Invariant.{IsPiece, IsSource, IsBuilt, collect-IsBuilt}
use vennek.Chunking.Document.{
  DocumentChunk, has_content, number, chunk_normalized, chunk_text, chunk_document, unify_newlines,
}

abbrev IsShort : Text → Type 0
IsShort heading = (0 < length heading) × (length heading ≤ max_heading_chars)

or_text-IsShort :
    (s other : Text) → length s ≤ max_heading_chars → IsShort other → IsShort (or_text s other)
unfolding or_text
or_text-IsShort [] other short h = h
or_text-IsShort (c ∷ s) other short h = (omega arith, short)

bound_heading-IsShort : (value : Text) → IsShort (bound_heading value)
unfolding bound_heading
bound_heading-IsShort value =
    or_text-IsShort (truncate_safe (trim value) max_heading_chars) default_heading
      (length-truncate_safe-le (trim value) max_heading_chars) (omega arith, omega arith)

abbrev sizes : Quality
sizes = record {
  IsHeading = IsShort;
  IsWhole = λ _. Unit {0};
  IsPart = Within hard_cap_chars;
  split_prose-Parts =
      λ text _. split_prose-Within text target_chars hard_cap_chars (omega arith) (omega arith);
  split_code-Parts = λ text _. split_code-Within text hard_cap_chars (omega arith);
  join-IsPart = λ s t _ _ fits. omega (arith, length-append s (10 ∷ 10 ∷ t));
}

All-IsSource : (blocks : List Block) → All (IsSource sizes) blocks
All-IsSource [] = tt
All-IsSource (block ∷ blocks) =
    ((bound_heading-IsShort block.heading, tt, tt, tt), All-IsSource blocks)

pub embedding_chars : {Hash : Type 0} → List (DocumentChunk Hash) → ℕ
embedding_chars [] = 0
embedding_chars (chunk ∷ chunks) =
    length chunk.heading + 1 + length chunk.content + embedding_chars chunks

module _ {Hash : Type 0} (sha256_hex : Text → Hash) where
  -- One chunk of a result: the bounds of its heading and content, and what its hash is of.
  abbrev pub IsBounded : DocumentChunk Hash → Type 0
  IsBounded chunk =
      (0 < length chunk.heading)
      × (length chunk.heading ≤ 200)
      × (length chunk.content ≤ 1200)
      × (trim chunk.content ≢ [])
      × (chunk.content_hash ≡ sha256_hex (chunk.heading ++ 10 ∷ chunk.content))

  -- The ordinals count from `n`.
  abbrev pub CountsFrom : ℕ → List (DocumentChunk Hash) → Type 0
  CountsFrom n [] = Unit {0}
  CountsFrom n (chunk ∷ chunks) = (chunk.ordinal ≡ n) × CountsFrom (suc n) chunks

  -- A result.
  abbrev pub IsResult : List (DocumentChunk Hash) → Type 0
  IsResult chunks =
      All IsBounded chunks
      × CountsFrom 0 chunks
      × (length chunks ≤ 2500)
      × (embedding_chars chunks ≤ 3000000)

not_empty : (s : Text) → not (same s []) ≡ true → s ≢ []
unfolding same
not_empty [] h e = cc
not_empty (c ∷ s) h e = cc

has_content-Ne : (piece : Piece) → has_content piece ≡ true → trim piece.content ≢ []
unfolding has_content
has_content-Ne piece h = not_empty (trim piece.content) h

module _ {Hash : Type 0} (normalize : Text → Text) (sha256_hex : Text → Hash) where
  -- Numbering keeps the bounds and leaves nothing out but blank pieces.
  number-IsBounded :
      (pieces : List Piece) (n : ℕ)
      → All (IsPiece sizes) pieces
      → All (IsBounded sha256_hex) (number normalize sha256_hex n pieces)
  unfolding number
  number-IsBounded [] n h = tt
  number-IsBounded (piece ∷ pieces) n h = elim (Bool-cases (has_content piece)) [
    | inl solid ↦
        rw (number, solid)
          (
            (h.0.0.0, h.0.0.1, h.0.1, has_content-Ne piece solid, refl),
            number-IsBounded pieces (suc n) h.1,
          )
    | inr blank ↦ rw (number, blank) (number-IsBounded pieces n h.1)
  ]

  number-CountsFrom :
      (pieces : List Piece) (n : ℕ) → CountsFrom sha256_hex n (number normalize sha256_hex n pieces)
  unfolding number
  number-CountsFrom [] n = tt
  number-CountsFrom (piece ∷ pieces) n = elim (Bool-cases (has_content piece)) [
    | inl solid ↦ rw (number, solid) (refl, number-CountsFrom pieces (suc n))
    | inr blank ↦ rw (number, blank) (number-CountsFrom pieces n)
  ]

  number-sizes :
      (pieces : List Piece) (n : ℕ)
      → (length (number normalize sha256_hex n pieces) ≤ length pieces)
        × (embedding_chars (number normalize sha256_hex n pieces) ≤ total_chars pieces)
  unfolding number embedding_chars total_chars
  number-sizes [] n = (omega arith, omega arith)
  number-sizes (piece ∷ pieces) n =
      ground (arith, number-sizes pieces (suc n), number-sizes pieces n)

  chunk_normalized-Holds :
      (normalized : Text)
      → Holds (IsResult sha256_hex) (chunk_normalized normalize sha256_hex normalized)
  unfolding chunk_normalized
  chunk_normalized-Holds [] = tt
  chunk_normalized-Holds (c ∷ s) =
      Holds-bind (IsBuilt sizes) (IsResult sha256_hex) (collect (c ∷ s)) _
        (collect-IsBuilt sizes (c ∷ s) tt (omega arith, omega arith)
          (All-IsSource (parse_blocks (split_lines (c ∷ s)))))
        λ built v.
          let small = number-sizes built.chunks 0 in
          (
            number-IsBounded built.chunks 0 v.pieces,
            number-CountsFrom built.chunks 0,
            omega (arith, v.count),
            omega (arith, v.counted, v.total),
          )

  chunk_text-Holds :
      (text : Option Text) → Holds (IsResult sha256_hex) (chunk_text normalize sha256_hex text)
  unfolding chunk_text
  chunk_text-Holds none = tt
  chunk_text-Holds (some text) = chunk_normalized-Holds (trim (normalize (unify_newlines text)))

  chunk_document-Holds :
      (content : Value) → Holds (IsResult sha256_hex) (chunk_document normalize sha256_hex content)
  unfolding chunk_document
  chunk_document-Holds content = chunk_text-Holds (as_text content)

  -- The cutting of a document ends on every input: with its chunks or with one of the four errors
  -- of the code, never because the fuel of the model's loops, the length of the text that each cuts
  -- and one, ran out.
  pub chunk_document-Ends :
      (content : Value) → chunk_document normalize sha256_hex content ≢ err out_of_fuel
  chunk_document-Ends content e =
      subst (Holds (IsResult sha256_hex)) e (chunk_document-Holds content)

  -- The chunks of a document are at most 2,500 and embed at most 3,000,000 code units. Each has a
  -- heading of 1 to 200 code units, a content of at most 1,200 that is not blank, and the hash of
  -- its heading, a newline and its content; the ordinals count from 0 with no gap.
  pub chunk_document-bounds :
      (content : Value) {chunks : List (DocumentChunk Hash)}
      → chunk_document normalize sha256_hex content ≡ ok chunks
      → IsResult sha256_hex chunks
  chunk_document-bounds content e =
      subst (Holds (IsResult sha256_hex)) e (chunk_document-Holds content)
