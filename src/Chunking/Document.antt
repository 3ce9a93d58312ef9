-- ===== src/Chunking/Document.antt =====
-- chunkDocument.ts, `chunkDocument` from the content to the numbered chunks. `normalize("NFC")` and
-- `sha256Hex` are parameters.
pub mod Bounds
pub mod Surrogates
use vennek.Prelude.{
  ℕ, suc, Bool, true, false, not, Option, none, some, List, [], ◌∷◌, ◌++◌, Text, ◌==◌,
  if◌then◌else◌, same, trim,
}
use vennek.Value.{Value, as_text}
use vennek.Chunking.Builder.{
  Failure, content_required, content_empty, Result, ok, err, ◌>>=◌, Piece, collect,
}

-- `replace(/\r\n?/g, "\n")`.
unfoldable pub unify_newlines : Text → Text
unify_newlines [] = []
unify_newlines (c ∷ []) = (if c == 13 then 10 else c) ∷ []
unify_newlines (c ∷ d ∷ s) = elim (c == 13) [
  | true ↦ elim (d == 10) [ true ↦ 10 ∷ unify_newlines s | false ↦ 10 ∷ unify_newlines (d ∷ s) ]
  | false ↦ c ∷ unify_newlines (d ∷ s)
]

pub record DocumentChunk (Hash : Type 0) : Type 0 where
  pub ordinal : ℕ
  pub heading : Text
  pub content : Text
  pub content_hash : Hash

unfoldable pub has_content : Piece → Bool
unfolding trim
has_content piece = not (same (trim piece.content) [])

module _ (normalize : Text → Text) {Hash : Type 0} (sha256_hex : Text → Hash) where
  -- The last `filter` and `map`, from an ordinal on.
  unfoldable pub number : ℕ → List Piece → List (DocumentChunk Hash)
  unfolding has_content
  number ordinal [] = []
  number ordinal (piece ∷ pieces) = elim (has_content piece) [
    | true ↦
        record {
          ordinal = ordinal;
          heading = piece.heading;
          content = piece.content;
          content_hash = sha256_hex (piece.heading ++ 10 ∷ piece.content);
        }
        ∷ number (suc ordinal) pieces
    | false ↦ number ordinal pieces
  ]

  unfoldable pub chunk_normalized : Text → Result (List (DocumentChunk Hash))
  unfolding collect number
  chunk_normalized [] = err content_empty
  chunk_normalized (c ∷ s) = collect (c ∷ s) >>= λ built. ok (number 0 built.chunks)

  -- `if (typeof content !== "string")`.
  unfoldable pub chunk_text : Option Text → Result (List (DocumentChunk Hash))
  unfolding chunk_normalized unify_newlines trim
  chunk_text none = err content_required
  chunk_text (some text) = chunk_normalized (trim (normalize (unify_newlines text)))

  unfoldable pub chunk_document : Value → Result (List (DocumentChunk Hash))
  unfolding chunk_text
  chunk_document content = chunk_text (as_text content)
