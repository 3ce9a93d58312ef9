-- ===== src/Chunking/Builder.antt =====
-- chunkDocument.ts, the closures of `chunkDocument`: the blocks of a document collected into pieces,
-- with the bounds on their number and on the text that is embedded.
pub mod Quality
pub mod Invariant
use vennek.Prelude.{
  ℕ, zero, suc, ◌+◌, Bool, true, false, not, ◌&&◌, Option, none, some, List, [], ◌∷◌, ◌++◌, Text,
  ltb, leb, ◌==◌, if◌then◌else◌, length, same, trim,
}
use vennek.Chunking.Split.{split_prose, split_code}
use vennek.Chunking.Markdown.{default_heading, bound_heading}
use vennek.Chunking.Blocks.{Block, Kind, prose, code, parse_blocks}

abbrev pub target_chars : ℕ
target_chars = 1000

abbrev pub hard_cap_chars : ℕ
hard_cap_chars = 1200

abbrev pub max_chunks_per_document : ℕ
max_chunks_per_document = 2500

abbrev pub max_derived_embedding_chars : ℕ
max_derived_embedding_chars = 3000000

-- The errors that the code throws, and `out_of_fuel` of the model.
pub data Failure : Type 0 where
  content_required : Failure
  content_empty : Failure
  too_many_chunks : Failure
  embeddings_too_large : Failure
  out_of_fuel : Failure

pub data Result {ℓ} (A : Type ℓ) : Type ℓ where
  ok : A → Result A
  err : Failure → Result A

infixl 5 ◌>>=◌
abbrev pub ◌>>=◌ {ℓ κ} : {A : Type ℓ} {B : Type κ} → Result A → (A → Result B) → Result B
ok a >>= f = f a
err e >>= f = err e

unfoldable pub from_option {ℓ} : {A : Type ℓ} → Option A → Result A
from_option (some a) = ok a
from_option none = err out_of_fuel

pub record Piece : Type 0 where
  pub heading : Text
  pub content : Text

-- The variables that the closures of `chunkDocument` share.
pub record Builder : Type 0 where
  pub chunks : List Piece
  pub derived_embedding_chars : ℕ
  pub prose : Option Piece

abbrev pub start_builder : Builder
start_builder = record { chunks = []; derived_embedding_chars = 0; prose = none }

abbrev pub payload_chars : Piece → ℕ
payload_chars piece = length piece.heading + 1 + length piece.content

unfoldable pub push_chunk : Piece → Builder → Result Builder
push_chunk piece b =
    if leb max_chunks_per_document (length b.chunks)
    then err too_many_chunks
    else if ltb max_derived_embedding_chars (b.derived_embedding_chars + payload_chars piece)
    then err embeddings_too_large
    else ok (record b {
      chunks = b.chunks ++ piece ∷ [];
      derived_embedding_chars = b.derived_embedding_chars + payload_chars piece;
    })

abbrev pub without_prose : Builder → Builder
without_prose b = record b { prose = none }

-- `if (prose?.content)`.
unfoldable pub push_if : Text → Piece → Builder → Result Builder
unfolding push_chunk
push_if [] piece b = ok b
push_if (c ∷ s) piece b = push_chunk piece b

unfoldable pub push_prose : Option Piece → Builder → Result Builder
unfolding push_if
push_prose none b = ok b
push_prose (some piece) b = push_if piece.content piece b

unfoldable pub flush_prose : Builder → Result Builder
unfolding push_prose
flush_prose b = push_prose b.prose b >>= λ pushed. ok (without_prose pushed)

-- The prose that a piece can still be added to.
unfoldable pub joins : Text → Text → Piece → Bool
unfolding same
joins heading piece current =
    same current.heading heading && leb (length current.content + 2 + length piece) target_chars

unfoldable pub fresh_prose : Text → Text → Builder → Result Builder
unfolding flush_prose
fresh_prose heading piece b = flush_prose b >>= λ flushed.
    ok (record flushed { prose = some (record { heading = heading; content = piece }) })

unfoldable pub extend_prose : Text → Text → Option Piece → Builder → Result Builder
unfolding joins fresh_prose
extend_prose heading piece none b = fresh_prose heading piece b
extend_prose heading piece (some current) b =
    if joins heading piece current
    then ok (record b {
      prose = some (record current { content = current.content ++ 10 ∷ 10 ∷ piece });
    })
    else fresh_prose heading piece b

unfoldable pub add_pieces : Text → List Text → Builder → Result Builder
unfolding extend_prose
add_pieces heading [] b = ok b
add_pieces heading (piece ∷ pieces) b =
    extend_prose heading piece b.prose b >>= add_pieces heading pieces

unfoldable pub append_prose : Text → Text → Builder → Result Builder
unfolding add_pieces split_prose from_option
append_prose heading [] b = ok b
append_prose heading (c ∷ s) b =
    from_option (split_prose (c ∷ s) target_chars hard_cap_chars) >>= λ pieces.
    add_pieces heading pieces b

unfoldable pub push_chunks : Text → List Text → Builder → Result Builder
unfolding push_chunk
push_chunks heading [] b = ok b
push_chunks heading (piece ∷ pieces) b =
    push_chunk (record { heading = heading; content = piece }) b >>= push_chunks heading pieces

unfoldable pub add_code : Text → Block → Builder → Result Builder
unfolding append_prose flush_prose split_code from_option push_chunks
add_code heading block b = do
  appended ← append_prose heading block.heading_remainder b
  flushed ← flush_prose appended
  pieces ← from_option (split_code block.content hard_cap_chars)
  push_chunks heading pieces flushed

unfoldable pub with_remainder : Text → Text → Text
with_remainder [] content = content
with_remainder (c ∷ s) content = (c ∷ s) ++ 10 ∷ 10 ∷ content

unfoldable pub add_kind : Kind → Block → Builder → Result Builder
unfolding add_code append_prose with_remainder bound_heading
add_kind code block b = add_code (bound_heading block.heading) block b
add_kind prose block b =
    append_prose (bound_heading block.heading)
      (with_remainder block.heading_remainder block.content) b

unfoldable pub add_blocks : List Block → Builder → Result Builder
unfolding add_kind
add_blocks [] b = ok b
add_blocks (block ∷ blocks) b = add_kind block.kind block b >>= add_blocks blocks

-- `if (chunks.length === 0)`.
unfoldable pub or_whole : Text → List Piece → Builder → Result Builder
unfolding split_prose from_option push_chunks
or_whole normalized [] b =
    from_option (split_prose normalized target_chars hard_cap_chars) >>= λ pieces.
    push_chunks default_heading pieces b
or_whole normalized (piece ∷ pieces) b = ok b

unfoldable pub onto_first : ℕ → List Text → List Text
onto_first c [] = (c ∷ []) ∷ []
onto_first c (line ∷ lines) = (c ∷ line) ∷ lines

-- `split("\n")`.
unfoldable pub split_lines : Text → List Text
unfolding onto_first
split_lines [] = [] ∷ []
split_lines (c ∷ s) =
    let lines = split_lines s in if c == 10 then [] ∷ lines else onto_first c lines

-- The pieces of a normalized document.
unfoldable pub collect : Text → Result Builder
unfolding parse_blocks split_lines add_blocks flush_prose or_whole
collect normalized = do
  added ← add_blocks (parse_blocks (split_lines normalized)) start_builder
  flushed ← flush_prose added
  or_whole normalized flushed.chunks flushed
