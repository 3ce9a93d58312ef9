-- ===== src/Chunking/Builder/Invariant.antt =====
-- chunkDocument.ts: what the closures of `chunkDocument` keep of the pieces, for any qualities of
-- headings and pieces that the two splitting loops respect.
use vennek.Prelude.{
  ◌+◌, ◌≤◌, ◌≡◌, refl, Option, none, some, List, [], ◌∷◌, ◌++◌, Text, ltb, leb, length,
  length-append, arith,
}
use vennek.Prelude.Every.{All, All-append}
use vennek.Chunking.Split.{split_prose, split_code}
use vennek.Chunking.Markdown.{bound_heading, default_heading}
use vennek.Chunking.Blocks.{Block, Kind, prose, code, parse_blocks}
use vennek.Chunking.Builder.{
  target_chars, hard_cap_chars, max_chunks_per_document, max_derived_embedding_chars, from_option,
  Piece, payload_chars, Builder, start_builder, push_chunk, push_if, push_prose, flush_prose, joins,
  fresh_prose, extend_prose, add_pieces, append_prose, push_chunks, add_code, with_remainder,
  add_kind, add_blocks, split_lines, or_whole, collect,
}
use vennek.Chunking.Builder.Quality.{
  Holds, Holds-bind, Quality, total_chars, total_chars-append, Holds-if, from_option-Holds,
  joins-le,
}

module _ (q : Quality) where
  open q use {IsHeading, IsWhole, IsPart, split_prose-Parts, split_code-Parts, join-IsPart}

  abbrev pub IsPiece : Piece → Type 0
  IsPiece piece = IsHeading piece.heading × IsPart piece.content

  abbrev pub IsOpen : Option Piece → Type 0
  IsOpen none = Unit {0}
  IsOpen (some piece) = IsPiece piece

  pub record IsBuilt (b : Builder) : Type 0 where
    pub pieces : All IsPiece b.chunks
    pub open_piece : IsOpen b.prose
    pub count : length b.chunks ≤ max_chunks_per_document
    pub counted : b.derived_embedding_chars ≡ total_chars b.chunks
    pub total : b.derived_embedding_chars ≤ max_derived_embedding_chars

  push_chunk-IsBuilt :
      (piece : Piece) (b : Builder) → IsPiece piece → IsBuilt b → Holds IsBuilt (push_chunk piece b)
  unfolding push_chunk total_chars
  push_chunk-IsBuilt piece b good v =
      Holds-if IsBuilt (leb max_chunks_per_document (length b.chunks)) _ _ (λ _. tt)
        λ room.
          Holds-if IsBuilt
            (ltb max_derived_embedding_chars (b.derived_embedding_chars + payload_chars piece)) _ _
            (λ _. tt)
            λ fits. record {
              pieces = All-append IsPiece b.chunks (piece ∷ []) v.pieces (good, tt);
              open_piece = v.open_piece;
              count = ground (arith, length-append b.chunks (piece ∷ []));
              counted = omega (arith, total_chars-append b.chunks (piece ∷ []), v.counted);
              total = ground arith;
            }

  push_if-IsBuilt :
      (text : Text) (piece : Piece) (b : Builder)
      → IsPiece piece
      → IsBuilt b
      → Holds IsBuilt (push_if text piece b)
  unfolding push_if
  push_if-IsBuilt [] piece b good v = v
  push_if-IsBuilt (c ∷ s) piece b good v = push_chunk-IsBuilt piece b good v

  push_prose-IsBuilt :
      (p : Option Piece) (b : Builder) → IsOpen p → IsBuilt b → Holds IsBuilt (push_prose p b)
  unfolding push_prose
  push_prose-IsBuilt none b good v = v
  push_prose-IsBuilt (some piece) b good v = push_if-IsBuilt piece.content piece b good v

  with_open :
      (p : Option Piece) (b : Builder) → IsOpen p → IsBuilt b → IsBuilt (record b { prose = p })
  with_open p b good v = record {
    pieces = v.pieces;
    open_piece = good;
    count = v.count;
    counted = v.counted;
    total = v.total;
  }

  flush_prose-IsBuilt : (b : Builder) → IsBuilt b → Holds IsBuilt (flush_prose b)
  unfolding flush_prose
  flush_prose-IsBuilt b v =
      Holds-bind IsBuilt IsBuilt (push_prose b.prose b) _
        (push_prose-IsBuilt b.prose b v.open_piece v) (λ pushed w. with_open none pushed tt w)

  fresh_prose-IsBuilt :
      (heading piece : Text) (b : Builder)
      → IsHeading heading
      → IsPart piece
      → IsBuilt b
      → Holds IsBuilt (fresh_prose heading piece b)
  unfolding fresh_prose
  fresh_prose-IsBuilt heading piece b h p v =
      Holds-bind IsBuilt IsBuilt (flush_prose b) _ (flush_prose-IsBuilt b v) λ flushed w.
        with_open (some (record { heading = heading; content = piece })) flushed (h, p) w

  extend_prose-IsBuilt :
      (heading piece : Text) (p : Option Piece) (b : Builder)
      → IsHeading heading
      → IsPart piece
      → IsOpen p
      → IsBuilt b
      → Holds IsBuilt (extend_prose heading piece p b)
  unfolding extend_prose
  extend_prose-IsBuilt heading piece none b h p o v = fresh_prose-IsBuilt heading piece b h p v
  extend_prose-IsBuilt heading piece (some current) b h p o v =
      Holds-if IsBuilt (joins heading piece current) _ _
        (λ fits.
          with_open (some (record current { content = current.content ++ 10 ∷ 10 ∷ piece })) b
            (o.0, join-IsPart current.content piece o.1 p (joins-le heading piece current fits)) v)
        (λ _. fresh_prose-IsBuilt heading piece b h p v)

  add_pieces-IsBuilt :
      (heading : Text) (pieces : List Text) (b : Builder)
      → IsHeading heading
      → All IsPart pieces
      → IsBuilt b
      → Holds IsBuilt (add_pieces heading pieces b)
  unfolding add_pieces
  add_pieces-IsBuilt heading [] b h ps v = v
  add_pieces-IsBuilt heading (piece ∷ pieces) b h ps v =
      Holds-bind IsBuilt IsBuilt (extend_prose heading piece b.prose b) _
        (extend_prose-IsBuilt heading piece b.prose b h ps.0 v.open_piece v)
        (λ c w. add_pieces-IsBuilt heading pieces c h ps.1 w)

  append_prose-IsBuilt :
      (heading text : Text) (b : Builder)
      → IsHeading heading
      → IsWhole text
      → IsBuilt b
      → Holds IsBuilt (append_prose heading text b)
  unfolding append_prose
  append_prose-IsBuilt heading [] b h t v = v
  append_prose-IsBuilt heading (c ∷ s) b h t v =
      Holds-bind (All IsPart) IsBuilt
        (from_option (split_prose (c ∷ s) target_chars hard_cap_chars)) _
        (from_option-Holds IsPart (split_prose (c ∷ s) target_chars hard_cap_chars)
          (split_prose-Parts (c ∷ s) t))
        (λ pieces ps. add_pieces-IsBuilt heading pieces b h ps v)

  push_chunks-IsBuilt :
      (heading : Text) (pieces : List Text) (b : Builder)
      → IsHeading heading
      → All IsPart pieces
      → IsBuilt b
      → Holds IsBuilt (push_chunks heading pieces b)
  unfolding push_chunks
  push_chunks-IsBuilt heading [] b h ps v = v
  push_chunks-IsBuilt heading (piece ∷ pieces) b h ps v =
      Holds-bind IsBuilt IsBuilt (push_chunk (record { heading = heading; content = piece }) b) _
        (push_chunk-IsBuilt (record { heading = heading; content = piece }) b (h, ps.0) v)
        (λ c w. push_chunks-IsBuilt heading pieces c h ps.1 w)

  -- What is asked of a block.
  abbrev pub IsSource : Block → Type 0
  IsSource block =
      IsHeading (bound_heading block.heading)
      × IsWhole block.heading_remainder
      × IsWhole block.content
      × IsWhole (with_remainder block.heading_remainder block.content)

  add_code-IsBuilt :
      (block : Block) (b : Builder)
      → IsSource block
      → IsBuilt b
      → Holds IsBuilt (add_code (bound_heading block.heading) block b)
  unfolding add_code
  add_code-IsBuilt block b source v =
      let heading = bound_heading block.heading in
      Holds-bind IsBuilt IsBuilt (append_prose heading block.heading_remainder b) _
        (append_prose-IsBuilt heading block.heading_remainder b source.0 source.1 v)
        λ appended w.
          Holds-bind IsBuilt IsBuilt (flush_prose appended) _ (flush_prose-IsBuilt appended w)
            λ flushed x.
              Holds-bind (All IsPart) IsBuilt
                (from_option (split_code block.content hard_cap_chars)) _
                (from_option-Holds IsPart (split_code block.content hard_cap_chars)
                  (split_code-Parts block.content source.2))
                λ pieces ps. push_chunks-IsBuilt heading pieces flushed source.0 ps x

  add_kind-IsBuilt :
      (kind : Kind) (block : Block) (b : Builder)
      → IsSource block
      → IsBuilt b
      → Holds IsBuilt (add_kind kind block b)
  unfolding add_kind
  add_kind-IsBuilt code block b source v = add_code-IsBuilt block b source v
  add_kind-IsBuilt prose block b source v =
      append_prose-IsBuilt (bound_heading block.heading)
        (with_remainder block.heading_remainder block.content) b source.0 source.3 v

  add_blocks-IsBuilt :
      (blocks : List Block) (b : Builder)
      → All IsSource blocks
      → IsBuilt b
      → Holds IsBuilt (add_blocks blocks b)
  unfolding add_blocks
  add_blocks-IsBuilt [] b sources v = v
  add_blocks-IsBuilt (block ∷ blocks) b sources v =
      Holds-bind IsBuilt IsBuilt (add_kind block.kind block b) _
        (add_kind-IsBuilt block.kind block b sources.0 v)
        (λ c w. add_blocks-IsBuilt blocks c sources.1 w)

  or_whole-IsBuilt :
      (normalized : Text) (chunks : List Piece) (b : Builder)
      → IsWhole normalized
      → IsHeading default_heading
      → IsBuilt b
      → Holds IsBuilt (or_whole normalized chunks b)
  unfolding or_whole
  or_whole-IsBuilt normalized (piece ∷ pieces) b t h v = v
  or_whole-IsBuilt normalized [] b t h v =
      Holds-bind (All IsPart) IsBuilt
        (from_option (split_prose normalized target_chars hard_cap_chars)) _
        (from_option-Holds IsPart (split_prose normalized target_chars hard_cap_chars)
          (split_prose-Parts normalized t))
        (λ pieces ps. push_chunks-IsBuilt default_heading pieces b h ps v)

  pub collect-IsBuilt :
      (normalized : Text)
      → IsWhole normalized
      → IsHeading default_heading
      → All IsSource (parse_blocks (split_lines normalized))
      → Holds IsBuilt (collect normalized)
  unfolding collect total_chars
  collect-IsBuilt normalized t h sources =
      Holds-bind IsBuilt IsBuilt (add_blocks (parse_blocks (split_lines normalized)) start_builder)
        _
        (add_blocks-IsBuilt (parse_blocks (split_lines normalized)) start_builder sources (record {
          pieces = tt;
          open_piece = tt;
          count = omega arith;
          counted = refl;
          total = omega arith;
        }))
        λ added v.
          Holds-bind IsBuilt IsBuilt (flush_prose added) _ (flush_prose-IsBuilt added v)
            λ flushed w. or_whole-IsBuilt normalized flushed.chunks flushed t h w
