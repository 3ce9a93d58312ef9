-- ===== src/Chunking/Tests.antt =====
-- Documents cut by the model of chunkDocument.ts, with the identity for `normalize("NFC")` and for
-- the hash.
use vennek.Prelude.{
  ℕ, ◌≡◌, ◌≢◌, refl, true, none, some, List, [], ◌∷◌, ◌++◌, Text, codes, replicate, map, length,
  same, trim, trim_end, trim_start, is_space, starts_with,
}
use mathlib.Core.Option
use vennek.Unicode.{is_high, is_low}
use vennek.Value.{string}
use vennek.Chunking.Cuts.{
  unit_at, later_index, last_index_of, max_index, not_below_half, prose_cut, safe_cut, truncate_end,
  truncate_safe, suffix_start, suffix_safe,
}
use vennek.Chunking.Split.{
  push_piece, push_before, carry_over, prose_piece, prose_rest, prose_pieces, split_prose,
  positive_or, code_cut, code_pieces, split_code,
}
use vennek.Chunking.Markdown.{
  or_text, skip_spaces, run_of, is_blank, skip_blanks, skip_blanks_end, starts_blank,
  is_line_terminator, is_one_line, without_closing, heading_body, after_hashes, heading_level,
  markdown_heading, fence_of, opening_fence_of, opening_fence, all_spaces, closing_fence,
  bound_heading, heading_overflow,
}
use vennek.Chunking.Blocks.{
  Block, prose, code, join, push_remainder, flush_heading_remainder, push_block, start_heading,
  open_fence, add_solid_line, add_prose_line, push_code, code_line, fence_or_prose, heading_or,
  prose_line, line_in, parse_line, close_code, end_of_lines, parse_blocks,
}
use vennek.Chunking.Builder.{
  Result, ok, err, out_of_fuel, from_option, push_chunk, push_if, joins, fresh_prose, extend_prose,
  add_pieces, append_prose, push_chunks, add_code, with_remainder, add_kind, add_blocks, onto_first,
  split_lines, or_whole, collect,
}
use vennek.Chunking.Builder
use vennek.Chunking.Blocks
use vennek.Chunking.Document.{
  DocumentChunk, unify_newlines, has_content, number, chunk_normalized, chunk_text, chunk_document,
}
use vennek.Prelude.Every.{All}
use vennek.Unicode.WellFormed.{IsWellFormed, scan_unit}
use vennek.Chunking.Split.Covers.{Covers}
use vennek.Chunking.Document.Surrogates.{HasWholePairs, chunk_document-HasWholePairs}
use vennek.Chunking.Document.Bounds.{IsResult, chunk_document-bounds, chunk_document-Ends}

-- The one name for what a test by `refl` computes with.
run : Unit {0}
unfolding is_high is_low scan_unit unit_at later_index last_index_of max_index not_below_half
    prose_cut safe_cut truncate_end truncate_safe suffix_start suffix_safe push_piece push_before
    carry_over prose_piece prose_rest prose_pieces split_prose positive_or code_cut code_pieces
    split_code or_text skip_spaces run_of is_blank skip_blanks skip_blanks_end starts_blank
    is_line_terminator is_one_line without_closing heading_body after_hashes heading_level
    markdown_heading fence_of opening_fence_of opening_fence all_spaces closing_fence bound_heading
    heading_overflow join push_remainder flush_heading_remainder push_block Blocks.push_prose
    Blocks.flush_prose start_heading open_fence add_solid_line add_prose_line push_code code_line
    fence_or_prose heading_or prose_line line_in parse_line close_code end_of_lines parse_blocks
    from_option push_chunk push_if Builder.push_prose Builder.flush_prose joins fresh_prose
    extend_prose add_pieces append_prose push_chunks add_code with_remainder add_kind add_blocks
    onto_first split_lines or_whole collect unify_newlines has_content number chunk_normalized
    chunk_text chunk_document same trim trim_end trim_start is_space starts_with
run = tt

abbrev identity : Text → Text
identity s = s

heading_closed : markdown_heading (codes "  ## Title ##  ") ≡ some (codes "Title")
unfolding run
heading_closed = refl

heading_seven : markdown_heading (codes "####### Title") ≡ none
unfolding run
heading_seven = refl

heading_tight : markdown_heading (codes "#Title") ≡ none
unfolding run
heading_tight = refl

heading_hash : markdown_heading (codes "# #") ≡ some (codes "#")
unfolding run
heading_hash = refl

fence_closed :
    Option.map (closing_fence (codes "  ~~~~ ")) (opening_fence (codes "~~~ts")) ≡ some true
unfolding run
fence_closed = refl

abbrev document : Text
document = codes "Intro.\r\n\r\nMore.\n# Part\ntext\n```\nlet x;\n\ny\n```\n"

abbrev chunk_of : Text → Text → ℕ → DocumentChunk Text
chunk_of heading content ordinal = record {
  ordinal = ordinal;
  heading = heading;
  content = content;
  content_hash = heading ++ 10 ∷ content;
}

abbrev document_chunks : List (DocumentChunk Text)
document_chunks =
    chunk_of (codes "Document") (codes "Intro.\n\nMore.") 0
    ∷ chunk_of (codes "Part") (codes "text") 1
    ∷ chunk_of (codes "Part") (codes "```\nlet x;\n\ny\n```") 2
    ∷ []

document_cut : chunk_document identity identity (string document) ≡ ok document_chunks
unfolding run
document_cut = refl

-- The end of a piece is repeated before the next one, unless that begins with it.
long_cut :
    Option.map (map length) (split_prose (replicate 1000 b'a' ++ replicate 1000 b'b') 1000 1200)
    ≡ some (1000 ∷ 1151 ∷ [])
unfolding run
long_cut = refl

chunk_document-bounds_example : IsResult identity document_chunks
chunk_document-bounds_example =
    chunk_document-bounds identity identity (string document) document_cut

chunk_document-Ends_example : chunk_document identity identity (string document) ≢ err out_of_fuel
chunk_document-Ends_example = chunk_document-Ends identity identity (string document)

-- A text of surrogate pairs, and one letter.
abbrev pairs : Text
pairs = b'a' ∷ 0xd83d ∷ 0xde00 ∷ []

abbrev pairs_chunks : List (DocumentChunk Text)
pairs_chunks = chunk_of (codes "Document") pairs 0 ∷ []

pairs_cut : chunk_document identity identity (string pairs) ≡ ok pairs_chunks
unfolding run
pairs_cut = refl

pairs_whole : IsWellFormed pairs
unfolding run
pairs_whole = refl

chunk_document-HasWholePairs_example : All (HasWholePairs identity identity) pairs_chunks
chunk_document-HasWholePairs_example =
    chunk_document-HasWholePairs identity identity pairs (λ s h. h) pairs_whole pairs_cut

-- Two lines of code, over a cap of 310 together.
abbrev long_code : Text
long_code = replicate 300 b'x' ++ 10 ∷ replicate 20 b'y'

long_code_cut : Option.map (map length) (split_code long_code 310) ≡ some (300 ∷ 20 ∷ [])
unfolding run
long_code_cut = refl
