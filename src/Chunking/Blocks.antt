-- ===== src/Chunking/Blocks.antt =====
-- chunkDocument.ts, `parseBlocks`: the lines of a document as prose and fenced code under headings.
pub mod Surrogates
use vennek.Prelude.{
  ℕ, zero, suc, ◌+◌, Bool, true, false, not, ◌&&◌, ◌||◌, Option, none, some, List, [], ◌∷◌, ◌++◌,
  reverse, Text, codes, ltb, leb, ◌==◌, if◌then◌else◌, is_space, length, drop, trim, trim_start,
}
use mathlib.Core.List.{foldl}
use vennek.Chunking.Markdown.{
  default_heading, or_text, markdown_heading, Fence, opening_fence, closing_fence, heading_overflow,
}

pub data Kind : Type 0 where
  prose : Kind
  code : Kind

pub record Block : Type 0 where
  pub heading : Text
  pub heading_remainder : Text
  pub kind : Kind
  pub content : Text

unfoldable pub join : Text → List Text → Text
join separator [] = []
join separator (s ∷ []) = s
join separator (s ∷ t ∷ rest) = s ++ separator ++ join separator (t ∷ rest)

-- The variables of `parseBlocks`; `open_code` is the fenced block that the inner loop reads.
pub record Parser : Type 0 where
  pub blocks : List Block
  pub heading : Text
  pub heading_remainder : Text
  pub prose : List Text
  pub open_code : Option (Fence × List Text)

abbrev pub start_parser : Parser
start_parser = record {
  blocks = [];
  heading = default_heading;
  heading_remainder = [];
  prose = [];
  open_code = none;
}

unfoldable pub push_remainder : Text → Parser → Parser
push_remainder [] p = p
push_remainder (c ∷ s) p = record p {
  blocks =
      p.blocks
      ++ record { heading = p.heading; heading_remainder = []; kind = prose; content = c ∷ s } ∷ [];
  heading_remainder = [];
}

unfoldable pub flush_heading_remainder : Parser → Parser
unfolding push_remainder
flush_heading_remainder p = push_remainder p.heading_remainder p

unfoldable pub push_block : Kind → Text → Parser → Parser
push_block kind content p = record p {
  blocks =
      p.blocks
      ++ record {
        heading = p.heading;
        heading_remainder = p.heading_remainder;
        kind = kind;
        content = content;
      }
        ∷ [];
  heading_remainder = [];
}

unfoldable pub push_prose : Text → Parser → Parser
unfolding push_block
push_prose [] p = p
push_prose (c ∷ s) p = push_block prose (c ∷ s) p

unfoldable pub flush_prose : Parser → Parser
unfolding push_prose join trim
flush_prose p = record (push_prose (trim (join (10 ∷ []) p.prose)) p) { prose = [] }

-- A heading line.
unfoldable pub start_heading : Text → Parser → Parser
unfolding flush_prose flush_heading_remainder or_text heading_overflow
start_heading parsed p = record (flush_heading_remainder (flush_prose p)) {
  heading = or_text parsed default_heading;
  heading_remainder = heading_overflow parsed;
}

-- The opening line of a fenced block.
unfoldable pub open_fence : Fence → Text → Parser → Parser
unfolding flush_prose
open_fence fence line p = record (flush_prose p) { open_code = some (fence, line ∷ []) }

-- `if (line.trim())`.
unfoldable pub add_solid_line : Text → Text → Parser → Parser
unfolding flush_prose
add_solid_line [] line p = flush_prose p
add_solid_line (c ∷ s) line p = record p { prose = p.prose ++ line ∷ [] }

unfoldable pub add_prose_line : Text → Parser → Parser
unfolding add_solid_line trim
add_prose_line line p = add_solid_line (trim line) line p

unfoldable pub push_code : List Text → Parser → Parser
unfolding push_block join trim
push_code code_lines p = record (push_block code (trim (join (10 ∷ []) code_lines)) p) {
  open_code = none;
}

unfoldable pub code_line : Fence → List Text → Text → Parser → Parser
unfolding closing_fence push_code
code_line fence code_lines line p =
    if closing_fence line fence
    then push_code (code_lines ++ line ∷ []) p
    else record p { open_code = some (fence, code_lines ++ line ∷ []) }

unfoldable pub fence_or_prose : Option Fence → Text → Parser → Parser
unfolding open_fence add_prose_line
fence_or_prose none line p = add_prose_line line p
fence_or_prose (some fence) line p = open_fence fence line p

unfoldable pub heading_or : Option Text → Text → Parser → Parser
unfolding start_heading opening_fence fence_or_prose
heading_or (some parsed) line p = start_heading parsed p
heading_or none line p = fence_or_prose (opening_fence line) line p

unfoldable pub prose_line : Text → Parser → Parser
unfolding markdown_heading heading_or
prose_line line p = heading_or (markdown_heading line) line p

unfoldable pub line_in : Option (Fence × List Text) → Text → Parser → Parser
unfolding code_line prose_line
line_in none line p = prose_line line p
line_in (some (fence, code_lines)) line p = code_line fence code_lines line p

-- One round of either loop over the lines.
unfoldable pub parse_line : Parser → Text → Parser
unfolding line_in
parse_line p line = line_in p.open_code line p

-- A fenced block that the last line leaves open is kept.
unfoldable pub close_code : Option (Fence × List Text) → Parser → Parser
unfolding push_code
close_code none p = p
close_code (some (fence, code_lines)) p = push_code code_lines p

unfoldable pub end_of_lines : Parser → Parser
unfolding close_code flush_prose flush_heading_remainder
end_of_lines p = flush_heading_remainder (flush_prose (close_code p.open_code p))

unfoldable pub parse_blocks : List Text → List Block
unfolding parse_line end_of_lines
parse_blocks lines = (end_of_lines (foldl parse_line start_parser lines)).blocks
