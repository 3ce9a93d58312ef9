-- ===== src/Chunking/Blocks/Surrogates.antt =====
-- chunkDocument.ts: surrogate pairs in the blocks that `parseBlocks` reads.
use vennek.Prelude.{
  refl, Bool, true, false, Option, none, some, List, [], ◌∷◌, ◌++◌, Text, if◌then◌else◌, trim,
}
use mathlib.Core.List.{foldl}
use vennek.Prelude.Every.{All, All-append}
use vennek.Unicode.WellFormed.{
  IsWellFormed, append-IsWellFormed, newline-IsWellFormed, trim-IsWellFormed,
}
use vennek.Chunking.Markdown.{
  default_heading, markdown_heading, Fence, opening_fence, closing_fence,
}
use vennek.Chunking.Markdown.Surrogates.{
  WellFormed?, or_text-IsWellFormed, default_heading-IsWellFormed, heading_overflow-IsWellFormed,
  markdown_heading-IsWellFormed,
}
use vennek.Chunking.Blocks.{
  Kind, prose, code, Block, join, Parser, start_parser, push_remainder, flush_heading_remainder,
  push_block, push_prose, flush_prose, start_heading, open_fence, add_solid_line, add_prose_line,
  push_code, code_line, fence_or_prose, heading_or, line_in, parse_line, close_code, end_of_lines,
  parse_blocks,
}

join-IsWellFormed :
    (lines : List Text) → All IsWellFormed lines → IsWellFormed (join (10 ∷ []) lines)
unfolding join
join-IsWellFormed [] h = refl
join-IsWellFormed (s ∷ []) h = h.0
join-IsWellFormed (s ∷ t ∷ rest) h =
    append-IsWellFormed (s ++ 10 ∷ []) (join (10 ∷ []) (t ∷ rest))
      (append-IsWellFormed s (10 ∷ []) h.0 (newline-IsWellFormed [] refl))
      (join-IsWellFormed (t ∷ rest) h.1)

-- Every text of a block.
abbrev pub IsWellFormedBlock : Block → Type 0
IsWellFormedBlock block =
    IsWellFormed block.heading × IsWellFormed block.heading_remainder × IsWellFormed block.content

abbrev OpenCode : Option (Fence × List Text) → Type 0
OpenCode none = Unit {0}
OpenCode (some (fence, code_lines)) = All IsWellFormed code_lines

-- Every text that the parser holds.
record IsWellFormedParser (p : Parser) : Type 0 where
  blocks : All IsWellFormedBlock p.blocks
  heading : IsWellFormed p.heading
  remainder : IsWellFormed p.heading_remainder
  prose_lines : All IsWellFormed p.prose
  code_lines : OpenCode p.open_code

start_parser-IsWellFormedParser : IsWellFormedParser start_parser
start_parser-IsWellFormedParser = record {
  blocks = tt;
  heading = default_heading-IsWellFormed;
  remainder = refl;
  prose_lines = tt;
  code_lines = tt;
}

keeps-if :
    (test : Bool) (p q : Parser)
    → IsWellFormedParser p
    → IsWellFormedParser q
    → IsWellFormedParser (if test then p else q)
keeps-if true p q hp hq = hp
keeps-if false p q hp hq = hq

push_remainder-keeps :
    (s : Text) (p : Parser)
    → IsWellFormed s
    → IsWellFormedParser p
    → IsWellFormedParser (push_remainder s p)
unfolding push_remainder
push_remainder-keeps [] p h v = v
push_remainder-keeps (c ∷ s) p h v = record {
  blocks = All-append IsWellFormedBlock p.blocks _ v.blocks ((v.heading, refl, h), tt);
  heading = v.heading;
  remainder = refl;
  prose_lines = v.prose_lines;
  code_lines = v.code_lines;
}

push_block-keeps :
    (kind : Kind) (content : Text) (p : Parser)
    → IsWellFormed content
    → IsWellFormedParser p
    → IsWellFormedParser (push_block kind content p)
unfolding push_block
push_block-keeps kind content p h v = record {
  blocks = All-append IsWellFormedBlock p.blocks _ v.blocks ((v.heading, v.remainder, h), tt);
  heading = v.heading;
  remainder = refl;
  prose_lines = v.prose_lines;
  code_lines = v.code_lines;
}

push_prose-keeps :
    (text : Text) (p : Parser)
    → IsWellFormed text
    → IsWellFormedParser p
    → IsWellFormedParser (push_prose text p)
unfolding push_prose
push_prose-keeps [] p h v = v
push_prose-keeps (c ∷ s) p h v = push_block-keeps prose (c ∷ s) p h v

-- What changes only the lines that are collected.
with_lines :
    (lines : List Text) (open_lines : Option (Fence × List Text)) (p : Parser)
    → All IsWellFormed lines
    → OpenCode open_lines
    → IsWellFormedParser p
    → IsWellFormedParser (record p { prose = lines; open_code = open_lines })
with_lines lines open_lines p hl ho v = record {
  blocks = v.blocks;
  heading = v.heading;
  remainder = v.remainder;
  prose_lines = hl;
  code_lines = ho;
}

flush_prose-keeps : (p : Parser) → IsWellFormedParser p → IsWellFormedParser (flush_prose p)
unfolding flush_prose
flush_prose-keeps p v =
    let text = trim (join (10 ∷ []) p.prose) in
    let w =
      push_prose-keeps text p
        (trim-IsWellFormed (join (10 ∷ []) p.prose) (join-IsWellFormed p.prose v.prose_lines)) v in
    with_lines [] (push_prose text p).open_code (push_prose text p) tt w.code_lines w

flush_heading_remainder-keeps :
    (p : Parser) → IsWellFormedParser p → IsWellFormedParser (flush_heading_remainder p)
unfolding flush_heading_remainder
flush_heading_remainder-keeps p v = push_remainder-keeps p.heading_remainder p v.remainder v

start_heading-keeps :
    (parsed : Text) (p : Parser)
    → IsWellFormed parsed
    → IsWellFormedParser p
    → IsWellFormedParser (start_heading parsed p)
unfolding start_heading
start_heading-keeps parsed p h v =
    let w = flush_heading_remainder-keeps (flush_prose p) (flush_prose-keeps p v) in
    record {
      blocks = w.blocks;
      heading = or_text-IsWellFormed parsed default_heading h default_heading-IsWellFormed;
      remainder = heading_overflow-IsWellFormed parsed h;
      prose_lines = w.prose_lines;
      code_lines = w.code_lines;
    }

open_fence-keeps :
    (fence : Fence) (line : Text) (p : Parser)
    → IsWellFormed line
    → IsWellFormedParser p
    → IsWellFormedParser (open_fence fence line p)
unfolding open_fence
open_fence-keeps fence line p h v =
    let w = flush_prose-keeps p v in
    with_lines (flush_prose p).prose (some (fence, line ∷ [])) (flush_prose p) w.prose_lines (h, tt)
      w

push_code-keeps :
    (code_lines : List Text) (p : Parser)
    → All IsWellFormed code_lines
    → IsWellFormedParser p
    → IsWellFormedParser (push_code code_lines p)
unfolding push_code
push_code-keeps code_lines p h v =
    let text = trim (join (10 ∷ []) code_lines) in
    let w =
      push_block-keeps code text p
        (trim-IsWellFormed (join (10 ∷ []) code_lines) (join-IsWellFormed code_lines h)) v in
    with_lines (push_block code text p).prose none (push_block code text p) w.prose_lines tt w

add_solid_line-keeps :
    (trimmed line : Text) (p : Parser)
    → IsWellFormed line
    → IsWellFormedParser p
    → IsWellFormedParser (add_solid_line trimmed line p)
unfolding add_solid_line
add_solid_line-keeps [] line p h v = flush_prose-keeps p v
add_solid_line-keeps (c ∷ s) line p h v =
    with_lines (p.prose ++ line ∷ []) p.open_code p
      (All-append IsWellFormed p.prose (line ∷ []) v.prose_lines (h, tt)) v.code_lines v

code_line-keeps :
    (fence : Fence) (code_lines : List Text) (line : Text) (p : Parser)
    → All IsWellFormed code_lines
    → IsWellFormed line
    → IsWellFormedParser p
    → IsWellFormedParser (code_line fence code_lines line p)
unfolding code_line
code_line-keeps fence code_lines line p hs h v =
    let all = All-append IsWellFormed code_lines (line ∷ []) hs (h, tt) in
    keeps-if (closing_fence line fence) (push_code (code_lines ++ line ∷ []) p)
      (record p { open_code = some (fence, code_lines ++ line ∷ []) })
      (push_code-keeps (code_lines ++ line ∷ []) p all v)
      (with_lines p.prose (some (fence, code_lines ++ line ∷ [])) p v.prose_lines all v)

fence_or_prose-keeps :
    (fence? : Option Fence) (line : Text) (p : Parser)
    → IsWellFormed line
    → IsWellFormedParser p
    → IsWellFormedParser (fence_or_prose fence? line p)
unfolding fence_or_prose add_prose_line
fence_or_prose-keeps none line p h v = add_solid_line-keeps (trim line) line p h v
fence_or_prose-keeps (some fence) line p h v = open_fence-keeps fence line p h v

heading_or-keeps :
    (parsed : Option Text) (line : Text) (p : Parser)
    → WellFormed? parsed
    → IsWellFormed line
    → IsWellFormedParser p
    → IsWellFormedParser (heading_or parsed line p)
unfolding heading_or
heading_or-keeps none line p hp h v = fence_or_prose-keeps (opening_fence line) line p h v
heading_or-keeps (some parsed) line p hp h v = start_heading-keeps parsed p hp v

line_in-keeps :
    (open_lines : Option (Fence × List Text)) (line : Text) (p : Parser)
    → OpenCode open_lines
    → IsWellFormed line
    → IsWellFormedParser p
    → IsWellFormedParser (line_in open_lines line p)
unfolding line_in
line_in-keeps none line p ho h v =
    heading_or-keeps (markdown_heading line) line p (markdown_heading-IsWellFormed line h) h v
line_in-keeps (some (fence, code_lines)) line p ho h v =
    code_line-keeps fence code_lines line p ho h v

parse_lines-keeps :
    (lines : List Text) (p : Parser)
    → All IsWellFormed lines
    → IsWellFormedParser p
    → IsWellFormedParser (foldl parse_line p lines)
unfolding parse_line
parse_lines-keeps [] p hs v = v
parse_lines-keeps (line ∷ lines) p hs v =
    parse_lines-keeps lines (line_in p.open_code line p) hs.1
      (line_in-keeps p.open_code line p v.code_lines hs.0 v)

close_code-keeps :
    (open_lines : Option (Fence × List Text)) (p : Parser)
    → OpenCode open_lines
    → IsWellFormedParser p
    → IsWellFormedParser (close_code open_lines p)
unfolding close_code
close_code-keeps none p ho v = v
close_code-keeps (some (fence, code_lines)) p ho v = push_code-keeps code_lines p ho v

pub parse_blocks-IsWellFormed :
    (lines : List Text) → All IsWellFormed lines → All IsWellFormedBlock (parse_blocks lines)
unfolding parse_blocks end_of_lines
parse_blocks-IsWellFormed lines h =
    let p = foldl parse_line start_parser lines in
    let v = parse_lines-keeps lines start_parser h start_parser-IsWellFormedParser in
    let w = close_code-keeps p.open_code p v.code_lines v in
    let x = flush_prose-keeps (close_code p.open_code p) w in
    (flush_heading_remainder-keeps (flush_prose (close_code p.open_code p)) x).blocks
