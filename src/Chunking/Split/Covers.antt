-- ===== src/Chunking/Split/Covers.antt =====
-- chunkDocument.ts: what the cutting of a text leaves out.
use vennek.Prelude.{◌≡◌, Option, none, some, List, [], ◌∷◌, ◌++◌, Text}
use mathlib.Core.List.{Sublist}
use mathlib.Core.List.Sublist
use vennek.Prelude.Spaces.{solid}

-- There is a result, with the property.
abbrev pub Gives : (List Text → Type 0) → Option (List Text) → Type 0
Gives P none = ⊥
Gives P (some pieces) = P pieces

-- The units of all pieces that are no spaces.
unfoldable pub solid_all : List Text → Text
solid_all [] = []
solid_all (piece ∷ pieces) = solid piece ++ solid_all pieces

abbrev pub Keeps : Text → List Text → Type 0
Keeps s pieces = solid_all pieces ≡ solid s

abbrev pub Covers : Text → List Text → Type 0
Covers s pieces = Sublist (solid s) (solid_all pieces)
