-- ===== src/Answer/Render.antt =====
-- renderAnswer.ts: the verified claims with their labels and citations, and one block of sources
-- without repetitions.
use vennek.Prelude.{
  ℕ, zero, suc, ◌+◌, Bool, true, false, not, ◌&&◌, ◌||◌, Option, none, some, List, [], ◌∷◌, ◌++◌,
  map, Text, codes, leb, if◌then◌else◌, get, put, length, take,
}
use vennek.Value.Decimal.{decimal}
use vennek.Chunking.Blocks.{join}
use vennek.Answer.Evidence.{TrustTier, community, GroundedEvidence, listed}
use vennek.Answer.Claims.{GeneratedClaim, is_unverified, is_official}
use vennek.Answer.Prepare.{
  RenderLabels, provenance_key, nonempty_texts, source_line, PreparedClaim, is_conflict_kind,
  none_cited, prepare_claims,
}

abbrev pub max_answer_chars : ℕ
max_answer_chars = 3900

-- `sourceNumbers`, `sources` and `sourceNumber` of `renderCandidate`.
pub record Numbering : Type 0 where
  pub numbers : List (Text × ℕ)
  pub sources : List GroundedEvidence
  pub next : ℕ

abbrev pub start_numbering : Numbering
start_numbering = record { numbers = []; sources = []; next = 1 }

unfoldable pub number_source : GroundedEvidence → Option ℕ → Numbering → ℕ × Numbering
unfolding put provenance_key
number_source item (some number) state = (number, state)
number_source item none state = (
  state.next,
  record {
    numbers = put (provenance_key item) state.next state.numbers;
    sources = state.sources ++ item ∷ [];
    next = state.next + 1;
  },
)

unfoldable pub number_item : GroundedEvidence → Numbering → ℕ × Numbering
unfolding number_source get provenance_key
number_item item state = number_source item (get (provenance_key item) state.numbers) state

unfoldable pub number_cited : List GroundedEvidence → Numbering → List ℕ × Numbering
unfolding number_item
number_cited [] state = ([], state)
number_cited (item ∷ items) state =
    let (number, state') = number_item item state in
    let (numbers, state'') = number_cited items state' in (number ∷ numbers, state'')

unfoldable pub every_tier : (TrustTier → Bool) → List GroundedEvidence → Bool
every_tier test [] = true
every_tier test (item ∷ items) = test item.trust_tier && every_tier test items

unfoldable pub some_tier : (TrustTier → Bool) → List GroundedEvidence → Bool
some_tier test [] = false
some_tier test (item ∷ items) = test item.trust_tier || some_tier test items

abbrev pub is_community : TrustTier → Bool
is_community community = true
is_community _ = false

unfoldable pub claim_labels : PreparedClaim → RenderLabels → List Text
unfolding every_tier some_tier nonempty_texts
claim_labels claim labels =
    let cited = claim.cited in
    nonempty_texts (
      (if not (none_cited cited) && every_tier is_community cited
        then labels.community_only
        else [])
      ∷ (if not (none_cited cited)
            && every_tier (λ tier. not (is_official tier)) cited
            && some_tier is_unverified cited
          then labels.mixed_unverified
          else [])
      ∷ (if is_conflict_kind claim.kind then labels.conflict_label else [])
      ∷ [])

-- `[${n}]` for each number, joined by spaces, after a space.
unfoldable pub citation_marks : List ℕ → Text
unfolding decimal
citation_marks [] = []
citation_marks (n ∷ ns) = codes " [" ++ decimal n ++ codes "]" ++ citation_marks ns

unfoldable pub label_prefix : List Text → Text
unfolding join
label_prefix [] = []
label_prefix (label ∷ labels) = codes "[" ++ join (codes ", ") (label ∷ labels) ++ codes "] "

unfoldable pub claim_line : PreparedClaim → List ℕ → RenderLabels → Text
unfolding label_prefix claim_labels citation_marks
claim_line claim numbers labels =
    label_prefix (claim_labels claim labels) ++ claim.text ++ citation_marks numbers

-- The numbers of the citations of every claim, in order.
unfoldable pub number_claims : List PreparedClaim → Numbering → List (List ℕ) × Numbering
unfolding number_cited
number_claims [] state = ([], state)
number_claims (claim ∷ claims) state =
    let (numbers, state') = number_cited claim.cited state in
    let (all, state'') = number_claims claims state' in (numbers ∷ all, state'')

unfoldable pub claim_lines : List PreparedClaim → List (List ℕ) → RenderLabels → List Text
unfolding claim_line
claim_lines [] all labels = []
claim_lines (claim ∷ claims) [] labels = []
claim_lines (claim ∷ claims) (numbers ∷ all) labels =
    claim_line claim numbers labels ∷ claim_lines claims all labels

unfoldable pub conflict_keys : List PreparedClaim → List Text
unfolding provenance_key
conflict_keys [] = []
conflict_keys (claim ∷ claims) =
    (if is_conflict_kind claim.kind then map provenance_key claim.cited else [])
    ++ conflict_keys claims

abbrev pub number_or_zero : Option ℕ → ℕ
number_or_zero (some n) = n
number_or_zero none = 0

unfoldable pub source_lines :
    List GroundedEvidence → List (Text × ℕ) → List Text → RenderLabels → List Text
unfolding source_line get listed provenance_key
source_lines [] numbers conflicts labels = []
source_lines (item ∷ items) numbers conflicts labels =
    source_line item (number_or_zero (get (provenance_key item) numbers))
      (listed (provenance_key item) conflicts) labels
    ∷ source_lines items numbers conflicts labels

unfoldable pub with_sources :
    List Text → Numbering → List Text → RenderLabels → List GroundedEvidence → Text
unfolding join source_lines
with_sources lines state conflicts labels [] = join (10 ∷ 10 ∷ []) lines
with_sources lines state conflicts labels (item ∷ items) =
    join (10 ∷ 10 ∷ []) lines
    ++ 10 ∷ 10 ∷ labels.sources
    ++ codes ":\n"
    ++ join (10 ∷ []) (source_lines state.sources state.numbers conflicts labels)

unfoldable pub render_candidate : List PreparedClaim → RenderLabels → Text
unfolding number_claims claim_lines conflict_keys with_sources
render_candidate claims labels =
    let (all, state) = number_claims claims start_numbering in
    with_sources (claim_lines claims all labels) state (conflict_keys claims) labels state.sources

-- The `while` loop: the last claim is dropped until the answer fits. `count` claims are left.
unfoldable pub render_fitting : ℕ → List PreparedClaim → RenderLabels → Text
unfolding render_candidate
render_fitting zero claims labels = []
render_fitting (suc count) claims labels =
    let candidate = render_candidate (take (suc count) claims) labels in
    let fewer = render_fitting count claims labels in
    if leb (length candidate) max_answer_chars then candidate else fewer

unfoldable pub render_answer : List GeneratedClaim → List GroundedEvidence → RenderLabels → Text
unfolding render_fitting prepare_claims
render_answer input evidence labels =
    let claims = prepare_claims input evidence in render_fitting (length claims) claims labels
