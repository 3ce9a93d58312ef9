-- ===== src/Answer/Prepare.antt =====
-- renderAnswer.ts: labels, the line of a source, and the claims that are rendered, each with the
-- sources that it cites.
use vennek.Prelude.{
  ℕ, Bool, true, false, not, ◌&&◌, ◌||◌, none, some, List, [], ◌∷◌, ◌++◌, Text, codes, leb,
  if◌then◌else◌, trim, is_space, get, take,
}
use vennek.Value.Decimal.{decimal}
use vennek.Unicode.{is_high, is_low, pair_value, is_format}
use vennek.Chunking.Blocks.{join}
use vennek.Answer.Evidence.{GroundedEvidence, listed}
use vennek.Answer.Claims.{ClaimKind, caveat, conflict, GeneratedClaim, by_id}

-- The labels of a language.
pub record RenderLabels : Type 0 where
  pub community_only : Text
  pub mixed_unverified : Text
  pub conflict_label : Text
  pub stale : Text
  pub sources : Text

-- [\p{Cc}\p{Cf}]
unfoldable pub is_invisible : ℕ → Bool
unfolding is_format
is_invisible c = leb c 0x1f || (leb 0x7f c && leb c 0x9f) || is_format c

-- `.replace(/[\p{Cc}\p{Cf}]/gu, " ")`, by code points.
unfoldable pub replace_invisible : Text → Text
unfolding is_invisible is_high is_low
replace_invisible [] = []
replace_invisible (c ∷ []) = (if is_invisible c then b' ' else c) ∷ []
replace_invisible (c ∷ d ∷ s) = elim (is_high c && is_low d) [
  | true ↦ elim (is_invisible (pair_value c d)) [
    | true ↦ b' ' ∷ replace_invisible s
    | false ↦ c ∷ d ∷ replace_invisible s
  ]
  | false ↦ (if is_invisible c then b' ' else c) ∷ replace_invisible (d ∷ s)
]

-- `.replace(/\s+/gu, " ")`; `inside` says that the unit before was a space.
unfoldable pub squeeze : (inside : Bool) → Text → Text
unfolding is_space
squeeze inside [] = []
squeeze inside (c ∷ s) = elim (is_space c) [
  | true ↦ elim inside [ true ↦ squeeze true s | false ↦ b' ' ∷ squeeze true s ]
  | false ↦ c ∷ squeeze false s
]

unfoldable pub safe_label : Text → Text
unfolding replace_invisible squeeze trim
safe_label value = trim (squeeze false (replace_invisible value))

unfoldable pub provenance_key : GroundedEvidence → Text
provenance_key item = item.source_id ++ 0 ∷ item.version_hash ++ 0 ∷ item.url

unfoldable pub date_label : GroundedEvidence → Text
date_label item =
    take 10 (elim item.published_at [ some published ↦ published | none ↦ item.retrieved_at ])

-- `[a, b].filter(Boolean).join(", ")`
unfoldable pub nonempty_texts : List Text → List Text
nonempty_texts [] = []
nonempty_texts ([] ∷ ss) = nonempty_texts ss
nonempty_texts ((c ∷ s) ∷ ss) = (c ∷ s) ∷ nonempty_texts ss

unfoldable pub joined_labels : List Text → Text
unfolding nonempty_texts join
joined_labels labels = join (codes ", ") (nonempty_texts labels)

-- A text in brackets after a space, or nothing.
unfoldable pub bracketed : Text → Text
bracketed [] = []
bracketed (c ∷ s) = codes " [" ++ (c ∷ s) ++ codes "]"

unfoldable pub source_line : GroundedEvidence → ℕ → Bool → RenderLabels → Text
unfolding joined_labels bracketed safe_label date_label decimal
source_line item number is_conflict labels =
    let state = joined_labels (
      (if item.stale then labels.stale else [])
      ∷ (if is_conflict then labels.conflict_label else [])
      ∷ []) in
    codes "["
    ++ decimal number
    ++ codes "] "
    ++ safe_label item.owner
    ++ codes " — "
    ++ safe_label item.title
    ++ codes " ("
    ++ date_label item
    ++ codes ")"
    ++ bracketed state
    ++ 10 ∷ item.url

pub record PreparedClaim : Type 0 where
  pub text : Text
  pub kind : ClaimKind
  pub cited : List GroundedEvidence

unfoldable pub unique_cited :
    List (Text × GroundedEvidence) → List Text → (seen : List Text) → List GroundedEvidence
unfolding get listed provenance_key
unique_cited known [] seen = []
unique_cited known (id ∷ ids) seen = elim (get id known) [
  | none ↦ unique_cited known ids seen
  | some item ↦ elim (listed (provenance_key item) seen) [
    | true ↦ unique_cited known ids seen
    | false ↦ item ∷ unique_cited known ids (provenance_key item ∷ seen)
  ]
]

abbrev pub is_caveat : ClaimKind → Bool
is_caveat caveat = true
is_caveat _ = false

abbrev pub is_conflict_kind : ClaimKind → Bool
is_conflict_kind conflict = true
is_conflict_kind _ = false

abbrev pub none_cited : List GroundedEvidence → Bool
none_cited [] = true
none_cited (item ∷ items) = false

-- A claim with no text left, or no source where it needs one, is dropped.
unfoldable pub prepared : Text → ClaimKind → List GroundedEvidence → List PreparedClaim
prepared [] kind cited = []
prepared (c ∷ s) kind cited =
    if none_cited cited && not (is_caveat kind)
    then []
    else record { text = c ∷ s; kind = kind; cited = cited } ∷ []

unfoldable pub prepare_from :
    List (Text × GroundedEvidence) → List GeneratedClaim → List PreparedClaim
unfolding prepared safe_label unique_cited
prepare_from known [] = []
prepare_from known (claim ∷ claims) =
    prepared (safe_label claim.text) claim.kind (unique_cited known claim.citation_ids [])
    ++ prepare_from known claims

unfoldable pub prepare_claims : List GeneratedClaim → List GroundedEvidence → List PreparedClaim
unfolding prepare_from by_id
prepare_claims claims evidence = prepare_from (by_id evidence) claims
