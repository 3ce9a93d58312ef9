-- ===== src/Answer/Claims.antt =====
-- groundedPrompt.ts, `parseGeneratedAnswer`: the claims of a generated answer, each with the
-- citations that its kind asks for.
use Prim.Native.String.{String}
use vennek.Prelude.{
  ℕ, ◌+◌, Bool, true, false, not, ◌&&◌, ◌||◌, Option, none, some, List, [], ◌∷◌, ◌++◌, Text, codes,
  leb, ◌==◌, if◌then◌else◌, same, get, put, includes, length,
}
use vennek.Value.{Value, Members, array, elements, keys, read, as_text}
use vennek.Unicode.{byte_length}
use vennek.Metadata.Validate.{◌>>=◌, check, all_listed}
use vennek.Answer.Links.{has_link_or_marker}
use vennek.Answer.Evidence.{
  Platform, TrustTier, official, unverified, GroundedEvidence, max_evidence, character_count,
  bounded_string, listed, members_of,
}

pub data ClaimKind : Type 0 where
  fact : ClaimKind
  caveat : ClaimKind
  conflict : ClaimKind

pub record GeneratedClaim : Type 0 where
  pub text : Text
  pub citation_ids : List Text
  pub kind : ClaimKind

pub record GeneratedAnswer : Type 0 where
  pub language : Text
  pub claims : List GeneratedClaim

abbrev pub max_claims : ℕ
max_claims = 12

abbrev pub max_claim_chars : ℕ
max_claim_chars = 700

abbrev pub max_total_claim_chars : ℕ
max_total_claim_chars = 5000

abbrev pub max_generated_response_bytes : ℕ
max_generated_response_bytes = 16384

-- `exactKeys`: the keys of an object are distinct, so that as many keys as are wanted, each of them
-- wanted, are the wanted ones in some order.
unfoldable pub exact_keys : Members → List String → Bool
unfolding all_listed
exact_keys ms wanted = length (keys ms) == length wanted && all_listed wanted (keys ms)

-- `new Map(evidence.map((item) => [item.id, item]))`
unfoldable pub known_from :
    List (Text × GroundedEvidence) → List GroundedEvidence → List (Text × GroundedEvidence)
unfolding put
known_from known [] = known
known_from known (item ∷ items) = known_from (put item.id item known) items

unfoldable pub by_id : List GroundedEvidence → List (Text × GroundedEvidence)
unfolding known_from
by_id evidence = known_from [] evidence

-- The loop over `ids`: every one a text that is known and new. What it returns is the identifiers
-- with the evidence that they name.
unfoldable pub citation_ids :
    List (Text × GroundedEvidence)
    → List Value
    → (citations : List Text) → Option (List Text × List GroundedEvidence)
unfolding get listed
citation_ids known [] citations = some (citations, [])
citation_ids known (v ∷ vs) citations = do
  id ← as_text v
  item ← get id known
  fresh ← check (not (listed id citations)) id
  (all, cited) ← citation_ids known vs (citations ++ fresh ∷ [])
  some (all, item ∷ cited)

abbrev pub is_unverified : TrustTier → Bool
is_unverified unverified = true
is_unverified _ = false

abbrev pub is_official : TrustTier → Bool
is_official official = true
is_official _ = false

unfoldable pub all_unverified : List GroundedEvidence → Bool
all_unverified [] = true
all_unverified (item ∷ items) = is_unverified item.trust_tier && all_unverified items

-- `new Set(cited.filter(official).map(sourceId))`
unfoldable pub official_sources : List GroundedEvidence → List Text → List Text
unfolding listed
official_sources [] sources = sources
official_sources (item ∷ items) sources = official_sources items (
    if is_official item.trust_tier && not (listed item.source_id sources)
    then item.source_id ∷ sources
    else sources)

-- No official owner that is cited is left out of the claim.
unfoldable pub names_owners : Platform → Text → List GroundedEvidence → Bool
unfolding includes
names_owners platform claim [] = true
names_owners platform claim (item ∷ items) =
    (not (is_official item.trust_tier)
      || includes claim (platform.to_lower (platform.nfkc item.owner)))
    && names_owners platform claim items

unfoldable pub kind_of : Text → Option ClaimKind
unfolding same
kind_of s =
    if same s (codes "fact")
    then some fact
    else if same s (codes "caveat")
    then some caveat
    else if same s (codes "conflict")
    then some conflict
    else none

abbrev pub some_cited : List Text → Bool
some_cited [] = false
some_cited (id ∷ ids) = true

-- What the kind of a claim asks of its citations.
unfoldable pub kind_supported :
    Platform → ClaimKind → Text → List Text → List GroundedEvidence → Bool
unfolding all_unverified official_sources names_owners
kind_supported platform caveat normalized ids cited = true
kind_supported platform fact normalized ids cited = some_cited ids && not (all_unverified cited)
kind_supported platform conflict normalized ids cited =
    some_cited ids
    && leb 2 (length (official_sources cited []))
    && names_owners platform (platform.to_lower normalized) cited

abbrev pub as_array : Value → Option (List Value)
as_array (array vs) = some (elements vs)
as_array _ = none

unfoldable pub is_nonempty : Text → Bool
is_nonempty [] = false
is_nonempty (c ∷ s) = true

-- The text of a claim: bounded, with no link and no marker when it is normalized.
unfoldable pub claim_text : Platform → Members → Option Text
unfolding bounded_string has_link_or_marker is_nonempty read
claim_text platform fields = do
  text ← bounded_string (read "text" fields) max_claim_chars
  check (is_nonempty (platform.nfkc text) && not (has_link_or_marker (platform.nfkc text))) text

unfoldable pub claim_kind : Members → Option ClaimKind
unfolding kind_of read
claim_kind fields = do kind_text ← as_text (read "kind" fields); kind_of kind_text

-- Its citations, with the evidence that they name.
unfoldable pub claim_citations :
    List (Text × GroundedEvidence) → Members → Option (List Text × List GroundedEvidence)
unfolding citation_ids read
claim_citations known fields = do
  id_values ← as_array (read "citationIds" fields)
  few ← check (leb (length id_values) max_evidence) id_values
  citation_ids known few []

unfoldable pub supported_claim :
    Platform → Text → ClaimKind → List Text × List GroundedEvidence → Option GeneratedClaim
unfolding kind_supported
supported_claim platform text kind (ids, cited) =
    check (kind_supported platform kind (platform.nfkc text) ids cited)
      (record { text = text; citation_ids = ids; kind = kind })

-- One round of the loop over the claims, but for the total.
unfoldable pub parse_claim :
    Platform → List (Text × GroundedEvidence) → Value → Option GeneratedClaim
unfolding exact_keys claim_text claim_kind claim_citations supported_claim
parse_claim platform known raw = do
  ms ← members_of raw
  fields ← check (exact_keys ms ("text" ∷ "citationIds" ∷ "kind" ∷ [])) ms
  text ← claim_text platform fields
  kind ← claim_kind fields
  citations ← claim_citations known fields
  supported_claim platform text kind citations

unfoldable pub parse_claims :
    Platform
    → List (Text × GroundedEvidence)
    → List Value
    → (total : ℕ) → Option (List GeneratedClaim)
unfolding parse_claim character_count
parse_claims platform known [] total = some []
parse_claims platform known (raw ∷ raws) total = do
  claim ← parse_claim platform known raw
  bounded ← check (leb (total + character_count claim.text) max_total_claim_chars) claim
  claims ← parse_claims platform known raws (total + character_count bounded.text)
  some (bounded ∷ claims)

-- The claims of an answer in the language, as many as may be.
unfoldable pub raw_claims : Members → (language : Text) → Option (List Value)
unfolding same read
raw_claims fields language = do
  answer_language ← as_text (read "language" fields)
  raws ← as_array (read "claims" fields)
  check (same answer_language language && leb 1 (length raws) && leb (length raws) max_claims) raws

unfoldable pub answer_fields : Platform → Text → Option Members
unfolding byte_length exact_keys
answer_fields platform text = do
  small ←
      check
        (leb (length text) max_generated_response_bytes
          && leb (byte_length text) max_generated_response_bytes)
        text
  parsed ← platform.json_parse small
  ms ← members_of parsed
  check (exact_keys ms ("language" ∷ "claims" ∷ [])) ms

unfoldable pub parse_generated_answer :
    Platform → Text → (language : Text) → List GroundedEvidence → Option GeneratedAnswer
unfolding answer_fields raw_claims parse_claims by_id
parse_generated_answer platform text language evidence = do
  fields ← answer_fields platform text
  raws ← raw_claims fields language
  claims ← parse_claims platform (by_id evidence) raws 0
  some (record { language = language; claims = claims })
