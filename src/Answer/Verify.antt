-- ===== src/Answer/Verify.antt =====
-- verifyClaims.ts: the claims that the verifying model supports. `output` is what the completion
-- gives; nothing where it throws. `observe` says whether the observer of the completion returns.
use vennek.Prelude.{
  ℕ, Bool, true, false, not, ◌&&◌, Option, none, some, List, [], ◌∷◌, Text, leb, ◌==◌,
  if◌then◌else◌, get, length,
}
use vennek.Value.{Value, read}
use vennek.Metadata.Validate.{◌>>=◌, check}
use vennek.Answer.Evidence.{Platform, GroundedEvidence, is_blank, listed, members_of, as_boolean}
use vennek.Answer.Claims.{GeneratedClaim, GeneratedAnswer, exact_keys, as_array, by_id}

pub record CompletionOutput : Type 0 where
  pub text : Text
  pub model : Text
  pub prompt_tokens : ℕ
  pub completion_tokens : ℕ

-- `parsed.supported.every((value) => typeof value === "boolean")`, with the values.
unfoldable pub all_booleans : List Value → Option (List Bool)
all_booleans [] = some []
all_booleans (v ∷ vs) = do b ← as_boolean v; bs ← all_booleans vs; some (b ∷ bs)

unfoldable pub parse_support : Platform → Text → ℕ → Option (List Bool)
unfolding exact_keys all_booleans read
parse_support platform text count = do
  small ← check (leb (length text) 8192) text
  parsed ← platform.json_parse small
  ms ← members_of parsed
  fields ← check (exact_keys ms ("supported" ∷ [])) ms
  values ← as_array (read "supported" fields)
  counted ← check (length values == count) values
  all_booleans counted

-- `claims.filter((_claim, index) => supported[index])`
unfoldable pub filter_supported {ℓ} : {A : Type ℓ} → List A → List Bool → List A
filter_supported [] supported = []
filter_supported (claim ∷ claims) [] = []
filter_supported (claim ∷ claims) (true ∷ supported) = claim ∷ filter_supported claims supported
filter_supported (claim ∷ claims) (false ∷ supported) = filter_supported claims supported

-- Every citation is known, and none is repeated.
unfoldable pub known_citations : List (Text × GroundedEvidence) → List Text → List Text → Bool
unfolding get listed
known_citations known [] seen = true
known_citations known (id ∷ ids) seen = elim (get id known) [
  | none ↦ false
  | some item ↦ not (listed id seen) && known_citations known ids (id ∷ seen)
]

unfoldable pub all_known : List (Text × GroundedEvidence) → List GeneratedClaim → Bool
unfolding known_citations
all_known known [] = true
all_known known (claim ∷ claims) =
    known_citations known claim.citation_ids [] && all_known known claims

-- What `verifyClaims` does: return nothing, return claims, or throw what the observer throws.
pub data Verification : Type 0 where
  refused : Verification
  verified : List GeneratedClaim → Verification
  observer_threw : Verification

unfoldable pub claims_or_refused : Option (List Bool) → List GeneratedClaim → Verification
unfolding filter_supported
claims_or_refused none claims = refused
claims_or_refused (some supported) claims = verified (filter_supported claims supported)

unfoldable pub verify_output :
    Platform
    → List GeneratedClaim
    → (CompletionOutput → Bool)
    → Option CompletionOutput
    → Verification
unfolding claims_or_refused parse_support
verify_output platform claims observe none = refused
verify_output platform claims observe (some output) =
    if observe output
    then claims_or_refused (parse_support platform output.text (length claims)) claims
    else observer_threw

-- The checks before the completion is asked for.
unfoldable pub can_verify : GeneratedAnswer → List GroundedEvidence → Text → Bool
unfolding is_blank all_known by_id
can_verify generated evidence model =
    not (is_blank model)
    && leb 1 (length generated.claims)
    && all_known (by_id evidence) generated.claims

unfoldable pub verify_claims :
    Platform
    → GeneratedAnswer
    → List GroundedEvidence
    → (model : Text) → (CompletionOutput → Bool)
    → Option CompletionOutput
    → Verification
unfolding can_verify verify_output
verify_claims platform generated evidence model observe output =
    if can_verify generated evidence model
    then verify_output platform generated.claims observe output
    else refused
