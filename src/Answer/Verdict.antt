-- ===== src/Answer/Verdict.antt =====
-- verifyClaims.ts: where the claims that are returned come from.
use vennek.Prelude.{
  ◌≡◌, refl, Bool, true, false, Option, none, some, List, Text, if◌then◌else◌, length,
}
use vennek.Answer.Evidence.{Platform, GroundedEvidence}
use vennek.Answer.Claims.{GeneratedClaim, GeneratedAnswer}
use vennek.Answer.Verify.{
  CompletionOutput, refused, verified, observer_threw, can_verify, verify_claims, verify_output,
  claims_or_refused, parse_support, filter_supported,
}

-- A verdict on all claims, and those that it keeps.
abbrev pub IsVerdict :
    Platform → List GeneratedClaim → Option CompletionOutput → List GeneratedClaim → Type 0
IsVerdict platform all o claims =
    (verdict : CompletionOutput) × (supported : List Bool) × (o ≡ some verdict)
    × (parse_support platform verdict.text (length all) ≡ some supported)
    × (claims ≡ filter_supported all supported)

verified_injective : (xs ys : List GeneratedClaim) → verified xs ≡ verified ys → ys ≡ xs
verified_injective xs ys e = cc

supported_of :
    (s : Option (List Bool)) (all claims : List GeneratedClaim)
    → claims_or_refused s all ≡ verified claims
    → (supported : List Bool) × (s ≡ some supported) × (claims ≡ filter_supported all supported)
unfolding claims_or_refused
supported_of none all claims h = cc
supported_of (some supported) all claims h =
    (supported, refl, verified_injective (filter_supported all supported) claims h)

observed-IsVerdict :
    (seen : Bool) (platform : Platform) (all claims : List GeneratedClaim)
    (verdict : CompletionOutput)
    → (if seen
        then claims_or_refused (parse_support platform verdict.text (length all)) all
        else observer_threw)
      ≡ verified claims
    → IsVerdict platform all (some verdict) claims
observed-IsVerdict true platform all claims verdict h =
    let (supported, e, kept) =
      supported_of (parse_support platform verdict.text (length all)) all claims h in
    (verdict, supported, refl, e, kept)
observed-IsVerdict false platform all claims verdict h = cc

-- The claims that `verifyClaims` returns come from a verdict on all of them.
verify_output-IsVerdict :
    (platform : Platform) (all : List GeneratedClaim) (observe : CompletionOutput → Bool)
    (o : Option CompletionOutput) (claims : List GeneratedClaim)
    → verify_output platform all observe o ≡ verified claims
    → IsVerdict platform all o claims
unfolding verify_output
verify_output-IsVerdict platform all observe none claims h = cc
verify_output-IsVerdict platform all observe (some verdict) claims h =
    observed-IsVerdict (observe verdict) platform all claims verdict h

able-IsVerdict :
    (able : Bool) (platform : Platform) (all : List GeneratedClaim)
    (observe : CompletionOutput → Bool) (o : Option CompletionOutput) (claims : List GeneratedClaim)
    → (if able then verify_output platform all observe o else refused) ≡ verified claims
    → IsVerdict platform all o claims
able-IsVerdict true platform all observe o claims h =
    verify_output-IsVerdict platform all observe o claims h
able-IsVerdict false platform all observe o claims h = cc

pub verify_claims-IsVerdict :
    (platform : Platform) (generated : GeneratedAnswer) (evidence : List GroundedEvidence)
    (model : Text) (observe : CompletionOutput → Bool) (o : Option CompletionOutput)
    (claims : List GeneratedClaim)
    → verify_claims platform generated evidence model observe o ≡ verified claims
    → IsVerdict platform generated.claims o claims
unfolding verify_claims
verify_claims-IsVerdict platform generated evidence model observe o claims h =
    able-IsVerdict (can_verify generated evidence model) platform generated.claims observe o claims
      h
