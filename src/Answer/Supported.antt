-- ===== src/Answer/Supported.antt =====
-- groundedPrompt.ts: what `parseGeneratedAnswer` lets through.
use vennek.Metadata.RoundTrip.{check-some}
use vennek.Prelude.{some_equal}
use vennek.Prelude.{
  ℕ, suc, ◌+◌, ◌≤◌, ◌≡◌, refl, sym, ap, ◌∙◌, inl, inr, false, not, ◌&&◌, ◌*◌, some, List, [], ◌∷◌,
  ◌++◌, Text, leb, leb→le, arith, length, same, same_iff, get, Bool-cases, and_true, or_false,
  not-true,
}
use mathlib.Core.Path.{subst}
use mathlib.Core.List.{append_assoc, append-nil}
use vennek.Prelude.Every.{All}
use vennek.Value.{Value, Members, read, as_text}
use vennek.Metadata.Validate.{check}
use vennek.Unicode.{byte_length}
use vennek.Metadata.RoundTrip.{bind_some}
use vennek.Answer.Links.{has_link_or_marker}
use vennek.Answer.Evidence.{
  Platform, GroundedEvidence, character_count, bounded_string, within_bounds, listed, members_of,
  is_blank, max_evidence,
}
use vennek.Answer.Claims.{
  ClaimKind, GeneratedClaim, GeneratedAnswer, max_claims, max_claim_chars, max_total_claim_chars,
  exact_keys, by_id, citation_ids, kind_supported, as_array, claim_text, claim_kind,
  claim_citations, supported_claim, raw_claims, answer_fields, is_nonempty, parse_claim,
  parse_claims, parse_generated_answer,
}
use vennek.Answer.Support.{
  IsDistinct, Cites, IsSupported, total_claim_chars, true_not_false, or_both,
  kind_supported-HasSupport,
}

-- A new text at the end of distinct texts.
listed-snoc :
    (s : Text) (ss : List Text) (t : Text)
    → listed s ss ≡ false
    → same s t ≡ false
    → listed s (ss ++ t ∷ []) ≡ false
unfolding listed
listed-snoc s [] t h k = ground arith
listed-snoc s (u ∷ ss) t h k =
    let (here, later) = or_false (same s u) (listed s ss) h in
    or_both (same s u) (listed s (ss ++ t ∷ [])) here (listed-snoc s ss t later k)

same-sym : (s t : Text) → same s t ≡ false → same t s ≡ false
same-sym s t h = elim (Bool-cases (same t s)) [
  | inl e ↦ absurd (true_not_false (sym ((same_iff s t).1 (sym ((same_iff t s).0 e))) ∙ h))
  | inr e ↦ e
]

IsDistinct-snoc :
    (ss : List Text) (t : Text) → IsDistinct ss → listed t ss ≡ false → IsDistinct (ss ++ t ∷ [])
unfolding listed
IsDistinct-snoc [] t h k = (refl, tt)
IsDistinct-snoc (s ∷ ss) t h k =
    let (here, later) = or_false (same t s) (listed t ss) k in
    (listed-snoc s ss t h.0 (same-sym t s here), IsDistinct-snoc ss t h.1 later)

-- What the loop over the identifiers gives, after those that it has.
abbrev Identified :
    List (Text × GroundedEvidence) → List Text → List Text × List GroundedEvidence → Type 0
Identified known citations (all, cited) =
    (news : List Text) × (all ≡ citations ++ news) × Cites known news cited × IsDistinct all

citation_ids-Identified :
    (known : List (Text × GroundedEvidence)) (vs : List Value) (citations : List Text)
    {r : List Text × List GroundedEvidence}
    → IsDistinct citations
    → citation_ids known vs citations ≡ some r
    → Identified known citations r
unfolding citation_ids
citation_ids-Identified known [] citations {r} distinct h =
    subst (Identified known citations) (some_equal (citations, []) r h)
      ([], sym (append-nil citations), tt, distinct)
citation_ids-Identified known (v ∷ vs) citations {r} distinct h =
    let (id, e1, k1) = bind_some (as_text v) _ h in
    let (item, e2, k2) = bind_some (get id known) _ k1 in
    let (fresh, e3, k3) = bind_some (check (not (listed id citations)) id) _ k2 in
    let (new, id_fresh) = check-some (not (listed id citations)) id e3 in
    let (rest, e4, k4) = bind_some (citation_ids known vs (citations ++ fresh ∷ [])) _ k3 in
    let distinct' : IsDistinct (citations ++ fresh ∷ []) =
      subst (λ s. IsDistinct (citations ++ s ∷ [])) id_fresh
        (IsDistinct-snoc citations id distinct (not-true (listed id citations) new)) in
    let (news, all_is, cites, all_distinct) =
      citation_ids-Identified known vs (citations ++ fresh ∷ []) distinct' e4 in
    subst (Identified known citations) (some_equal (rest.0, item ∷ rest.1) r k4) (
      fresh ∷ news,
      all_is ∙ append_assoc citations (fresh ∷ []) news,
      (subst (λ s. get s known ≡ some item) id_fresh e2, cites),
      all_distinct,
    )

bounded_string-short :
    (v : Value) (max : ℕ) {s : Text} → bounded_string v max ≡ some s → character_count s ≤ max
unfolding bounded_string within_bounds
bounded_string-short v max {s} h =
    let (t, e, k) = bind_some (as_text v) _ h in
    let (fits, same_text) = check-some (within_bounds t max && not (is_blank t)) t k in
    let (bounds, _) = and_true (within_bounds t max) (not (is_blank t)) fits in
    let (both, _) =
      and_true (leb (character_count t) max && leb (length t) (max * 4))
        (leb (byte_length t) (max * 4)) bounds in
    let (count, _) = and_true (leb (character_count t) max) (leb (length t) (max * 4)) both in
    subst (λ x. character_count x ≤ max) same_text (leb→le (character_count t) max count)

claim_text-IsClean :
    (platform : Platform) (fields : Members) {text : Text}
    → claim_text platform fields ≡ some text
    → (has_link_or_marker (platform.nfkc text) ≡ false) × (character_count text ≤ max_claim_chars)
unfolding claim_text
claim_text-IsClean platform fields {text} h =
    let (s, e, k) = bind_some (bounded_string (read "text" fields) max_claim_chars) _ h in
    let short = bounded_string-short (read "text" fields) max_claim_chars e in
    let (clean, same_text) =
      check-some (is_nonempty (platform.nfkc s) && not (has_link_or_marker (platform.nfkc s))) s
        k in
    let (_, no_link) =
      and_true (is_nonempty (platform.nfkc s)) (not (has_link_or_marker (platform.nfkc s))) clean in
    subst
      (λ t. (has_link_or_marker (platform.nfkc t) ≡ false) × (character_count t ≤ max_claim_chars))
      same_text (not-true (has_link_or_marker (platform.nfkc s)) no_link, short)

claim_citations-Identified :
    (known : List (Text × GroundedEvidence)) (fields : Members)
    {r : List Text × List GroundedEvidence}
    → claim_citations known fields ≡ some r
    → Identified known [] r
unfolding claim_citations
claim_citations-Identified known fields h =
    let (id_values, e1, k1) = bind_some (as_array (read "citationIds" fields)) _ h in
    let (few, e2, k2) = bind_some (check (leb (length id_values) max_evidence) id_values) _ k1 in
    citation_ids-Identified known few [] tt k2

module _ (platform : Platform) (evidence : List GroundedEvidence) where
  supported_claim-IsSupported :
      (text : Text) (kind : ClaimKind) (r : List Text × List GroundedEvidence)
      {claim : GeneratedClaim}
      → (has_link_or_marker (platform.nfkc text) ≡ false) × (character_count text ≤ max_claim_chars)
      → Identified (by_id evidence) [] r
      → supported_claim platform text kind r ≡ some claim
      → IsSupported platform evidence claim
  unfolding supported_claim
  supported_claim-IsSupported text kind (ids, cited) clean (news, all_is, cites, distinct) h =
      let (supported, claim_is) =
        check-some (kind_supported platform kind (platform.nfkc text) ids cited) _ h in
      subst (IsSupported platform evidence) claim_is (record {
        cited = cited;
        cites = subst (λ ss. Cites (by_id evidence) ss cited) (sym all_is) cites;
        distinct = distinct;
        support = kind_supported-HasSupport platform kind (platform.nfkc text) ids cited supported;
        no_link = clean.0;
        short = clean.1;
      })

  parse_claim-IsSupported :
      (raw : Value) {claim : GeneratedClaim}
      → parse_claim platform (by_id evidence) raw ≡ some claim
      → IsSupported platform evidence claim
  unfolding parse_claim
  parse_claim-IsSupported raw h =
      let (ms, e1, k1) = bind_some (members_of raw) _ h in
      let (fields, e2, k2) =
        bind_some (check (exact_keys ms ("text" ∷ "citationIds" ∷ "kind" ∷ [])) ms) _ k1 in
      let (text, e3, k3) = bind_some (claim_text platform fields) _ k2 in
      let (kind, e4, k4) = bind_some (claim_kind fields) _ k3 in
      let (r, e5, k5) = bind_some (claim_citations (by_id evidence) fields) _ k4 in
      supported_claim-IsSupported text kind r (claim_text-IsClean platform fields e3)
        (claim_citations-Identified (by_id evidence) fields e5) k5

  -- The claims that are left of a list, from a total on.
  abbrev AreParsed : ℕ → List Value → List GeneratedClaim → Type 0
  AreParsed total raws claims =
      All (IsSupported platform evidence) claims
      × (length claims ≡ length raws)
      × (total ≤ max_total_claim_chars → total + total_claim_chars claims ≤ max_total_claim_chars)

  parse_claims-AreParsed :
      (raws : List Value) (total : ℕ) {claims : List GeneratedClaim}
      → parse_claims platform (by_id evidence) raws total ≡ some claims
      → AreParsed total raws claims
  unfolding parse_claims total_claim_chars
  parse_claims-AreParsed [] total {claims} h =
      subst (AreParsed total []) (some_equal [] claims h) (tt, refl, λ le. omega arith)
  parse_claims-AreParsed (raw ∷ raws) total {claims} h =
      let (claim, e1, k1) = bind_some (parse_claim platform (by_id evidence) raw) _ h in
      let test = leb (total + character_count claim.text) max_total_claim_chars in
      let (bounded, e2, k2) = bind_some (check test claim) _ k1 in
      let (fits, same_claim) = check-some test claim e2 in
      let (rest, e3, k3) =
        bind_some
          (parse_claims platform (by_id evidence) raws (total + character_count bounded.text)) _
          k2 in
      let supported =
        subst (IsSupported platform evidence) same_claim (parse_claim-IsSupported raw e1) in
      let within : total + character_count bounded.text ≤ max_total_claim_chars =
        subst (λ c. total + character_count c.text ≤ max_total_claim_chars) same_claim
          (leb→le (total + character_count claim.text) max_total_claim_chars fits) in
      let (all, count, chars) =
        parse_claims-AreParsed raws (total + character_count bounded.text) e3 in
      let bound = chars within in
      subst (AreParsed total (raw ∷ raws)) (some_equal (bounded ∷ rest) claims k3)
        ((supported, all), ap suc count, λ _. omega arith)

raw_claims-length :
    (fields : Members) (language : Text) {raws : List Value}
    → raw_claims fields language ≡ some raws
    → (1 ≤ length raws) × (length raws ≤ max_claims)
unfolding raw_claims
raw_claims-length fields language {raws} h =
    let (answer_language, e1, k1) = bind_some (as_text (read "language" fields)) _ h in
    let (given, e2, k2) = bind_some (as_array (read "claims" fields)) _ k1 in
    let few = leb (length given) max_claims in
    let (all, same_raws) =
      check-some (same answer_language language && leb 1 (length given) && few) given k2 in
    let (both, at_most) =
      and_true (same answer_language language && leb 1 (length given)) few all in
    let (_, at_least) = and_true (same answer_language language) (leb 1 (length given)) both in
    subst (λ vs. (1 ≤ length vs) × (length vs ≤ max_claims)) same_raws
      (leb→le 1 (length given) at_least, leb→le (length given) max_claims at_most)

-- An answer that is parsed.
abbrev pub IsParsed : Platform → List GroundedEvidence → Text → GeneratedAnswer → Type 0
IsParsed platform evidence language answer =
    (answer.language ≡ language)
    × All (IsSupported platform evidence) answer.claims
    × (1 ≤ length answer.claims)
    × (length answer.claims ≤ max_claims)
    × (total_claim_chars answer.claims ≤ max_total_claim_chars)

-- An answer that is accepted from a model is in the language that was asked for and has 1 to 12
-- claims of at most 700 characters each and 5,000 together. No claim has a link or a citation marker
-- in its normal form. Every claim cites evidence that it was given, each at most once; a fact cites
-- some that is not unverified, and a conflict cites official evidence of two different sources and
-- names every official owner that it cites.
pub parse_generated_answer-IsParsed :
    (platform : Platform) (text language : Text) (evidence : List GroundedEvidence)
    {answer : GeneratedAnswer}
    → parse_generated_answer platform text language evidence ≡ some answer
    → IsParsed platform evidence language answer
unfolding parse_generated_answer
parse_generated_answer-IsParsed platform text language evidence {answer} h =
    let (fields, e1, k1) = bind_some (answer_fields platform text) _ h in
    let (raws, e2, k2) = bind_some (raw_claims fields language) _ k1 in
    let (claims, e3, k3) = bind_some (parse_claims platform (by_id evidence) raws 0) _ k2 in
    let (all, count, chars) = parse_claims-AreParsed platform evidence raws 0 e3 in
    let (at_least, at_most) = raw_claims-length fields language e2 in
    let bound = chars (omega arith) in
    subst (IsParsed platform evidence language)
      (some_equal (record { language = language; claims = claims }) answer k3)
      (refl, all, omega (arith, count), omega (arith, count), omega (arith, bound))
