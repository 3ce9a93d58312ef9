-- ===== src/Answer/Support.antt =====
-- groundedPrompt.ts: what the tests of `parseGeneratedAnswer` on the kind of a claim mean for its
-- citations.
use vennek.Prelude.{
  ℕ, ◌+◌, ◌≤◌, ◌≡◌, ◌≢◌, ◌⊎◌, refl, sym, ◌∙◌, inl, inr, Bool, true, false, not, ◌&&◌, ◌||◌, some,
  List, [], ◌∷◌, Text, leb, leb→le, if◌then◌else◌, arith, length, same, same_iff, includes, get,
  Bool-cases, if_split, and_true, and_false, or_false, not-true,
}
use vennek.Prelude.Every.{All}
use vennek.Answer.Links.{has_link_or_marker}
use vennek.Answer.Evidence.{Platform, GroundedEvidence, character_count, listed}
use vennek.Answer.Claims.{
  ClaimKind, fact, caveat, conflict, GeneratedClaim, max_claim_chars, by_id, is_unverified,
  is_official, all_unverified, official_sources, names_owners, some_cited, kind_supported,
}

pub true_not_false : true ≢ false
true_not_false e = cc

or_named :
    (official? named : Bool) → (not official? || named) ≡ true → official? ≡ true → named ≡ true
or_named true named h e = h
or_named false named h e = cc

pub or_both : (a b : Bool) → a ≡ false → b ≡ false → (a || b) ≡ false
or_both true b ha hb = cc
or_both false b ha hb = hb

-- Some element has the property.
abbrev pub Any : (GroundedEvidence → Type 0) → List GroundedEvidence → Type 0
Any P [] = ⊥
Any P (x ∷ xs) = P x ⊎ Any P xs

-- No text stands twice.
abbrev pub IsDistinct : List Text → Type 0
IsDistinct [] = Unit {0}
IsDistinct (s ∷ ss) = (listed s ss ≡ false) × IsDistinct ss

-- The evidence that the identifiers of a claim name.
abbrev pub Cites : List (Text × GroundedEvidence) → List Text → List GroundedEvidence → Type 0
Cites known [] [] = Unit {0}
Cites known [] (item ∷ items) = ⊥
Cites known (id ∷ ids) [] = ⊥
Cites known (id ∷ ids) (item ∷ items) = (get id known ≡ some item) × Cites known ids items

-- A source that is official.
abbrev pub IsOfficialSource : Text → GroundedEvidence → Type 0
IsOfficialSource source item = (is_official item.trust_tier ≡ true) × (item.source_id ≡ source)

-- The claim names the owner of what is official.
abbrev pub NamesOwner : Platform → Text → GroundedEvidence → Type 0
NamesOwner platform normalized item =
    is_official item.trust_tier ≡ true
    → includes (platform.to_lower normalized) (platform.to_lower (platform.nfkc item.owner)) ≡ true

-- What a claim of a kind has for its citations.
abbrev pub HasSupport : Platform → ClaimKind → Text → List GroundedEvidence → Type 0
HasSupport platform caveat normalized cited = Unit {0}
HasSupport platform fact normalized cited =
    Any (λ item. is_unverified item.trust_tier ≡ false) cited
HasSupport platform conflict normalized cited =
    (a : Text) × (b : Text) × (a ≢ b)
    × Any (IsOfficialSource a) cited
    × Any (IsOfficialSource b) cited
    × All (NamesOwner platform normalized) cited

-- A claim that is bounded, has no link and no marker, and is supported.
pub record IsSupported (platform : Platform) (evidence : List GroundedEvidence)
    (claim : GeneratedClaim) : Type 0 where
  pub cited : List GroundedEvidence
  pub cites : Cites (by_id evidence) claim.citation_ids cited
  pub distinct : IsDistinct claim.citation_ids
  pub support : HasSupport platform claim.kind (platform.nfkc claim.text) cited
  pub no_link : has_link_or_marker (platform.nfkc claim.text) ≡ false
  pub short : character_count claim.text ≤ max_claim_chars

unfoldable pub total_claim_chars : List GeneratedClaim → ℕ
total_claim_chars [] = 0
total_claim_chars (claim ∷ claims) = character_count claim.text + total_claim_chars claims

some_verified :
    (cited : List GroundedEvidence)
    → all_unverified cited ≡ false
    → Any (λ item. is_unverified item.trust_tier ≡ false) cited
unfolding all_unverified
some_verified [] h = cc
some_verified (item ∷ items) h = elim (Bool-cases (is_unverified item.trust_tier)) [
  | inl e ↦
      inr
        (some_verified items (and_false (is_unverified item.trust_tier) (all_unverified items) h e))
  | inr e ↦ inl e
]

-- The sources that the loop collects are distinct, and each has what the official items have.
official_sources-All :
    (P : Text → Type 0) (items : List GroundedEvidence) (sources : List Text)
    → All (λ item. is_official item.trust_tier ≡ true → P item.source_id) items
    → All P sources
    → IsDistinct sources
    → All P (official_sources items sources) × IsDistinct (official_sources items sources)
unfolding official_sources
official_sources-All P [] sources h all distinct = (all, distinct)
official_sources-All P (item ∷ items) sources h all distinct =
    let test = is_official item.trust_tier && not (listed item.source_id sources) in
    let next : List Text = if test then item.source_id ∷ sources else sources in
    let kept : All P next × IsDistinct next =
      if_split (λ ss. All P ss × IsDistinct ss) test (item.source_id ∷ sources) sources
        (λ e.
          let (is_it, new) =
            and_true (is_official item.trust_tier) (not (listed item.source_id sources)) e in
          ((h.0 is_it, all), (not-true (listed item.source_id sources) new, distinct)))
        (λ _. (all, distinct)) in
    official_sources-All P items next h.1 kept.0 kept.1

Any-later :
    (P : GroundedEvidence → Type 0) (item : GroundedEvidence) (items : List GroundedEvidence)
    → Any P items
    → Any P (item ∷ items)
Any-later P item items h = inr h

-- Every official item is one of the official items.
own_source :
    (cited items : List GroundedEvidence)
    → ((source : Text) → Any (IsOfficialSource source) items → Any (IsOfficialSource source) cited)
    → All
        (λ item. is_official item.trust_tier ≡ true → Any (IsOfficialSource item.source_id) cited)
        items
own_source cited [] f = tt
own_source cited (item ∷ items) f =
    (λ e. f item.source_id (inl (e, refl)), own_source cited items (λ source h. f source (inr h)))

two_of :
    (P : Text → Type 0) (sources : List Text)
    → 2 ≤ length sources
    → All P sources
    → IsDistinct sources
    → (a : Text) × (b : Text) × (a ≢ b) × P a × P b
unfolding listed
two_of P [] long all distinct = absurd (omega arith)
two_of P (a ∷ []) long all distinct = absurd (omega arith)
two_of P (a ∷ b ∷ rest) long all distinct =
    let (apart, _) = or_false (same a b) (listed a rest) distinct.0 in
    (a, b, (λ e. true_not_false (sym ((same_iff a b).1 e) ∙ apart)), all.0, all.1.0)

names_owners-All :
    (platform : Platform) (normalized : Text) (cited : List GroundedEvidence)
    → names_owners platform (platform.to_lower normalized) cited ≡ true
    → All (NamesOwner platform normalized) cited
unfolding names_owners
names_owners-All platform normalized [] h = tt
names_owners-All platform normalized (item ∷ items) h =
    let named =
      includes (platform.to_lower normalized) (platform.to_lower (platform.nfkc item.owner)) in
    let (here, rest) =
      and_true (not (is_official item.trust_tier) || named)
        (names_owners platform (platform.to_lower normalized) items) h in
    (
      or_named (is_official item.trust_tier) named here,
      names_owners-All platform normalized items rest,
    )

pub kind_supported-HasSupport :
    (platform : Platform) (kind : ClaimKind) (normalized : Text) (ids : List Text)
    (cited : List GroundedEvidence)
    → kind_supported platform kind normalized ids cited ≡ true
    → HasSupport platform kind normalized cited
unfolding kind_supported
kind_supported-HasSupport platform caveat normalized ids cited h = tt
kind_supported-HasSupport platform fact normalized ids cited h =
    let (_, some_trust) = and_true (some_cited ids) (not (all_unverified cited)) h in
    some_verified cited (not-true (all_unverified cited) some_trust)
kind_supported-HasSupport platform conflict normalized ids cited h =
    let sources = official_sources cited [] in
    let named = names_owners platform (platform.to_lower normalized) cited in
    let (two, names) = and_true (some_cited ids && leb 2 (length sources)) named h in
    let (_, long) = and_true (some_cited ids) (leb 2 (length sources)) two in
    let (all, distinct) =
      official_sources-All (λ s. Any (IsOfficialSource s) cited) cited []
        (own_source cited cited (λ _ k. k)) tt tt in
    let (a, b, apart, ha, hb) =
      two_of (λ s. Any (IsOfficialSource s) cited) sources (leb→le 2 (length sources) long) all
        distinct in
    (a, b, apart, ha, hb, names_owners-All platform normalized cited names)
