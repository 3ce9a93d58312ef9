-- ===== src/Answer/Numbered.antt =====
-- renderAnswer.ts: the numbers in brackets, and the sources that they stand for.
use vennek.Prelude.{some_equal}
use vennek.Prelude.Tables.{
  get_elem?-append, get_elem?-last, get_elem?-snoc, put-same, put-other, put-cases,
}
use vennek.Prelude.{
  ℕ, ◌+◌, ◌≡◌, refl, sym, ap, ◌∙◌, inl, inr, Option, none, some, List, [], ◌∷◌, ◌++◌, Text, arith,
  length, length-append, get_elem?, same, same_iff, get, put, Bool-cases,
}
use mathlib.Core.List.{append_assoc, append-nil}
use mathlib.Core.Path.{subst}
use vennek.Answer.Evidence.{GroundedEvidence}
use vennek.Answer.Prepare.{PreparedClaim, provenance_key}
use vennek.Answer.Render.{
  Numbering, start_numbering, number_source, number_item, number_cited, number_claims,
}

-- `number` is the place, counted from one, of a source with the key.
abbrev pub Points : List GroundedEvidence → Text → ℕ → Type 0
Points sources key number =
    (i : ℕ) × (item : GroundedEvidence) × (number ≡ i + 1)
    × (get_elem? sources i ≡ some item)
    × (provenance_key item ≡ key)

-- The numbers of a claim, one for each citation.
abbrev pub Resolves : List GroundedEvidence → List GroundedEvidence → List ℕ → Type 0
Resolves sources [] [] = Unit {0}
Resolves sources [] (n ∷ ns) = ⊥
Resolves sources (item ∷ items) [] = ⊥
Resolves sources (item ∷ items) (n ∷ ns) =
    Points sources (provenance_key item) n × Resolves sources items ns

-- And of every claim.
abbrev pub AllResolve : List GroundedEvidence → List PreparedClaim → List (List ℕ) → Type 0
AllResolve sources [] [] = Unit {0}
AllResolve sources [] (ns ∷ all) = ⊥
AllResolve sources (claim ∷ claims) [] = ⊥
AllResolve sources (claim ∷ claims) (ns ∷ all) =
    Resolves sources claim.cited ns × AllResolve sources claims all

-- The table and the block of sources say the same.
pub record IsNumbered (state : Numbering) : Type 0 where
  pub next_free : state.next ≡ length state.sources + 1
  pub points : (key : Text) (n : ℕ) → get key state.numbers ≡ some n → Points state.sources key n
  pub found :
      (i : ℕ) (item : GroundedEvidence)
      → get_elem? state.sources i ≡ some item
      → get (provenance_key item) state.numbers ≡ some (i + 1)

abbrev Extends : List GroundedEvidence → List GroundedEvidence → Type 0
Extends xs ys = (more : List GroundedEvidence) × (xs ++ more ≡ ys)

Extends-trans : (xs ys zs : List GroundedEvidence) → Extends xs ys → Extends ys zs → Extends xs zs
Extends-trans xs ys zs (a, e) (b, f) = (a ++ b, sym (append_assoc xs a b) ∙ ap (λ s. s ++ b) e ∙ f)

Points-Extends :
    (xs ys : List GroundedEvidence) (key : Text) (n : ℕ)
    → Extends xs ys
    → Points xs key n
    → Points ys key n
Points-Extends xs ys key n (more, e) (i, item, place, at, same_key) = (
  i,
  item,
  place,
  subst (λ s. get_elem? s i ≡ some item) e (get_elem?-append xs more i at),
  same_key,
)

Resolves-Extends :
    (xs ys items : List GroundedEvidence) (ns : List ℕ)
    → Extends xs ys
    → Resolves xs items ns
    → Resolves ys items ns
Resolves-Extends xs ys [] [] e h = tt
Resolves-Extends xs ys [] (n ∷ ns) e h = h
Resolves-Extends xs ys (item ∷ items) [] e h = h
Resolves-Extends xs ys (item ∷ items) (n ∷ ns) e h =
    (Points-Extends xs ys (provenance_key item) n e h.0, Resolves-Extends xs ys items ns e h.1)

-- What numbering a source keeps and gives.
abbrev Numbers : GroundedEvidence → Numbering → ℕ × Numbering → Type 0
Numbers item state (n, state') =
    IsNumbered state'
    × Points state'.sources (provenance_key item) n
    × Extends state.sources state'.sources

none_not_some : {n : ℕ} (o : Option ℕ) → o ≡ none → o ≡ some n → ⊥
none_not_some o e h = cc

new-Points :
    (item : GroundedEvidence) (state : Numbering)
    → IsNumbered state
    → (key : Text) (n : ℕ) → get key (put (provenance_key item) state.next state.numbers) ≡ some n
    → Points (state.sources ++ item ∷ []) key n
new-Points item state v key n h =
    elim (put-cases state.numbers (provenance_key item) state.next key n h) [
      | inl (same_key, number) ↦ (
        length state.sources,
        item,
        number ∙ v.next_free,
        get_elem?-last state.sources item,
        same_key,
      )
      | inr old ↦
          Points-Extends state.sources (state.sources ++ item ∷ []) key n (item ∷ [], refl)
            (v.points key n old)
    ]

new_found :
    (item : GroundedEvidence) (state : Numbering)
    → get (provenance_key item) state.numbers ≡ none
    → IsNumbered state
    → (i : ℕ) (other : GroundedEvidence) → get_elem? (state.sources ++ item ∷ []) i ≡ some other
    → get (provenance_key other) (put (provenance_key item) state.next state.numbers) ≡ some (i + 1)
new_found item state e v i other h = elim (get_elem?-snoc state.sources item other i h) [
  | inl old ↦ elim (Bool-cases (same (provenance_key item) (provenance_key other))) [
    | inl clash ↦ absurd (
        none_not_some (get (provenance_key other) state.numbers)
          (ap (λ k. get k state.numbers)
              (sym ((same_iff (provenance_key item) (provenance_key other)).0 clash))
            ∙ e)
          (v.found i other old))
    | inr apart ↦
        put-other state.numbers (provenance_key item) state.next (provenance_key other) apart
        ∙ v.found i other old
  ]
  | inr (place, new) ↦
      ap (λ x. get (provenance_key x) (put (provenance_key item) state.next state.numbers)) new
      ∙ put-same state.numbers (provenance_key item) state.next
      ∙ ap some (v.next_free ∙ ap (λ k. k + 1) (sym place))
]

number_source-Numbers :
    (item : GroundedEvidence) (state : Numbering) (o : Option ℕ)
    → get (provenance_key item) state.numbers ≡ o
    → IsNumbered state
    → Numbers item state (number_source item o state)
unfolding number_source
number_source-Numbers item state (some n) e v =
    (v, v.points (provenance_key item) n e, ([], append-nil state.sources))
number_source-Numbers item state none e v = (
  record {
    next_free = omega (arith, v.next_free, length-append state.sources (item ∷ []));
    points = new-Points item state v;
    found = new_found item state e v;
  },
  (length state.sources, item, v.next_free, get_elem?-last state.sources item, refl),
  (item ∷ [], refl),
)

abbrev NumbersAll : List GroundedEvidence → Numbering → List ℕ × Numbering → Type 0
NumbersAll items state (ns, state') =
    IsNumbered state' × Resolves state'.sources items ns × Extends state.sources state'.sources

number_cited-NumbersAll :
    (items : List GroundedEvidence) (state : Numbering)
    → IsNumbered state
    → NumbersAll items state (number_cited items state)
unfolding number_cited number_item
number_cited-NumbersAll [] state v = (v, tt, ([], append-nil state.sources))
number_cited-NumbersAll (item ∷ items) state v =
    let o = get (provenance_key item) state.numbers in
    let one = number_source item o state in
    let (v', here, grows) = number_source-Numbers item state o refl v in
    let rest = number_cited items one.1 in
    let (v'', all, grows') = number_cited-NumbersAll items one.1 v' in
    (
      v'',
      (Points-Extends one.1.sources rest.1.sources (provenance_key item) one.0 grows' here, all),
      Extends-trans state.sources one.1.sources rest.1.sources grows grows',
    )

AllResolve-Extends :
    (xs ys : List GroundedEvidence) (claims : List PreparedClaim) (all : List (List ℕ))
    → Extends xs ys
    → AllResolve xs claims all
    → AllResolve ys claims all
AllResolve-Extends xs ys [] [] e h = tt
AllResolve-Extends xs ys [] (ns ∷ all) e h = h
AllResolve-Extends xs ys (claim ∷ claims) [] e h = h
AllResolve-Extends xs ys (claim ∷ claims) (ns ∷ all) e h =
    (Resolves-Extends xs ys claim.cited ns e h.0, AllResolve-Extends xs ys claims all e h.1)

abbrev NumbersClaims : List PreparedClaim → Numbering → List (List ℕ) × Numbering → Type 0
NumbersClaims claims state (all, state') =
    IsNumbered state' × AllResolve state'.sources claims all × Extends state.sources state'.sources

number_claims-NumbersClaims :
    (claims : List PreparedClaim) (state : Numbering)
    → IsNumbered state
    → NumbersClaims claims state (number_claims claims state)
unfolding number_claims
number_claims-NumbersClaims [] state v = (v, tt, ([], append-nil state.sources))
number_claims-NumbersClaims (claim ∷ claims) state v =
    let one = number_cited claim.cited state in
    let (v', here, grows) = number_cited-NumbersAll claim.cited state v in
    let rest = number_claims claims one.1 in
    let (v'', all, grows') = number_claims-NumbersClaims claims one.1 v' in
    (
      v'',
      (Resolves-Extends one.1.sources rest.1.sources claim.cited one.0 grows' here, all),
      Extends-trans state.sources one.1.sources rest.1.sources grows grows',
    )

start-IsNumbered : IsNumbered start_numbering
unfolding get
start-IsNumbered = record {
  next_free = omega arith;
  points = λ key n h. cc;
  found = λ i item h. cc;
}

-- Two places of the block of sources with one provenance are one.
abbrev pub HasNoRepetition : List GroundedEvidence → Type 0
HasNoRepetition sources =
    (i j : ℕ) (a b : GroundedEvidence)
    → get_elem? sources i ≡ some a
    → get_elem? sources j ≡ some b
    → provenance_key a ≡ provenance_key b
    → i ≡ j

some_injective : (i j : ℕ) → some (i + 1) ≡ some (j + 1) → i ≡ j
some_injective i j e = omega (arith, some_equal (i + 1) (j + 1) e)

IsNumbered-HasNoRepetition : (state : Numbering) → IsNumbered state → HasNoRepetition state.sources
IsNumbered-HasNoRepetition state v i j a b ha hb e =
    some_injective i j (sym (v.found i a ha) ∙ ap (λ k. get k state.numbers) e ∙ v.found j b hb)

-- Every citation that a claim is rendered with is the place, counted from one, of a source with the
-- provenance of the evidence that the claim cites, in its order; the line of each source carries the
-- number of its place; and no provenance stands twice among the sources.
pub number_claims-AllResolve :
    (claims : List PreparedClaim)
    → AllResolve
        (number_claims claims start_numbering).1.sources
        claims
        (number_claims claims start_numbering).0
      × HasNoRepetition (number_claims claims start_numbering).1.sources
      × ((i : ℕ) (item : GroundedEvidence)
          → get_elem? (number_claims claims start_numbering).1.sources i ≡ some item
          → get (provenance_key item) (number_claims claims start_numbering).1.numbers
            ≡ some (i + 1))
number_claims-AllResolve claims =
    let (v, all, grows) = number_claims-NumbersClaims claims start_numbering start-IsNumbered in
    (all, IsNumbered-HasNoRepetition (number_claims claims start_numbering).1 v, v.found)
