-- ===== src/Answer/Fits.antt =====
-- renderAnswer.ts: the length of an answer.
use vennek.Prelude.{
  ℕ, zero, suc, ◌≤◌, ◌<◌, ◌≡◌, refl, sym, inl, inr, false, List, [], Text, leb, leb→le, arith,
  length, take, Bool-cases, if_true, if_false,
}
use mathlib.Core.Path.{subst}
use vennek.Answer.Evidence.{GroundedEvidence}
use vennek.Answer.Claims.{GeneratedClaim}
use vennek.Answer.Prepare.{RenderLabels, PreparedClaim, prepare_claims}
use vennek.Answer.Render.{max_answer_chars, render_candidate, render_fitting, render_answer}

-- The answer with the first claims; with none it is empty.
abbrev pub first_claims : RenderLabels → List PreparedClaim → ℕ → Text
first_claims labels claims zero = []
first_claims labels claims (suc count) = render_candidate (take (suc count) claims) labels

-- `answer` is that with the most claims, of at most `most`, that fits.
abbrev pub IsLongest : RenderLabels → List PreparedClaim → (most : ℕ) → Text → Type 0
IsLongest labels claims most answer =
    (count : ℕ) × (count ≤ most)
    × (answer ≡ first_claims labels claims count)
    × (length answer ≤ max_answer_chars)
    × ((more : ℕ)
        → count < more
        → more ≤ most
        → max_answer_chars < length (first_claims labels claims more))

long_candidate : (s : Text) → leb (length s) max_answer_chars ≡ false → max_answer_chars < length s
long_candidate s h = ground arith

render_fitting-IsLongest :
    (count : ℕ) (claims : List PreparedClaim) (labels : RenderLabels)
    → IsLongest labels claims count (render_fitting count claims labels)
unfolding render_fitting
render_fitting-IsLongest zero claims labels =
    (0, omega arith, refl, omega arith, λ more above below. absurd (omega arith))
render_fitting-IsLongest (suc n) claims labels =
    let candidate = render_candidate (take (suc n) claims) labels in
    let fewer = render_fitting n claims labels in
    elim (Bool-cases (leb (length candidate) max_answer_chars)) [
      | inl fits ↦ subst (IsLongest labels claims (suc n)) (sym (if_true candidate fewer fits)) (
        suc n,
        omega arith,
        refl,
        leb→le (length candidate) max_answer_chars fits,
        λ more above below. absurd (omega arith),
      )
      | inr long ↦
          let (count, below, e, short, longer) = render_fitting-IsLongest n claims labels in
          subst (IsLongest labels claims (suc n)) (sym (if_false candidate fewer long)) (
            count,
            omega arith,
            e,
            short,
            λ more above most. elim (Bool-cases (leb more n)) [
              | inl old ↦ longer more above (leb→le more n old)
              | inr new ↦
                  let last : suc n ≡ more = ground arith in
                  subst (λ k. max_answer_chars < length (first_claims labels claims k)) last
                    (long_candidate candidate long)
            ],
          )
    ]

-- The answer has at most 3,900 code units. It is what the first of the claims give, those that have
-- a text and, unless a caveat, a source: as many of them as fit, and with one more, or any number
-- more, it would be too long.
pub render_answer-IsLongest :
    (input : List GeneratedClaim) (evidence : List GroundedEvidence) (labels : RenderLabels)
    → IsLongest labels
        (prepare_claims input evidence)
        (length (prepare_claims input evidence))
        (render_answer input evidence labels)
unfolding render_answer
render_answer-IsLongest input evidence labels =
    let claims = prepare_claims input evidence in
    render_fitting-IsLongest (length claims) claims labels
