-- ===== src/Answer/Clean.antt =====
-- answerQuestion.ts: what the calls carry that the handler of a question makes with evidence.
use vennek.Prelude.{
  ◌⊎◌, inl, inr, if_split, ℕ, ◌≤◌, ◌≡◌, ◌≢◌, refl, Bool, true, false, not, ◌||◌, Option, none, some,
  List, [], ◌∷◌, Text, if◌then◌else◌, same, leb, length, arith,
}
use vennek.Prelude.Every.{All}
use vennek.Answer.Evidence.{Platform, GroundedEvidence}
use vennek.Answer.Claims.{GeneratedClaim, GeneratedAnswer, parse_generated_answer}
use vennek.Answer.Verify.{
  CompletionOutput, Verification, refused, verified, observer_threw, can_verify, verify_claims,
}
use vennek.Answer.Render.{render_answer}
use vennek.Answer.Checks.{int32_max, insufficient, secret, Languages}
use vennek.Answer.Dependencies.{
  Models, World, Call, persist_call, retrieve_call, discover_call, generate_call, verify_call,
  latency, usage_of, usage_call, Reply, after, is_function, ModelSnapshot, no_models, configured,
  secret_models, invalid_models, snapshot_models,
}
use vennek.Answer.Question.{
  select_model, reply, tell, secret_output, record_usage, answer_rendered, answer_verification,
  observed_usage, verifier_output, verify, answer_parsed, answer_generated, generator_output,
  generate, is_secret_json, answer_from,
}

latency-le : (clock : ℕ × ℕ) → latency clock ≤ int32_max
unfolding latency
latency-le (started, now) = ground arith

some_claims : (claims : List GeneratedClaim) → leb 1 (length claims) ≡ true → claims ≢ []
some_claims [] h e = cc
some_claims (claim ∷ claims) h e = cc

can_verify-claims :
    (generated : GeneratedAnswer) (evidence : List GroundedEvidence) (model : Text)
    → can_verify generated evidence model ≡ true
    → generated.claims ≢ []
unfolding can_verify
can_verify-claims generated evidence model h = some_claims generated.claims (ground arith)

module _ (platform : Platform) (languages : Languages) (world : World) where
  open languages use {find_wallet_secret}

  -- An output that a model gave, the one that generates or the one that verifies, with its clock.
  abbrev pub IsOutput : CompletionOutput → ℕ × ℕ → Type 0
  IsOutput output clock =
      ((model : Text) × (generator_output platform languages world model ≡ some output)
        × (clock ≡ world.generation_clock))
      ⊎ ((models : Models) × (verifier_output platform languages world models ≡ some output)
          × (clock ≡ world.verification_clock))

  -- What a call after the first may carry, for a question `text`: the question is the one that was
  -- stored, evidence that goes to a model has no wallet secret and is not empty, and the usage that
  -- is recorded is that of an output of a model without one; a latency fits 32 bits.
  abbrev pub IsClean : Text → Call → Type 0
  IsClean text (persist_call q) = ⊥
  IsClean text (retrieve_call t) = t ≡ text
  IsClean text (discover_call t) = t ≡ text
  IsClean text (generate_call model t evidence) =
      (t ≡ text)
      × (evidence ≢ [])
      × (is_secret_json platform languages world (world.stringify_evidence evidence) ≡ false)
  IsClean text (verify_call model claims) = claims ≢ []
  IsClean text (usage_call usage) =
      ((output : CompletionOutput) × (clock : ℕ × ℕ) × IsOutput output clock
        × (secret_output platform languages world output ≡ false)
        × (usage ≡ usage_of output clock))
      × (usage.latency_ms ≤ int32_max)

  abbrev pub AllClean : Text → Reply → Type 0
  AllClean text r = All (IsClean text) r.calls

  answer_rendered-AllClean :
      (text language : Text) (first : Bool) (rendered : Text)
      → AllClean text (answer_rendered platform languages world language first rendered)
  unfolding answer_rendered
  answer_rendered-AllClean text language first rendered =
      if_split (AllClean text) (same rendered [] || find_wallet_secret rendered)
        (tell platform languages world language insufficient first)
        (reply platform languages world rendered first) (λ _. tt) (λ _. tt)

  record_usage-AllClean :
      (text : Text) (output : CompletionOutput) (clock : ℕ × ℕ) (rest : Reply)
      → IsOutput output clock
      → AllClean text rest
      → AllClean text (record_usage platform languages world output clock rest)
  unfolding record_usage usage_of
  record_usage-AllClean text output clock rest made h =
      let recorded = after (usage_call (usage_of output clock)) rest in
      let hidden = secret_output platform languages world output in
      if_split (AllClean text) (not (is_function world.record_usage)) rest
        (if hidden then rest else recorded) (λ _. h)
        (λ _.
          if_split (AllClean text) hidden rest recorded (λ _. h)
            (λ clean. (((output, clock, made, clean, refl), latency-le clock), h)))

  answer_verification-AllClean :
      (text language : Text) (first : Bool) (evidence : List GroundedEvidence) (v : Verification)
      → AllClean text (answer_verification platform languages world language first evidence v)
  unfolding answer_verification
  answer_verification-AllClean text language first evidence refused = tt
  answer_verification-AllClean text language first evidence observer_threw = tt
  answer_verification-AllClean text language first evidence (verified claims) =
      answer_rendered-AllClean text language first
        (render_answer claims evidence (languages.labels language))

  observed_usage-AllClean :
      (text : Text) (models : Models) (o : Option CompletionOutput) (rest : Reply)
      → verifier_output platform languages world models ≡ o
      → AllClean text rest
      → AllClean text (observed_usage platform languages world o rest)
  unfolding observed_usage
  observed_usage-AllClean text models none rest e h = h
  observed_usage-AllClean text models (some output) rest e h =
      if_split (AllClean text) (secret_output platform languages world output) rest
        (record_usage platform languages world output world.verification_clock rest) (λ _. h)
        (λ _.
          record_usage-AllClean text output world.verification_clock rest (inr (models, e, refl)) h)

  verify-AllClean :
      (text language : Text) (first : Bool) (evidence : List GroundedEvidence) (models : Models)
      (generated : GeneratedAnswer)
      → AllClean text (verify platform languages world language first evidence models generated)
  unfolding verify
  verify-AllClean text language first evidence models generated =
      let v =
        verify_claims platform generated evidence models.verifier
          (λ output. not (secret_output platform languages world output))
          (verifier_output platform languages world models) in
      let rest = answer_verification platform languages world language first evidence v in
      let clean = answer_verification-AllClean text language first evidence v in
      if_split (AllClean text) (can_verify generated evidence models.verifier)
        (after (verify_call models.verifier generated.claims) (
          observed_usage platform languages world (verifier_output platform languages world models)
            rest))
        rest
        (λ able. (
          can_verify-claims generated evidence models.verifier able,
          observed_usage-AllClean text models (verifier_output platform languages world models) rest
              refl clean,
        ))
        (λ _. clean)

  answer_parsed-AllClean :
      (text language : Text) (first : Bool) (evidence : List GroundedEvidence) (models : Models)
      (generated : Option GeneratedAnswer)
      → AllClean text
          (answer_parsed platform languages world language first evidence models generated)
  unfolding answer_parsed
  answer_parsed-AllClean text language first evidence models none = tt
  answer_parsed-AllClean text language first evidence models (some generated) =
      verify-AllClean text language first evidence models generated

  answer_generated-AllClean :
      (text language : Text) (first : Bool) (evidence : List GroundedEvidence) (models : Models)
      (model : Text) (o : Option CompletionOutput)
      → generator_output platform languages world model ≡ o
      → AllClean text (answer_generated platform languages world language first evidence models o)
  unfolding answer_generated
  answer_generated-AllClean text language first evidence models model none e = tt
  answer_generated-AllClean text language first evidence models model (some output) e =
      let parsed = parse_generated_answer platform output.text language evidence in
      let rest = answer_parsed platform languages world language first evidence models parsed in
      if_split (AllClean text) (secret_output platform languages world output)
        (tell platform languages world language secret first)
        (record_usage platform languages world output world.generation_clock rest) (λ _. tt)
        (λ _.
          record_usage-AllClean text output world.generation_clock rest (inl (model, e, refl))
            (answer_parsed-AllClean text language first evidence models parsed))

  generate-AllClean :
      (text language : Text) (first : Bool) (evidence : List GroundedEvidence) (m : ModelSnapshot)
      → evidence ≢ []
      → is_secret_json platform languages world (world.stringify_evidence evidence) ≡ false
      → AllClean text (generate platform languages world text language first evidence m)
  unfolding generate
  generate-AllClean text language first evidence no_models some_e clean = tt
  generate-AllClean text language first evidence secret_models some_e clean = tt
  generate-AllClean text language first evidence invalid_models some_e clean = tt
  generate-AllClean text language first evidence (configured m) some_e clean = (
    (refl, some_e, clean),
    answer_generated-AllClean text language first evidence m (select_model m evidence)
        (generator_output platform languages world (select_model m evidence)) refl,
  )

  pub answer_from-AllClean :
      (text language : Text) (first : Bool) (evidence : List GroundedEvidence)
      → AllClean text (answer_from platform languages world text language first evidence)
  unfolding answer_from
  answer_from-AllClean text language first [] = tt
  answer_from-AllClean text language first (item ∷ items) =
      let m = snapshot_models find_wallet_secret world in
      if_split (AllClean text)
        (is_secret_json platform languages world (world.stringify_evidence (item ∷ items)))
        (tell platform languages world language secret first)
        (generate platform languages world text language first (item ∷ items) m) (λ _. tt)
        (λ clean. generate-AllClean text language first (item ∷ items) m (λ e. cc) clean)
