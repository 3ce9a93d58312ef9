-- ===== src/Answer/Generation.antt =====
-- answerQuestion.ts: what is answered from given evidence.
use vennek.Prelude.{
  ℕ, ◌≡◌, ◌≢◌, refl, ap, Bool, false, not, ◌||◌, Option, none, some, List, [], ◌∷◌, Text,
  if◌then◌else◌, same, if_split, or_false,
}
use vennek.Answer.Evidence.{Platform, GroundedEvidence}
use vennek.Answer.Claims.{GeneratedClaim, GeneratedAnswer, parse_generated_answer}
use vennek.Answer.Verify.{
  CompletionOutput, Verification, refused, verified, observer_threw, can_verify, verify_claims,
}
use vennek.Answer.Render.{render_answer}
use vennek.Answer.Checks.{MessageKind, insufficient, secret, dependency, Languages}
use vennek.Answer.Dependencies.{
  Models, World, verify_call, usage_of, usage_call, Reply, after, is_function, ModelSnapshot,
  no_models, configured, secret_models, invalid_models, snapshot_models,
}
use vennek.Answer.Question.{
  select_model, reply, tell, secret_output, record_usage, answer_rendered, answer_verification,
  observed_usage, verifier_output, verify, answer_parsed, answer_generated, generator_output,
  generate, is_secret_json, answer_from,
}
use vennek.Answer.Verdict.{IsVerdict, verify_claims-IsVerdict}
use vennek.Answer.Possible.{IsRetrieved, IsGroundedAnswer, IsAllowed, told, grounded}

not_empty : (s : Text) → same s [] ≡ false → s ≢ []
unfolding same
not_empty [] h e = cc
not_empty (c ∷ s) h e = cc

module _ (platform : Platform) (languages : Languages) (world : World) (language : Text) where
  open languages use {message, labels, find_wallet_secret}

  -- A reply that answers what may be answered.
  abbrev Allows : Reply → Type 0
  Allows r = IsAllowed platform languages world language r.answer

  tells :
      (kind : MessageKind) (first : Bool)
      → Allows (tell platform languages world language kind first)
  tells kind first = told kind first

  answer_rendered-Allows :
      (first : Bool) (rendered : Text)
      → IsGroundedAnswer platform languages world language rendered
      → Allows (answer_rendered platform languages world language first rendered)
  unfolding answer_rendered
  answer_rendered-Allows first rendered g =
      if_split Allows (same rendered [] || find_wallet_secret rendered)
        (tell platform languages world language insufficient first)
        (reply platform languages world rendered first) (λ _. told insufficient first)
        (λ e.
          let (solid, clean) = or_false (same rendered []) (find_wallet_secret rendered) e in
          grounded rendered first g (not_empty rendered solid) clean)

  record_usage-answer :
      (output : CompletionOutput) (clock : ℕ × ℕ) (rest : Reply)
      → Allows rest
      → Allows (record_usage platform languages world output clock rest)
  unfolding record_usage
  record_usage-answer output clock rest h =
      let recorded = after (usage_call (usage_of output clock)) rest in
      let hidden = secret_output platform languages world output in
      if_split Allows (not (is_function world.record_usage)) rest
        (if hidden then rest else recorded) (λ _. h)
        (λ _. if_split Allows hidden rest recorded (λ _. h) (λ _. h))

  observed_usage-answer :
      (o : Option CompletionOutput) (rest : Reply)
      → Allows rest
      → Allows (observed_usage platform languages world o rest)
  unfolding observed_usage
  observed_usage-answer none rest h = h
  observed_usage-answer (some output) rest h =
      if_split Allows (secret_output platform languages world output) rest
        (record_usage platform languages world output world.verification_clock rest) (λ _. h)
        (λ _. record_usage-answer output world.verification_clock rest h)

  -- Evidence that a model was asked with, and what came back.
  record Asked (evidence : List GroundedEvidence) (models : Models) (output : CompletionOutput)
      : Type 0 where
    retrieved : IsRetrieved platform languages world evidence
    completed :
        generator_output platform languages world (select_model models evidence) ≡ some output

  answer_verification-Allows :
      (first : Bool) (evidence : List GroundedEvidence) (models : Models)
      (output : CompletionOutput) (generated : GeneratedAnswer) (v : Verification)
      → Asked evidence models output
      → parse_generated_answer platform output.text language evidence ≡ some generated
      → ((claims : List GeneratedClaim)
          → v ≡ verified claims
          → IsVerdict platform generated.claims
              (verifier_output platform languages world models)
              claims)
      → Allows (answer_verification platform languages world language first evidence v)
  unfolding answer_verification
  answer_verification-Allows first evidence models output generated refused asked p k =
      told insufficient first
  answer_verification-Allows first evidence models output generated observer_threw asked p k =
      told secret first
  answer_verification-Allows first evidence models output generated (verified claims) asked p k =
      let (verdict, supported, judged, read, kept) = k claims refl in
      answer_rendered-Allows first (render_answer claims evidence (labels language)) (record {
        evidence = evidence;
        models = models;
        output = output;
        generated = generated;
        verdict = verdict;
        supported = supported;
        retrieved = asked.retrieved;
        completed = asked.completed;
        parsed = p;
        judged = judged;
        read_verdict = read;
        rendered = ap (λ cs. render_answer cs evidence (labels language)) kept;
      })

  verify-Allows :
      (first : Bool) (evidence : List GroundedEvidence) (models : Models)
      (output : CompletionOutput) (generated : GeneratedAnswer)
      → Asked evidence models output
      → parse_generated_answer platform output.text language evidence ≡ some generated
      → Allows (verify platform languages world language first evidence models generated)
  unfolding verify
  verify-Allows first evidence models output generated asked p =
      let observe : CompletionOutput → Bool =
        λ out. not (secret_output platform languages world out) in
      let o = verifier_output platform languages world models in
      let v = verify_claims platform generated evidence models.verifier observe o in
      let rest = answer_verification platform languages world language first evidence v in
      let h =
        answer_verification-Allows first evidence models output generated v asked p
          (verify_claims-IsVerdict platform generated evidence models.verifier observe o) in
      if_split Allows (can_verify generated evidence models.verifier)
        (after (verify_call models.verifier generated.claims)
          (observed_usage platform languages world o rest))
        rest (λ _. observed_usage-answer o rest h) (λ _. h)

  answer_parsed-Allows :
      (first : Bool) (evidence : List GroundedEvidence) (models : Models)
      (output : CompletionOutput) (parsed : Option GeneratedAnswer)
      → Asked evidence models output
      → parse_generated_answer platform output.text language evidence ≡ parsed
      → Allows (answer_parsed platform languages world language first evidence models parsed)
  unfolding answer_parsed
  answer_parsed-Allows first evidence models output none asked p = told insufficient first
  answer_parsed-Allows first evidence models output (some generated) asked p =
      verify-Allows first evidence models output generated asked p

  answer_generated-Allows :
      (first : Bool) (evidence : List GroundedEvidence) (models : Models)
      (o : Option CompletionOutput)
      → IsRetrieved platform languages world evidence
      → generator_output platform languages world (select_model models evidence) ≡ o
      → Allows (answer_generated platform languages world language first evidence models o)
  unfolding answer_generated
  answer_generated-Allows first evidence models none retrieved e = told insufficient first
  answer_generated-Allows first evidence models (some output) retrieved e =
      let parsed = parse_generated_answer platform output.text language evidence in
      let rest = answer_parsed platform languages world language first evidence models parsed in
      if_split Allows (secret_output platform languages world output)
        (tell platform languages world language secret first)
        (record_usage platform languages world output world.generation_clock rest)
        (λ _. told secret first)
        (λ _. record_usage-answer output world.generation_clock rest (
          answer_parsed-Allows first evidence models output parsed
            (record { retrieved = retrieved; completed = e }) refl))

  generate-Allows :
      (question : Text) (first : Bool) (evidence : List GroundedEvidence) (m : ModelSnapshot)
      → IsRetrieved platform languages world evidence
      → Allows (generate platform languages world question language first evidence m)
  unfolding generate
  generate-Allows question first evidence no_models retrieved = told insufficient first
  generate-Allows question first evidence secret_models retrieved = told secret first
  generate-Allows question first evidence invalid_models retrieved = told dependency first
  generate-Allows question first evidence (configured m) retrieved =
      answer_generated-Allows first evidence m
        (generator_output platform languages world (select_model m evidence)) retrieved refl

  pub answer_from-Allows :
      (question : Text) (first : Bool) (evidence : List GroundedEvidence)
      → IsRetrieved platform languages world evidence
      → Allows (answer_from platform languages world question language first evidence)
  unfolding answer_from
  answer_from-Allows question first [] retrieved = told insufficient first
  answer_from-Allows question first (item ∷ items) retrieved =
      let m = snapshot_models find_wallet_secret world in
      if_split Allows
        (is_secret_json platform languages world (world.stringify_evidence (item ∷ items)))
        (tell platform languages world language secret first)
        (generate platform languages world question language first (item ∷ items) m)
        (λ _. told secret first) (λ _. generate-Allows question first (item ∷ items) m retrieved)
