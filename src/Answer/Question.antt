-- ===== src/Answer/Question.antt =====
-- answerQuestion.ts: the whole handler of a question. What it awaits is given as a world: the result
-- of every dependency, or nothing where it throws. The handler gives the text that it returns and
-- the calls that it made, in order.
use vennek.Prelude.{
  ℕ, Bool, true, false, not, ◌&&◌, ◌||◌, Option, none, some, List, [], ◌∷◌, Text, ltb,
  if◌then◌else◌, same, length,
}
use vennek.Value.{Value, array}
use vennek.Metadata.Validate.{◌>>=◌}
use vennek.Answer.Evidence.{Platform, GroundedEvidence, snapshot_evidence}
use vennek.Answer.Claims.{GeneratedAnswer, parse_generated_answer}
use vennek.Answer.Verify.{
  CompletionOutput, Verification, refused, verified, observer_threw, can_verify, verify_claims,
}
use vennek.Answer.Render.{render_answer}
use vennek.Answer.Checks.{
  MessageKind, invalid, dependency, insufficient, secret, greeting, Languages, QuestionInput,
  canonical_question_input, input_text, detect_question_language, PersistenceState,
  persistence_state_from, with_notice, canonical_completion_output,
}
use vennek.Answer.Dependencies.{
  Models, World, usage_of, persist_call, retrieve_call, discover_call, generate_call, verify_call,
  usage_call, Reply, after, is_function, ModelSnapshot, no_models, configured, secret_models,
  invalid_models, snapshot_models,
}

-- `safeSnapshot`
unfoldable pub safe_snapshot : Platform → Value → Option (List GroundedEvidence)
unfolding snapshot_evidence
safe_snapshot platform (array vs) = snapshot_evidence platform (array vs)
safe_snapshot platform _ = none

unfoldable pub any_stale : List GroundedEvidence → Bool
any_stale [] = false
any_stale (item ∷ items) = item.stale || any_stale items

unfoldable pub needs_discovery : List GroundedEvidence → Bool
unfolding any_stale
needs_discovery [] = true
needs_discovery (item ∷ items) = any_stale (item ∷ items)

-- `selectModelProfile`, where no conflict and no technical question is reported.
unfoldable pub select_model : Models → List GroundedEvidence → Text
select_model models evidence = if ltb 6 (length evidence) then models.quality else models.fast

-- The first evidence, unless there is newer.
unfoldable pub newer_or :
    Option (List GroundedEvidence) → List GroundedEvidence → List GroundedEvidence
newer_or (some (item ∷ items)) evidence = item ∷ items
newer_or (some []) evidence = evidence
newer_or none evidence = evidence

module _ (platform : Platform) (languages : Languages) (world : World) where
  open languages use {message, labels, is_greeting, find_wallet_secret}

  -- `withNotice(…, firstInteraction)`, and no further call.
  abbrev pub reply : Text → Bool → Reply
  reply answer first = record { answer = with_notice answer first; calls = [] }

  abbrev pub tell : Text → MessageKind → Bool → Reply
  tell language kind first = reply (message language kind) first

  unfoldable pub secret_output : CompletionOutput → Bool
  secret_output output = find_wallet_secret output.text || find_wallet_secret output.model

  -- No error of the recorder stops the answer, so its result is not asked for.
  unfoldable pub record_usage : CompletionOutput → ℕ × ℕ → Reply → Reply
  unfolding secret_output usage_of
  record_usage output clock rest =
      if not (is_function world.record_usage)
      then rest
      else if secret_output output
      then rest
      else after (usage_call (usage_of output clock)) rest

  unfoldable pub answer_rendered : Text → Bool → Text → Reply
  unfolding same
  answer_rendered language first rendered =
      if same rendered [] || find_wallet_secret rendered
      then tell language insufficient first
      else reply rendered first

  unfoldable pub answer_verification : Text → Bool → List GroundedEvidence → Verification → Reply
  unfolding answer_rendered render_answer
  answer_verification language first evidence refused = tell language insufficient first
  answer_verification language first evidence observer_threw = tell language secret first
  answer_verification language first evidence (verified claims) =
      answer_rendered language first (render_answer claims evidence (labels language))

  -- The usage of the verifier is recorded by the observer, if that returns.
  unfoldable pub observed_usage : Option CompletionOutput → Reply → Reply
  unfolding record_usage secret_output
  observed_usage none rest = rest
  observed_usage (some output) rest =
      if secret_output output then rest else record_usage output world.verification_clock rest

  unfoldable pub verifier_output : Models → Option CompletionOutput
  unfolding canonical_completion_output
  verifier_output models = do
    value ← world.verified
    canonical_completion_output value models.verifier

  unfoldable pub verify : Text → Bool → List GroundedEvidence → Models → GeneratedAnswer → Reply
  unfolding verify_claims can_verify verifier_output observed_usage answer_verification
      secret_output
  verify language first evidence models generated =
      let rest = answer_verification language first evidence (
        verify_claims platform generated evidence models.verifier
          (λ output. not (secret_output output)) (verifier_output models)) in
      if can_verify generated evidence models.verifier
      then after (verify_call models.verifier generated.claims)
          (observed_usage (verifier_output models) rest)
      else rest

  unfoldable pub answer_parsed :
      Text → Bool → List GroundedEvidence → Models → Option GeneratedAnswer → Reply
  unfolding verify
  answer_parsed language first evidence models none = tell language insufficient first
  answer_parsed language first evidence models (some generated) =
      verify language first evidence models generated

  unfoldable pub answer_generated :
      Text → Bool → List GroundedEvidence → Models → Option CompletionOutput → Reply
  unfolding secret_output record_usage answer_parsed parse_generated_answer
  answer_generated language first evidence models none = tell language insufficient first
  answer_generated language first evidence models (some output) =
      if secret_output output
      then tell language secret first
      else record_usage output world.generation_clock (
          answer_parsed language first evidence models
            (parse_generated_answer platform output.text language evidence))

  unfoldable pub generator_output : Text → Option CompletionOutput
  unfolding canonical_completion_output
  generator_output model = do value ← world.generated; canonical_completion_output value model

  unfoldable pub generate : Text → Text → Bool → List GroundedEvidence → ModelSnapshot → Reply
  unfolding select_model answer_generated generator_output
  generate question language first evidence no_models = tell language insufficient first
  generate question language first evidence secret_models = tell language secret first
  generate question language first evidence invalid_models = tell language dependency first
  generate question language first evidence (configured m) =
      let model = select_model m evidence in
      after (generate_call model question evidence)
        (answer_generated language first evidence m (generator_output model))

  -- `snapshotContainsWalletSecret`
  unfoldable pub is_secret_json : Option Text → Bool
  is_secret_json none = true
  is_secret_json (some json) = find_wallet_secret json

  unfoldable pub answer_from : Text → Text → Bool → List GroundedEvidence → Reply
  unfolding is_secret_json generate snapshot_models
  answer_from question language first [] = tell language insufficient first
  answer_from question language first (item ∷ items) =
      if is_secret_json (world.stringify_evidence (item ∷ items))
      then tell language secret first
      else generate question language first (item ∷ items)
          (snapshot_models find_wallet_secret world)

  -- What a second retrieval gives, and whether it is asked for.
  unfoldable pub refreshed_evidence : List GroundedEvidence → List GroundedEvidence
  unfolding newer_or safe_snapshot
  refreshed_evidence evidence = newer_or (world.refreshed >>= safe_snapshot platform) evidence

  unfoldable pub discover : Text → Text → Bool → List GroundedEvidence → Reply
  unfolding needs_discovery refreshed_evidence answer_from
  discover question language first evidence =
      if not (needs_discovery evidence && is_function world.discover)
      then answer_from question language first evidence
      else if world.discovered
      then after (discover_call question) (
          after (retrieve_call question)
            (answer_from question language first (refreshed_evidence evidence)))
      else after (discover_call question) (answer_from question language first evidence)

  unfoldable pub answer_snapshot :
      Text → Text → Bool → Value → Option (List GroundedEvidence) → Reply
  unfolding discover
  answer_snapshot question language first (array vs) none = tell language insufficient first
  answer_snapshot question language first _ none = tell language dependency first
  answer_snapshot question language first value (some evidence) =
      discover question language first evidence

  unfoldable pub answer_retrieved : Text → Text → Bool → Option Value → Reply
  unfolding answer_snapshot safe_snapshot
  answer_retrieved question language first none = tell language dependency first
  answer_retrieved question language first (some value) =
      answer_snapshot question language first value (safe_snapshot platform value)

  unfoldable pub retrieve : Text → Text → Bool → Reply
  unfolding answer_retrieved
  retrieve question language first =
      if is_greeting question language
      then tell language greeting first
      else after (retrieve_call question) (answer_retrieved question language first world.retrieved)

  unfoldable pub reuse : Text → Text → Bool → Option Text → Reply
  unfolding retrieve
  reuse question language first none = retrieve question language first
  reuse question language first (some existing) =
      if find_wallet_secret existing then tell language secret first else reply existing first

  unfoldable pub question_contains_secret : QuestionInput → Bool
  question_contains_secret q =
      find_wallet_secret q.telegram_user_id
      || find_wallet_secret q.telegram_chat_id
      || find_wallet_secret q.text

  -- The question is searched once more when it is stored.
  unfoldable pub answer_persisted : QuestionInput → Text → Option PersistenceState → Reply
  unfolding question_contains_secret reuse
  answer_persisted q language none = tell language dependency false
  answer_persisted q language (some state) =
      if question_contains_secret q
      then tell language secret state.first_interaction
      else if state.retry_blocked
      then tell language insufficient state.first_interaction
      else reuse q.text language state.first_interaction state.existing_answer

  unfoldable pub valid_dependencies : Bool
  valid_dependencies = world.is_record && is_function world.persist && is_function world.retrieve

  unfoldable pub answer_canonical : Text → Option QuestionInput → Reply
  unfolding question_contains_secret valid_dependencies answer_persisted persistence_state_from
  answer_canonical language none = tell language invalid false
  answer_canonical language (some q) =
      if question_contains_secret q
      then tell language secret false
      else if not valid_dependencies
      then tell language dependency false
      else after (persist_call q)
          (answer_persisted q language (world.persisted >>= persistence_state_from))

  unfoldable pub answer_question : Value → Reply
  unfolding detect_question_language input_text canonical_question_input answer_canonical
  answer_question input =
      answer_canonical (detect_question_language languages (input_text input))
        (canonical_question_input input)
