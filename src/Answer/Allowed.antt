-- ===== src/Answer/Allowed.antt =====
-- answerQuestion.ts: what the handler of a question can answer.
use vennek.Prelude.{
  ◌≡◌, inl, inr, refl, Bool, false, not, ◌&&◌, Option, none, some, List, [], ◌∷◌, Text,
  if◌then◌else◌, if_split,
}
use vennek.Value.{Value, array}
use vennek.Metadata.Validate.{◌>>=◌}
use vennek.Metadata.RoundTrip.{bind_some}
use vennek.Answer.Evidence.{Platform, GroundedEvidence}
use vennek.Answer.Checks.{
  invalid, insufficient, secret, dependency, greeting, Languages, QuestionInput,
  canonical_question_input, input_text, detect_question_language, PersistenceState,
  persistence_state_from,
}
use vennek.Answer.Dependencies.{
  World, persist_call, retrieve_call, discover_call, Reply, after, is_function,
}
use vennek.Answer.Question.{
  safe_snapshot, needs_discovery, newer_or, reply, tell, answer_from, refreshed_evidence, discover,
  answer_snapshot, answer_retrieved, retrieve, reuse, answer_persisted, question_contains_secret,
  valid_dependencies, answer_canonical, answer_question,
}
use vennek.Answer.Possible.{IsRetrieved, IsAllowed, told, stored}
use vennek.Answer.Generation.{answer_from-Allows}

module _ (platform : Platform) (languages : Languages) (world : World) (language : Text) where
  open languages use {message, labels, find_wallet_secret}

  -- A reply that answers what may be answered.
  abbrev Allows : Reply → Type 0
  Allows r = IsAllowed platform languages world language r.answer

  newer_or-IsRetrieved :
      (o : Option (List GroundedEvidence)) (evidence : List GroundedEvidence)
      → (world.refreshed >>= safe_snapshot platform) ≡ o
      → IsRetrieved platform languages world evidence
      → IsRetrieved platform languages world (newer_or o evidence)
  unfolding newer_or
  newer_or-IsRetrieved none evidence e h = h
  newer_or-IsRetrieved (some []) evidence e h = h
  newer_or-IsRetrieved (some (item ∷ items)) evidence e h =
      let (value, given, taken) = bind_some world.refreshed (safe_snapshot platform) e in
      (value, inr given, taken)

  discover-Allows :
      (question : Text) (first : Bool) (evidence : List GroundedEvidence)
      → IsRetrieved platform languages world evidence
      → Allows (discover platform languages world question language first evidence)
  unfolding discover refreshed_evidence
  discover-Allows question first evidence retrieved =
      let go = answer_from platform languages world question language first in
      let o = world.refreshed >>= safe_snapshot platform in
      let kept =
        answer_from-Allows platform languages world language question first evidence retrieved in
      let again =
        after (discover_call question)
          (after (retrieve_call question) (go (newer_or o evidence))) in
      let failed = after (discover_call question) (go evidence) in
      if_split Allows (not (needs_discovery evidence && is_function world.discover)) (go evidence)
        (if world.discovered then again else failed) (λ _. kept)
        (λ _.
          if_split Allows world.discovered again failed
            (λ _.
              answer_from-Allows platform languages world language question first
                (newer_or o evidence) (newer_or-IsRetrieved o evidence refl retrieved))
            (λ _. kept))

  answer_snapshot-Allows :
      (question : Text) (first : Bool) (value : Value) (o : Option (List GroundedEvidence))
      → world.retrieved ≡ some value
      → safe_snapshot platform value ≡ o
      → Allows (answer_snapshot platform languages world question language first value o)
  unfolding answer_snapshot
  answer_snapshot-Allows question first (array vs) none given e = told insufficient first
  answer_snapshot-Allows question first _ none given e = told dependency first
  answer_snapshot-Allows question first value (some evidence) given e =
      discover-Allows question first evidence (value, inl given, e)

  answer_retrieved-Allows :
      (question : Text) (first : Bool) (o : Option Value)
      → world.retrieved ≡ o
      → Allows (answer_retrieved platform languages world question language first o)
  unfolding answer_retrieved
  answer_retrieved-Allows question first none e = told dependency first
  answer_retrieved-Allows question first (some value) e =
      answer_snapshot-Allows question first value (safe_snapshot platform value) e refl

  retrieve-Allows :
      (question : Text) (first : Bool)
      → Allows (retrieve platform languages world question language first)
  unfolding retrieve
  retrieve-Allows question first =
      if_split Allows (languages.is_greeting question language)
        (tell platform languages world language greeting first)
        (after (retrieve_call question)
          (answer_retrieved platform languages world question language first world.retrieved))
        (λ _. told greeting first)
        (λ _. answer_retrieved-Allows question first world.retrieved refl)

  reuse-Allows :
      (question : Text) (state : PersistenceState) (o : Option Text)
      → (world.persisted >>= persistence_state_from) ≡ some state
      → state.existing_answer ≡ o
      → Allows (reuse platform languages world question language state.first_interaction o)
  unfolding reuse
  reuse-Allows question state none e h = retrieve-Allows question state.first_interaction
  reuse-Allows question state (some existing) e h =
      if_split Allows (find_wallet_secret existing)
        (tell platform languages world language secret state.first_interaction)
        (reply platform languages world existing state.first_interaction)
        (λ _. told secret state.first_interaction) (λ clean. stored state existing e h clean)

  answer_persisted-Allows :
      (q : QuestionInput) (o : Option PersistenceState)
      → (world.persisted >>= persistence_state_from) ≡ o
      → Allows (answer_persisted platform languages world q language o)
  unfolding answer_persisted
  answer_persisted-Allows q none e = told dependency false
  answer_persisted-Allows q (some state) e =
      let first = state.first_interaction in
      let blocked = tell platform languages world language insufficient first in
      let go = reuse platform languages world q.text language first state.existing_answer in
      if_split Allows (question_contains_secret platform languages world q)
        (tell platform languages world language secret first)
        (if state.retry_blocked then blocked else go) (λ _. told secret first)
        (λ _.
          if_split Allows state.retry_blocked blocked go (λ _. told insufficient first)
            (λ _. reuse-Allows q.text state state.existing_answer e refl))

  answer_canonical-Allows :
      (o : Option QuestionInput) → Allows (answer_canonical platform languages world language o)
  unfolding answer_canonical
  answer_canonical-Allows none = told invalid false
  answer_canonical-Allows (some q) =
      let state = world.persisted >>= persistence_state_from in
      let asked =
        after (persist_call q) (answer_persisted platform languages world q language state) in
      let valid = valid_dependencies platform languages world in
      let refuse = tell platform languages world language dependency false in
      if_split Allows (question_contains_secret platform languages world q)
        (tell platform languages world language secret false) (if not valid then refuse else asked)
        (λ _. told secret false)
        (λ _.
          if_split Allows (not valid) refuse asked (λ _. told dependency false)
            (λ _. answer_persisted-Allows q state refl))

module _ (platform : Platform) (languages : Languages) (world : World) where
  -- Whatever the dependencies do, the answer is a message of the table for the language of the
  -- question, or the answer that the store has, or one from evidence: the claims that the model made
  -- from the evidence it was given and that parse against it, less those that the verifier does not
  -- support, rendered with the same evidence. A stored or rendered answer has no wallet secret.
  pub answer_question-IsAllowed :
      (input : Value)
      → IsAllowed platform languages world
          (detect_question_language languages (input_text input))
          (answer_question platform languages world input).answer
  unfolding answer_question
  answer_question-IsAllowed input =
      answer_canonical-Allows platform languages world
        (detect_question_language languages (input_text input)) (canonical_question_input input)
