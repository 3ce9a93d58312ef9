-- ===== src/Answer/Guarded.antt =====
-- answerQuestion.ts: which calls the handler of a question makes, and with what.
use vennek.Prelude.{
  ◌⊎◌, inl, inr, if_split, ◌≡◌, refl, Bool, true, false, not, ◌&&◌, Option, none, some, List, [],
  ◌∷◌, Text, if◌then◌else◌, not-false,
}
use vennek.Prelude.Every.{All}
use vennek.Value.{Value, array}
use vennek.Metadata.Validate.{◌>>=◌}
use vennek.Answer.Evidence.{Platform, GroundedEvidence}
use vennek.Answer.Checks.{
  insufficient, secret, dependency, greeting, Languages, QuestionInput, canonical_question_input,
  input_text, detect_question_language, PersistenceState, persistence_state_from,
}
use vennek.Answer.Dependencies.{
  World, Call, persist_call, retrieve_call, discover_call, Reply, after, is_function,
}
use vennek.Answer.Question.{
  safe_snapshot, needs_discovery, reply, tell, answer_from, refreshed_evidence, discover,
  answer_snapshot, answer_retrieved, retrieve, reuse, answer_persisted, question_contains_secret,
  valid_dependencies, answer_canonical, answer_question,
}
use vennek.Answer.Clean.{IsClean, answer_from-AllClean}

module _ (platform : Platform) (languages : Languages) (world : World) where
  open languages use {find_wallet_secret}

  abbrev AllClean : Text → Reply → Type 0
  AllClean text r = All (IsClean platform languages world text) r.calls

  discover-AllClean :
      (text language : Text) (first : Bool) (evidence : List GroundedEvidence)
      → AllClean text (discover platform languages world text language first evidence)
  unfolding discover
  discover-AllClean text language first evidence =
      let go = answer_from platform languages world text language first in
      let newer = refreshed_evidence platform languages world evidence in
      if_split (AllClean text) (not (needs_discovery evidence && is_function world.discover))
        (go evidence)
        (if world.discovered
          then after (discover_call text) (after (retrieve_call text) (go newer))
          else after (discover_call text) (go evidence))
        (λ _. answer_from-AllClean platform languages world text language first evidence)
        (λ _.
          if_split (AllClean text) world.discovered
            (after (discover_call text) (after (retrieve_call text) (go newer)))
            (after (discover_call text) (go evidence))
            (λ _. (
              refl,
              (refl, answer_from-AllClean platform languages world text language first newer),
            ))
            (λ _.
              (refl, answer_from-AllClean platform languages world text language first evidence)))

  answer_snapshot-AllClean :
      (text language : Text) (first : Bool) (value : Value) (o : Option (List GroundedEvidence))
      → AllClean text (answer_snapshot platform languages world text language first value o)
  unfolding answer_snapshot
  answer_snapshot-AllClean text language first (array vs) none = tt
  answer_snapshot-AllClean text language first _ none = tt
  answer_snapshot-AllClean text language first value (some evidence) =
      discover-AllClean text language first evidence

  answer_retrieved-AllClean :
      (text language : Text) (first : Bool) (o : Option Value)
      → AllClean text (answer_retrieved platform languages world text language first o)
  unfolding answer_retrieved
  answer_retrieved-AllClean text language first none = tt
  answer_retrieved-AllClean text language first (some value) =
      answer_snapshot-AllClean text language first value (safe_snapshot platform value)

  retrieve-AllClean :
      (text language : Text) (first : Bool)
      → AllClean text (retrieve platform languages world text language first)
  unfolding retrieve
  retrieve-AllClean text language first =
      if_split (AllClean text) (languages.is_greeting text language)
        (tell platform languages world language greeting first)
        (after (retrieve_call text)
          (answer_retrieved platform languages world text language first world.retrieved))
        (λ _. tt) (λ _. (refl, answer_retrieved-AllClean text language first world.retrieved))

  reuse-AllClean :
      (text language : Text) (first : Bool) (o : Option Text)
      → AllClean text (reuse platform languages world text language first o)
  unfolding reuse
  reuse-AllClean text language first none = retrieve-AllClean text language first
  reuse-AllClean text language first (some existing) =
      if_split (AllClean text) (find_wallet_secret existing)
        (tell platform languages world language secret first)
        (reply platform languages world existing first) (λ _. tt) (λ _. tt)

  answer_persisted-AllClean :
      (q : QuestionInput) (language : Text) (o : Option PersistenceState)
      → AllClean q.text (answer_persisted platform languages world q language o)
  unfolding answer_persisted
  answer_persisted-AllClean q language none = tt
  answer_persisted-AllClean q language (some state) =
      let first = state.first_interaction in
      let blocked = tell platform languages world language insufficient first in
      let go = reuse platform languages world q.text language first state.existing_answer in
      if_split (AllClean q.text) (question_contains_secret platform languages world q)
        (tell platform languages world language secret first)
        (if state.retry_blocked then blocked else go) (λ _. tt)
        (λ _.
          if_split (AllClean q.text) state.retry_blocked blocked go (λ _. tt)
            (λ _. reuse-AllClean q.text language first state.existing_answer))

  -- The question is canonical and has no wallet secret, and the dependencies are valid.
  abbrev pub IsStored : Value → QuestionInput → Type 0
  IsStored input q =
      (canonical_question_input input ≡ some q)
      × (question_contains_secret platform languages world q ≡ false)
      × (valid_dependencies platform languages world ≡ true)

  -- The calls of a question: none, where it is not to be stored; or its storing and then clean ones.
  abbrev pub IsGuarded : Value → List Call → Type 0
  IsGuarded input calls =
      ((calls ≡ []) × ((q : QuestionInput) → ¬ (IsStored input q)))
      ⊎ ((q : QuestionInput) × (rest : List Call) × (calls ≡ persist_call q ∷ rest)
          × IsStored input q
          × All (IsClean platform languages world q.text) rest)

  answer_canonical-IsGuarded :
      (input : Value) (language : Text) (o : Option QuestionInput)
      → canonical_question_input input ≡ o
      → IsGuarded input (answer_canonical platform languages world language o).calls
  unfolding answer_canonical
  answer_canonical-IsGuarded input language none e = inl (refl, λ q s. cc)
  answer_canonical-IsGuarded input language (some q) e =
      let answer = answer_persisted platform languages world q language in
      let state = world.persisted >>= persistence_state_from in
      let valid = valid_dependencies platform languages world in
      let asked = after (persist_call q) (answer state) in
      let refuse = tell platform languages world language dependency false in
      if_split (λ r. IsGuarded input r.calls) (question_contains_secret platform languages world q)
        (tell platform languages world language secret false) (if not valid then refuse else asked)
        (λ found. inl (refl, λ p s. cc))
        (λ clean.
          if_split (λ r. IsGuarded input r.calls) (not valid) refuse asked
            (λ missing. inl (refl, λ p s. cc))
            (λ ok. inr (
              q,
              (answer state).calls,
              refl,
              (e, clean, not-false valid ok),
              answer_persisted-AllClean q language state,
            )))

  -- A question that is canonical and has no wallet secret is stored first, if the dependencies are
  -- valid; of any other, and where they are not, no call is made at all: neither the store nor a model
  -- sees it. The calls behind the first carry the text that was stored; evidence goes to a model only
  -- if it is not empty and its JSON has no wallet secret, claims go to the verifier only if there are
  -- some, and a usage is recorded only of an output that the generating or the verifying model gave
  -- and that has no wallet secret, with a latency that fits 32 bits.
  pub answer_question-IsGuarded :
      (input : Value) → IsGuarded input (answer_question platform languages world input).calls
  unfolding answer_question
  answer_question-IsGuarded input =
      answer_canonical-IsGuarded input (detect_question_language languages (input_text input))
        (canonical_question_input input) refl
