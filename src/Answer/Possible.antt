-- ===== src/Answer/Possible.antt =====
-- answerQuestion.ts: the answers that are possible: messages, stored answers and answers from
-- evidence.
use vennek.Prelude.{◌≡◌, ◌≢◌, ◌⊎◌, Bool, false, some, List, [], Text, length}
use vennek.Value.{Value}
use vennek.Metadata.Validate.{◌>>=◌}
use vennek.Answer.Evidence.{Platform, GroundedEvidence}
use vennek.Answer.Claims.{GeneratedAnswer, parse_generated_answer}
use vennek.Answer.Verify.{CompletionOutput, parse_support, filter_supported}
use vennek.Answer.Render.{render_answer}
use vennek.Answer.Checks.{
  MessageKind, Languages, PersistenceState, persistence_state_from, with_notice,
}
use vennek.Answer.Dependencies.{Models, World}
use vennek.Answer.Question.{safe_snapshot, select_model, verifier_output, generator_output}

module _ (platform : Platform) (languages : Languages) (world : World) where
  open languages use {message, labels, find_wallet_secret}

  -- The snapshot of what a retrieval gave.
  abbrev pub IsRetrieved : List GroundedEvidence → Type 0
  IsRetrieved evidence =
      (value : Value) × ((world.retrieved ≡ some value) ⊎ (world.refreshed ≡ some value))
      × (safe_snapshot platform value ≡ some evidence)

  -- An answer from evidence: the model's claims, parsed against the evidence, of which those are
  -- kept that the verifier supports.
  pub record IsGroundedAnswer (language : Text) (answer : Text) : Type 0 where
    pub evidence : List GroundedEvidence
    pub models : Models
    pub output : CompletionOutput
    pub generated : GeneratedAnswer
    pub verdict : CompletionOutput
    pub supported : List Bool
    pub retrieved : IsRetrieved evidence
    pub completed :
        generator_output platform languages world (select_model models evidence) ≡ some output
    pub parsed : parse_generated_answer platform output.text language evidence ≡ some generated
    pub judged : verifier_output platform languages world models ≡ some verdict
    pub read_verdict :
        parse_support platform verdict.text (length generated.claims) ≡ some supported
    pub rendered :
        answer
        ≡ render_answer (filter_supported generated.claims supported) evidence (labels language)

  -- What may be answered: a message of the table, the answer that is stored, or one from evidence;
  -- with the notice, or without it. The last two have no wallet secret.
  pub data IsAllowed (language : Text) : Text → Type 0 where
    told :
        (kind : MessageKind) (first : Bool)
        → IsAllowed language (with_notice (message language kind) first)
    stored :
        (state : PersistenceState) (answer : Text)
        → (world.persisted >>= persistence_state_from) ≡ some state
        → state.existing_answer ≡ some answer
        → find_wallet_secret answer ≡ false
        → IsAllowed language (with_notice answer state.first_interaction)
    grounded :
        (answer : Text) (first : Bool)
        → IsGroundedAnswer language answer
        → answer ≢ []
        → find_wallet_secret answer ≡ false
        → IsAllowed language (with_notice answer first)
