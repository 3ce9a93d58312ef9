-- ===== src/Answer/Dependencies.antt =====
-- answerQuestion.ts: the dependencies that the handler of a question is given, what it calls of them,
-- and the configuration of the models (`snapshotModels`).
use vennek.Prelude.{
  ◌-◌, ℕ, Bool, true, false, not, ◌&&◌, ◌||◌, Option, List, [], ◌∷◌, Text, leb, if◌then◌else◌, same,
  trim,
}
use vennek.Value.{Value, object, string, undefined, read}
use vennek.Unicode.{byte_length, code_points}
use vennek.Answer.Evidence.{GroundedEvidence, character_count}
use vennek.Answer.Claims.{GeneratedClaim}
use vennek.Answer.Verify.{CompletionOutput}
use vennek.Answer.Prepare.{is_invisible}
use vennek.Answer.Checks.{QuestionInput, int32_max}

pub record Models : Type 0 where
  pub fast : Text
  pub quality : Text
  pub verifier : Text

-- A dependency that may be missing or no function.
pub data Dependency : Type 0 where
  absent : Dependency
  no_function : Dependency
  function : Dependency

-- What the dependencies are, and what each call of one gives. A clock is the time before a model is
-- asked and the time when the usage of its output is recorded.
pub record World : Type 0 where
  pub is_record : Bool
  pub persist : Dependency
  pub retrieve : Dependency
  pub discover : Dependency
  pub complete : Dependency
  pub record_usage : Dependency
  pub models : Value
  pub persisted : Option Value
  pub retrieved : Option Value
  pub discovered : Bool
  pub refreshed : Option Value
  pub generated : Option Value
  pub verified : Option Value
  pub generation_clock : ℕ × ℕ
  pub verification_clock : ℕ × ℕ
  pub stringify_evidence : List GroundedEvidence → Option Text

pub record AnswerUsage : Type 0 where
  pub model : Text
  pub prompt_tokens : ℕ
  pub completion_tokens : ℕ
  pub latency_ms : ℕ

-- `Math.min(INT32_MAX, Math.max(0, Date.now() - startedAt))`
unfoldable pub latency : ℕ × ℕ → ℕ
latency (started, now) = if leb (now - started) int32_max then now - started else int32_max

unfoldable pub usage_of : CompletionOutput → ℕ × ℕ → AnswerUsage
unfolding latency
usage_of output clock = record {
  model = output.model;
  prompt_tokens = output.prompt_tokens;
  completion_tokens = output.completion_tokens;
  latency_ms = latency clock;
}

pub data Call : Type 0 where
  persist_call : QuestionInput → Call
  retrieve_call : Text → Call
  discover_call : Text → Call
  generate_call : (model question : Text) → List GroundedEvidence → Call
  verify_call : (model : Text) → List GeneratedClaim → Call
  usage_call : AnswerUsage → Call

pub record Reply : Type 0 where
  pub answer : Text
  pub calls : List Call

abbrev pub after : Call → Reply → Reply
after call reply = record { answer = reply.answer; calls = call ∷ reply.calls }

abbrev pub is_function : Dependency → Bool
is_function function = true
is_function _ = false

abbrev pub is_absent : Dependency → Bool
is_absent absent = true
is_absent _ = false

-- The ways `snapshotModels` ends: `undefined`, the models, and its two kinds of error.
pub data ModelSnapshot : Type 0 where
  no_models : ModelSnapshot
  configured : Models → ModelSnapshot
  secret_models : ModelSnapshot
  invalid_models : ModelSnapshot

-- `/[\p{Cc}\p{Cf}]/u.test(s)`
unfoldable pub any_invisible : List ℕ → Bool
unfolding is_invisible
any_invisible [] = false
any_invisible (c ∷ cs) = is_invisible c || any_invisible cs

unfoldable pub is_model_name : Text → Bool
unfolding same trim character_count byte_length any_invisible code_points
is_model_name s =
    not (same s [])
    && same (trim s) s
    && leb (character_count s) 128
    && leb (byte_length s) 128
    && not (any_invisible (code_points s))

-- One profile of the loop, and what follows it.
unfoldable pub with_model : (Text → Bool) → Value → (Text → ModelSnapshot) → ModelSnapshot
unfolding is_model_name
with_model find_wallet_secret (string s) rest =
    if not (is_model_name s)
    then invalid_models
    else if find_wallet_secret s
    then secret_models
    else rest s
with_model find_wallet_secret _ rest = invalid_models

unfoldable pub configured_models : (Text → Bool) → Dependency → Value → ModelSnapshot
unfolding with_model read
configured_models find_wallet_secret usage (object ms) =
    with_model find_wallet_secret (read "fast" ms) λ fast.
      with_model find_wallet_secret (read "quality" ms) λ quality.
        with_model find_wallet_secret (read "verifier" ms) λ verifier.
          if is_absent usage || is_function usage
          then configured (record { fast = fast; quality = quality; verifier = verifier })
          else invalid_models
configured_models find_wallet_secret usage _ = invalid_models

abbrev pub is_undefined : Value → Bool
is_undefined undefined = true
is_undefined _ = false

unfoldable pub snapshot_models : (Text → Bool) → World → ModelSnapshot
unfolding configured_models
snapshot_models find_wallet_secret world =
    if not (is_absent world.discover || is_function world.discover)
    then invalid_models
    else if is_absent world.complete && is_undefined world.models && is_absent world.record_usage
    then no_models
    else if is_function world.complete
    then configured_models find_wallet_secret world.record_usage world.models
    else invalid_models
