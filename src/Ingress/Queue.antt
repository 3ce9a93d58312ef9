-- ===== src/Ingress/Queue.antt =====
-- apps/telegram-bot/src/agentQueue.ts, with `PgBossPrivateComparisonQueue` and
-- `parsePrivateComparisonEncryptionKey` of privateComparisonQueue.ts: what is handed to
-- `enqueuePgBossJob` for a job.
use vennek.Prelude.{
  ℕ, ◌%◌, Bool, ◌&&◌, not, ◌++◌, Option, none, some, Text, codes, ◌==◌, same, length, trim,
}
use vennek.Value.Decimal.{decimal}
use vennek.Metadata.Validate.{◌>>=◌, check}
use vennek.Envelope.Cipher.{Bytes, Node, canonical_base64}
use vennek.Envelope.Job.{EncryptedJob, validate_encrypted_job}
use vennek.Envelope.Laws.{value_of_job}
use vennek.Admission.Session.{M, throw}
use vennek.Admission.Enqueue.{AdmissionInput, enqueue_pg_boss_job}
use vennek.Ingress.Update.{AnswerJob, PrivateJob}
use vennek.Ingress.Webhook.{protect_wallet_secret, seal_job}

-- An answer, or a private comparison with its metadata or encrypted.
pub data QueueJob : Type 0 where
  answer_job : AnswerJob → QueueJob
  private_job : PrivateJob → QueueJob
  encrypted_job : EncryptedJob → QueueJob

pub data JobData : Type 0 where
  answer_data : AnswerJob → JobData
  encrypted_data : EncryptedJob → JobData

pub record PgBossJob : Type 0 where
  pub queue_name : Text
  pub contents : JobData
  pub singleton_key : Text
  pub retry_limit : ℕ

abbrev pub answer_input : AnswerJob → AdmissionInput PgBossJob
answer_input job = record {
  update_id = job.update_id;
  telegram_user_id = job.telegram_user_id;
  telegram_chat_id = job.telegram_chat_id;
  job = record {
    queue_name = codes "telegram-answer";
    contents = answer_data job;
    singleton_key = decimal job.update_id;
    retry_limit = 3;
  };
}

abbrev pub encrypted_input : EncryptedJob → AdmissionInput PgBossJob
encrypted_input j = record {
  update_id = j.owner.update_id;
  telegram_user_id = j.owner.telegram_user_id;
  telegram_chat_id = j.owner.telegram_chat_id;
  job = record {
    queue_name = codes "telegram-private-compare";
    contents = encrypted_data j;
    singleton_key = codes "private:" ++ decimal j.owner.update_id;
    retry_limit = 3;
  };
}

module _ (n : Node) where
  -- `env.VENNEK_ENCRYPTION_KEY`; `none` as a result is an exception.
  unfoldable pub parse_private_comparison_encryption_key : Option Text → Option Bytes
  unfolding trim canonical_base64 same
  parse_private_comparison_encryption_key none = none
  parse_private_comparison_encryption_key (some raw) =
      let encoded = trim raw in
      let key = n.from_base64 encoded in
      check
        ((not (length encoded == 0) && (canonical_base64 encoded && (length encoded % 4 == 0)))
          && ((length key == 32) && same (n.to_base64 key) encoded))
        key

  abbrev pub key_or_env : Option Bytes → (env : Option Text) → Option Bytes
  key_or_env none env = parse_private_comparison_encryption_key env
  key_or_env (some key) env = some key

  -- `enqueueEncrypted`, up to the call of `enqueuePgBossJob`.
  unfoldable pub enqueue_encrypted : EncryptedJob → Option (AdmissionInput PgBossJob)
  unfolding validate_encrypted_job
  enqueue_encrypted j = do
    encrypted ← validate_encrypted_job n (value_of_job j)
    some (encrypted_input encrypted)

  module _ (find_wallet_secret : Text → Bool) (key : Option Bytes) (env : Option Text) where
    unfoldable pub admission_input : (iv : Bytes) → QueueJob → Option (AdmissionInput PgBossJob)
    unfolding protect_wallet_secret parse_private_comparison_encryption_key enqueue_encrypted
        decimal
    admission_input iv (answer_job job) =
        some (answer_input (protect_wallet_secret find_wallet_secret job))
    admission_input iv (private_job job) = do
      used ← key_or_env key env
      encrypted ← seal_job n find_wallet_secret (some used) iv job
      enqueue_encrypted encrypted
    admission_input iv (encrypted_job j) = do
      encrypted ← validate_encrypted_job n (value_of_job j)
      enqueue_encrypted encrypted

    abbrev enqueue_input :
        {Jobs : Type 0} (send : PgBossJob → Jobs → Option Jobs)
        → Option ℕ
        → Option (AdmissionInput PgBossJob)
        → M Jobs Bool
    enqueue_input send clock none = throw
    enqueue_input send clock (some input) = enqueue_pg_boss_job send input clock

    -- `PgBossAgentQueue.enqueue`.
    unfoldable pub enqueue :
        {Jobs : Type 0} (send : PgBossJob → Jobs → Option Jobs)
        → (iv : Bytes) → Option ℕ
        → QueueJob
        → M Jobs Bool
    unfolding admission_input enqueue_pg_boss_job
    enqueue send iv clock job = enqueue_input send clock (admission_input iv job)
