-- ===== src/Ingress/Enqueues.antt =====
-- webhookRuntime.ts: the jobs that a request to the webhook enqueues.
use vennek.Prelude.{
  ℕ, ◌≡◌, refl, ap, sym, ◌∙◌, ◌↔◌, ◌⊎◌, inl, Bool, true, false, [], ◌∷◌, Option, none, some, Text,
  codes, same_iff, arith,
}
use vennek.Value.{Value}
use vennek.Envelope.Cipher.{Bytes, Node}
use vennek.Envelope.Job.{EncryptedJob}
use vennek.Ingress.Update.{Parsed, invalid, ignored, answer, private_compare}
use vennek.Ingress.Body.{BodyResult, body, too_large, invalid_payload, read_body}
use vennek.Ingress.Webhook.{
  EnqueueEnd, Request, WebhookOptions, IngressJob, answer_job, encrypted_job, protect_wallet_secret,
  is_json_content_type, declared_length_refusal, seal_job, enqueue_sealed, safe_secret_equal,
  parse_telegram_job, admit_parsed, admit_body, handle_telegram_webhook,
}

pub body_injective : (a b : Bytes) → body b ≡ body a → a ≡ b
body_injective a b e = cc

pub declared_status :
    (l : Option Text) (s : ℕ) → declared_length_refusal l ≡ some s → (s ≡ 400) ⊎ (s ≡ 413)
unfolding declared_length_refusal
declared_status none s e = cc
declared_status (some []) s e = inl (ground arith)
declared_status (some (c ∷ t)) s e = ground arith

-- A body that was read and belongs to a request that was not aborted.
abbrev pub Unaborted : Request → Bytes → Type 0
Unaborted request bytes = (read_body request.stream ≡ body bytes) × (request.aborted ≡ false)

-- The secret, the method, the content type and the declared length are accepted.
abbrev pub IsAuthentic : (Text → Bytes) → WebhookOptions → Request → Type 0
IsAuthentic digest options request =
    (safe_secret_equal digest request.secret_header options.secret ≡ true)
    × (request.method ≡ codes "POST")
    × (is_json_content_type request.content_type ≡ true)
    × (declared_length_refusal request.content_length ≡ none)

abbrev pub sealed_ingress : Option EncryptedJob → Option IngressJob
sealed_ingress none = none
sealed_ingress (some sealed) = some (encrypted_job sealed)

module _ (n : Node) (find_wallet_secret : Text → Bool) where
  -- The job that a parsed update becomes.
  abbrev pub job_of : WebhookOptions → Bytes → Parsed → Option IngressJob
  job_of options iv invalid = none
  job_of options iv ignored = none
  job_of options iv (answer job) = some (answer_job (protect_wallet_secret find_wallet_secret job))
  job_of options iv (private_compare job) =
      sealed_ingress (seal_job n find_wallet_secret options.encryption_key iv job)

sealed_ingress-job :
    (enqueue : IngressJob → EnqueueEnd) (s : Option EncryptedJob)
    → (enqueue_sealed enqueue s).enqueued ≡ sealed_ingress s
sealed_ingress-job enqueue none = refl
sealed_ingress-job enqueue (some sealed) = refl

module _ (n : Node) (find_wallet_secret : Text → Bool) (enqueue : IngressJob → EnqueueEnd)
    (options : WebhookOptions) (iv : Bytes) where
  admit_parsed-job :
      (p : Parsed)
      → (admit_parsed n find_wallet_secret enqueue options iv p).enqueued
        ≡ job_of n find_wallet_secret options iv p
  unfolding admit_parsed
  admit_parsed-job invalid = refl
  admit_parsed-job ignored = refl
  admit_parsed-job (answer job) = refl
  admit_parsed-job (private_compare job) =
      sealed_ingress-job enqueue (seal_job n find_wallet_secret options.encryption_key iv job)

module _ (n : Node) (find_wallet_secret : Text → Bool) (digest : Text → Bytes)
    (parse_json : Bytes → Option Value) (enqueue : IngressJob → EnqueueEnd) where
  admit_body-job :
      (options : WebhookOptions) (iv : Bytes) (aborted : Bool) (r : BodyResult) (job : IngressJob)
      → ((admit_body n find_wallet_secret enqueue parse_json options iv aborted r).enqueued
          ≡ some job)
        ↔ ((bytes : Bytes) × (r ≡ body bytes)
            × (aborted ≡ false)
            × (job_of n find_wallet_secret options iv
                  (parse_telegram_job find_wallet_secret parse_json bytes)
                ≡ some job))
  unfolding admit_body
  admit_body-job options iv aborted too_large job = (λ e. cc, λ h. cc)
  admit_body-job options iv aborted invalid_payload job = (λ e. cc, λ h. cc)
  admit_body-job options iv true (body bytes) job = (λ e. cc, λ h. cc)
  admit_body-job options iv false (body bytes) job =
      let parsed = parse_telegram_job find_wallet_secret parse_json bytes in
      let eq = admit_parsed-job n find_wallet_secret enqueue options iv parsed in
      (
        λ e. (bytes, refl, refl, sym eq ∙ e),
        λ h.
            eq
            ∙ ap
                (λ bs.
                  job_of n find_wallet_secret options iv
                    (parse_telegram_job find_wallet_secret parse_json bs))
                (body_injective bytes h.0 (sym h.1))
            ∙ h.3,
      )

  -- A job reaches the queue exactly when the request is authentic, a POST of JSON whose declared
  -- length is accepted, its body was read, it was not aborted, and the body parses to an update that becomes that job.
  pub handle-enqueues_iff :
      (options : WebhookOptions) (iv : Bytes) (request : Request) (job : IngressJob)
      → ((handle_telegram_webhook n find_wallet_secret enqueue digest parse_json options iv
            request).enqueued
          ≡ some job)
        ↔ (IsAuthentic digest options request
            × ((bytes : Bytes) × Unaborted request bytes
                × (job_of n find_wallet_secret options iv
                      (parse_telegram_job find_wallet_secret parse_json bytes)
                    ≡ some job)))
  unfolding handle_telegram_webhook
  handle-enqueues_iff options iv request job = ground (
    arith,
    same_iff request.method (codes "POST"),
    admit_body-job options iv request.aborted (read_body request.stream) job,
  )
