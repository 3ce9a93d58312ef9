-- ===== src/Ingress/Laws.antt =====
-- Which requests reach the queue, and what the queue then holds.
use mathlib.Core.Path.{subst}
use vennek.Prelude.{
  ℕ, ◌≡◌, refl, ap, sym, ◌∙◌, ◌↔◌, ◌⊎◌, inl, inr, Bool, true, false, Option, none, some, Text,
  codes, if◌then◌else◌, same_iff, arith, Bool-cases, Option-cases,
}
use vennek.Value.{Value}
use vennek.Envelope.Cipher.{Bytes, Node}
use vennek.Envelope.Job.{EncryptedJob}
use vennek.Ingress.Update.{AnswerJob, Parsed, invalid, ignored, answer, private_compare}
use vennek.Ingress.Body.{BodyResult, body, too_large, invalid_payload, read_body}
use vennek.Ingress.Webhook.{
  EnqueueEnd, is_returned, Request, WebhookOptions, IngressJob, answer_job, encrypted_job,
  wallet_secret_job_marker, protect_wallet_secret, declared_length_refusal, seal_job,
  enqueue_sealed, parse_telegram_job, admit_parsed, admit_body, handle_telegram_webhook,
}
use vennek.Ingress.Enqueues.{
  Unaborted, IsAuthentic, sealed_ingress, job_of, handle-enqueues_iff, body_injective,
  declared_status,
}

abbrev NoSecret : (Text → Bool) → AnswerJob → Type 0
NoSecret find_wallet_secret job =
    (find_wallet_secret job.text ≡ false)
    ⊎ ((job.text ≡ wallet_secret_job_marker) × (job.wallet_secret_detected ≡ true))

protect_wallet_secret-NoSecret :
    (find : Text → Bool) (job : AnswerJob) → NoSecret find (protect_wallet_secret find job)
unfolding protect_wallet_secret
protect_wallet_secret-NoSecret find job = elim (Bool-cases (find job.text)) [
  | inl found ↦ rw found (inr (refl, refl))
  | inr clean ↦ rw clean (inl clean)
]

answer_job_injective :
    (a b : AnswerJob)
    → ◌≡◌ {A = Option IngressJob} (some (answer_job a)) (some (answer_job b))
    → a ≡ b
answer_job_injective a b e = cc

job_of-NoSecret :
    (n : Node) (find : Text → Bool) (options : WebhookOptions) (iv : Bytes) (p : Parsed)
    (job : AnswerJob)
    → job_of n find options iv p ≡ some (answer_job job)
    → NoSecret find job
job_of-NoSecret n find options iv invalid job e = cc
job_of-NoSecret n find options iv ignored job e = cc
job_of-NoSecret n find options iv (answer j) job e =
    rw (sym (answer_job_injective (protect_wallet_secret find j) job e))
      (protect_wallet_secret-NoSecret find j)
job_of-NoSecret n find options iv (private_compare j) job e = ground arith

module _ (n : Node) (find_wallet_secret : Text → Bool) (digest : Text → Bytes)
    (parse_json : Bytes → Option Value) (enqueue : IngressJob → EnqueueEnd) where
  -- An answer job that the webhook gives to the queue has no wallet secret in its text, or its text
  -- is the marker and the job says that a secret was found.
  pub handle-NoSecret :
      (options : WebhookOptions) (iv : Bytes) (request : Request) (job : AnswerJob)
      → (handle_telegram_webhook n find_wallet_secret enqueue digest parse_json options iv
          request).enqueued
        ≡ some (answer_job job)
      → (find_wallet_secret job.text ≡ false)
        ⊎ ((job.text ≡ wallet_secret_job_marker) × (job.wallet_secret_detected ≡ true))
  handle-NoSecret options iv request job e =
      let (authentic, (bytes, r, made)) =
        (handle-enqueues_iff n find_wallet_secret digest parse_json enqueue options iv request
            (answer_job job)).0
          e in
      job_of-NoSecret n find_wallet_secret options iv
        (parse_telegram_job find_wallet_secret parse_json bytes) job made

  abbrev Accepted : WebhookOptions → Bytes → Parsed → Type 0
  Accepted options iv p =
      (p ≡ ignored)
      ⊎ ((job : IngressJob) × (job_of n find_wallet_secret options iv p ≡ some job)
          × (is_returned (enqueue job) ≡ true))

  enqueue-status :
      (job : IngressJob) (p : Parsed)
      → ¬ (p ≡ ignored)
      → (◌≡◌ {A = ℕ} (if is_returned (enqueue job) then 202 else 500) 202) ↔ (
          (p ≡ ignored)
          ⊎ ((j : IngressJob) × (◌≡◌ {A = Option IngressJob} (some job) (some j))
              × (is_returned (enqueue j) ≡ true)))
  enqueue-status job p d = elim (Bool-cases (is_returned (enqueue job))) [
    | inl t ↦ (λ e. inr (job, refl, t), λ h. rw t refl)
    | inr f ↦ (λ e. ground arith, λ h. elim h [ inl q ↦ absurd (d q) | inr (j, q, t) ↦ cc ])
  ]

  sealed-status :
      (s : Option EncryptedJob) (p : Parsed)
      → ¬ (p ≡ ignored)
      → ((enqueue_sealed enqueue s).status ≡ 202) ↔ (
          (p ≡ ignored)
          ⊎ ((j : IngressJob) × (sealed_ingress s ≡ some j) × (is_returned (enqueue j) ≡ true)))
  sealed-status none p d =
      (λ e. ground arith, λ h. elim h [ inl q ↦ absurd (d q) | inr (j, q, t) ↦ cc ])
  sealed-status (some sealed) p d = enqueue-status (encrypted_job sealed) p d

  admit_parsed-status :
      (options : WebhookOptions) (iv : Bytes) (p : Parsed)
      → ((admit_parsed n find_wallet_secret enqueue options iv p).status ≡ 202)
        ↔ Accepted options iv p
  unfolding admit_parsed
  admit_parsed-status options iv invalid =
      (λ e. ground arith, λ h. elim h [ inl q ↦ cc | inr q ↦ cc ])
  admit_parsed-status options iv ignored = (λ e. inl refl, λ h. refl)
  admit_parsed-status options iv (answer job) =
      enqueue-status (answer_job (protect_wallet_secret find_wallet_secret job)) (answer job)
        (λ e. cc)
  admit_parsed-status options iv (private_compare job) =
      sealed-status (seal_job n find_wallet_secret options.encryption_key iv job)
        (private_compare job) (λ e. cc)

  admit_body-status :
      (options : WebhookOptions) (iv : Bytes) (aborted : Bool) (r : BodyResult)
      → ((admit_body n find_wallet_secret enqueue parse_json options iv aborted r).status ≡ 202) ↔ (
          (bytes : Bytes) × (r ≡ body bytes)
          × (aborted ≡ false)
          × Accepted options iv (parse_telegram_job find_wallet_secret parse_json bytes))
  unfolding admit_body
  admit_body-status options iv aborted too_large = (λ e. ground arith, λ h. cc)
  admit_body-status options iv aborted invalid_payload = (λ e. ground arith, λ h. cc)
  admit_body-status options iv true (body bytes) = (λ e. ground arith, λ h. cc)
  admit_body-status options iv false (body bytes) =
      let parsed = parse_telegram_job find_wallet_secret parse_json bytes in
      let status = admit_parsed-status options iv parsed in
      (
        λ e. (bytes, refl, refl, status.0 e),
        λ h. status.1 (
            subst (λ bs. Accepted options iv (parse_telegram_job find_wallet_secret parse_json bs))
              (sym (body_injective bytes h.0 (sym h.1))) h.3),
      )

  handle_authentic :
      (options : WebhookOptions) (iv : Bytes) (request : Request)
      → IsAuthentic digest options request
      → handle_telegram_webhook n find_wallet_secret enqueue digest parse_json options iv request
        ≡ admit_body n find_wallet_secret enqueue parse_json options iv request.aborted
            (read_body request.stream)
  unfolding handle_telegram_webhook
  handle_authentic options iv request a = ground (arith, same_iff request.method (codes "POST"))

  split_request :
      (options : WebhookOptions) (iv : Bytes) (request : Request)
      → IsAuthentic digest options request
        ⊎ ((¬ (IsAuthentic digest options request))
            × (¬ (
                (handle_telegram_webhook n find_wallet_secret enqueue digest parse_json options iv
                  request).status
                ≡ 202))
            × ((handle_telegram_webhook n find_wallet_secret enqueue digest parse_json options iv
                  request).cancelled
                ≡ true))
  unfolding handle_telegram_webhook
  split_request options iv request =
      elim (Option-cases (declared_length_refusal request.content_length)) [
        | inl e ↦ ground (arith, same_iff request.method (codes "POST"))
        | inr (s, e) ↦ ground (
          arith,
          same_iff request.method (codes "POST"),
          declared_status request.content_length s e,
        )
      ]

  -- The response is 202 exactly when the request is authentic, its body was read and not aborted,
  -- and the body is an update to ignore, or one that becomes a job for which the call of the queue
  -- returns, whether it says that the job was admitted or not.
  pub handle-accepted_iff :
      (options : WebhookOptions) (iv : Bytes) (request : Request)
      → ((handle_telegram_webhook n find_wallet_secret enqueue digest parse_json options iv
            request).status
          ≡ 202)
        ↔ (IsAuthentic digest options request
            × ((bytes : Bytes) × Unaborted request bytes
                × ((parse_telegram_job find_wallet_secret parse_json bytes ≡ ignored)
                    ⊎ ((job : IngressJob) × (job_of n find_wallet_secret options iv
                            (parse_telegram_job find_wallet_secret parse_json bytes)
                          ≡ some job)
                        × (is_returned (enqueue job) ≡ true)))))
  unfolding handle_telegram_webhook
  handle-accepted_iff options iv request = elim (split_request options iv request) [
    | inl a ↦
        let status = admit_body-status options iv request.aborted (read_body request.stream) in
        (
          λ e.
              let (bytes, r, kept, done) =
                status.0 (sym (ap (λ r. r.status) (handle_authentic options iv request a)) ∙ e) in
              (a, (bytes, (r, kept), done)),
          λ h.
              let (_, (bytes, (r, kept), done)) = h in
              ap (λ r. r.status) (handle_authentic options iv request a)
              ∙ status.1 (bytes, r, kept, done),
        )
    | inr (not_a, refused, c) ↦ (λ e. absurd (refused e), λ h. absurd (not_a h.0))
  ]

  admit_body-uncancelled :
      (options : WebhookOptions) (iv : Bytes) (aborted : Bool) (r : BodyResult)
      → (admit_body n find_wallet_secret enqueue parse_json options iv aborted r).cancelled ≡ false
  unfolding admit_body admit_parsed
  admit_body-uncancelled options iv aborted too_large = refl
  admit_body-uncancelled options iv aborted invalid_payload = refl
  admit_body-uncancelled options iv true (body bytes) = refl
  admit_body-uncancelled options iv false (body bytes) = ground arith

  -- The body is cancelled unread exactly when the request is not authentic.
  pub handle-cancelled_iff :
      (options : WebhookOptions) (iv : Bytes) (request : Request)
      → ((handle_telegram_webhook n find_wallet_secret enqueue digest parse_json options iv
            request).cancelled
          ≡ true)
        ↔ ¬ (IsAuthentic digest options request)
  handle-cancelled_iff options iv request = elim (split_request options iv request) [
    | inl a ↦ (
      λ e. absurd (
          cc (
            e,
            handle_authentic options iv request a,
            admit_body-uncancelled options iv request.aborted (read_body request.stream),
          )),
      λ h. absurd (h a),
    )
    | inr (not_a, refused, c) ↦ (λ e. not_a, λ h. c)
  ]
