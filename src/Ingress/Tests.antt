-- ===== src/Ingress/Tests.antt =====
-- Requests that the webhook enqueue and refuses.
use vennek.Prelude.{
  arith, ℕ, ◌≤◌, ◌≡◌, ◌↔◌, ◌⊎◌, refl, Bool, true, false, List, [], ◌∷◌, Option, none, some, Text,
  codes, length, same, replicate, trim, is_space, trim_start, trim_end, includes, starts_with,
}
use vennek.Value.{
  Value, last, member, object, string, number, int, pos, own, has_own, read, read_of, positive_safe,
  nonzero_safe, negsuc,
}
use vennek.Value.Decimal.{decimal, decimal_int, value_from, all_digits}
use vennek.Unicode.{byte_length, bytes_of, point_bytes, code_points, is_high}
use vennek.Metadata.Bounded.{is_blank}
use vennek.Envelope.Cipher.{Bytes}
use vennek.Envelope.Plain.{plain_node, plain_node-IsNode}
use vennek.Envelope.Job.{EncryptedJob, decrypt_private_comparison_job}
use vennek.Envelope.Laws.{sizes_ok, value_of_job}
use vennek.Metadata.RoundTrip.{value_of_metadata}
use vennek.Ingress.Update.{
  AnswerJob, ignored, canonicalize_telegram_update, canonicalize_message, answer_job,
}
use vennek.Ingress.Body.{Read, chunk, body, read_body, read_loop, max_body_bytes, max_empty_reads}
use vennek.Ingress.Webhook.{
  EnqueueEnd, returned, is_returned, Request, WebhookOptions, IngressJob, answer_job as to_answer,
  seal_job, wallet_secret_job_marker, protect_wallet_secret, is_json_content_type,
  declared_length_refusal, safe_secret_equal, parse_telegram_job, admit_parsed, admit_body,
  handle_telegram_webhook, before_semicolon, lower_ascii, create_webhook_options,
  assert_webhook_secret, all_token_chars, is_token_char,
}
use vennek.Envelope.Cipher.{AllBytes}
use vennek.Ingress.Private.{ComesFrom, IsOwned, canonicalize-IsOwned}
use vennek.Ingress.Sealing.{owner_of, seal_of, seal_job-opens}
use vennek.Ingress.Sample.{finds_seed, document_update, sample_job, canonicalize-sample}
use vennek.Ingress.Queue.{private_job, encrypted_job, encrypted_input, admission_input}
use vennek.Ingress.Queued.{admission_input-opens}
use vennek.Ingress.Reading.{read_body_iff, contents, empty_reads}
use vennek.Ingress.Enqueues.{IsAuthentic, Unaborted, job_of, handle-enqueues_iff}
use vennek.Ingress.Laws.{handle-NoSecret, handle-accepted_iff}

run : Unit {0}
unfolding handle_telegram_webhook safe_secret_equal same is_json_content_type before_semicolon
    lower_ascii trim trim_start trim_end is_space declared_length_refusal all_digits value_from
    read_body read_loop admit_body admit_parsed parse_telegram_job canonicalize_telegram_update
    canonicalize_message answer_job own has_own read read_of positive_safe nonzero_safe is_blank
    byte_length bytes_of point_bytes code_points is_high decimal decimal_int protect_wallet_secret
    includes starts_with
run = tt

abbrev finds : Text → Bool
finds s = includes s (codes "seed")

abbrev digest : Text → Bytes
digest s = s

abbrev update : Text → Value
update text = object (
    member "update_id" (number (int (pos 5))) (
      member "message"
        (object (
          member "from" (object (member "id" (number (int (pos 42))) last)) (
            member "chat" (object (member "id" (number (int (negsuc 99))) last))
              (member "text" (string text) last))))
        last))

abbrev parse_json : Bytes → Option Value
parse_json [] = none
parse_json (b ∷ bs) = some (update (b ∷ bs))

abbrev enqueue : IngressJob → EnqueueEnd
enqueue job = returned false

abbrev options : WebhookOptions
options = record { secret = codes "hook"; encryption_key = none }

abbrev request : Text → List Read → Request
request content_type reads = record {
  secret_header = some (codes "hook");
  method = codes "POST";
  content_type = some content_type;
  content_length = some (codes "2");
  stream = some reads;
  aborted = false;
}

abbrev good : Request
good =
    request (codes "Application/JSON ; charset=utf-8")
      (chunk (codes "h") ∷ chunk [] ∷ chunk (codes "i") ∷ [])

abbrev job : AnswerJob
job = record {
  update_id = 5;
  telegram_user_id = codes "42";
  telegram_chat_id = codes "-100";
  text = codes "hi";
  wallet_secret_detected = false;
}

taken_test :
    handle_telegram_webhook plain_node finds enqueue digest parse_json options [] good
    ≡ record { status = 202; cancelled = false; enqueued = some (to_answer job) }
unfolding run
taken_test = refl

wrong_type_test :
    handle_telegram_webhook plain_node finds enqueue digest parse_json options []
      (request (codes "text/html") [])
    ≡ record { status = 400; cancelled = true; enqueued = none }
unfolding run
wrong_type_test = refl

abbrev bytes : List ℕ
bytes = 7 ∷ []

abbrev reads : List Read
reads = chunk bytes ∷ chunk [] ∷ []

read_body_iff_example : (read_body (some reads) ≡ body bytes) ↔ (
    (contents reads ≡ some bytes)
    × (length bytes ≤ max_body_bytes)
    × (empty_reads reads ≤ max_empty_reads))
read_body_iff_example = read_body_iff reads bytes

handle-enqueues_iff_example :
    ((handle_telegram_webhook plain_node finds enqueue digest parse_json options [] good).enqueued
      ≡ some (to_answer job))
    ↔ (IsAuthentic digest options good
        × ((bytes : Bytes) × Unaborted good bytes
            × (job_of plain_node finds options [] (parse_telegram_job finds parse_json bytes)
                ≡ some (to_answer job))))
handle-enqueues_iff_example =
    handle-enqueues_iff plain_node finds digest parse_json enqueue options [] good (to_answer job)

enqueued_test :
    (handle_telegram_webhook plain_node finds enqueue digest parse_json options [] good).enqueued
    ≡ some (to_answer job)
unfolding run
enqueued_test = refl

handle-NoSecret_example :
    (finds job.text ≡ false)
    ⊎ ((job.text ≡ wallet_secret_job_marker) × (job.wallet_secret_detected ≡ true))
handle-NoSecret_example =
    handle-NoSecret plain_node finds digest parse_json enqueue options [] good job enqueued_test

handle-accepted_iff_example :
    ((handle_telegram_webhook plain_node finds enqueue digest parse_json options [] good).status
      ≡ 202)
    ↔ (IsAuthentic digest options good
        × ((bytes : Bytes) × Unaborted good bytes
            × ((parse_telegram_job finds parse_json bytes ≡ ignored)
                ⊎ ((j : IngressJob) × (job_of plain_node finds options []
                        (parse_telegram_job finds parse_json bytes)
                      ≡ some j)
                    × (is_returned (enqueue j) ≡ true)))))
handle-accepted_iff_example =
    handle-accepted_iff plain_node finds digest parse_json enqueue options [] good

iv_test : AllBytes (replicate 12 0)
iv_test = omega arith

sizes_test :
    sizes_ok plain_node plain_node-IsNode
      (seal_of plain_node (replicate 32 1) (replicate 12 0) sample_job).0
      (replicate 12 0)
      (seal_of plain_node (replicate 32 1) (replicate 12 0) sample_job).1
    ≡ true
unfolding plain_node value_of_metadata own read
sizes_test = refl

canonicalize-IsOwned_example :
    IsOwned finds_seed sample_job × ComesFrom document_update true sample_job
canonicalize-IsOwned_example =
    canonicalize-IsOwned finds_seed document_update true sample_job canonicalize-sample

sample-IsOwned : IsOwned finds_seed sample_job
sample-IsOwned =
    (canonicalize-IsOwned finds_seed document_update true sample_job canonicalize-sample).0

seal_job-opens_example :
    (sealed : EncryptedJob) × (seal_job plain_node finds_seed
        (some (replicate 32 1))
        (replicate 12 0)
        sample_job
      ≡ some sealed)
    × (sealed.owner ≡ owner_of sample_job)
    × (decrypt_private_comparison_job plain_node finds_seed
          (value_of_job sealed)
          (replicate 32 1)
          (owner_of sample_job)
        ≡ some sample_job.metadata)
seal_job-opens_example =
    seal_job-opens plain_node plain_node-IsNode finds_seed (replicate 32 1) (replicate 12 0)
      sample_job sample-IsOwned iv_test refl sizes_test

options_test :
    (create_webhook_options (codes "abcdefghijklmnopqrstuvwxyz_-0123") none
      ≡ some (record { secret = codes "abcdefghijklmnopqrstuvwxyz_-0123"; encryption_key = none }))
    × (create_webhook_options (codes "short") none ≡ none)
unfolding create_webhook_options assert_webhook_secret all_token_chars is_token_char
options_test = (refl, refl)

admission_input-opens_example :
    (sealed : EncryptedJob) × (admission_input plain_node finds_seed
        (some (replicate 32 1))
        none
        (replicate 12 0)
        (private_job sample_job)
      ≡ some (encrypted_input sealed))
    × (admission_input plain_node finds_seed
          (some (replicate 32 1))
          none
          (replicate 12 0)
          (encrypted_job sealed)
        ≡ some (encrypted_input sealed))
    × (sealed.owner ≡ owner_of sample_job)
    × (decrypt_private_comparison_job plain_node finds_seed
          (value_of_job sealed)
          (replicate 32 1)
          (owner_of sample_job)
        ≡ some sample_job.metadata)
admission_input-opens_example =
    admission_input-opens plain_node plain_node-IsNode finds_seed none (replicate 32 1)
      (replicate 12 0) sample_job sample-IsOwned iv_test refl sizes_test
