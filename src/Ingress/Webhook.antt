-- ===== src/Ingress/Webhook.antt =====
-- `handleTelegramWebhook` and `protectWalletSecret`
-- (apps/telegram-bot/src/agentQueue.ts). The wallet-secret detector, the hash, the JSON parser, the
-- cipher and the queue enter as arguments.
use vennek.Prelude.{
  ℕ, ◌+◌, Bool, true, false, ◌&&◌, ◌||◌, not, List, [], ◌∷◌, Option, none, some, Text, codes, leb,
  ltb, ◌==◌, if◌then◌else◌, same, length, trim,
}
use vennek.Value.{Value, max_safe_integer, member, last, object, string, number, int, pos}
use vennek.Value.Decimal.{all_digits, value_of, value_from}
use vennek.Metadata.RoundTrip.{value_of_metadata}
use vennek.Envelope.Cipher.{Bytes, Node}
use vennek.Envelope.Job.{EncryptedJob, encrypt_private_comparison_job}
use vennek.Ingress.Update.{
  AnswerJob, PrivateJob, Parsed, invalid, ignored, answer, private_compare,
  canonicalize_telegram_update,
}
use vennek.Ingress.Body.{
  Read, BodyResult, body, too_large, invalid_payload, read_body, max_body_bytes,
}

pub record Request : Type 0 where
  pub secret_header : Option Text
  pub method : Text
  pub content_type : Option Text
  pub content_length : Option Text
  pub stream : Option (List Read)
  pub aborted : Bool

pub record WebhookOptions : Type 0 where
  pub secret : Text
  pub encryption_key : Option Bytes

pub data IngressJob : Type 0 where
  answer_job : AnswerJob → IngressJob
  encrypted_job : EncryptedJob → IngressJob

-- The status of the response, whether the body was cancelled unread, and the job given to the queue.
pub record Response : Type 0 where
  pub status : ℕ
  pub cancelled : Bool
  pub enqueued : Option IngressJob

-- /^[A-Za-z0-9_-]+$/ of a text of 32 to 256 units.
unfoldable pub is_token_char : ℕ → Bool
is_token_char c =
    (leb 65 c && leb c 90)
    || (leb 97 c && leb c 122)
    || (leb 48 c && leb c 57)
    || c == 95
    || c == 45

unfoldable pub all_token_chars : Text → Bool
unfolding is_token_char
all_token_chars [] = true
all_token_chars (c ∷ s) = is_token_char c && all_token_chars s

unfoldable pub assert_webhook_secret : Text → Bool
unfolding all_token_chars
assert_webhook_secret secret =
    leb 32 (length secret) && (leb (length secret) 256 && all_token_chars secret)

-- `none` is the exception.
unfoldable pub create_webhook_options : Text → Option Bytes → Option WebhookOptions
unfolding assert_webhook_secret
create_webhook_options secret encryption_key =
    if assert_webhook_secret secret
    then some (record { secret = secret; encryption_key = encryption_key })
    else none

abbrev pub wallet_secret_job_marker : Text
wallet_secret_job_marker = codes "[vennek-wallet-secret-redacted]"

unfoldable pub protect_wallet_secret : (Text → Bool) → AnswerJob → AnswerJob
protect_wallet_secret find_wallet_secret job =
    if find_wallet_secret job.text
    then record job { text = wallet_secret_job_marker; wallet_secret_detected = true }
    else job

-- `s.split(";", 1)[0]`
unfoldable pub before_semicolon : Text → Text
before_semicolon [] = []
before_semicolon (c ∷ s) = let rest = before_semicolon s in if c == 59 then [] else c ∷ rest

-- `toLowerCase` on ASCII, which is what a comparison with an ASCII text sees of it.
unfoldable pub lower_ascii : Text → Text
lower_ascii [] = []
lower_ascii (c ∷ s) = (if leb 65 c && leb c 90 then c + 32 else c) ∷ lower_ascii s

unfoldable pub is_json_content_type : Option Text → Bool
unfolding before_semicolon lower_ascii trim same
is_json_content_type none = false
is_json_content_type (some value) =
    same (lower_ascii (trim (before_semicolon value))) (codes "application/json")

-- The status that a declared length is refused with.
unfoldable pub declared_length_refusal : Option Text → Option ℕ
unfolding all_digits value_from
declared_length_refusal none = none
declared_length_refusal (some []) = some 400
declared_length_refusal (some (c ∷ s)) =
    if not (all_digits (c ∷ s))
    then some 400
    else if ltb max_safe_integer (value_of (c ∷ s))
    then some 400
    else if ltb max_body_bytes (value_of (c ∷ s))
    then some 413
    else none

abbrev generic_response : ℕ → Response
generic_response status = record { status = status; cancelled = false; enqueued = none }

abbrev cancelled_response : ℕ → Response
cancelled_response status = record { status = status; cancelled = true; enqueued = none }

abbrev accepted : Response
accepted = record { status = 202; cancelled = false; enqueued = none }

-- How `options.enqueue(job)` ends: it returns whether the job was admitted, or it throws.
pub data EnqueueEnd : Type 0 where
  returned : Bool → EnqueueEnd
  threw : EnqueueEnd

abbrev pub is_returned : EnqueueEnd → Bool
is_returned (returned admitted) = true
is_returned threw = false

-- The result of the queue is not looked at: a job that it did not admit is answered in the same way.
abbrev enqueue_job : (IngressJob → EnqueueEnd) → IngressJob → Response
enqueue_job enqueue job = record {
  status = if is_returned (enqueue job) then 202 else 500;
  cancelled = false;
  enqueued = some job;
}

-- The private job as `encryptPrivateComparisonJob` receives it.
abbrev pub value_of_private_job : PrivateJob → Value
value_of_private_job job = object (
    member "kind" (string (codes "private-compare")) (
      member "updateId" (number (int (pos job.update_id))) (
        member "telegramUserId" (string job.telegram_user_id) (
          member "telegramChatId" (string job.telegram_chat_id)
            (member "metadata" (value_of_metadata job.metadata) last)))))

unfoldable pub safe_secret_equal : (digest : Text → Bytes) → Option Text → (expected : Text) → Bool
unfolding same
safe_secret_equal digest none expected = false
safe_secret_equal digest (some actual) expected =
    ltb 0 (length actual) && (ltb 0 (length expected) && same (digest actual) (digest expected))

unfoldable pub parse_telegram_job :
    (find_wallet_secret : Text → Bool) (parse_json : Bytes → Option Value) → Bytes → Parsed
unfolding canonicalize_telegram_update
parse_telegram_job find_wallet_secret parse_json bytes = elim (parse_json bytes) [
  | none ↦ invalid
  | some value ↦ canonicalize_telegram_update find_wallet_secret value false
]

module _ (n : Node) (find_wallet_secret : Text → Bool) where
  -- `none` is a missing key or an exception.
  abbrev pub seal_job : (key : Option Bytes) (iv : Bytes) → PrivateJob → Option EncryptedJob
  seal_job none iv job = none
  seal_job (some key) iv job =
      encrypt_private_comparison_job n find_wallet_secret (value_of_private_job job) key iv

abbrev pub enqueue_sealed : (IngressJob → EnqueueEnd) → Option EncryptedJob → Response
enqueue_sealed enqueue none = generic_response 500
enqueue_sealed enqueue (some sealed) = enqueue_job enqueue (encrypted_job sealed)

module _ (n : Node) (find_wallet_secret : Text → Bool) (enqueue : IngressJob → EnqueueEnd) where
  -- From the parsed job on.
  unfoldable pub admit_parsed : WebhookOptions → (iv : Bytes) → Parsed → Response
  admit_parsed options iv invalid = generic_response 400
  admit_parsed options iv ignored = accepted
  admit_parsed options iv (answer job) =
      enqueue_job enqueue (answer_job (protect_wallet_secret find_wallet_secret job))
  admit_parsed options iv (private_compare job) =
      enqueue_sealed enqueue (seal_job n find_wallet_secret options.encryption_key iv job)

  unfoldable pub admit_body :
      (parse_json : Bytes → Option Value)
      → WebhookOptions
      → (iv : Bytes) (aborted : Bool) → BodyResult
      → Response
  unfolding admit_parsed parse_telegram_job
  admit_body parse_json options iv aborted too_large = generic_response 413
  admit_body parse_json options iv aborted invalid_payload = generic_response 400
  admit_body parse_json options iv true (body bytes) = generic_response 400
  admit_body parse_json options iv false (body bytes) =
      admit_parsed options iv (parse_telegram_job find_wallet_secret parse_json bytes)

  unfoldable pub handle_telegram_webhook :
      (digest : Text → Bytes) (parse_json : Bytes → Option Value)
      → WebhookOptions
      → (iv : Bytes) → Request
      → Response
  unfolding admit_body
  handle_telegram_webhook digest parse_json options iv request =
      if not (safe_secret_equal digest request.secret_header options.secret)
      then cancelled_response 401
      else if not (same request.method (codes "POST"))
      then cancelled_response 405
      else if not (is_json_content_type request.content_type)
      then cancelled_response 400
      else elim (declared_length_refusal request.content_length) [
        | some status ↦ cancelled_response status
        | none ↦ admit_body parse_json options iv request.aborted (read_body request.stream)
      ]
