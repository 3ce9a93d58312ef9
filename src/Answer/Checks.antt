-- ===== src/Answer/Checks.antt =====
-- answerQuestion.ts: the checks of what the handler of a question receives (the question, what the
-- store says of it, the output of a model), and the notice that it puts before a first answer.
use vennek.Prelude.{
  ℕ, zero, suc, ◌-◌, Bool, true, false, not, ◌&&◌, Option, none, some, [], ◌∷◌, ◌++◌, Text, codes,
  leb, ltb, ◌==◌, if◌then◌else◌, same, trim, starts_with, length,
}
use vennek.Value.{Value, object, number, boolean, int, pos, undefined, read, as_text}
use vennek.Value.Decimal.{is_canonical, value_of}
use vennek.Unicode.{byte_length}
use vennek.Metadata.Validate.{◌>>=◌, check}
use vennek.Answer.Evidence.{character_count, is_blank, has_ascii_control, members_of}
use vennek.Answer.Verify.{CompletionOutput}
use vennek.Answer.Prepare.{RenderLabels}

pub data MessageKind : Type 0 where
  invalid : MessageKind
  dependency : MessageKind
  insufficient : MessageKind
  secret : MessageKind
  greeting : MessageKind

-- The tables of the languages, and what recognises one: `MESSAGES`, `LABELS`,
-- `GREETING_PATTERNS` and `LANGUAGE_DETECTORS`; and `findWalletSecret`.
pub record Languages : Type 0 where
  pub message : Text → MessageKind → Text
  pub labels : Text → RenderLabels
  pub detect : Text → Text
  pub is_greeting : Text → Text → Bool
  pub find_wallet_secret : Text → Bool

pub record QuestionInput : Type 0 where
  pub telegram_user_id : Text
  pub telegram_chat_id : Text
  pub text : Text

-- `boundedText(value, limit)`
unfoldable pub bounded_text : Value → ℕ → Option Text
unfolding byte_length is_blank
bounded_text value limit = do
  s ← as_text value
  check (leb (length s) limit && leb (byte_length s) limit && not (is_blank s)) s

unfoldable pub valid_question_text : Value → Option Text
unfolding byte_length character_count is_blank
valid_question_text value = do
  s ← as_text value
  check
      (leb (length s) 32768
        && leb (byte_length s) 65536
        && leb (character_count s) 16384
        && not (is_blank s))
      s

-- `-9223372036854775808` to `9223372036854775807`
abbrev pub int64_limit : ℕ
int64_limit = 9223372036854775808

unfoldable pub is_user_id : Text → Bool
unfolding is_canonical
is_user_id s = is_canonical s && ltb (value_of s) int64_limit

unfoldable pub is_chat_id : Text → Bool
unfolding is_canonical is_user_id
is_chat_id [] = false
is_chat_id (c ∷ s) =
    if c == b'-' then is_canonical s && leb (value_of s) int64_limit else is_user_id (c ∷ s)

unfoldable pub valid_telegram_identifier : Value → (user_id : Bool) → Option Text
unfolding bounded_text is_user_id is_chat_id
valid_telegram_identifier value user_id = do
  s ← bounded_text value 20
  check (if user_id then is_user_id s else is_chat_id s) s

unfoldable pub canonical_question_input : Value → Option QuestionInput
unfolding valid_telegram_identifier valid_question_text read
canonical_question_input value = do
  ms ← members_of value
  user_id ← valid_telegram_identifier (read "telegramUserId" ms) true
  chat_id ← valid_telegram_identifier (read "telegramChatId" ms) false
  text ← valid_question_text (read "text" ms)
  some (record { telegram_user_id = user_id; telegram_chat_id = chat_id; text = text })

-- `isPlainRecord(input) ? readOwnDataProperty(input, "text") : MISSING`
unfoldable pub input_text : Value → Option Text
unfolding valid_question_text read
input_text (object ms) = valid_question_text (read "text" ms)
input_text _ = none

unfoldable pub detect_question_language : Languages → Option Text → Text
detect_question_language languages none = codes "en"
detect_question_language languages (some text) = languages.detect text

pub record PersistenceState : Type 0 where
  pub first_interaction : Bool
  pub existing_answer : Option Text
  pub retry_blocked : Bool

-- `undefined` or a Boolean; true only for `true`.
abbrev pub optional_flag : Value → Option Bool
optional_flag undefined = some false
optional_flag (boolean b) = some b
optional_flag _ = none

unfoldable pub optional_answer : Value → Option (Option Text)
unfolding bounded_text
optional_answer undefined = some none
optional_answer value = do s ← bounded_text value 16384; some (some s)

abbrev pub no_persistence : PersistenceState
no_persistence = record { first_interaction = false; existing_answer = none; retry_blocked = false }

-- `none` is the error that the code throws.
unfoldable pub persistence_state_from : Value → Option PersistenceState
unfolding optional_answer read
persistence_state_from undefined = some no_persistence
persistence_state_from (object ms) = do
  first ← optional_flag (read "firstInteraction" ms)
  blocked ← optional_flag (read "retryBlocked" ms)
  answer ← optional_answer (read "existingAnswer" ms)
  some (record { first_interaction = first; existing_answer = answer; retry_blocked = blocked })
persistence_state_from _ = none

abbrev pub retention_notice : Text
retention_notice =
    codes
      "Vennek lưu lịch sử hội thoại vô thời hạn để duy trì ngữ cảnh; dữ liệu không được dùng để huấn luyện nếu chưa có sự đồng ý riêng. Đừng gửi seed phrase hoặc private key."

-- `s.split(part).join("")`; `skip` units of an occurrence are still to be left out.
unfoldable pub remove_all : Text → (skip : ℕ) → Text → Text
unfolding starts_with
remove_all part skip [] = []
remove_all part (suc skip) (c ∷ s) = remove_all part skip s
remove_all part zero (c ∷ s) = elim (starts_with (c ∷ s) part) [
  | true ↦ remove_all part (length part - 1) s
  | false ↦ c ∷ remove_all part 0 s
]

unfoldable pub with_notice : Text → Bool → Text
unfolding remove_all trim
with_notice answer first_interaction =
    if not first_interaction
    then answer
    else retention_notice ++ 10 ∷ 10 ∷ trim (remove_all retention_notice 0 answer)

abbrev pub int32_max : ℕ
int32_max = 2147483647

unfoldable pub token_count : Value → Option ℕ
token_count (number (int (pos n))) = if leb n int32_max then some n else none
token_count _ = none

unfoldable pub canonical_completion_output : Value → (requested : Text) → Option CompletionOutput
unfolding byte_length same is_blank trim has_ascii_control token_count read
canonical_completion_output value requested = do
  ms ← members_of value
  text ← as_text (read "text" ms)
  model ← as_text (read "model" ms)
  prompt_tokens ← token_count (read "promptTokens" ms)
  completion_tokens ← token_count (read "completionTokens" ms)
  check
      (leb (length text) 16384
        && leb (byte_length text) 16384
        && same model requested
        && not (is_blank model)
        && same model (trim model)
        && leb (length model) 128
        && leb (byte_length model) 128
        && not (has_ascii_control model))
      (record {
        text = text;
        model = model;
        prompt_tokens = prompt_tokens;
        completion_tokens = completion_tokens;
      })
