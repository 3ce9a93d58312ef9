-- ===== src/Ingress/Update.antt =====
-- `canonicalizeTelegramUpdate` and `parsePrivateComparisonJob` over parsed JSON.
use Prim.Native.String.{String}
use vennek.Prelude.{
  ℕ, Bool, true, false, ◌&&◌, ◌||◌, not, List, [], ◌∷◌, Option, none, some, Text, codes, leb, ltb,
  if◌then◌else◌, same, length,
}
use vennek.Unicode.{byte_length}
use vennek.Value.{
  Value, Members, last, member, undefined, object, string, number, own, has_own, read, read_of,
  as_text, is_object, positive_safe, nonzero_safe, max_safe_integer,
}
use vennek.Value.Decimal.{decimal, decimal_int, is_canonical, value_of, value_from}
use vennek.Metadata.Bounded.{is_blank}
use vennek.Metadata.Validate.{Metadata, validate_private_comparison_metadata}

pub record AnswerJob : Type 0 where
  pub update_id : ℕ
  pub telegram_user_id : Text
  pub telegram_chat_id : Text
  pub text : Text
  pub wallet_secret_detected : Bool

pub record PrivateJob : Type 0 where
  pub update_id : ℕ
  pub telegram_user_id : Text
  pub telegram_chat_id : Text
  pub metadata : Metadata

-- `InvalidPayloadError`, `undefined`, or a job.
pub data Parsed : Type 0 where
  invalid ignored : Parsed
  answer : AnswerJob → Parsed
  private_compare : PrivateJob → Parsed

abbrev pub telegram_text_max_bytes : ℕ
telegram_text_max_bytes = 16384

abbrev pub competing_media_fields : List String
competing_media_fields =
    "text" ∷ "audio" ∷ "animation" ∷ "photo" ∷ "sticker" ∷ "video" ∷ "video_note" ∷ "voice"
    ∷ "contact" ∷ "location" ∷ "venue" ∷ "poll" ∷ "dice" ∷ "game" ∷ []

unfoldable pub has_any : List String → Members → Bool
unfolding has_own
has_any [] ms = false
has_any (k ∷ ks) ms = has_own k ms || has_any ks ms

abbrev pub id_text : Text → Option Text
id_text s = if is_canonical s && leb (value_of s) max_safe_integer then some s else none

abbrev pub decimal_of : Option ℕ → Option Text
decimal_of none = none
decimal_of (some n) = some (decimal n)

unfoldable pub canonical_private_telegram_identifier :
    Value → (allow_string_ids : Bool) → Option Text
unfolding positive_safe decimal is_canonical value_from
canonical_private_telegram_identifier (number n) allow = decimal_of (positive_safe (number n))
canonical_private_telegram_identifier (string s) allow = if allow then id_text s else none
canonical_private_telegram_identifier _ allow = none

abbrev pub is_private_chat : Value → Bool
is_private_chat chat = elim (as_text (read_of "type" chat)) [
  | none ↦ false
  | some t ↦ is_object chat && same t (codes "private")
]

-- An optional key of the document: kept under another name if it has the right type.
pub data Kept : Type 0 where
  refused : Kept
  missing : Kept
  kept : Value → Kept

abbrev pub text_field : Option Value → Kept
text_field none = missing
text_field (some v) = elim (as_text v) [ none ↦ refused | some s ↦ kept (string s) ]

abbrev pub number_field : Option Value → Kept
number_field none = missing
number_field (some (number n)) = kept (number n)
number_field (some _) = refused

abbrev pub add_kept : String → Kept → (Members → Parsed) → Members → Parsed
add_kept k refused next ms = invalid
add_kept k missing next ms = next ms
add_kept k (kept v) next ms = next (member k v ms)

abbrev pub private_job : ℕ → (user chat : Text) → Option Metadata → Parsed
private_job update_id user chat none = invalid
private_job update_id user chat (some m) = private_compare (record {
  update_id = update_id;
  telegram_user_id = user;
  telegram_chat_id = chat;
  metadata = m;
})

abbrev pub validated : (Text → Bool) → ℕ → Text → Text → Members → Parsed
validated secret update_id user chat ms =
    private_job update_id user chat (validate_private_comparison_metadata secret (object ms))

-- `if (x === undefined) throw`, and `if (b) throw`, before the rest.
abbrev pub demand : {A : Type 0} → Option A → (A → Parsed) → Parsed
demand none rest = invalid
demand (some a) rest = rest a

abbrev pub reject : Bool → Parsed → Parsed
reject true rest = invalid
reject false rest = rest

-- The document, behind the checks of the message.
unfoldable pub parse_document : (Text → Bool) → ℕ → (user chat caption : Text) → Value → Parsed
unfolding read own
parse_document secret update_id user chat caption (object document) =
    demand (as_text (read "file_id" document)) (λ file_id.
      demand (as_text (read "file_unique_id" document)) (λ file_unique_id.
        add_kept "fileName" (text_field (own "file_name" document))
          (add_kept "mime" (text_field (own "mime_type" document)) (
            add_kept "fileSize" (number_field (own "file_size" document))
              (validated secret update_id user chat)))
          (member "caption" (string caption) (
            member "fileId" (string file_id)
              (member "fileUniqueId" (string file_unique_id) last)))))
parse_document secret update_id user chat caption _ = invalid

unfoldable pub parse_private_comparison_job :
    (Text → Bool) → ℕ → Members → (user_id chat_id : Value) → (allow_string_ids : Bool) → Parsed
unfolding canonical_private_telegram_identifier has_any parse_document read read_of same has_own
parse_private_comparison_job secret update_id message user_id chat_id allow =
    demand (canonical_private_telegram_identifier user_id allow) (λ user.
      demand (canonical_private_telegram_identifier chat_id allow) (λ chat.
        reject (not (same user chat) || not (is_private_chat (read "chat" message))) (
          reject (has_any competing_media_fields message) (
            reject (has_own "media_group_id" message) (
              demand (as_text (read "caption" message)) (λ caption.
                parse_document secret update_id user chat caption (read "document" message)))))))

unfoldable pub answer_job : ℕ → Text → (user_id chat_id : Value) → Parsed
unfolding positive_safe nonzero_safe is_blank byte_length decimal decimal_int
answer_job update_id text user_id chat_id = demand (positive_safe user_id) (λ user.
    demand (nonzero_safe chat_id) (λ chat. reject (is_blank text) (
      reject
        (ltb telegram_text_max_bytes (length text)
          || ltb telegram_text_max_bytes (byte_length text))
        (answer (record {
          update_id = update_id;
          telegram_user_id = decimal user;
          telegram_chat_id = decimal_int chat;
          text = text;
          wallet_secret_detected = false;
        })))))

abbrev pub text_message : ℕ → Option Value → (user_id chat_id : Value) → Parsed
text_message update_id none user_id chat_id = ignored
text_message update_id (some v) user_id chat_id =
    demand (as_text v) (λ text. answer_job update_id text user_id chat_id)

unfoldable pub canonicalize_message : (Text → Bool) → ℕ → Value → (allow_string_ids : Bool) → Parsed
unfolding parse_private_comparison_job answer_job read_of read own has_own
canonicalize_message secret update_id undefined allow = ignored
canonicalize_message secret update_id (object message) allow =
    let user_id = read_of "id" (read "from" message) in
    let chat_id = read_of "id" (read "chat" message) in
    if has_own "document" message
    then parse_private_comparison_job secret update_id message user_id chat_id allow
    else text_message update_id (own "text" message) user_id chat_id
canonicalize_message secret update_id _ allow = invalid

unfoldable pub canonicalize_telegram_update :
    (Text → Bool) → Value → (allow_string_ids : Bool) → Parsed
unfolding canonicalize_message read_of positive_safe
canonicalize_telegram_update secret value allow =
    demand (positive_safe (read_of "update_id" value))
      (λ update_id. canonicalize_message secret update_id (read_of "message" value) allow)
