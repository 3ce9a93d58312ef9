-- ===== src/Download/Headers.antt =====
-- What a response must declare before a byte of it is kept. A header is a text of bytes, so that
-- ASCII case is all that `toLowerCase` changes of one that is allowed.
use vennek.Prelude.{
  ℕ, Bool, true, false, ◌&&◌, ◌||◌, not, List, [], ◌∷◌, Option, none, some, Text, codes, leb, ltb,
  ◌==◌, if◌then◌else◌, same, trim,
}
use vennek.Value.{max_safe_integer}
use vennek.Value.Decimal.{is_canonical, value_of, value_from}
use vennek.Ingress.Webhook.{before_semicolon, lower_ascii}

-- A header that may be missing, or be given several times.
pub data Header : Type 0 where
  absent several : Header
  single : Text → Header

pub record Response : Type 0 where
  pub status : Option ℕ
  pub content_type : Header
  pub content_encoding : Header
  pub content_length : Header

abbrev pub max_file_bytes : ℕ
max_file_bytes = 20971520

abbrev pub allowed_content_types : List Text
allowed_content_types =
    codes "application/octet-stream"
    ∷ codes "application/pdf"
    ∷ codes "application/vnd.openxmlformats-officedocument.wordprocessingml.document"
    ∷ codes "application/markdown"
    ∷ codes "text/plain"
    ∷ codes "text/markdown"
    ∷ []

unfoldable pub listed_text : Text → List Text → Bool
unfolding same
listed_text t [] = false
listed_text t (s ∷ ss) = same s t || listed_text t ss

unfoldable pub is_allowed_type : Header → Bool
unfolding before_semicolon lower_ascii trim listed_text
is_allowed_type (single value) =
    listed_text (lower_ascii (trim (before_semicolon value))) allowed_content_types
is_allowed_type _ = false

-- `parseTelegramContentLength`.
unfoldable pub parse_telegram_content_length : Header → Option ℕ
unfolding is_canonical value_from
parse_telegram_content_length (single value) =
    if is_canonical value && leb (value_of value) max_safe_integer
    then some (value_of value)
    else none
parse_telegram_content_length _ = none

abbrev pub is_absent : Header → Bool
is_absent absent = true
is_absent _ = false

abbrev pub is_ok : Option ℕ → Bool
is_ok none = false
is_ok (some status) = status == 200

-- `expectedSize !== undefined && declaredLength !== undefined && expectedSize !== declaredLength`.
abbrev pub mismatch : Option ℕ → Option ℕ → Bool
mismatch (some expected) (some declared) = not (expected == declared)
mismatch _ _ = false

abbrev too_long : Option ℕ → Bool
too_long none = false
too_long (some declared) = ltb max_file_bytes declared

abbrev is_none : Option ℕ → Bool
is_none none = true
is_none (some _) = false

unfoldable pub is_refused : (expected_size : Option ℕ) → Response → Bool
unfolding is_allowed_type parse_telegram_content_length
is_refused expected r =
    let declared = parse_telegram_content_length r.content_length in
    not (is_ok r.status)
    || not (is_allowed_type r.content_type)
    || not (is_absent r.content_encoding)
    || (not (is_absent r.content_length) && is_none declared)
    || too_long declared
    || mismatch expected declared

-- `status && status >= 400 ? status : 502`.
abbrev pub refusal_status : Option ℕ → ℕ
refusal_status none = 502
refusal_status (some status) = if leb 400 status then status else 502
