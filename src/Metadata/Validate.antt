-- ===== src/Metadata/Validate.antt =====
-- `optionalDataRecord` and `validatePrivateComparisonMetadata`.
use Prim.Native.String.{String}
use text.Mathlib.Text.{◌==◌ as str_eq}
use vennek.Prelude.{
  ℕ, Bool, true, false, ◌&&◌, ◌||◌, not, List, [], ◌∷◌, Option, none, some, Text, leb,
  if◌then◌else◌, trim, same, length,
}
use vennek.Value.{Value, Members, object, number, int, pos, keys, own, read, as_text}
use vennek.Metadata.Bounded.{bounded_text, bounded_file_name, bounded_mime, is_blank}

pub record Metadata : Type 0 where
  pub caption : Text
  pub file_id : Text
  pub file_unique_id : Text
  pub file_name : Option Text
  pub mime : Option Text
  pub file_size : Option ℕ

abbrev pub max_caption_bytes : ℕ
max_caption_bytes = 16384

abbrev pub max_caption_code_points : ℕ
max_caption_code_points = 16384

abbrev pub max_file_id_bytes : ℕ
max_file_id_bytes = 512

abbrev pub max_file_unique_id_bytes : ℕ
max_file_unique_id_bytes = 256

abbrev pub max_file_bytes : ℕ
max_file_bytes = 20971520

unfoldable pub listed : String → List String → Bool
listed k [] = false
listed k (j ∷ js) = str_eq j k || listed k js

unfoldable pub all_listed : List String → List String → Bool
unfolding listed
all_listed [] allowed = true
all_listed (k ∷ ks) allowed = listed k allowed && all_listed ks allowed

-- The members, where no key is outside `allowed` and none of `required` is missing.
unfoldable pub optional_data_record : Value → (allowed required : List String) → Option Members
unfolding all_listed
optional_data_record (object ms) allowed required =
    if all_listed (keys ms) allowed && all_listed required (keys ms) then some ms else none
optional_data_record _ allowed required = none

abbrev pub metadata_keys : List String
metadata_keys = "caption" ∷ "fileId" ∷ "fileUniqueId" ∷ "fileName" ∷ "mime" ∷ "fileSize" ∷ []

abbrev pub metadata_required : List String
metadata_required = "caption" ∷ "fileId" ∷ "fileUniqueId" ∷ []

infixl 5 ◌>>=◌
abbrev pub ◌>>=◌ : {A B : Type 0} → Option A → (A → Option B) → Option B
none >>= f = none
some a >>= f = f a

abbrev pub check : {A : Type 0} → Bool → A → Option A
check true a = some a
check false a = none

unfoldable pub caption_ok : Text → Bool
unfolding bounded_text is_blank
caption_ok s = bounded_text s max_caption_code_points max_caption_bytes false && not (is_blank s)

unfoldable pub identifier_ok : ℕ → Text → Bool
unfolding bounded_text trim same
identifier_ok most s = not (leb (length s) 0) && (same (trim s) s && bounded_text s most most true)

-- `typeof value === "string"` and a test.
abbrev pub text_where : (Text → Bool) → Value → Option Text
text_where ok v = do s ← as_text v; check (ok s) s

-- A key that may be missing: `Object.hasOwn`, then the test.
abbrev pub optional_where : {A : Type 0} → (Value → Option A) → Option Value → Option (Option A)
optional_where ok none = some none
optional_where ok (some v) = do a ← ok v; some (some a)

abbrev pub size_where : Value → Option ℕ
size_where (number (int (pos n))) = if leb 1 n && leb n max_file_bytes then some n else none
size_where _ = none

abbrev pub secret_in : (Text → Bool) → Option Text → Bool
secret_in secret none = false
secret_in secret (some s) = secret s

-- The loop over the texts of a record.
abbrev pub has_secret : (Text → Bool) → Metadata → Bool
has_secret secret m =
    secret m.caption
    || secret m.file_id
    || secret m.file_unique_id
    || secret_in secret m.file_name
    || secret_in secret m.mime

unfoldable pub fields_of : Members → Option Metadata
fields_of ms = do
  caption ← text_where caption_ok (read "caption" ms)
  file_id ← text_where (identifier_ok max_file_id_bytes) (read "fileId" ms)
  file_unique_id ← text_where (identifier_ok max_file_unique_id_bytes) (read "fileUniqueId" ms)
  file_name ← optional_where (text_where bounded_file_name) (own "fileName" ms)
  mime ← optional_where (text_where bounded_mime) (own "mime" ms)
  file_size ← optional_where size_where (own "fileSize" ms)
  some (record {
    caption = caption;
    file_id = file_id;
    file_unique_id = file_unique_id;
    file_name = file_name;
    mime = mime;
    file_size = file_size;
  })

-- `none` is the exception.
unfoldable pub validate_private_comparison_metadata : (Text → Bool) → Value → Option Metadata
validate_private_comparison_metadata secret value = do
  ms ← optional_data_record value metadata_keys metadata_required
  m ← fields_of ms
  check (not (has_secret secret m)) m
