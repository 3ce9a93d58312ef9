-- ===== src/Download/Paths.antt =====
-- `validateTelegramFilePath`, `validateTelegramFile` and `boundedTelegramText`: what `getFile` may
-- answer.
use Prim.Native.String.{String}
use vennek.Prelude.{
  ℕ, Bool, true, false, ◌&&◌, ◌||◌, not, List, [], ◌∷◌, Option, none, some, Text, codes, leb, ltb,
  ◌==◌, if◌then◌else◌, same, trim, starts_with, includes, length,
}
use vennek.Unicode.{byte_length, any_control, code_points}
use vennek.Value.{Value, Members, object, string, number, int, pos, own, read, keys, as_text}
use vennek.Metadata.Validate.{all_listed, ◌>>=◌, check}
use vennek.Download.Headers.{max_file_bytes}

-- `s.split("/")`: the first part, and the others.
unfoldable pub split_first : Text → Text × List Text
split_first [] = ([], [])
split_first (c ∷ s) =
    let rest = split_first s in if c == 47 then ([], rest.0 ∷ rest.1) else (c ∷ rest.0, rest.1)

abbrev pub segments : Text → List Text
segments s = (split_first s).0 ∷ (split_first s).1

-- /^[A-Za-z0-9._~-]+$/
unfoldable pub is_path_char : ℕ → Bool
is_path_char c =
    (leb 65 c && leb c 90)
    || (leb 97 c && leb c 122)
    || (leb 48 c && leb c 57)
    || c == 46
    || c == 95
    || c == 126
    || c == 45

unfoldable pub all_path_chars : Text → Bool
unfolding is_path_char
all_path_chars [] = true
all_path_chars (c ∷ s) = is_path_char c && all_path_chars s

unfoldable pub is_segment : Text → Bool
unfolding same all_path_chars
is_segment s =
    not (length s == 0)
    && (not (same s (codes ".")) && (not (same s (codes "..")) && all_path_chars s))

unfoldable pub all_segments : List Text → Bool
unfolding is_segment
all_segments [] = true
all_segments (s ∷ ss) = is_segment s && all_segments ss

abbrev pub ends_with_slash : Text → Bool
ends_with_slash [] = false
ends_with_slash (c ∷ []) = c == 47
ends_with_slash (c ∷ d ∷ s) = ends_with_slash (d ∷ s)

abbrev pub has_refused : Text → Bool
has_refused s =
    starts_with s (codes "/")
    || ends_with_slash s
    || includes s (codes "//")
    || includes s (codes "\\")
    || includes s (codes "?")
    || includes s (codes "#")
    || includes s (codes "%")
    || any_control (code_points s)

abbrev pub file_path_max_bytes : ℕ
file_path_max_bytes = 4096

unfoldable pub validate_telegram_file_path : Text → Option Text
unfolding split_first all_segments starts_with includes any_control code_points byte_length
validate_telegram_file_path s =
    check
      (not (length s == 0 || ltb file_path_max_bytes (byte_length s))
        && (not (has_refused s) && all_segments (segments s)))
      s

unfoldable pub bounded_telegram_text : (max_bytes : ℕ) → Text → Bool
unfolding trim same byte_length any_control code_points
bounded_telegram_text max_bytes s =
    ltb 0 (length s)
    && (same (trim s) s && (leb (byte_length s) max_bytes && not (any_control (code_points s))))

pub record TelegramFile : Type 0 where
  pub file_id : Text
  pub file_unique_id : Text
  pub file_size : Option ℕ
  pub file_path : Option Text

abbrev pub file_keys : List String
file_keys = "file_id" ∷ "file_unique_id" ∷ "file_size" ∷ "file_path" ∷ []

abbrev pub valid_size : Option Value → Option (Option ℕ)
valid_size none = some none
valid_size (some (number (int (pos n)))) =
    if leb 1 n && leb n max_file_bytes then some (some n) else none
valid_size (some _) = none

abbrev pub path_of : Option Text → Option (Option Text)
path_of none = none
path_of (some s) = some (some s)

abbrev pub valid_path : Option Value → Option (Option Text)
valid_path none = some none
valid_path (some (string s)) = path_of (validate_telegram_file_path s)
valid_path (some _) = none

unfoldable pub validate_members : Members → (expected_file_id : Text) → Option TelegramFile
unfolding bounded_telegram_text validate_telegram_file_path read own same all_listed
validate_members ms expected = do
  known ← check (all_listed (keys ms) file_keys) tt
  file_id ← as_text (read "file_id" ms)
  unique ← as_text (read "file_unique_id" ms)
  bounded ←
      check
        (same file_id expected
          && (bounded_telegram_text 512 file_id && bounded_telegram_text 256 unique))
        tt
  size ← valid_size (own "file_size" ms)
  path ← valid_path (own "file_path" ms)
  some (record { file_id = file_id; file_unique_id = unique; file_size = size; file_path = path })

unfoldable pub validate_telegram_file : Value → (expected_file_id : Text) → Option TelegramFile
unfolding validate_members
validate_telegram_file (object ms) expected = validate_members ms expected
validate_telegram_file _ expected = none
