-- ===== src/Download/SafeFile.antt =====
-- The file that `getFile` may lead to.
use mathlib.Core.Path.{subst}
use vennek.Metadata.RoundTrip.{check-some}
use vennek.Prelude.{some_equal}
use vennek.Prelude.{
  ℕ, ◌≤◌, ◌≡◌, refl, ap, inl, inr, Bool, true, false, ◌&&◌, ◌||◌, not, List, [], ◌∷◌, ◌++◌, Option,
  none, some, Text, ltb, ◌==◌, ==_iff, same, same_iff, length, arith, Bool-cases,
}
use vennek.Unicode.{byte_length}
use vennek.Value.{Value, Members, object, string, own, read, keys, as_text}
use vennek.Metadata.Validate.{all_listed, check}
use vennek.Metadata.RoundTrip.{bind_some}
use vennek.Download.Headers.{max_file_bytes}
use vennek.Download.Paths.{
  split_first, segments, all_segments, has_refused, file_path_max_bytes,
  validate_telegram_file_path, bounded_telegram_text, TelegramFile, file_keys, valid_size, path_of,
  valid_path, validate_members, validate_telegram_file,
}

abbrev pub joined_rest : List Text → Text
joined_rest [] = []
joined_rest (s ∷ ss) = 47 ∷ (s ++ joined_rest ss)

-- The parts with a slash between them.
abbrev pub joined_segments : List Text → Text
joined_segments [] = []
joined_segments (s ∷ ss) = s ++ joined_rest ss

joined-segments : (s : Text) → joined_segments (segments s) ≡ s
unfolding split_first
joined-segments [] = refl
joined-segments (c ∷ s) = elim (Bool-cases (c == 47)) [
  | inl b ↦ rw (b, (==_iff c 47).0 b) (ap (λ t. 47 ∷ t) (joined-segments s))
  | inr b ↦ rw b (ap (λ t. c ∷ t) (joined-segments s))
]

abbrev pub IsSafePath : Text → Type 0
IsSafePath s =
    (1 ≤ length s) × (byte_length s ≤ file_path_max_bytes) × (all_segments (segments s) ≡ true)

parts_lem :
    (z l r g : Bool)
    → (not (z || l) && (not r && g)) ≡ true
    → (z ≡ false) × (l ≡ false) × (g ≡ true)
parts_lem z l r g e = ground arith

and_left : (a b : Bool) → (a && b) ≡ true → a ≡ true
and_left true b e = refl
and_left false b e = cc

not_zero : (n : ℕ) → (n == 0) ≡ false → 1 ≤ n
not_zero n e = ground arith

not_above : (m n : ℕ) → ltb m n ≡ false → n ≤ m
not_above m n e = ground arith

validate_path-IsSafePath :
    (s t : Text) → validate_telegram_file_path s ≡ some t → (t ≡ s) × IsSafePath t
unfolding validate_telegram_file_path
validate_path-IsSafePath s t e =
    let (b, same_text) =
      check-some
        (not (length s == 0 || ltb file_path_max_bytes (byte_length s))
          && (not (has_refused s) && all_segments (segments s)))
        s e in
    let (empty, long, good) =
      parts_lem (length s == 0) (ltb file_path_max_bytes (byte_length s)) (has_refused s)
        (all_segments (segments s)) b in
    subst (λ x. (x ≡ s) × IsSafePath x) same_text
      (refl, (not_zero (length s) empty, not_above file_path_max_bytes (byte_length s) long, good))

abbrev pub SafeSize : Option ℕ → Type 0
SafeSize none = Unit {0}
SafeSize (some n) = (1 ≤ n) × (n ≤ max_file_bytes)

-- The path is its segments with a slash between them, and each is safe.
abbrev pub SafePath : Option Text → Type 0
SafePath none = Unit {0}
SafePath (some s) = IsSafePath s × (joined_segments (segments s) ≡ s)

valid_size-SafeSize : (v : Option Value) (o : Option ℕ) → valid_size v ≡ some o → SafeSize o
valid_size-SafeSize none o e = ground arith
valid_size-SafeSize (some v) o e = ground arith

path_of-SafePath :
    (s : Text) (p : Option Text) (o : Option Text)
    → validate_telegram_file_path s ≡ p
    → path_of p ≡ some o
    → SafePath o
path_of-SafePath s none o v e = cc
path_of-SafePath s (some t) o v e =
    let (_, safe) = validate_path-IsSafePath s t v in
    subst SafePath (some_equal (some t) o e) (safe, joined-segments t)

valid_path-SafePath : (v : Option Value) (o : Option Text) → valid_path v ≡ some o → SafePath o
valid_path-SafePath none o e = subst SafePath (some_equal none o e) tt
valid_path-SafePath (some (string s)) o e =
    path_of-SafePath s (validate_telegram_file_path s) o refl e
valid_path-SafePath (some _) o e = cc

abbrev pub IsSafeFile : (expected_file_id : Text) → TelegramFile → Type 0
IsSafeFile expected f = (f.file_id ≡ expected) × SafeSize f.file_size × SafePath f.file_path

validate_members-IsSafeFile :
    (ms : Members) (expected : Text) (f : TelegramFile)
    → validate_members ms expected ≡ some f
    → IsSafeFile expected f
unfolding validate_members
validate_members-IsSafeFile ms expected f e =
    let (_, _, e1) = bind_some (check (all_listed (keys ms) file_keys) tt) _ e in
    let (file_id, _, e2) = bind_some (as_text (read "file_id" ms)) _ e1 in
    let (unique, _, e3) = bind_some (as_text (read "file_unique_id" ms)) _ e2 in
    let (_, b, e4) =
      bind_some
        (check
          (same file_id expected
            && (bounded_telegram_text 512 file_id && bounded_telegram_text 256 unique))
          tt)
        _ e3 in
    let (size, z, e5) = bind_some (valid_size (own "file_size" ms)) _ e4 in
    let (path, p, e6) = bind_some (valid_path (own "file_path" ms)) _ e5 in
    let (t, _) =
      check-some
        (same file_id expected
          && (bounded_telegram_text 512 file_id && bounded_telegram_text 256 unique))
        tt b in
    subst (IsSafeFile expected) (some_equal _ f e6) (
      (same_iff file_id expected).0 (and_left (same file_id expected) _ t),
      valid_size-SafeSize (own "file_size" ms) size z,
      valid_path-SafePath (own "file_path" ms) path p,
    )

-- An answer of `getFile` that is taken names the file that was asked for, its size is between 1 and
-- 20971520 if it has one, and its path, if it has one, has between 1 byte and 4096 and is a list of
-- segments with a slash between them, none of which is empty, `.` or `..` or has a character outside
-- `A-Za-z0-9._~-`.
pub validate_telegram_file-IsSafeFile :
    (v : Value) (expected : Text) (f : TelegramFile)
    → validate_telegram_file v expected ≡ some f
    → IsSafeFile expected f
unfolding validate_telegram_file
validate_telegram_file-IsSafeFile (object ms) expected f e =
    validate_members-IsSafeFile ms expected f e
validate_telegram_file-IsSafeFile _ expected f e = cc
