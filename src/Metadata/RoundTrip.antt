-- ===== src/Metadata/RoundTrip.antt =====
-- A validated record, written out as an object and validated again.
use Prim.Native.String.{String}
use vennek.Prelude.{some_equal}
use vennek.Prelude.{
  ℕ, ◌≤◌, ◌≡◌, ap, sym, ◌∙◌, refl, Bool, true, false, not, Option, none, some, Text, arith,
}
use mathlib.Core.Path.{subst}
use vennek.Value.{Value, Members, last, member, object, string, number, int, pos, own, read}
use vennek.Metadata.Bounded.{bounded_file_name, bounded_mime}
use vennek.Metadata.Validate.{
  Metadata, caption_ok, identifier_ok, max_file_id_bytes, max_file_unique_id_bytes, max_file_bytes,
  has_secret, fields_of, optional_data_record, all_listed, validate_private_comparison_metadata,
  metadata_keys, metadata_required, text_where, optional_where, ◌>>=◌, size_where, check,
}

abbrev Each : (Text → Bool) → Option Text → Type 0
Each ok none = Unit {0}
Each ok (some s) = ok s ≡ true

abbrev pub EachSize : Option ℕ → Type 0
EachSize none = Unit {0}
EachSize (some n) = (1 ≤ n) × (n ≤ max_file_bytes)

pub record IsValid (secret : Text → Bool) (m : Metadata) : Type 0 where
  pub caption : caption_ok m.caption ≡ true
  pub file_id : identifier_ok max_file_id_bytes m.file_id ≡ true
  pub file_unique_id : identifier_ok max_file_unique_id_bytes m.file_unique_id ≡ true
  pub file_name : Each bounded_file_name m.file_name
  pub mime : Each bounded_mime m.mime
  pub file_size : EachSize m.file_size
  pub no_secret : has_secret secret m ≡ false

text_where-some : (ok : Text → Bool) (v : Value) (s : Text) → text_where ok v ≡ some s → ok s ≡ true
text_where-some ok v s e = ground arith

optional-some :
    (ok : Text → Bool) (v : Option Value) (s : Option Text)
    → optional_where (text_where ok) v ≡ some s
    → Each ok s
optional-some ok none s e = ground arith
optional-some ok (some v) s e = ground arith

size-some : (v : Option Value) (n : Option ℕ) → optional_where size_where v ≡ some n → EachSize n
size-some none n e = ground arith
size-some (some v) n e = ground arith

pub bind_some :
    {A B : Type 0} (o : Option A) (f : A → Option B) {b : B}
    → (o >>= f) ≡ some b
    → (a : A) × (o ≡ some a) × (f a ≡ some b)
bind_some none f e = cc
bind_some (some a) f e = (a, refl, e)

pub check-some :
    {A : Type 0} (test : Bool) (a : A) {b : A} → check test a ≡ some b → (test ≡ true) × (a ≡ b)
check-some true a h = (refl, cc)
check-some false a h = cc

module _ (secret : Text → Bool) where
  valid_of_some :
      (ms : Members) (m : Metadata)
      → fields_of ms ≡ some m
      → has_secret secret m ≡ false
      → IsValid secret m
  unfolding fields_of
  valid_of_some ms m e h =
      let (caption, e1, k1) = bind_some (text_where caption_ok (read "caption" ms)) _ e in
      let (file_id, e2, k2) =
        bind_some (text_where (identifier_ok max_file_id_bytes) (read "fileId" ms)) _ k1 in
      let (unique, e3, k3) =
        bind_some (text_where (identifier_ok max_file_unique_id_bytes) (read "fileUniqueId" ms)) _
          k2 in
      let (file_name, e4, k4) =
        bind_some (optional_where (text_where bounded_file_name) (own "fileName" ms)) _ k3 in
      let (mime, e5, k5) =
        bind_some (optional_where (text_where bounded_mime) (own "mime" ms)) _ k4 in
      let (file_size, e6, k6) = bind_some (optional_where size_where (own "fileSize" ms)) _ k5 in
      let built = some_equal _ _ k6 in
      subst (IsValid secret) built (record {
        caption = text_where-some caption_ok (read "caption" ms) _ e1;
        file_id = text_where-some (identifier_ok max_file_id_bytes) (read "fileId" ms) _ e2;
        file_unique_id =
            text_where-some (identifier_ok max_file_unique_id_bytes) (read "fileUniqueId" ms) _ e3;
        file_name = optional-some bounded_file_name (own "fileName" ms) _ e4;
        mime = optional-some bounded_mime (own "mime" ms) _ e5;
        file_size = size-some (own "fileSize" ms) _ e6;
        no_secret = subst (λ x. has_secret secret x ≡ false) (sym built) h;
      })

-- The frozen record that the code builds, as a value: the optional keys only where they are set.
abbrev add_text : String → Option Text → Members → Members
add_text k none ms = ms
add_text k (some s) ms = member k (string s) ms

abbrev add_size : Option ℕ → Members → Members
add_size none ms = ms
add_size (some n) ms = member "fileSize" (number (int (pos n))) ms

unfoldable pub value_of_metadata : Metadata → Value
value_of_metadata m = object (
    member "caption" (string m.caption) (
      member "fileId" (string m.file_id) (
        member "fileUniqueId" (string m.file_unique_id)
          (add_text "fileName" m.file_name (add_text "mime" m.mime (add_size m.file_size last))))))

pub validate-value_of_metadata :
    (secret : Text → Bool) (c f u : Text) (name mime : Option Text) (size : Option ℕ)
    → let m : Metadata = record {
      caption = c;
      file_id = f;
      file_unique_id = u;
      file_name = name;
      mime = mime;
      file_size = size;
    } in
      IsValid secret m → validate_private_comparison_metadata secret (value_of_metadata m) ≡ some m
unfolding value_of_metadata validate_private_comparison_metadata optional_data_record all_listed
    fields_of own read
validate-value_of_metadata secret c f u none none none v = ground arith
validate-value_of_metadata secret c f u none none (some n) v = ground arith
validate-value_of_metadata secret c f u none (some t) none v = ground arith
validate-value_of_metadata secret c f u none (some t) (some n) v = ground arith
validate-value_of_metadata secret c f u (some s) none none v = ground arith
validate-value_of_metadata secret c f u (some s) none (some n) v = ground arith
validate-value_of_metadata secret c f u (some s) (some t) none v = ground arith
validate-value_of_metadata secret c f u (some s) (some t) (some n) v = ground arith

accepted_parts :
    (secret : Text → Bool) (v : Value) (m : Metadata)
    → validate_private_comparison_metadata secret v ≡ some m
    → (ms : Members) × (fields_of ms ≡ some m) × (has_secret secret m ≡ false)
unfolding validate_private_comparison_metadata
accepted_parts secret v m e =
    let (ms, _, k) = bind_some (optional_data_record v metadata_keys metadata_required) _ e in
    let (m', e', k') = bind_some (fields_of ms) _ k in
    let (same_m, clean) = checked (has_secret secret m') m' m k' in
    (ms, e' ∙ ap some same_m, subst (λ x. has_secret secret x ≡ false) same_m clean)
  where
    checked : (b : Bool) (m' m : Metadata) → check (not b) m' ≡ some m → (m' ≡ m) × (b ≡ false)
    checked true m' m e = cc
    checked false m' m e = (some_equal m' m e, refl)

-- Whatever value the validator accepts, the record that it returns is valid, and written out as an
-- object it is accepted again and gives the same record.
pub validate-round_trip :
    (secret : Text → Bool) (v : Value) (m : Metadata)
    → validate_private_comparison_metadata secret v ≡ some m
    → IsValid secret m
      × (validate_private_comparison_metadata secret (value_of_metadata m) ≡ some m)
validate-round_trip secret v m e =
    let (ms, fs, clean) = accepted_parts secret v m e in
    let valid = valid_of_some secret ms m fs clean in
    (
      valid,
      validate-value_of_metadata secret m.caption m.file_id m.file_unique_id m.file_name m.mime
          m.file_size valid,
    )
