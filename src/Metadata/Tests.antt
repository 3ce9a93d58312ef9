-- ===== src/Metadata/Tests.antt =====
-- Records that `validatePrivateComparisonMetadata` takes and refuses.
use vennek.Prelude.{
  ◌≡◌, ◌↔◌, ◌≤◌, refl, Bool, true, false, [], ◌∷◌, none, some, Text, codes, length, includes,
}
use vennek.Value.{Value, last, member, object, string, number, int, pos, own, read}
use vennek.Unicode.{code_points, byte_length, any_control, is_high, is_low}
use vennek.Metadata.Bounded.{scan, bounded_text, bounded_file_name, bounded_mime}
use vennek.Metadata.Validate.{
  Metadata, validate_private_comparison_metadata, optional_data_record, fields_of, caption_ok,
  identifier_ok, all_listed,
}
use vennek.Metadata.Lengths.{IsWellFormed, NoControls, bounded_text_iff}
use vennek.Metadata.RoundTrip.{IsValid, value_of_metadata, validate-round_trip}

abbrev no_secret : Text → Bool
no_secret s = includes s (codes "seed")

run : Unit {0}
unfolding validate_private_comparison_metadata optional_data_record fields_of caption_ok
    identifier_ok bounded_file_name bounded_mime bounded_text scan byte_length any_control
    code_points is_high is_low all_listed own read includes
run = tt

abbrev input : Value
input = object (
    member "fileId" (string (codes "BQAC-1")) (
      member "caption" (string (codes " compare this ")) (
        member "fileUniqueId" (string (codes "AgAD"))
          (member "fileSize" (number (int (pos 20971520))) last))))

abbrev metadata : Metadata
metadata = record {
  caption = codes " compare this ";
  file_id = codes "BQAC-1";
  file_unique_id = codes "AgAD";
  file_name = none;
  mime = none;
  file_size = some 20971520;
}

accepted_test : validate_private_comparison_metadata no_secret input ≡ some metadata
unfolding run
accepted_test = refl

secret_test :
    validate_private_comparison_metadata no_secret (
      object (
        member "caption"
          (string (codes "my seed"))
          (member "fileId" (string (codes "a")) (member "fileUniqueId" (string (codes "b")) last))))
    ≡ none
unfolding run
secret_test = refl

unknown_key_test :
    validate_private_comparison_metadata no_secret
      (object (member "path" (string (codes "x")) last))
    ≡ none
unfolding run
unknown_key_test = refl

-- A pair of surrogates is one code point of four bytes; half of it is refused.
surrogate_test :
    (bounded_text (codes "𝔸") 1 4 true ≡ true) × (bounded_text (0xd835 ∷ []) 1 4 true ≡ false)
unfolding run
surrogate_test = (refl, refl)

name_test :
    (bounded_file_name (codes "a.pdf") ≡ true) × (bounded_file_name (codes "../a.pdf") ≡ false)
unfolding run
name_test = (refl, refl)

validate-round_trip_example :
    IsValid no_secret metadata
    × (validate_private_comparison_metadata no_secret (value_of_metadata metadata) ≡ some metadata)
validate-round_trip_example = validate-round_trip no_secret input metadata accepted_test

bounded_text_iff_example : (bounded_text (codes "ok") 2 2 true ≡ true) ↔ (
    IsWellFormed (code_points (codes "ok"))
    × (length (code_points (codes "ok")) ≤ 2)
    × (byte_length (codes "ok") ≤ 2)
    × NoControls true (code_points (codes "ok")))
bounded_text_iff_example = bounded_text_iff (codes "ok") 2 2 true
