-- ===== src/Envelope/Tests.antt =====
-- Private comparisons encrypted over a platform that hides nothing.
use vennek.Prelude.{
  arith, ℕ, ◌≡◌, refl, Bool, true, List, [], ◌∷◌, ◌++◌, none, some, Text, codes, same, replicate,
  trim, trim_end, trim_start, is_space, includes, starts_with,
}
use vennek.Value.{
  Value, Members, last, member, object, string, number, int, pos, own, read, positive_safe,
}
use vennek.Value.Decimal.{decimal, is_canonical, all_digits, is_digit, value_from}
use vennek.Unicode.{
  is_high, is_low, byte_length, bytes_of, point_bytes, code_points, any_control, is_control,
  is_format,
}
use vennek.Metadata.Bounded.{bounded_text, bounded_file_name, bounded_mime, is_blank, scan}
use vennek.Metadata.Validate.{
  Metadata, validate_private_comparison_metadata, optional_data_record, fields_of, caption_ok,
  identifier_ok, all_listed, listed,
}
use vennek.Envelope.Owner.{
  exact_data_record, Owner, snapshot_owner, is_valid_owner, private_comparison_aad,
  canonical_positive_telegram_id,
}
use vennek.Metadata.RoundTrip.{value_of_metadata}
use vennek.Envelope.Cipher.{
  AllBytes, EncryptedText, encrypt_text, decrypt_text, decode_base64, canonical_base64,
  is_base64_char,
}
use vennek.Envelope.Job.{
  EncryptedJob, input_keys, job_keys, snapshot_encrypted_text, snapshot_envelope,
  decode_canonical_base64, encrypt_private_comparison_job, decrypt_private_comparison_job,
}
use vennek.Envelope.SameOwner.{decrypt-same_owner}
use vennek.Envelope.Laws.{value_of_job, decrypt-encrypt}
use vennek.Envelope.Plain.{plain_node, plain_node-IsNode}
use vennek.Envelope.Binding.{private_comparison_aad_injective}

abbrev alice : Owner
alice = record { update_id = 7; telegram_user_id = codes "42"; telegram_chat_id = codes "42" }

valid_test : is_valid_owner alice ≡ true
unfolding canonical_positive_telegram_id is_canonical value_from same
valid_test = refl

aad_test : private_comparison_aad alice ≡ codes "telegram-private-compare:7:42:42"
unfolding private_comparison_aad decimal
aad_test = refl

private_comparison_aad_injective_example : alice ≡ alice
private_comparison_aad_injective_example =
    private_comparison_aad_injective alice alice valid_test valid_test refl

abbrev no_secret : Text → Bool
no_secret s = includes s (codes "seed")

run : Unit {0}
unfolding plain_node encrypt_private_comparison_job decrypt_private_comparison_job exact_data_record
    all_listed listed own read same snapshot_owner positive_safe canonical_positive_telegram_id
    is_canonical all_digits is_digit value_from decimal private_comparison_aad
    validate_private_comparison_metadata optional_data_record fields_of caption_ok identifier_ok
    bounded_text bounded_file_name bounded_mime is_blank scan is_high is_low byte_length bytes_of
    point_bytes code_points any_control is_control is_format trim trim_end trim_start is_space
    includes starts_with encrypt_text decrypt_text snapshot_encrypted_text snapshot_envelope
    decode_canonical_base64 decode_base64 canonical_base64 is_base64_char value_of_metadata
run = tt

abbrev key : List ℕ
key = replicate 32 1

abbrev iv : List ℕ
iv = replicate 12 0

iv_test : AllBytes iv
iv_test = omega arith

abbrev unary : ℕ → Text
unary n = replicate n 65 ++ 66 ∷ []

abbrev two_bytes : Text → List ℕ
two_bytes [] = []
two_bytes (c ∷ s) = 0 ∷ c ∷ two_bytes s

abbrev metadata : Metadata
metadata = record {
  caption = codes "a b";
  file_id = codes "f";
  file_unique_id = codes "u";
  file_name = none;
  mime = none;
  file_size = some 9;
}

abbrev input : Value
input = object (
    member "kind" (string (codes "private-compare")) (
      member "updateId" (number (int (pos 7))) (
        member "telegramUserId" (string (codes "42")) (
          member "telegramChatId" (string (codes "42"))
            (member "metadata" (value_of_metadata metadata) last)))))

-- What the platform writes: 3 units of the caption behind their number, then the other fields.
abbrev written : Text
written =
    unary 3
    ++ unary 97
    ++ unary 32
    ++ unary 98
    ++ unary 1
    ++ unary 102
    ++ unary 1
    ++ unary 117
    ++ unary 0
    ++ unary 0
    ++ unary 9

abbrev job : EncryptedJob
job = record {
  owner = alice;
  encrypted = record {
    ciphertext = plain_node.to_base64 (two_bytes written);
    iv = plain_node.to_base64 iv;
    tag = plain_node.to_base64 (replicate 16 0);
  };
}

encrypted_test : encrypt_private_comparison_job plain_node no_secret input key iv ≡ some job
unfolding run
encrypted_test = refl

decrypted_test :
    decrypt_private_comparison_job plain_node no_secret (value_of_job job) key alice ≡ some metadata
unfolding run
decrypted_test = refl

decrypt-encrypt_example :
    (ms : Members) × (m : Metadata) × (exact_data_record input input_keys ≡ some ms)
    × (snapshot_owner ms ≡ some alice)
    × (validate_private_comparison_metadata no_secret (read "metadata" ms) ≡ some m)
    × (decrypt_private_comparison_job plain_node no_secret (value_of_job job) key alice ≡ some m)
decrypt-encrypt_example =
    decrypt-encrypt plain_node plain_node-IsNode no_secret input key iv job iv_test encrypted_test

decrypt-same_owner_example :
    (ms : Members) × (e : EncryptedText) × (plaintext : Text) × (v : Value) × (exact_data_record
        (value_of_job job)
        job_keys
      ≡ some ms)
    × (snapshot_owner ms ≡ some alice)
    × (is_valid_owner alice ≡ true)
    × (snapshot_envelope plain_node (read "encrypted" ms) ≡ some e)
    × (decrypt_text plain_node e key (private_comparison_aad alice) ≡ some plaintext)
    × (plain_node.parse plaintext ≡ some v)
    × (validate_private_comparison_metadata no_secret v ≡ some metadata)
decrypt-same_owner_example =
    decrypt-same_owner plain_node no_secret (value_of_job job) key alice metadata decrypted_test
