-- ===== src/Envelope/Job.antt =====
-- `encryptPrivateComparisonJob`, `decryptPrivateComparisonJob` and
-- `validateEncryptedPrivateComparisonJob`.
use Prim.Native.String.{String}
use vennek.Prelude.{
  ℕ, Bool, true, false, ◌&&◌, ◌||◌, not, List, [], ◌∷◌, Option, some, Text, codes, leb, ◌==◌, same,
  length,
}
use vennek.Value.{Value, Members, read, as_text}
use vennek.Metadata.Validate.{Metadata, validate_private_comparison_metadata, ◌>>=◌, check}
use vennek.Metadata.RoundTrip.{value_of_metadata}
use vennek.Envelope.Owner.{
  Owner, exact_data_record, snapshot_owner, is_valid_owner, private_comparison_aad,
}
use vennek.Envelope.Cipher.{Bytes, Node, EncryptedText, decode_base64, encrypt_text, decrypt_text}

pub record EncryptedJob : Type 0 where
  pub owner : Owner
  pub encrypted : EncryptedText

abbrev pub max_ciphertext_bytes : ℕ
max_ciphertext_bytes = 131072

abbrev pub job_keys : List String
job_keys = "kind" ∷ "updateId" ∷ "telegramUserId" ∷ "telegramChatId" ∷ "encrypted" ∷ []

abbrev pub input_keys : List String
input_keys = "kind" ∷ "updateId" ∷ "telegramUserId" ∷ "telegramChatId" ∷ "metadata" ∷ []

abbrev pub envelope_keys : List String
envelope_keys = "ciphertext" ∷ "iv" ∷ "tag" ∷ []

abbrev pub kind_ok : Members → Option (Unit {0})
kind_ok ms = do kind ← as_text (read "kind" ms); check (same kind (codes "private-compare")) tt

abbrev pub same_owner : Owner → Owner → Bool
same_owner a b =
    (a.update_id == b.update_id)
    && (same a.telegram_user_id b.telegram_user_id && same a.telegram_chat_id b.telegram_chat_id)

module _ (n : Node) where
  -- `decodeCanonicalBase64`.
  unfoldable pub decode_canonical_base64 : Text → (maximum : ℕ) → (exact : Bool) → Option Bytes
  decode_canonical_base64 value maximum exact = do
    decoded ← decode_base64 n value
    check (leb (length decoded) maximum && (not exact || (length decoded == maximum))) decoded

  -- `snapshotEncryptedText` of three texts: what is decoded is encoded again.
  unfoldable pub snapshot_encrypted_text : (ciphertext iv tag : Text) → Option EncryptedText
  snapshot_encrypted_text c i t = do
    ciphertext ← decode_canonical_base64 c max_ciphertext_bytes false
    iv ← decode_canonical_base64 i 12 true
    tag ← decode_canonical_base64 t 16 true
    check (leb 1 (length ciphertext))
        (record { ciphertext = n.to_base64 ciphertext; iv = n.to_base64 iv; tag = n.to_base64 tag })

  unfoldable pub snapshot_envelope : Value → Option EncryptedText
  snapshot_envelope value = do
    ms ← exact_data_record value envelope_keys
    c ← as_text (read "ciphertext" ms)
    i ← as_text (read "iv" ms)
    t ← as_text (read "tag" ms)
    snapshot_encrypted_text c i t

  unfoldable pub validate_encrypted_job : Value → Option EncryptedJob
  validate_encrypted_job value = do
    ms ← exact_data_record value job_keys
    kind ← kind_ok ms
    owner ← snapshot_owner ms
    encrypted ← snapshot_envelope (read "encrypted" ms)
    some (record { owner = owner; encrypted = encrypted })

  unfoldable pub encrypt_private_comparison_job :
      (secret : Text → Bool) → Value → (key iv : Bytes) → Option EncryptedJob
  encrypt_private_comparison_job secret input key iv = do
    ms ← exact_data_record input input_keys
    kind ← kind_ok ms
    owner ← snapshot_owner ms
    metadata ← validate_private_comparison_metadata secret (read "metadata" ms)
    sealed ←
        encrypt_text n (n.stringify (value_of_metadata metadata)) key (private_comparison_aad owner)
          iv
    encrypted ← snapshot_encrypted_text sealed.ciphertext sealed.iv sealed.tag
    some (record { owner = owner; encrypted = encrypted })

  -- Every exception is `none`.
  unfoldable pub decrypt_private_comparison_job :
      (secret : Text → Bool) → Value → (key : Bytes) → Owner → Option Metadata
  decrypt_private_comparison_job secret value key expected = do
    ms ← exact_data_record value job_keys
    kind ← kind_ok ms
    owner ← snapshot_owner ms
    wanted ← check (is_valid_owner expected) expected
    matching ← check (same_owner owner wanted) owner
    encrypted ← snapshot_envelope (read "encrypted" ms)
    plaintext ← decrypt_text n encrypted key (private_comparison_aad wanted)
    metadata ← n.parse plaintext
    validate_private_comparison_metadata secret metadata
