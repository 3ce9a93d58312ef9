-- ===== src/Ingress/Sealing.antt =====
-- The encryption of a private comparison that was let through.
use vennek.Prelude.{
  ◌≡◌, refl, ap, sym, ◌∙◌, Bool, true, some, Text, codes, same, same_iff, length, arith,
}
use vennek.Value.{Members, member, last, string, number, int, pos, read, own, positive_safe}
use vennek.Metadata.Validate.{validate_private_comparison_metadata, all_listed}
use vennek.Metadata.RoundTrip.{value_of_metadata, validate-value_of_metadata}
use vennek.Envelope.Owner.{
  Owner, is_valid_owner, exact_data_record, snapshot_owner, private_comparison_aad,
  canonical_positive_telegram_id,
}
use vennek.Envelope.Cipher.{AllBytes, Bytes, Node, IsNode, encrypt_text}
use vennek.Envelope.Job.{
  EncryptedJob, kind_ok, input_keys, encrypt_private_comparison_job, decrypt_private_comparison_job,
}
use vennek.Envelope.Laws.{sizes_ok, coded, snapshot-coded, value_of_job, Sealed, decrypt-Sealed}
use vennek.Ingress.Update.{PrivateJob}
use vennek.Ingress.Private.{IsOwned}
use vennek.Ingress.Webhook.{seal_job, value_of_private_job}

abbrev pub owner_of : PrivateJob → Owner
owner_of job = record {
  update_id = job.update_id;
  telegram_user_id = job.telegram_user_id;
  telegram_chat_id = job.telegram_chat_id;
}

-- What is sealed for a job.
abbrev pub seal_of : (n : Node) (key iv : Bytes) → PrivateJob → Bytes × Bytes
seal_of n key iv job =
    n.seal key iv (private_comparison_aad (owner_of job))
      (n.stringify (value_of_metadata job.metadata))

abbrev members_of_private_job : PrivateJob → Members
members_of_private_job job = member "kind" (string (codes "private-compare")) (
    member "updateId" (number (int (pos job.update_id))) (
      member "telegramUserId" (string job.telegram_user_id) (
        member "telegramChatId" (string job.telegram_chat_id)
          (member "metadata" (value_of_metadata job.metadata) last))))

snapshot_owner-IsOwned :
    (find : Text → Bool) (job : PrivateJob)
    → IsOwned find job
    → snapshot_owner (members_of_private_job job) ≡ some (owner_of job)
unfolding snapshot_owner positive_safe read own
snapshot_owner-IsOwned find job o = ground (
  arith,
  o.update_id_positive,
  o.update_id_safe,
  o.canonical,
  o.same_chat,
  same_iff job.telegram_user_id job.telegram_chat_id,
  ap canonical_positive_telegram_id (sym o.same_chat) ∙ o.canonical,
)

owner_of-valid :
    (find : Text → Bool) (job : PrivateJob)
    → IsOwned find job
    → is_valid_owner (owner_of job) ≡ true
owner_of-valid find job o = ground (
  arith,
  o.update_id_positive,
  o.update_id_safe,
  o.canonical,
  o.same_chat,
  same_iff job.telegram_user_id job.telegram_chat_id,
  ap canonical_positive_telegram_id (sym o.same_chat) ∙ o.canonical,
)

validated_again :
    (find : Text → Bool) (job : PrivateJob)
    → IsOwned find job
    → validate_private_comparison_metadata find (value_of_metadata job.metadata) ≡ some job.metadata
validated_again find job o =
    validate-value_of_metadata find job.metadata.caption job.metadata.file_id
      job.metadata.file_unique_id job.metadata.file_name job.metadata.mime job.metadata.file_size
      o.metadata

exact-private_job :
    (job : PrivateJob)
    → exact_data_record (value_of_private_job job) input_keys ≡ some (members_of_private_job job)
unfolding exact_data_record all_listed
exact-private_job job = refl

kind-private_job : (job : PrivateJob) → kind_ok (members_of_private_job job) ≡ some tt
unfolding read own same
kind-private_job job = refl

metadata-private_job :
    (job : PrivateJob)
    → read "metadata" (members_of_private_job job) ≡ value_of_metadata job.metadata
unfolding read own
metadata-private_job job = refl

module _ (n : Node) (law : IsNode n) where
  encrypt_text-coded :
      (plain : Text) (key : Bytes) (aad : Text) (iv : Bytes)
      → length key ≡ 32
      → encrypt_text n plain key aad iv
        ≡ some (coded n law (n.seal key iv aad plain).0 iv (n.seal key iv aad plain).1)
  unfolding encrypt_text
  encrypt_text-coded plain key aad iv k = ground (arith, k)

  -- A private comparison that was let through is encrypted under any key of 32 and vector of 12 bytes,
  -- where the platform keeps its laws and the ciphertext has between 1 and 131072 bytes and the tag
  -- 16; the job that results has its owner, and opens for that owner to
  -- the metadata that was let through.
  pub seal_job-opens :
      (find : Text → Bool) (key iv : Bytes) (job : PrivateJob)
      → IsOwned find job
      → AllBytes iv
      → length key ≡ 32
      → sizes_ok n law (seal_of n key iv job).0 iv (seal_of n key iv job).1 ≡ true
      → (sealed : EncryptedJob) × (seal_job n find (some key) iv job ≡ some sealed)
        × (sealed.owner ≡ owner_of job)
        × (decrypt_private_comparison_job n find (value_of_job sealed) key (owner_of job)
            ≡ some job.metadata)
  unfolding encrypt_private_comparison_job
  seal_job-opens find key iv job o hi k s =
      let p = seal_of n key iv job in
      let (hc, ht) =
        law.sealed_bytes key iv (private_comparison_aad (owner_of job))
          (n.stringify (value_of_metadata job.metadata)) (law.json_text job.metadata) in
      let sealed : EncryptedJob = record {
        owner = owner_of job;
        encrypted = coded n law p.0 iv p.1;
      } in
      let e : encrypt_private_comparison_job n find (value_of_private_job job) key iv
          ≡ some sealed =
        rw
          (
            exact-private_job job,
            kind-private_job job,
            snapshot_owner-IsOwned find job o,
            metadata-private_job job,
            validated_again find job o,
            encrypt_text-coded (n.stringify (value_of_metadata job.metadata)) key
                (private_comparison_aad (owner_of job)) iv k,
            snapshot-coded n law p.0 iv p.1 hc hi ht,
            s,
          )
          refl in
      let sealing : Sealed n law find key iv sealed = record {
        metadata = job.metadata;
        valid_owner = owner_of-valid find job o;
        valid = validated_again find job o;
        key_length = k;
        iv_bytes = hi;
        sized = s;
        sealed = refl;
      } in
      (sealed, e, refl, decrypt-Sealed n law find key iv sealed sealing)
