-- ===== src/Envelope/SameOwner.antt =====
-- privateComparisonQueue.ts: the owner for whom an encrypted job opens.
use mathlib.Core.Path.{subst}
use vennek.Metadata.RoundTrip.{check-some}
use vennek.Prelude.{◌≡◌, sym, ap, ◌∙◌, Bool, true, some, Text, same_iff, arith}
use vennek.Value.{Value, Members, read}
use vennek.Metadata.Validate.{Metadata, validate_private_comparison_metadata, check}
use vennek.Metadata.RoundTrip.{bind_some}
use vennek.Envelope.Owner.{
  Owner, exact_data_record, snapshot_owner, is_valid_owner, private_comparison_aad,
}
use vennek.Envelope.Cipher.{Bytes, Node, EncryptedText, decrypt_text}
use vennek.Envelope.Job.{
  kind_ok, same_owner, snapshot_envelope, decrypt_private_comparison_job, job_keys,
}

module _ (n : Node) where
  equal_owners : (a b : Owner) → same_owner a b ≡ true → a ≡ b
  equal_owners a b e = ground (
    arith,
    same_iff a.telegram_user_id b.telegram_user_id,
    same_iff a.telegram_chat_id b.telegram_chat_id,
  )

  -- Whatever is stored: what opens for an expected owner names exactly that owner, and its text was
  -- authenticated under that owner's associated data and passed the validator.
  pub decrypt-same_owner :
      (secret : Text → Bool) (value : Value) (key : Bytes) (expected : Owner) (m : Metadata)
      → decrypt_private_comparison_job n secret value key expected ≡ some m
      → (ms : Members) × (e : EncryptedText) × (plaintext : Text) × (v : Value) × (exact_data_record
            value job_keys
          ≡ some ms)
        × (snapshot_owner ms ≡ some expected)
        × (is_valid_owner expected ≡ true)
        × (snapshot_envelope n (read "encrypted" ms) ≡ some e)
        × (decrypt_text n e key (private_comparison_aad expected) ≡ some plaintext)
        × (n.parse plaintext ≡ some v)
        × (validate_private_comparison_metadata secret v ≡ some m)
  unfolding decrypt_private_comparison_job
  decrypt-same_owner secret value key expected m e =
      let (ms, e1, k1) = bind_some (exact_data_record value job_keys) _ e in
      let (_, _, k2) = bind_some (kind_ok ms) _ k1 in
      let (owner, eo, k3) = bind_some (snapshot_owner ms) _ k2 in
      let (wanted, ew, k4) = bind_some (check (is_valid_owner expected) expected) _ k3 in
      let (matching, em, k5) = bind_some (check (same_owner owner wanted) owner) _ k4 in
      let (enc, ee, k6) = bind_some (snapshot_envelope n (read "encrypted" ms)) _ k5 in
      let (plain, ep, k7) =
        bind_some (decrypt_text n enc key (private_comparison_aad wanted)) _ k6 in
      let (v, ev, k8) = bind_some (n.parse plain) _ k7 in
      let (valid, we) = check-some (is_valid_owner expected) expected ew in
      let (so, _) = check-some (same_owner owner wanted) owner em in
      (
        ms,
        enc,
        plain,
        v,
        e1,
        eo ∙ ap some (equal_owners owner wanted so ∙ sym we),
        valid,
        ee,
        subst (λ o. decrypt_text n enc key (private_comparison_aad o) ≡ some plain) (sym we) ep,
        ev,
        k8,
      )
