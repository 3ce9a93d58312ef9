-- ===== src/Envelope/Laws.antt =====
-- The encryption of a private comparison and its opening.
use mathlib.Core.Path.{subst}
use vennek.Metadata.RoundTrip.{check-some}
use vennek.Prelude.{
  ◌≡◌, refl, sym, ap, ◌∙◌, Bool, true, ◌&&◌, some, Text, codes, leb, ◌==◌, same, same_iff, length,
  arith,
}
use vennek.Value.{
  Value, Members, last, member, object, string, number, int, pos, own, read, positive_safe,
}
use vennek.Metadata.Validate.{
  Metadata, validate_private_comparison_metadata, ◌>>=◌, check, all_listed,
}
use vennek.Metadata.RoundTrip.{value_of_metadata, bind_some, validate-round_trip}
use vennek.Envelope.Owner.{
  Owner, exact_data_record, snapshot_owner, is_valid_owner, private_comparison_aad,
}
use vennek.Envelope.Cipher.{
  AllBytes, Bytes, Node, IsNode, EncryptedText, decode_base64, encrypt_text, decrypt_text,
}
use vennek.Envelope.Job.{
  EncryptedJob, kind_ok, same_owner, decode_canonical_base64, snapshot_encrypted_text,
  snapshot_envelope, validate_encrypted_job, encrypt_private_comparison_job,
  decrypt_private_comparison_job, max_ciphertext_bytes, input_keys,
}

-- The job as `JSON` stores it in the queue.
abbrev pub value_of_envelope : EncryptedText → Value
value_of_envelope e = object (
    member "ciphertext" (string e.ciphertext)
      (member "iv" (string e.iv) (member "tag" (string e.tag) last)))

abbrev pub members_of_job : EncryptedJob → Members
members_of_job j = member "updateId" (number (int (pos j.owner.update_id))) (
    member "telegramUserId" (string j.owner.telegram_user_id) (
      member "telegramChatId" (string j.owner.telegram_chat_id) (
        member "kind" (string (codes "private-compare"))
          (member "encrypted" (value_of_envelope j.encrypted) last))))

abbrev pub value_of_job : EncryptedJob → Value
value_of_job j = object (members_of_job j)

same_refl : (s : Text) → same s s ≡ true
same_refl s = (same_iff s s).1 refl

snapshot_owner-valid :
    (ms : Members) (o : Owner) → snapshot_owner ms ≡ some o → is_valid_owner o ≡ true
unfolding snapshot_owner positive_safe
snapshot_owner-valid ms o e = ground arith

snapshot_owner-job :
    (j : EncryptedJob)
    → is_valid_owner j.owner ≡ true
    → snapshot_owner (members_of_job j) ≡ some j.owner
unfolding snapshot_owner positive_safe read own
snapshot_owner-job j h = ground arith

module _ (n : Node) (law : IsNode n) where
  decode-to_base64 : (bs : Bytes) → AllBytes bs → decode_base64 n (n.to_base64 bs) ≡ some bs
  unfolding decode_base64
  decode-to_base64 bs h =
      rw (law.base64_canonical bs h, law.base64_decodes bs h, same_refl (n.to_base64 bs)) refl

  abbrev pub sizes_ok : (ciphertext iv tag : Bytes) → Bool
  sizes_ok c i t =
      leb (length c) max_ciphertext_bytes
      && ((length i == 12) && ((length t == 16) && leb 1 (length c)))

  abbrev pub coded : (ciphertext iv tag : Bytes) → EncryptedText
  coded c i t = record { ciphertext = n.to_base64 c; iv = n.to_base64 i; tag = n.to_base64 t }

  pub snapshot-coded :
      (c i t : Bytes)
      → AllBytes c
      → AllBytes i
      → AllBytes t
      → snapshot_encrypted_text n (n.to_base64 c) (n.to_base64 i) (n.to_base64 t)
        ≡ check (sizes_ok c i t) (coded c i t)
  unfolding snapshot_encrypted_text decode_canonical_base64
  snapshot-coded c i t hc hi ht =
      ground (arith, decode-to_base64 c hc, decode-to_base64 i hi, decode-to_base64 t ht)

  decrypt-coded :
      (key c i t : Bytes) (aad plain : Text)
      → AllBytes c
      → AllBytes i
      → AllBytes t
      → length key ≡ 32
      → sizes_ok c i t ≡ true
      → n.unseal key i aad c t ≡ some plain
      → decrypt_text n (coded c i t) key aad ≡ some plain
  unfolding decrypt_text
  decrypt-coded key c i t aad plain hc hi ht k s u =
      ground (arith, decode-to_base64 c hc, decode-to_base64 i hi, decode-to_base64 t ht)

  -- What a successful encryption has established.
  pub record Sealed (secret : Text → Bool) (key iv : Bytes) (j : EncryptedJob) : Type 0 where
    pub metadata : Metadata
    pub valid_owner : is_valid_owner j.owner ≡ true
    pub valid :
        validate_private_comparison_metadata secret (value_of_metadata metadata) ≡ some metadata
    pub key_length : length key ≡ 32
    pub iv_bytes : AllBytes iv
    pub sized :
        let p =
          n.seal key iv
            (private_comparison_aad j.owner)
            (n.stringify (value_of_metadata metadata)) in
        sizes_ok p.0 iv p.1 ≡ true
    pub sealed :
        let p =
          n.seal key iv
            (private_comparison_aad j.owner)
            (n.stringify (value_of_metadata metadata)) in
        j.encrypted ≡ coded p.0 iv p.1

  -- A job sealed from these parts.
  abbrev Seals : (secret : Text → Bool) (key iv : Bytes) → Owner → Metadata → EncryptedJob → Type 0
  Seals secret key iv owner m j =
      (s : Sealed secret key iv j) × (j.owner ≡ owner) × (s.metadata ≡ m)

  sealing_parts :
      (secret : Text → Bool) (owner : Owner) (m : Metadata) (key iv : Bytes) (e : EncryptedText)
      (j : EncryptedJob)
      → AllBytes iv
      → is_valid_owner owner ≡ true
      → validate_private_comparison_metadata secret (value_of_metadata m) ≡ some m
      → encrypt_text n (n.stringify (value_of_metadata m)) key (private_comparison_aad owner) iv
        ≡ some e
      → (snapshot_encrypted_text n e.ciphertext e.iv e.tag >>= λ encrypted.
          some (record { owner = owner; encrypted = encrypted }))
        ≡ some j
      → Seals secret key iv owner m j
  unfolding encrypt_text
  sealing_parts secret owner m key iv e j hi vo vm ek sk =
      let plain = n.stringify (value_of_metadata m) in
      let p = n.seal key iv (private_comparison_aad owner) plain in
      let (hc, ht) =
        law.sealed_bytes key iv (private_comparison_aad owner) plain (law.json_text m) in
      let (k32, ee) = check-some (length key == 32) (coded p.0 iv p.1) ek in
      let (enc, es, ej) = bind_some (snapshot_encrypted_text n e.ciphertext e.iv e.tag) _ sk in
      let es' =
        subst (λ (x : EncryptedText). snapshot_encrypted_text n x.ciphertext x.iv x.tag ≡ some enc)
          (sym ee) es in
      let (ok_, same_e) =
        check-some (sizes_ok p.0 iv p.1) (coded p.0 iv p.1)
          (sym (snapshot-coded p.0 iv p.1 hc hi ht) ∙ es') in
      subst (Seals secret key iv owner m) (job_equal ej) (
        record {
          metadata = m;
          valid_owner = vo;
          valid = vm;
          key_length = ground (arith, k32);
          iv_bytes = hi;
          sized = ok_;
          sealed = sym same_e;
        },
        refl,
        refl,
      )
    where
      job_equal : {a b : EncryptedJob} → some a ≡ some b → a ≡ b
      job_equal e = cc

  pub encrypt-Sealed :
      (secret : Text → Bool) (input : Value) (key iv : Bytes) (j : EncryptedJob)
      → AllBytes iv
      → encrypt_private_comparison_job n secret input key iv ≡ some j
      → (ms : Members) × (owner : Owner) × (m : Metadata) × (exact_data_record input input_keys
          ≡ some ms)
        × (snapshot_owner ms ≡ some owner)
        × (validate_private_comparison_metadata secret (read "metadata" ms) ≡ some m)
        × Seals secret key iv owner m j
  unfolding encrypt_private_comparison_job
  encrypt-Sealed secret input key iv j hi e =
      let (ms, ei, k1) = bind_some (exact_data_record input input_keys) _ e in
      let (_, _, k2) = bind_some (kind_ok ms) _ k1 in
      let (owner, eo, k3) = bind_some (snapshot_owner ms) _ k2 in
      let (m, em, k4) =
        bind_some (validate_private_comparison_metadata secret (read "metadata" ms)) _ k3 in
      let (sealed, es, k5) =
        bind_some
          (encrypt_text n (n.stringify (value_of_metadata m)) key (private_comparison_aad owner) iv)
          _ k4 in
      (
        ms,
        owner,
        m,
        ei,
        eo,
        em,
        sealing_parts secret owner m key iv sealed j hi (snapshot_owner-valid ms owner eo)
            (validate-round_trip secret (read "metadata" ms) m em).1 es k5,
      )

  seal-AllBytes :
      (secret : Text → Bool) (key iv : Bytes) (j : EncryptedJob) (s : Sealed secret key iv j)
      → let p =
          n.seal key iv
            (private_comparison_aad j.owner)
            (n.stringify (value_of_metadata s.metadata)) in
        AllBytes p.0 × AllBytes p.1
  seal-AllBytes secret key iv j s =
      law.sealed_bytes key iv (private_comparison_aad j.owner)
        (n.stringify (value_of_metadata s.metadata)) (law.json_text s.metadata)

  snapshot_envelope-job :
      (e : EncryptedText)
      → snapshot_envelope n (value_of_envelope e)
        ≡ snapshot_encrypted_text n e.ciphertext e.iv e.tag
  unfolding snapshot_envelope exact_data_record all_listed read own
  snapshot_envelope-job e = refl

  kind-job : (j : EncryptedJob) → kind_ok (members_of_job j) ≡ some tt
  unfolding read own same
  kind-job j = refl

  same_owner_refl : (o : Owner) → same_owner o o ≡ true
  same_owner_refl o = ground (arith, same_refl o.telegram_user_id, same_refl o.telegram_chat_id)

  envelope-job :
      (secret : Text → Bool) (key iv : Bytes) (j : EncryptedJob) (s : Sealed secret key iv j)
      → snapshot_envelope n (read "encrypted" (members_of_job j)) ≡ some j.encrypted
  unfolding read own
  envelope-job secret key iv j s =
      let p =
        n.seal key iv (private_comparison_aad j.owner)
          (n.stringify (value_of_metadata s.metadata)) in
      subst (λ x. snapshot_envelope n (value_of_envelope x) ≡ some x) (sym s.sealed)
        (snapshot_envelope-job (coded p.0 iv p.1)
          ∙ snapshot-coded p.0 iv p.1 (seal-AllBytes secret key iv j s).0 s.iv_bytes
              (seal-AllBytes secret key iv j s).1
          ∙ ap (λ b. check b (coded p.0 iv p.1)) s.sized)

  plaintext-job :
      (secret : Text → Bool) (key iv : Bytes) (j : EncryptedJob) (s : Sealed secret key iv j)
      → decrypt_text n j.encrypted key (private_comparison_aad j.owner)
        ≡ some (n.stringify (value_of_metadata s.metadata))
  plaintext-job secret key iv j s =
      let plain = n.stringify (value_of_metadata s.metadata) in
      let aad = private_comparison_aad j.owner in
      let p = n.seal key iv aad plain in
      subst (λ x. decrypt_text n x key aad ≡ some plain) (sym s.sealed)
        (decrypt-coded key p.0 iv p.1 aad plain (seal-AllBytes secret key iv j s).0 s.iv_bytes
          (seal-AllBytes secret key iv j s).1 s.key_length s.sized
          (law.opens key iv aad plain (law.json_text s.metadata)))

  pub decrypt-Sealed :
      (secret : Text → Bool) (key iv : Bytes) (j : EncryptedJob) (s : Sealed secret key iv j)
      → decrypt_private_comparison_job n secret (value_of_job j) key j.owner ≡ some s.metadata
  unfolding decrypt_private_comparison_job exact_data_record all_listed
  decrypt-Sealed secret key iv j s =
      rw
        (
          kind-job j,
          snapshot_owner-job j s.valid_owner,
          s.valid_owner,
          same_owner_refl j.owner,
          envelope-job secret key iv j s,
          plaintext-job secret key iv j s,
          law.json s.metadata
              (validate-round_trip secret (value_of_metadata s.metadata) s.metadata
                s.valid).0.file_size,
        )
        s.valid

  -- A sealed job, as it is stored, passes the validator of the queue unchanged.
  pub validate-Sealed :
      (secret : Text → Bool) (key iv : Bytes) (j : EncryptedJob) (s : Sealed secret key iv j)
      → validate_encrypted_job n (value_of_job j) ≡ some j
  unfolding validate_encrypted_job exact_data_record all_listed
  validate-Sealed secret key iv j s =
      rw (kind-job j, snapshot_owner-job j s.valid_owner, envelope-job secret key iv j s) refl

  -- Under the platform's laws, with a vector of bytes: whatever input is encrypted, the job has the
  -- owner that the input names, and the same key opens it for that owner to the metadata that the
  -- validator makes of the input.
  pub decrypt-encrypt :
      (secret : Text → Bool) (input : Value) (key iv : Bytes) (j : EncryptedJob)
      → AllBytes iv
      → encrypt_private_comparison_job n secret input key iv ≡ some j
      → (ms : Members) × (m : Metadata) × (exact_data_record input input_keys ≡ some ms)
        × (snapshot_owner ms ≡ some j.owner)
        × (validate_private_comparison_metadata secret (read "metadata" ms) ≡ some m)
        × (decrypt_private_comparison_job n secret (value_of_job j) key j.owner ≡ some m)
  decrypt-encrypt secret input key iv j hi e =
      let (ms, owner, m, ei, eo, em, (s, same_o, same_m)) =
        encrypt-Sealed secret input key iv j hi e in
      (ms, m, ei, eo ∙ ap some (sym same_o), em, decrypt-Sealed secret key iv j s ∙ ap some same_m)
