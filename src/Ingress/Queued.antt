-- ===== src/Ingress/Queued.antt =====
-- What a private comparison becomes in the queue.
use vennek.Prelude.{◌≡◌, refl, Bool, true, Option, some, Text, length}
use vennek.Envelope.Cipher.{Bytes, Node, IsNode}
use vennek.Envelope.Job.{EncryptedJob, decrypt_private_comparison_job}
use vennek.Envelope.Cipher.{AllBytes}
use vennek.Envelope.Laws.{sizes_ok, value_of_job, encrypt-Sealed, validate-Sealed}
use vennek.Ingress.Update.{PrivateJob}
use vennek.Ingress.Private.{IsOwned}
use vennek.Ingress.Webhook.{value_of_private_job}
use vennek.Ingress.Sealing.{owner_of, seal_of, seal_job-opens}
use vennek.Ingress.Queue.{
  private_job, encrypted_job, encrypted_input, enqueue_encrypted, admission_input,
}

module _ (n : Node) (law : IsNode n) where
  -- Under the platform's laws: a private comparison that was let through is handed to the queue's
  -- transaction as an encrypted job, the same whether it comes with its metadata or was encrypted
  -- before; the admission is counted for its owner, and the job opens for the owner to its metadata.
  -- The key has 32 bytes, the vector 12, the ciphertext between 1 and 131072 and the tag 16.
  pub admission_input-opens :
      (find : Text → Bool) (env : Option Text) (key iv : Bytes) (job : PrivateJob)
      → IsOwned find job
      → AllBytes iv
      → length key ≡ 32
      → sizes_ok n law (seal_of n key iv job).0 iv (seal_of n key iv job).1 ≡ true
      → (sealed : EncryptedJob) × (admission_input n find (some key) env iv (private_job job)
          ≡ some (encrypted_input sealed))
        × (admission_input n find (some key) env iv (encrypted_job sealed)
            ≡ some (encrypted_input sealed))
        × (sealed.owner ≡ owner_of job)
        × (decrypt_private_comparison_job n find (value_of_job sealed) key (owner_of job)
            ≡ some job.metadata)
  unfolding admission_input enqueue_encrypted
  admission_input-opens find env key iv job o hi k s =
      let (sealed, e, own, opens) = seal_job-opens n law find key iv job o hi k s in
      let (_, _, _, _, _, _, (seal, _, _)) =
        encrypt-Sealed n law find (value_of_private_job job) key iv sealed hi e in
      let valid = validate-Sealed n law find key iv sealed seal in
      (sealed, rw (e, valid) refl, rw valid (rw valid refl), own, opens)
