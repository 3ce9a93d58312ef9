-- ===== src/Ingress/Private.antt =====
-- The private comparisons that `canonicalizeTelegramUpdate` lets through.
use Prim.Native.String.{String}
use mathlib.Core.Path.{subst}
use vennek.Prelude.{some_equal, and_true, or_false, not-false, codes, ◌&&◌}
use vennek.Prelude.{
  ℕ, ◌≤◌, ◌≡◌, refl, ap, sym, ◌∙◌, inl, inr, Bool, true, false, ◌||◌, not, Option, none, some, Text,
  ltb, length, same, same_iff, arith, Bool-cases, if_true, if_false, Option-cases,
}
use vennek.Value.{
  is_object, Value, Members, member, undefined, object, string, number, own, has_own, read, read_of,
  as_text, positive_safe, nonzero_safe, max_safe_integer,
}
use vennek.Value.Decimal.{decimal, is_canonical-decimal, value_of-decimal}
use vennek.Unicode.{byte_length}
use vennek.Metadata.Bounded.{is_blank}
use vennek.Metadata.Validate.{Metadata, validate_private_comparison_metadata}
use vennek.Metadata.RoundTrip.{IsValid, validate-round_trip}
use vennek.Envelope.Owner.{canonical_positive_telegram_id}
use vennek.Ingress.Update.{
  PrivateJob, Parsed, private_compare, decimal_of, private_job, demand, reject, text_field,
  number_field, has_any, competing_media_fields, is_private_chat, telegram_text_max_bytes, Kept,
  refused, missing, kept, add_kept, validated, parse_document,
  canonical_private_telegram_identifier, parse_private_comparison_job, answer_job, text_message,
  canonicalize_message, canonicalize_telegram_update,
}

demand-private :
    {A : Type 0} (o : Option A) (rest : A → Parsed) (job : PrivateJob)
    → demand o rest ≡ private_compare job
    → (a : A) × (o ≡ some a) × (rest a ≡ private_compare job)
demand-private none rest job e = cc
demand-private (some a) rest job e = (a, refl, e)

reject-private :
    (b : Bool) (rest : Parsed) (job : PrivateJob)
    → reject b rest ≡ private_compare job
    → (b ≡ false) × (rest ≡ private_compare job)
reject-private true rest job e = cc
reject-private false rest job e = (refl, e)

module _ (secret : Text → Bool) where
  -- The fields of a job, and a record of metadata that the validator takes.
  abbrev Made : ℕ → (user chat : Text) → PrivateJob → Type 0
  Made update_id user chat job =
      (job.update_id ≡ update_id)
      × (job.telegram_user_id ≡ user)
      × (job.telegram_chat_id ≡ chat)
      × IsValid secret job.metadata

  private_injective : (i j : PrivateJob) → private_compare i ≡ private_compare j → i ≡ j
  private_injective i j e = cc

  private_job-Made :
      (update_id : ℕ) (user chat : Text) (o : Option Metadata) (job : PrivateJob)
      → ((m : Metadata) → o ≡ some m → IsValid secret m)
      → private_job update_id user chat o ≡ private_compare job
      → Made update_id user chat job
  private_job-Made update_id user chat none job v e = cc
  private_job-Made update_id user chat (some m) job v e =
      subst (Made update_id user chat) (private_injective _ job e) (refl, refl, refl, v m refl)

  validated-Made :
      (update_id : ℕ) (user chat : Text) (ms : Members) (job : PrivateJob)
      → validated secret update_id user chat ms ≡ private_compare job
      → Made update_id user chat job
  validated-Made update_id user chat ms job e =
      private_job-Made update_id user chat (validate_private_comparison_metadata secret (object ms))
        job (λ m q. (validate-round_trip secret (object ms) m q).0) e

  add_kept-next :
      (k : String) (v : Kept) (next : Members → Parsed) (ms : Members) (job : PrivateJob)
      → add_kept k v next ms ≡ private_compare job
      → (more : Members) × (next more ≡ private_compare job)
  add_kept-next k refused next ms job e = cc
  add_kept-next k missing next ms job e = (ms, e)
  add_kept-next k (kept v) next ms job e = (member k v ms, e)

  parse_document-Made :
      (update_id : ℕ) (user chat caption : Text) (v : Value) (job : PrivateJob)
      → parse_document secret update_id user chat caption v ≡ private_compare job
      → Made update_id user chat job
  unfolding parse_document
  parse_document-Made update_id user chat caption (object document) job e =
      let (f, _, e1) = demand-private (as_text (read "file_id" document)) _ job e in
      let (u, _, e2) = demand-private (as_text (read "file_unique_id" document)) _ job e1 in
      let (m1, e3) = add_kept-next "fileName" (text_field (own "file_name" document)) _ _ job e2 in
      let (m2, e4) = add_kept-next "mime" (text_field (own "mime_type" document)) _ m1 job e3 in
      let (m3, e5) =
        add_kept-next "fileSize" (number_field (own "file_size" document)) _ m2 job e4 in
      validated-Made update_id user chat m3 job e5
  parse_document-Made update_id user chat caption _ job e = cc

-- A job of a private chat: one canonical positive identifier of at most 2^53 - 1 for the user and the
-- chat, and metadata that the validator takes.
pub record IsOwned (secret : Text → Bool) (job : PrivateJob) : Type 0 where
  pub update_id_positive : 1 ≤ job.update_id
  pub update_id_safe : job.update_id ≤ max_safe_integer
  pub canonical : canonical_positive_telegram_id job.telegram_user_id ≡ true
  pub same_chat : job.telegram_user_id ≡ job.telegram_chat_id
  pub metadata : IsValid secret job.metadata

-- The message that a job was made of: it is alone, its chat says that it is private, and its
-- identifiers, as numbers or in canonical texts, are those of the job.
pub record IsMessageOf (message : Members) (allow : Bool) (job : PrivateJob) : Type 0 where
  pub user :
      canonical_private_telegram_identifier (read_of "id" (read "from" message)) allow
      ≡ some job.telegram_user_id
  pub chat :
      canonical_private_telegram_identifier (read_of "id" (read "chat" message)) allow
      ≡ some job.telegram_chat_id
  pub private_type : read_of "type" (read "chat" message) ≡ string (codes "private")
  pub no_media : has_any competing_media_fields message ≡ false
  pub no_album : has_own "media_group_id" message ≡ false

-- The update that a job was made of.
abbrev pub ComesFrom : Value → (allow : Bool) → PrivateJob → Type 0
ComesFrom value allow job =
    (message : Members) × (read_of "message" value ≡ object message)
    × (positive_safe (read_of "update_id" value) ≡ some job.update_id)
    × IsMessageOf message allow job

-- The test for a private chat, on its type.
type-private :
    (v : Value) (is_chat : Bool)
    → (elim (as_text v) [ none ↦ false | some t ↦ is_chat && same t (codes "private") ]) ≡ true
    → v ≡ string (codes "private")
type-private (string t) is_chat h =
    ap string ((same_iff t (codes "private")).0 (and_true is_chat _ h).1)
type-private undefined is_chat h = cc
type-private _ is_chat h = cc

positive_safe-bounds :
    (v : Value) (n : ℕ) → positive_safe v ≡ some n → (1 ≤ n) × (n ≤ max_safe_integer)
unfolding positive_safe
positive_safe-bounds v n e = ground arith

identifier-canonical :
    (v : Value) (allow : Bool) (s : Text)
    → canonical_private_telegram_identifier v allow ≡ some s
    → canonical_positive_telegram_id s ≡ true
unfolding canonical_private_telegram_identifier canonical_positive_telegram_id
identifier-canonical (number n) allow s e = elim (Option-cases (positive_safe (number n))) [
  | inl q ↦ absurd (cc (q, e))
  | inr (k, q) ↦
      let (p, m) = positive_safe-bounds (number n) k q in
      subst (λ t. canonical_positive_telegram_id t ≡ true)
        (some_equal (decimal k) s (ap decimal_of (sym q) ∙ e))
        (ground (arith, is_canonical-decimal k p, value_of-decimal k))
]
identifier-canonical (string t) true s e = ground (arith)
identifier-canonical (string t) false s e = cc
identifier-canonical _ allow s e = cc

module _ (secret : Text → Bool) where
  -- What is known of a job that was made of a message.
  abbrev Told : ℕ → Members → (allow : Bool) → PrivateJob → Type 0
  Told update_id message allow job =
      (job.update_id ≡ update_id) × IsOwned secret job × IsMessageOf message allow job

  parse_private-Told :
      (update_id : ℕ) (message : Members) (allow : Bool) (job : PrivateJob)
      → 1 ≤ update_id
      → update_id ≤ max_safe_integer
      → parse_private_comparison_job secret update_id message
          (read_of "id" (read "from" message))
          (read_of "id" (read "chat" message))
          allow
        ≡ private_compare job
      → Told update_id message allow job
  unfolding parse_private_comparison_job
  parse_private-Told update_id message allow job p m e =
      let user_id = read_of "id" (read "from" message) in
      let chat_id = read_of "id" (read "chat" message) in
      let (user, u, e1) =
        demand-private (canonical_private_telegram_identifier user_id allow) _ job e in
      let (chat, c, e2) =
        demand-private (canonical_private_telegram_identifier chat_id allow) _ job e1 in
      let (b, e3) =
        reject-private (not (same user chat) || not (is_private_chat (read "chat" message))) _ job
          e2 in
      let (no_media, e4) = reject-private (has_any competing_media_fields message) _ job e3 in
      let (no_album, e5) = reject-private (has_own "media_group_id" message) _ job e4 in
      let (caption, _, e6) = demand-private (as_text (read "caption" message)) _ job e5 in
      let (i, s, t, v) =
        parse_document-Made secret update_id user chat caption (read "document" message) job e6 in
      let (same_ids, private_chat) =
        or_false (not (same user chat)) (not (is_private_chat (read "chat" message))) b in
      (
        i,
        record {
          update_id_positive = rw i p;
          update_id_safe = rw i m;
          canonical = rw s (identifier-canonical user_id allow user u);
          same_chat = s ∙ (same_iff user chat).0 (not-false (same user chat) same_ids) ∙ sym t;
          metadata = v;
        },
        record {
          user = u ∙ ap some (sym s);
          chat = c ∙ ap some (sym t);
          private_type =
              type-private (read_of "type" (read "chat" message)) (is_object (read "chat" message))
                (not-false (is_private_chat (read "chat" message)) private_chat);
          no_media = no_media;
          no_album = no_album;
        },
      )

  answer_job-public :
      (update_id : ℕ) (text : Text) (user_id chat_id : Value) (job : PrivateJob)
      → ¬ (answer_job update_id text user_id chat_id ≡ private_compare job)
  unfolding answer_job
  answer_job-public update_id text user_id chat_id job e =
      let (u, _, e1) = demand-private (positive_safe user_id) _ job e in
      let (c, _, e2) = demand-private (nonzero_safe chat_id) _ job e1 in
      let (_, e3) = reject-private (is_blank text) _ job e2 in
      let (_, e4) =
        reject-private
          (ltb telegram_text_max_bytes (length text)
            || ltb telegram_text_max_bytes (byte_length text))
          _ job e3 in
      cc

  text_message-public :
      (update_id : ℕ) (text : Option Value) (user_id chat_id : Value) (job : PrivateJob)
      → ¬ (text_message update_id text user_id chat_id ≡ private_compare job)
  text_message-public update_id none user_id chat_id job e = cc
  text_message-public update_id (some v) user_id chat_id job e =
      let (text, _, e1) =
        demand-private (as_text v) (λ t. answer_job update_id t user_id chat_id) job e in
      answer_job-public update_id text user_id chat_id job e1

  canonicalize_message-Told :
      (update_id : ℕ) (message : Value) (allow : Bool) (job : PrivateJob)
      → 1 ≤ update_id
      → update_id ≤ max_safe_integer
      → canonicalize_message secret update_id message allow ≡ private_compare job
      → (ms : Members) × (message ≡ object ms) × Told update_id ms allow job
  unfolding canonicalize_message
  canonicalize_message-Told update_id undefined allow job p m e = cc
  canonicalize_message-Told update_id (object message) allow job p m e =
      let user_id = read_of "id" (read "from" message) in
      let chat_id = read_of "id" (read "chat" message) in
      elim (Bool-cases (has_own "document" message)) [
        | inl d ↦
            let told =
              parse_private-Told update_id message allow job p m (sym (if_true _ _ d) ∙ e) in
            (message, refl, told)
        | inr d ↦ absurd (
            text_message-public update_id (own "text" message) user_id chat_id job
              (sym (if_false _ _ d) ∙ e))
      ]
  canonicalize_message-Told update_id _ allow job p m e = cc

  -- A private comparison that the canonicalization lets through, from either transport, belongs to a
  -- private chat: the user and the chat have one canonical identifier between 1 and 2^53 - 1, and
  -- the validator takes the metadata. The identifiers are those that the update, the sender and the
  -- chat have in the value, the type of the chat is "private", and the message has no other media
  -- and belongs to no album.
  pub canonicalize-IsOwned :
      (value : Value) (allow : Bool) (job : PrivateJob)
      → canonicalize_telegram_update secret value allow ≡ private_compare job
      → IsOwned secret job × ComesFrom value allow job
  unfolding canonicalize_telegram_update
  canonicalize-IsOwned value allow job e =
      let (update_id, q, e1) = demand-private (positive_safe (read_of "update_id" value)) _ job e in
      let (p, m) = positive_safe-bounds (read_of "update_id" value) update_id q in
      let (message, is_message, (same_id, owned, made)) =
        canonicalize_message-Told update_id (read_of "message" value) allow job p m e1 in
      (owned, (message, is_message, q ∙ ap some (sym same_id), made))
