-- ===== src/Polling/Ends.antt =====
-- pollingRuntime.ts: the ways in which an update ends.
use Prim.Native.Nat.{max}
use vennek.Prelude.{
  ℕ, ◌≡◌, ◌≢◌, refl, ◌⊎◌, inl, inr, Bool, true, false, ◌∷◌, Option, none, some, Text, arith,
  Bool-cases,
}
use vennek.AccessControl.{allow}
use vennek.Value.{Value, read_of, positive_safe}
use vennek.Ingress.Update.{
  PrivateJob, Parsed, invalid, ignored, answer, private_compare, canonicalize_telegram_update,
}
use vennek.Polling.Delivery.{deliver_message}
use vennek.Polling.Step.{
  State, World, Flow, proceed, thrown, acknowledge, skip_update, is_retained, enqueue_private,
  use_limiter, handle_private, handle_text, handle_parsed, handle_parts, text_parts, handle_valid,
  handle_update, has_document, next_offset_for,
}

-- The three ways to end an update, from an offset in memory and one on disk: it is acknowledged in
-- both; it is not acknowledged; or in memory alone, where the write failed.
abbrev pub Acknowledged : (offset update_id : ℕ) → State × Flow → Type 0
Acknowledged offset update_id r =
    (r.1 ≡ proceed)
    × (r.0.offset ≡ max offset (next_offset_for update_id))
    × (r.0.saved ≡ r.0.offset)

abbrev pub Kept : (offset saved : ℕ) → State × Flow → Type 0
Kept offset saved r = (r.1 ≢ proceed) × (r.0.offset ≡ offset) × (r.0.saved ≡ saved)

abbrev pub Unwritten : (offset saved update_id : ℕ) (write_throws : Bool) → State × Flow → Type 0
Unwritten offset saved update_id write_throws r =
    (r.1 ≢ proceed)
    × (write_throws ≡ true)
    × (r.0.offset ≡ max offset (next_offset_for update_id))
    × (r.0.saved ≡ saved)

abbrev pub Ends : (offset saved update_id : ℕ) (write_throws : Bool) → State × Flow → Type 0
Ends offset saved update_id write_throws r =
    Acknowledged offset update_id r
    ⊎ (Kept offset saved r ⊎ Unwritten offset saved update_id write_throws r)

acknowledge-Ends :
    (s : State) (update_id : ℕ) (b : Bool) (f : Flow)
    → f ≢ proceed
    → Ends s.offset s.saved update_id b (acknowledge s update_id b f)
unfolding acknowledge
acknowledge-Ends s update_id true f n = inr (inr (n, refl, refl, refl))
acknowledge-Ends s update_id false f n = inl (refl, refl, refl)

skip_update-Ends :
    (s : State) (w : World) (update_id : ℕ)
    → Ends s.offset s.saved update_id w.write_throws (skip_update s w update_id)
unfolding skip_update
skip_update-Ends s w update_id = acknowledge-Ends s update_id w.write_throws thrown (λ e. cc)

enqueue_private-Ends :
    (s : State) (w : World) (update_id : ℕ) (job : PrivateJob)
    → Ends s.offset s.saved update_id w.write_throws (enqueue_private s w update_id job)
unfolding enqueue_private acknowledge
enqueue_private-Ends s w update_id job = ground arith

handle_private-Ends :
    (s : State) (w : World) (update_id : ℕ) (job : PrivateJob)
    → Ends s.offset s.saved update_id w.write_throws (handle_private s w update_id job)
unfolding handle_private
handle_private-Ends s w update_id job =
    let limited = allow s.limiter job.telegram_chat_id w.now in
    elim (Bool-cases (is_retained s.pending update_id job.telegram_chat_id)) [
      | inl e ↦ rw e (enqueue_private-Ends s w update_id job)
      | inr e ↦ rw e (elim (Bool-cases limited.0) [
        | inl a ↦ rw a (enqueue_private-Ends (use_limiter s limited.1) w update_id job)
        | inr a ↦
            rw a (skip_update-Ends (record s { pending = none; limiter = limited.1 }) w update_id)
      ])
    ]

handle_text-Ends :
    (s : State) (w : World) (update_id : ℕ) (chat_id user_id text : Text)
    → Ends s.offset s.saved update_id w.write_throws
        (handle_text s w update_id chat_id user_id text)
unfolding handle_text
handle_text-Ends s w update_id chat_id user_id text =
    let limited = allow s.limiter chat_id w.now in
    let used = use_limiter s limited.1 in
    elim (Bool-cases limited.0) [
      | inr a ↦ rw a (skip_update-Ends used w update_id)
      | inl a ↦ rw a (elim (Bool-cases w.answer_throws) [
        | inl t ↦ rw t (inr (inl (λ e. cc, refl, refl)))
        | inr t ↦ rw t (elim (Bool-cases (deliver_message w.aborted_answering w.send).aborted) [
          | inl d ↦ rw d (inr (inl (λ e. cc, refl, refl)))
          | inr d ↦
              rw d
                (skip_update-Ends (record used { answered = update_id ∷ s.answered }) w update_id)
        ])
      ])
    ]

handle_parsed-Ends :
    (s : State) (w : World) (update_id : ℕ) (p : Parsed)
    → Ends s.offset s.saved update_id w.write_throws (handle_parsed s w update_id p)
handle_parsed-Ends s w update_id invalid =
    skip_update-Ends (record s { pending = none }) w update_id
handle_parsed-Ends s w update_id ignored =
    skip_update-Ends (record s { pending = none }) w update_id
handle_parsed-Ends s w update_id (answer job) =
    skip_update-Ends (record s { pending = none }) w update_id
handle_parsed-Ends s w update_id (private_compare job) = handle_private-Ends s w update_id job

handle_parts-Ends :
    (s : State) (w : World) (update_id : ℕ) (p : Option (Text × Text × Text))
    → Ends s.offset s.saved update_id w.write_throws (handle_parts s w update_id p)
handle_parts-Ends s w update_id none = skip_update-Ends s w update_id
handle_parts-Ends s w update_id (some (chat_id, user_id, text)) =
    handle_text-Ends s w update_id chat_id user_id text

handle_valid-Ends :
    (find : Text → Bool) (s : State) (w : World) (update_id : ℕ) (update : Value)
    → Ends s.offset s.saved update_id w.write_throws (handle_valid find s w update_id update)
unfolding handle_valid
handle_valid-Ends find s w update_id update =
    elim (Bool-cases (has_document (read_of "message" update))) [
      | inl e ↦
          rw e (handle_parsed-Ends s w update_id (canonicalize_telegram_update find update true))
      | inr e ↦ rw e (handle_parts-Ends s w update_id (text_parts (read_of "message" update)))
    ]

-- An update that the loop sees with an identifier ends in one of three ways: it goes on to the next
-- update with the offset past the identifier, in memory and on disk; it leaves or throws with both
-- offsets as they were; or it leaves or throws with the offset advanced in memory alone, which
-- happens only where the write of the offset failed.
pub handle_update-Ends :
    (find : Text → Bool) (s : State) (w : World) (update : Value) (update_id : ℕ)
    → positive_safe (read_of "update_id" update) ≡ some update_id
    → Ends s.offset s.saved update_id w.write_throws (handle_update find s w update)
unfolding handle_update
handle_update-Ends find s w update update_id id = elim (Bool-cases w.aborted) [
  | inl a ↦ rw a (inr (inl (λ e. cc, refl, refl)))
  | inr a ↦ rw (a, id) (handle_valid-Ends find s w update_id update)
]
