-- ===== src/Polling/Retry.antt =====
-- A private comparison that the queue could not take, and the attempt at the next cycle.
use Prim.Native.Nat.{max}
use mathlib.Core.Path.{subst}
use vennek.Prelude.{
  ℕ, ◌≡◌, refl, ap, sym, ◌∙◌, inl, inr, Bool, true, false, ◌∷◌, none, some, Text, same_iff, arith,
  Bool-cases, if_true, if_false,
}
use vennek.AccessControl.{allow}
use vennek.Value.{Value, read_of, positive_safe}
use vennek.Ingress.Update.{PrivateJob, private_compare, canonicalize_telegram_update}
use vennek.Polling.Step.{
  State, World, proceed, approve, throws, returns, acknowledge, is_retained, enqueue_private,
  handle_private, handle_valid, handle_update, has_document, next_offset_for, use_limiter,
}

-- An update that is a private comparison.
abbrev pub IsPrivate : (Text → Bool) → Value → ℕ → PrivateJob → Type 0
IsPrivate find update update_id job =
    (positive_safe (read_of "update_id" update) ≡ some update_id)
    × (has_document (read_of "message" update) ≡ true)
    × (canonicalize_telegram_update find update true ≡ private_compare job)

handle_update-private :
    (find : Text → Bool) (s : State) (w : World) (update : Value) (update_id : ℕ) (job : PrivateJob)
    → IsPrivate find update update_id job
    → w.aborted ≡ false
    → handle_update find s w update ≡ handle_private s w update_id job
unfolding handle_update handle_valid
handle_update-private find s w update update_id job (id, document, parsed) a =
    if_false _ _ a ∙ rw (id, document, parsed) refl

-- The state after a failed attempt: nothing acknowledged, and the approval kept.
abbrev pub Retained : State → ℕ → PrivateJob → State → Type 0
Retained s update_id job t =
    (t.offset ≡ s.offset)
    × (t.saved ≡ s.saved)
    × (t.pending ≡ some (approve update_id job.telegram_chat_id))

is_retained-approve :
    (update_id : ℕ) (chat_id : Text)
    → is_retained (some (approve update_id chat_id)) update_id chat_id ≡ true
unfolding is_retained
is_retained-approve update_id chat_id = ground (arith, same_iff chat_id chat_id)

enqueue_private-Retained :
    (s : State) (w : World) (update_id : ℕ) (job : PrivateJob)
    → w.enqueue ≡ throws
    → w.aborted_failing ≡ false
    → Retained s update_id job (enqueue_private s w update_id job).0
unfolding enqueue_private
enqueue_private-Retained s w update_id job e f = ground arith

handle_private-Retained :
    (s : State) (w : World) (update_id : ℕ) (job : PrivateJob)
    → w.enqueue ≡ throws
    → w.aborted_failing ≡ false
    → (allow s.limiter job.telegram_chat_id w.now).0 ≡ true
    → Retained s update_id job (handle_private s w update_id job).0
unfolding handle_private
handle_private-Retained s w update_id job e f l =
    elim (Bool-cases (is_retained s.pending update_id job.telegram_chat_id)) [
      | inl r ↦ rw r (enqueue_private-Retained s w update_id job e f)
      | inr r ↦
          rw (r, l)
            (enqueue_private-Retained (use_limiter s (allow s.limiter job.telegram_chat_id w.now).1)
              w update_id job e f)
    ]

enqueue_private-returns :
    (t : State) (w : World) (update_id : ℕ) (job : PrivateJob) (admitted : Bool)
    → w.enqueue ≡ returns admitted
    → w.write_throws ≡ false
    → enqueue_private t w update_id job ≡ (
      record t {
        enqueued = job ∷ t.enqueued;
        pending = none;
        offset = max t.offset (next_offset_for update_id);
        saved = max t.offset (next_offset_for update_id);
      },
      proceed,
    )
unfolding enqueue_private acknowledge
enqueue_private-returns t w update_id job admitted e o = rw (e, enqueue_private, o) refl

handle_private-retained :
    (t : State) (w : World) (update_id : ℕ) (job : PrivateJob)
    → t.pending ≡ some (approve update_id job.telegram_chat_id)
    → handle_private t w update_id job ≡ enqueue_private t w update_id job
unfolding handle_private
handle_private-retained t w update_id job p = if_true _ _ (
    ap (λ x. is_retained x update_id job.telegram_chat_id) p
    ∙ is_retained-approve update_id job.telegram_chat_id)

-- A private comparison that the limiter allowed and whose enqueue throws, while the signal stands, is
-- not acknowledged; when the same update comes again it goes to the queue without asking the limiter,
-- and where the queue returns it is acknowledged.
pub retry :
    (find : Text → Bool) (s : State) (w : World) (update : Value) (update_id : ℕ) (job : PrivateJob)
    → IsPrivate find update update_id job
    → w.aborted ≡ false
    → w.enqueue ≡ throws
    → w.aborted_failing ≡ false
    → (allow s.limiter job.telegram_chat_id w.now).0 ≡ true
    → (Retained s update_id job (handle_update find s w update).0)
      × ((t : State) (again : World) (admitted : Bool)
          → t.pending ≡ (handle_update find s w update).0.pending
          → again.aborted ≡ false
          → again.enqueue ≡ returns admitted
          → again.write_throws ≡ false
          → handle_update find t again update ≡ (
            record t {
              enqueued = job ∷ t.enqueued;
              pending = none;
              offset = max t.offset (next_offset_for update_id);
              saved = max t.offset (next_offset_for update_id);
            },
            proceed,
          ))
retry find s w update update_id job is_private a e f l =
    let first = handle_update-private find s w update update_id job is_private a in
    let (o, v, p) = handle_private-Retained s w update_id job e f l in
    (
      subst (λ x. Retained s update_id job x.0) (sym first) (o, v, p),
      λ t again admitted same_pending a' e' o'.
          handle_update-private find t again update update_id job is_private a'
          ∙ handle_private-retained t again update_id job
              (same_pending ∙ ap (λ x. x.0.pending) first ∙ p)
          ∙ enqueue_private-returns t again update_id job admitted e' o',
    )
