-- ===== src/Polling/Enqueued.antt =====
-- The jobs that the polling loop gives to the queue.
use vennek.Prelude.{
  ℕ, ◌≡◌, refl, inl, inr, Bool, true, false, List, [], ◌∷◌, Option, none, some, Text, arith,
  Bool-cases, Option-cases,
}
use vennek.Prelude.Every.{All}
use vennek.AccessControl.{allow}
use vennek.Value.{Value, read_of, positive_safe}
use vennek.Ingress.Update.{
  PrivateJob, Parsed, invalid, ignored, answer, private_compare, canonicalize_telegram_update,
}
use vennek.Ingress.Private.{IsOwned, ComesFrom, canonicalize-IsOwned}
use vennek.Polling.Delivery.{deliver_message}
use vennek.Polling.Step.{
  State, World, Flow, proceed, leave, thrown, Cycle, acknowledge, skip_update, is_retained,
  enqueue_private, use_limiter, handle_private, handle_text, handle_parsed, handle_parts,
  text_parts, handle_valid, handle_update, on_proceed, for_updates, on_caught, run_cycles,
  cycle_updates, has_document,
}

-- A job that was made of an update with the property.
abbrev pub OwnedFrom : (Text → Bool) → (Value → Type 0) → PrivateJob → Type 0
OwnedFrom find Seen job =
    IsOwned find job × ((update : Value) × Seen update × ComesFrom update true job)

unfoldable pub AllOwned : (Text → Bool) → (Value → Type 0) → List PrivateJob → Type 0
AllOwned find Seen [] = Unit {0}
AllOwned find Seen (job ∷ jobs) = OwnedFrom find Seen job × AllOwned find Seen jobs

-- Every update that the cycles may fetch, at whatever offset, has the property.
abbrev pub Fetched : (Value → Type 0) → List Cycle → Type 0
Fetched Seen cycles =
    All
      (λ c.
        (offset : ℕ) (updates : List (Value × World))
        → c.updates offset ≡ some updates
        → All (λ u. Seen u.0) updates)
      cycles

module _ (find : Text → Bool) (Seen : Value → Type 0) where
  abbrev Owned : State × Flow → Type 0
  Owned r = AllOwned find Seen r.0.enqueued

  acknowledge-Owned :
      (s : State) (update_id : ℕ) (b : Bool) (f : Flow)
      → AllOwned find Seen s.enqueued
      → Owned (acknowledge s update_id b f)
  unfolding acknowledge
  acknowledge-Owned s update_id true f o = o
  acknowledge-Owned s update_id false f o = o

  skip_update-Owned :
      (s : State) (w : World) (update_id : ℕ)
      → AllOwned find Seen s.enqueued
      → Owned (skip_update s w update_id)
  unfolding skip_update
  skip_update-Owned s w update_id o = acknowledge-Owned s update_id w.write_throws thrown o

  enqueue_private-Owned :
      (s : State) (w : World) (update_id : ℕ) (job : PrivateJob)
      → OwnedFrom find Seen job
      → AllOwned find Seen s.enqueued
      → Owned (enqueue_private s w update_id job)
  unfolding enqueue_private acknowledge AllOwned
  enqueue_private-Owned s w update_id job i o = ground arith

  handle_private-Owned :
      (s : State) (w : World) (update_id : ℕ) (job : PrivateJob)
      → OwnedFrom find Seen job
      → AllOwned find Seen s.enqueued
      → Owned (handle_private s w update_id job)
  unfolding handle_private
  handle_private-Owned s w update_id job i o =
      let limited = allow s.limiter job.telegram_chat_id w.now in
      elim (Bool-cases (is_retained s.pending update_id job.telegram_chat_id)) [
        | inl e ↦ rw e (enqueue_private-Owned s w update_id job i o)
        | inr e ↦ rw e (elim (Bool-cases limited.0) [
          | inl a ↦ rw a (enqueue_private-Owned (use_limiter s limited.1) w update_id job i o)
          | inr a ↦
              rw a
                (skip_update-Owned (record s { pending = none; limiter = limited.1 }) w update_id o)
        ])
      ]

  handle_parsed-Owned :
      (s : State) (w : World) (update_id : ℕ) (p : Parsed)
      → ((job : PrivateJob) → p ≡ private_compare job → OwnedFrom find Seen job)
      → AllOwned find Seen s.enqueued
      → Owned (handle_parsed s w update_id p)
  handle_parsed-Owned s w update_id invalid i o =
      skip_update-Owned (record s { pending = none }) w update_id o
  handle_parsed-Owned s w update_id ignored i o =
      skip_update-Owned (record s { pending = none }) w update_id o
  handle_parsed-Owned s w update_id (answer job) i o =
      skip_update-Owned (record s { pending = none }) w update_id o
  handle_parsed-Owned s w update_id (private_compare job) i o =
      handle_private-Owned s w update_id job (i job refl) o

  handle_text-Owned :
      (s : State) (w : World) (update_id : ℕ) (chat_id user_id text : Text)
      → AllOwned find Seen s.enqueued
      → Owned (handle_text s w update_id chat_id user_id text)
  unfolding handle_text
  handle_text-Owned s w update_id chat_id user_id text o =
      let limited = allow s.limiter chat_id w.now in
      let used = use_limiter s limited.1 in
      elim (Bool-cases limited.0) [
        | inr a ↦ rw a (skip_update-Owned used w update_id o)
        | inl a ↦ rw a (elim (Bool-cases w.answer_throws) [
          | inl t ↦ rw t o
          | inr t ↦ rw t (elim (Bool-cases (deliver_message w.aborted_answering w.send).aborted) [
            | inl d ↦ rw d o
            | inr d ↦ rw d (
                skip_update-Owned (record used { answered = update_id ∷ s.answered }) w update_id o)
          ])
        ])
      ]

  handle_parts-Owned :
      (s : State) (w : World) (update_id : ℕ) (p : Option (Text × Text × Text))
      → AllOwned find Seen s.enqueued
      → Owned (handle_parts s w update_id p)
  handle_parts-Owned s w update_id none o = skip_update-Owned s w update_id o
  handle_parts-Owned s w update_id (some (chat_id, user_id, text)) o =
      handle_text-Owned s w update_id chat_id user_id text o

  handle_valid-Owned :
      (s : State) (w : World) (update_id : ℕ) (update : Value)
      → Seen update
      → AllOwned find Seen s.enqueued
      → Owned (handle_valid find s w update_id update)
  unfolding handle_valid
  handle_valid-Owned s w update_id update seen o =
      elim (Bool-cases (has_document (read_of "message" update))) [
        | inl e ↦ rw e (
            handle_parsed-Owned s w update_id (canonicalize_telegram_update find update true)
              (λ job made.
                let (owned, from) = canonicalize-IsOwned find update true job made in
                (owned, (update, seen, from)))
              o)
        | inr e ↦ rw e (handle_parts-Owned s w update_id (text_parts (read_of "message" update)) o)
      ]

  handle_update-Owned :
      (s : State) (w : World) (update : Value)
      → Seen update
      → AllOwned find Seen s.enqueued
      → Owned (handle_update find s w update)
  unfolding handle_update
  handle_update-Owned s w update seen o = elim (Bool-cases w.aborted) [
    | inl a ↦ rw a o
    | inr a ↦ rw a (elim (Option-cases (positive_safe (read_of "update_id" update))) [
      | inl e ↦ rw e o
      | inr (update_id, e) ↦ rw e (handle_valid-Owned s w update_id update seen o)
    ])
  ]

  on_proceed-Owned :
      (r : State × Flow) (rest : State → State × Flow)
      → Owned r
      → ((t : State) → AllOwned find Seen t.enqueued → Owned (rest t))
      → Owned (on_proceed r rest)
  on_proceed-Owned (t, proceed) rest o g = g t o
  on_proceed-Owned (t, leave) rest o g = o
  on_proceed-Owned (t, thrown) rest o g = o

  for_updates-Owned :
      (s : State) (updates : List (Value × World))
      → All (λ u. Seen u.0) updates
      → AllOwned find Seen s.enqueued
      → Owned (for_updates find s updates)
  unfolding for_updates
  for_updates-Owned s [] seen o = o
  for_updates-Owned s ((update, w) ∷ updates) seen o =
      on_proceed-Owned (handle_update find s w update) (λ t. for_updates find t updates)
        (handle_update-Owned s w update seen.0 o) (λ t p. for_updates-Owned t updates seen.1 p)

  on_caught-Owned :
      (aborted : Bool) (r : State × Flow) (rest : State → State)
      → Owned r
      → ((t : State) → AllOwned find Seen t.enqueued → AllOwned find Seen (rest t).enqueued)
      → AllOwned find Seen (on_caught aborted r rest).enqueued
  on_caught-Owned true (t, proceed) rest o g = g t o
  on_caught-Owned true (t, leave) rest o g = g t o
  on_caught-Owned true (t, thrown) rest o g = o
  on_caught-Owned false (t, flow) rest o g = g t o

  cycle_updates-Owned :
      (s : State) (fetched : Option (List (Value × World)))
      → ((updates : List (Value × World)) → fetched ≡ some updates → All (λ u. Seen u.0) updates)
      → AllOwned find Seen s.enqueued
      → Owned (cycle_updates find s fetched)
  cycle_updates-Owned s none seen o = o
  cycle_updates-Owned s (some updates) seen o = for_updates-Owned s updates (seen updates refl) o

  -- Over any run of the loop, every job given to the queue was made of an update that the loop may
  -- fetch (one with any property that all of these have), from a chat of type "private" with the
  -- identifier of the sender, and has metadata that the validator takes, if that was so of the jobs
  -- before.
  pub run_cycles-AllOwned :
      (s : State) (cycles : List Cycle)
      → Fetched Seen cycles
      → AllOwned find Seen s.enqueued
      → AllOwned find Seen (run_cycles find s cycles).enqueued
  unfolding run_cycles
  run_cycles-AllOwned s [] seen o = o
  run_cycles-AllOwned s (c ∷ cycles) seen o = elim (Bool-cases c.aborted) [
    | inl a ↦ rw a o
    | inr a ↦ rw a (
        on_caught-Owned c.aborted_failing (cycle_updates find s (c.updates s.offset))
          (λ t. run_cycles find t cycles)
          (cycle_updates-Owned s (c.updates s.offset) (seen.0 s.offset) o)
          (λ t p. run_cycles-AllOwned t cycles seen.1 p))
  ]
