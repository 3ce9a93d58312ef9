-- ===== src/Admission/Laws.antt =====
-- What the durable admission of apps/telegram-bot/src/privateComparisonQueue.ts promises.
use mathlib.Core.Path.{subst}
use vennek.Prelude.{
  ℕ, ◌≤◌, ◌≡◌, ◌≢◌, sym, ap, ◌∙◌, ◌⊎◌, inl, inr, Bool, true, false, ◌&&◌, ◌||◌, List, Option, none,
  some, Text, arith, get, put, get-put, Bool-cases, Option-cases,
}
use vennek.Admission.Session.{
  received, AdmissionState, Database, Session, starting, Fault, Result, ok, thrown,
}
use vennek.Admission.Limiter.{admission_limit, within_admission_limit, next_admission_state}
use vennek.Admission.Enqueue.{AdmissionInput, status_of, enqueue_pg_boss_job}
use vennek.Admission.AllOrNothing.{AllOrNothing, enqueue_pg_boss_job-AllOrNothing}
use vennek.Admission.Windows.{opened, over, session, Gives, admits}
use vennek.Admission.Outcome.{accepted, decided, outcome, enqueue_pg_boss_job-outcome}

-- Every window counts at most `admission_limit` updates.
abbrev pub IsBounded : List (Text × AdmissionState) → Type 0
IsBounded ws =
    (id : Text) (row : AdmissionState) → get id ws ≡ some row → row.accepted_count ≤ admission_limit

abbrev pub IsWithin : {Jobs : Type 0} → Database Jobs → Type 0
IsWithin d = IsBounded d.user_windows × IsBounded d.chat_windows

put-IsBounded :
    (id : Text) (row : AdmissionState) (ws : List (Text × AdmissionState))
    → row.accepted_count ≤ admission_limit
    → IsBounded ws
    → IsBounded (put id row ws)
put-IsBounded id row ws le b j r e = ground (arith, get-put id j row ws, b j r)

opened-IsBounded :
    (id : Text) (now : ℕ) (ws : List (Text × AdmissionState))
    → IsBounded ws
    → IsBounded (opened id now ws)
opened-IsBounded id now ws b = elim (Option-cases (get id ws)) [
  | inl e ↦ rw (e, opened) (put-IsBounded id _ ws (omega arith) b)
  | inr (row, e) ↦ rw (e, opened) b
]

next-le :
    (state : AdmissionState) (now : ℕ)
    → within_admission_limit state now ≡ true
    → (next_admission_state state now).accepted_count ≤ admission_limit
unfolding within_admission_limit next_admission_state
next-le state now h = ground arith

and_parts : (a b : Bool) → (a && b) ≡ true → (a ≡ true) × (b ≡ true)
and_parts a b h = ground arith

module _ {Job Jobs : Type 0} (send : Job → Jobs → Option Jobs) where
  accepted-IsWithin :
      (input : AdmissionInput Job) (now : ℕ) (d : Database Jobs)
      → admits input.telegram_user_id input.telegram_chat_id now d ≡ true
      → IsWithin d
      → IsWithin (accepted send input now d).1
  accepted-IsWithin input now d a (u, c) = elim (Option-cases (send input.job d.jobs)) [
    | inl e ↦ rw (e, accepted) (u, c)
    | inr (jobs, e) ↦
        rw (e, accepted)
          (
            put-IsBounded _ _ _ (next-le _ now (and_parts _ _ a).0) (opened-IsBounded _ now _ u),
            put-IsBounded _ _ _ (next-le _ now (and_parts _ _ a).1) (opened-IsBounded _ now _ c),
          )
  ]

  decided-IsWithin :
      (input : AdmissionInput Job) (now : ℕ) (d : Database Jobs)
      → IsWithin d
      → IsWithin (decided send input now d).1
  decided-IsWithin input now d (u, c) =
      elim (Bool-cases (
        over input.telegram_user_id now d.user_windows
        || over input.telegram_chat_id now d.chat_windows)) [
          | inl e ↦ rw (e, decided) (u, c)
          | inr e ↦ elim (Bool-cases (admits input.telegram_user_id input.telegram_chat_id now d)) [
            | inl a ↦ rw (e, a, decided) (accepted-IsWithin input now d a (u, c))
            | inr a ↦ rw (e, a, decided) (opened-IsBounded _ now _ u, opened-IsBounded _ now _ c)
          ]
        ]

  outcome-IsWithin :
      (input : AdmissionInput Job) (clock : Option ℕ) (d : Database Jobs)
      → IsWithin d
      → IsWithin (outcome send input clock d).1
  outcome-IsWithin input clock d w = elim (Option-cases (status_of input.update_id d.updates)) [
    | inr (st, e) ↦ rw (e, outcome) w
    | inl e ↦ elim (Option-cases clock) [
      | inl n ↦ rw (e, n, outcome) w
      | inr (now, n) ↦ rw (e, n, outcome) (decided-IsWithin input now d w)
    ]
  ]

  -- Whatever calls fail, no window of a user or a chat ever counts more than ten updates.
  pub enqueue_pg_boss_job-IsWithin :
      (input : AdmissionInput Job) (clock : Option ℕ) (d : Database Jobs) (faults : List Fault)
      → IsWithin d
      → IsWithin (enqueue_pg_boss_job send input clock (starting d faults)).1.committed
  enqueue_pg_boss_job-IsWithin input clock d faults w =
      elim (enqueue_pg_boss_job-AllOrNothing send input clock (starting d faults)) [
        | inl (_, e) ↦ subst IsWithin (sym (e ∙ whole)) all
        | inr (inl (_, e)) ↦ subst IsWithin (sym e) w
        | inr (inr (_, e)) ↦ subst IsWithin (sym (e ∙ whole)) all
      ]
    where
      whole :
          (enqueue_pg_boss_job send input clock (session d d false)).1.committed
          ≡ (outcome send input clock d).1
      whole = (enqueue_pg_boss_job-outcome send input clock d).1

      all : IsWithin (outcome send input clock d).1
      all = outcome-IsWithin input clock d w

  -- A job is sent exactly when the answer is `true`; every answer records the update.
  abbrev SendsOnce : AdmissionInput Job → Database Jobs → Result Bool × Database Jobs → Type 0
  SendsOnce input d p =
      ((p.0 ≡ ok true)
        × (send input.job d.jobs ≡ some p.1.jobs)
        × (status_of input.update_id p.1.updates ≡ some received))
      ⊎ ((p.0 ≡ ok false) × (p.1.jobs ≡ d.jobs) × (status_of input.update_id p.1.updates ≢ none))
      ⊎ ((p.0 ≡ thrown) × (p.1 ≡ d))

  outcome-SendsOnce :
      (input : AdmissionInput Job) (clock : Option ℕ) (d : Database Jobs)
      → SendsOnce input d (outcome send input clock d)
  unfolding status_of
  outcome-SendsOnce input clock d = ground arith

  -- What a run that may fail leaves committed, by its answer.
  abbrev pub Answers : AdmissionInput Job → Database Jobs → Result Bool × Session Jobs → Type 0
  Answers input d p =
      ((p.0 ≡ ok true)
        × (send input.job d.jobs ≡ some p.1.committed.jobs)
        × (status_of input.update_id p.1.committed.updates ≡ some received))
      ⊎ ((p.0 ≡ ok false)
          × (p.1.committed.jobs ≡ d.jobs)
          × (status_of input.update_id p.1.committed.updates ≢ none))
      ⊎ ((p.0 ≡ thrown)
          × ((p.1.committed ≡ d) ⊎ (status_of input.update_id p.1.committed.updates ≢ none)))

  follow-Answers :
      (input : AdmissionInput Job) (d : Database Jobs) (p p' : Result Bool × Session Jobs)
      (q : Result Bool × Database Jobs)
      → AllOrNothing d p p'
      → Gives p' q
      → SendsOnce input d q
      → Answers input d p
  follow-Answers input d p p' q a g o = ground arith

  -- Whatever calls fail: `true` means that the job was sent and the update recorded as received,
  -- `false` that the update is recorded and no job was sent, and an exception that nothing was
  -- committed or, if the reply to COMMIT was lost, that the update is recorded.
  pub enqueue_pg_boss_job-Answers :
      (input : AdmissionInput Job) (clock : Option ℕ) (d : Database Jobs) (faults : List Fault)
      → Answers input d (enqueue_pg_boss_job send input clock (starting d faults))
  enqueue_pg_boss_job-Answers input clock d faults =
      follow-Answers input d (enqueue_pg_boss_job send input clock (starting d faults))
        (enqueue_pg_boss_job send input clock (session d d false)) (outcome send input clock d)
        (enqueue_pg_boss_job-AllOrNothing send input clock (starting d faults))
        (enqueue_pg_boss_job-outcome send input clock d) (outcome-SendsOnce input clock d)

  recorded_lem :
      (input : AdmissionInput Job) (clock : Option ℕ) (d : Database Jobs)
      → status_of input.update_id d.updates ≢ none
      → outcome send input clock d ≡ (ok false, d)
  recorded_lem input clock d h = elim (Option-cases (status_of input.update_id d.updates)) [
    | inl e ↦ absurd (h e)
    | inr (st, e) ↦ rw (e, outcome)
  ]

  -- A recorded update is not admitted again: a later call for the same update id commits nothing.
  recorded_stays :
      (input : AdmissionInput Job) (clock : Option ℕ) (d : Database Jobs) (faults : List Fault)
      → status_of input.update_id d.updates ≢ none
      → (enqueue_pg_boss_job send input clock (starting d faults)).1.committed ≡ d
  recorded_stays input clock d faults h =
      elim (enqueue_pg_boss_job-AllOrNothing send input clock (starting d faults)) [
        | inl (_, e) ↦ e ∙ whole
        | inr (inl (_, e)) ↦ e
        | inr (inr (_, e)) ↦ e ∙ whole
      ]
    where
      whole : (enqueue_pg_boss_job send input clock (session d d false)).1.committed ≡ d
      whole =
          (enqueue_pg_boss_job-outcome send input clock d).1
          ∙ ap (λ q. q.1) (recorded_lem input clock d h)

  -- After an answer, whichever it is, a redelivery of the same update changes nothing in the
  -- database, whatever it carries and whatever calls fail.
  pub enqueue_pg_boss_job-redelivery :
      (input again : AdmissionInput Job) (clock later : Option ℕ) (d : Database Jobs)
      (faults faults' : List Fault) (answer : Bool)
      → again.update_id ≡ input.update_id
      → let p = enqueue_pg_boss_job send input clock (starting d faults) in
        p.0 ≡ ok answer
        → (enqueue_pg_boss_job send again later (starting p.1.committed faults')).1.committed
          ≡ p.1.committed
  enqueue_pg_boss_job-redelivery input again clock later d faults faults' answer same_id e =
      recorded_stays again later _ faults'
        (rw same_id (recorded (enqueue_pg_boss_job-Answers input clock d faults)))
    where
      recorded :
          Answers input d (enqueue_pg_boss_job send input clock (starting d faults))
          → status_of input.update_id
              (enqueue_pg_boss_job send input clock (starting d faults)).1.committed.updates
            ≢ none
      recorded a = ground arith
