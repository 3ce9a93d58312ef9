-- ===== src/Admission/Outcome.antt =====
-- What `enqueuePgBossJob` does when no call fails, as one function on the database.
use vennek.Prelude.{
  ℕ, ◌≡◌, refl, sym, ap, ◌∙◌, inl, inr, Bool, true, false, ◌||◌, ◌∷◌, Option, none, some, arith,
  if◌then◌else◌, put, Bool-cases, Option-cases,
}
use mathlib.Core.Path.{subst}
use vennek.Admission.Session.{
  Status, received, failed, Database, Session, Result, ok, thrown, call, M, resume,
}
use vennek.Admission.Limiter.{next_admission_state, admit_update, user}
use vennek.Admission.Enqueue.{
  AdmissionInput, status_of, set_status, claim, settle, attempt, send_job, refuse,
  enqueue_pg_boss_job,
}
use vennek.Admission.Windows.{
  row_at, opened, over, session, admits, Gives, open_windows, saved, unsaved, admit_at,
}

module _ {Job Jobs : Type 0} (send : Job → Jobs → Option Jobs) where
  abbrev pub accepted : AdmissionInput Job → ℕ → Database Jobs → Result Bool × Database Jobs
  accepted input now d = elim (send input.job d.jobs) [
    | none ↦ (thrown, d)
    | some jobs ↦ (
      ok true,
      record {
        updates = (input.update_id, received) ∷ d.updates;
        user_windows =
            put input.telegram_user_id
              (next_admission_state (row_at input.telegram_user_id now d.user_windows) now)
              (opened input.telegram_user_id now d.user_windows);
        chat_windows =
            put input.telegram_chat_id
              (next_admission_state (row_at input.telegram_chat_id now d.chat_windows) now)
              (opened input.telegram_chat_id now d.chat_windows);
        jobs = jobs;
      },
    )
  ]

  abbrev pub rejected : AdmissionInput Job → ℕ → Database Jobs → Result Bool × Database Jobs
  rejected input now d = (
    ok false,
    record {
      updates = (input.update_id, failed) ∷ d.updates;
      user_windows = opened input.telegram_user_id now d.user_windows;
      chat_windows = opened input.telegram_chat_id now d.chat_windows;
      jobs = d.jobs;
    },
  )

  abbrev pub decided : AdmissionInput Job → ℕ → Database Jobs → Result Bool × Database Jobs
  decided input now d =
      if over input.telegram_user_id now d.user_windows
        || over input.telegram_chat_id now d.chat_windows
      then (thrown, d)
      else if admits input.telegram_user_id input.telegram_chat_id now d
      then accepted input now d
      else rejected input now d

  abbrev pub outcome : AdmissionInput Job → Option ℕ → Database Jobs → Result Bool × Database Jobs
  outcome input clock d = elim (status_of input.update_id d.updates) [
    | some _ ↦ (ok false, d)
    | none ↦ elim clock [ none ↦ (thrown, d) | some now ↦ decided input now d ]
  ]

  abbrev received_in : ℕ → Database Jobs → Database Jobs
  received_in id d = record d { updates = (id, received) ∷ d.updates }

  abbrev admitted_or_not : AdmissionInput Job → Bool → M Jobs Bool
  admitted_or_not input admitted =
      if admitted then send_job send input.job else refuse input.update_id

  attempt_new :
      (input : AdmissionInput Job) (clock : Option ℕ) (d : Database Jobs)
      → status_of input.update_id d.updates ≡ none
      → attempt send input clock (session d d false)
        ≡ resume
            (admit_update clock input.telegram_user_id input.telegram_chat_id
              (session d (received_in input.update_id d) true))
            (admitted_or_not input)
  unfolding attempt call
  attempt_new input clock d e = rw (e, claim)

  sent_at :
      (input : AdmissionInput Job) (now : ℕ) (d w : Database Jobs)
      → w ≡ saved input.telegram_user_id input.telegram_chat_id now (received_in input.update_id d)
      → Gives (settle (send_job send input.job (session d w true))) (accepted input now d)
  unfolding send_job settle call
  sent_at input now d w e = ground arith

  refused_at :
      (input : AdmissionInput Job) (now : ℕ) (d w : Database Jobs)
      → w
        ≡ unsaved input.telegram_user_id input.telegram_chat_id now (received_in input.update_id d)
      → Gives (settle (refuse input.update_id (session d w true))) (rejected input now d)
  unfolding refuse settle call set_status
  refused_at input now d w e = ground arith

  thrown_at : (d w : Database Jobs) → Gives (settle (thrown, session d w true)) (thrown, d)
  unfolding settle call
  thrown_at d w = (refl, refl, refl)

  abbrev reached : AdmissionInput Job → ℕ → Database Jobs → Result Bool × Session Jobs
  reached input now d =
      let w = received_in input.update_id d in
      if over input.telegram_user_id now d.user_windows
      then (thrown, session d (open_windows user input.telegram_user_id now w) true)
      else if over input.telegram_chat_id now d.chat_windows
      then (thrown, session d (unsaved input.telegram_user_id input.telegram_chat_id now w) true)
      else if admits input.telegram_user_id input.telegram_chat_id now d
      then (ok true, session d (saved input.telegram_user_id input.telegram_chat_id now w) true)
      else (ok false, session d (unsaved input.telegram_user_id input.telegram_chat_id now w) true)

  reached-Gives :
      (input : AdmissionInput Job) (now : ℕ) (d : Database Jobs)
      → Gives (settle (resume (reached input now d) (admitted_or_not input))) (decided input now d)
  reached-Gives input now d = elim (Bool-cases (over input.telegram_user_id now d.user_windows)) [
    | inl e ↦ rw e (thrown_at d _)
    | inr e ↦ rw e (elim (Bool-cases (over input.telegram_chat_id now d.chat_windows)) [
      | inl e' ↦ rw e' (thrown_at d _)
      | inr e' ↦
          rw e' (elim (Bool-cases (admits input.telegram_user_id input.telegram_chat_id now d)) [
            | inl a ↦ rw a (sent_at input now d _ refl)
            | inr a ↦ rw a (refused_at input now d _ refl)
          ])
    ])
  ]

  decided_lem :
      (input : AdmissionInput Job) (now : ℕ) (d : Database Jobs)
      → status_of input.update_id d.updates ≡ none
      → Gives (settle (attempt send input (some now) (session d d false))) (decided input now d)
  decided_lem input now d e =
      subst (λ p. Gives (settle p) (decided input now d))
        (sym (
          attempt_new input (some now) d e
          ∙ ap (λ p. resume p (admitted_or_not input))
              (admit_at input.telegram_user_id input.telegram_chat_id now d
                (received_in input.update_id d) true)))
        (reached-Gives input now d)

  outcome_lem :
      (input : AdmissionInput Job) (clock : Option ℕ) (d : Database Jobs)
      → status_of input.update_id d.updates ≡ none
      → Gives
          (settle (attempt send input clock (session d d false)))
          (elim clock [ none ↦ (thrown, d) | some now ↦ decided input now d ])
  unfolding admit_update call settle
  outcome_lem input none d e = rw (attempt_new input none d e) (refl, refl, refl)
  outcome_lem input (some now) d e = decided_lem input now d e

  attempt_known :
      (input : AdmissionInput Job) (clock : Option ℕ) (d : Database Jobs) (st : Status)
      → status_of input.update_id d.updates ≡ some st
      → Gives (settle (attempt send input clock (session d d false))) (ok false, d)
  unfolding attempt call settle
  attempt_known input clock d st e = rw (e, claim) (refl, refl, refl)

  enqueue_settles :
      (input : AdmissionInput Job) (clock : Option ℕ) (d : Database Jobs)
      → enqueue_pg_boss_job send input clock (session d d false)
        ≡ settle (attempt send input clock (session d d false))
  unfolding enqueue_pg_boss_job call
  enqueue_settles input clock d = refl

  -- Without failing calls the transaction answers and commits as `outcome` says, and the client is
  -- given back.
  pub enqueue_pg_boss_job-outcome :
      (input : AdmissionInput Job) (clock : Option ℕ) (d : Database Jobs)
      → Gives (enqueue_pg_boss_job send input clock (session d d false)) (outcome input clock d)
  enqueue_pg_boss_job-outcome input clock d =
      rw (enqueue_settles input clock d)
        (elim (Option-cases (status_of input.update_id d.updates)) [
          | inl e ↦ rw (e, outcome) (outcome_lem input clock d e)
          | inr (st, e) ↦ rw (e, outcome) (attempt_known input clock d st e)
        ])
