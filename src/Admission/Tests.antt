-- ===== src/Admission/Tests.antt =====
-- Runs of `enqueuePgBossJob` over a queue that refuses a job it already holds.
use vennek.Prelude.{
  ℕ, ◌≡◌, refl, true, false, List, [], ◌∷◌, Option, none, some, Text, codes, ◌==◌, if◌then◌else◌,
  get, put,
}
use vennek.Admission.Session.{
  Database, starting, fine, refused, lost, received, failed, AdmissionState, ok, thrown, call,
}
use vennek.Admission.Limiter.{
  admit_update, lock_admission_state, within_admission_limit, next_admission_state, save_window,
}
use vennek.Admission.Enqueue.{AdmissionInput, enqueue_pg_boss_job}
use vennek.Admission.AllOrNothing.{AllOrNothing, enqueue_pg_boss_job-AllOrNothing}
use vennek.Admission.Windows.{Gives, session}
use vennek.Admission.Outcome.{outcome, enqueue_pg_boss_job-outcome}
use vennek.Admission.Laws.{
  IsWithin, enqueue_pg_boss_job-IsWithin, Answers, enqueue_pg_boss_job-Answers,
  enqueue_pg_boss_job-redelivery,
}

-- A job is its singleton key.
abbrev send_key : ℕ → List ℕ → Option (List ℕ)
send_key job [] = some (job ∷ [])
send_key job (k ∷ ks) = if k == job then none else some (job ∷ k ∷ ks)

abbrev alice : Text
alice = codes "42"

abbrev update : AdmissionInput ℕ
update = record { update_id = 7; telegram_user_id = alice; telegram_chat_id = alice; job = 7 }

abbrev blank : Database (List ℕ)
blank = record { updates = []; user_windows = []; chat_windows = []; jobs = [] }

abbrev full_window : AdmissionState
full_window = record { window_started_at = 1000; accepted_count = 10 }

abbrev busy : Database (List ℕ)
busy = record blank { user_windows = (alice, full_window) ∷ [] }

run : Unit {0}
unfolding enqueue_pg_boss_job call admit_update lock_admission_state within_admission_limit
    next_admission_state save_window get put
run = tt

abbrev one : AdmissionState
one = record { window_started_at = 5000; accepted_count = 1 }

abbrev admitted : Database (List ℕ)
admitted = record {
  updates = (7, received) ∷ [];
  user_windows = (alice, one) ∷ [];
  chat_windows = (alice, one) ∷ [];
  jobs = 7 ∷ [];
}

admitted_test :
    let p = enqueue_pg_boss_job send_key update (some 5000) (starting blank []) in
    (p.0 ≡ ok true) × (p.1.committed ≡ admitted)
unfolding run
admitted_test = (refl, refl)

refused_test :
    let p = enqueue_pg_boss_job send_key update (some 5000) (starting busy []) in
    (p.0 ≡ ok false) × (p.1.committed.updates ≡ (7, failed) ∷ []) × (p.1.committed.jobs ≡ [])
unfolding run
refused_test = (refl, refl, refl)

-- The reply to COMMIT, the tenth call after the connection, is lost.
lost_commit_test :
    let p = enqueue_pg_boss_job send_key update (some 5000) (
      starting blank
        (fine ∷ fine ∷ fine ∷ fine ∷ fine ∷ fine ∷ fine ∷ fine ∷ fine ∷ fine ∷ fine ∷ lost ∷ [])) in
    (p.0 ≡ thrown) × (p.1.committed ≡ admitted)
unfolding run
lost_commit_test = (refl, refl)

enqueue_pg_boss_job-AllOrNothing_example :
    AllOrNothing blank
      (enqueue_pg_boss_job send_key update (some 5000) (starting blank (fine ∷ refused ∷ [])))
      (enqueue_pg_boss_job send_key update (some 5000) (starting blank []))
enqueue_pg_boss_job-AllOrNothing_example =
    enqueue_pg_boss_job-AllOrNothing send_key update (some 5000)
      (starting blank (fine ∷ refused ∷ []))

enqueue_pg_boss_job-outcome_example :
    Gives
      (enqueue_pg_boss_job send_key update (some 5000) (session busy busy false))
      (outcome send_key update (some 5000) busy)
enqueue_pg_boss_job-outcome_example = enqueue_pg_boss_job-outcome send_key update (some 5000) busy

blank-IsWithin : IsWithin blank
unfolding get
blank-IsWithin = (λ id row e. cc, λ id row e. cc)

enqueue_pg_boss_job-IsWithin_example :
    IsWithin
      (enqueue_pg_boss_job send_key update
        (some 5000)
        (starting blank (fine ∷ lost ∷ []))).1.committed
enqueue_pg_boss_job-IsWithin_example =
    enqueue_pg_boss_job-IsWithin send_key update (some 5000) blank (fine ∷ lost ∷ []) blank-IsWithin

enqueue_pg_boss_job-Answers_example :
    Answers send_key update busy
      (enqueue_pg_boss_job send_key update (some 5000) (starting busy (fine ∷ lost ∷ [])))
enqueue_pg_boss_job-Answers_example =
    enqueue_pg_boss_job-Answers send_key update (some 5000) busy (fine ∷ lost ∷ [])

enqueue_pg_boss_job-redelivery_example :
    (enqueue_pg_boss_job send_key update (some 6000) (
      starting
        (enqueue_pg_boss_job send_key update (some 5000) (starting blank [])).1.committed
        [])).1.committed
    ≡ (enqueue_pg_boss_job send_key update (some 5000) (starting blank [])).1.committed
enqueue_pg_boss_job-redelivery_example =
    enqueue_pg_boss_job-redelivery send_key update update (some 5000) (some 6000) blank [] [] true
      refl admitted_test.0
