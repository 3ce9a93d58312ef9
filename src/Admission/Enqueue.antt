-- ===== src/Admission/Enqueue.antt =====
-- `enqueuePgBossJob`: the claim of the update id, the limiter and the job in one transaction.
use vennek.Prelude.{
  ℕ, Bool, true, false, List, [], ◌∷◌, Option, none, some, Text, if◌then◌else◌, ◌==◌,
}
use vennek.Admission.Session.{
  Status, received, failed, Database, Session, Result, ok, thrown, M, ◌>>=◌, ◌>>◌, return, throw,
  call, statement, begin, commit, rollback, set_in_transaction,
}
use vennek.Admission.Limiter.{admit_update}

unfoldable pub status_of : ℕ → List (ℕ × Status) → Option Status
status_of id [] = none
status_of id ((j, s) ∷ us) = if j == id then some s else status_of id us

unfoldable pub set_status : ℕ → Status → List (ℕ × Status) → List (ℕ × Status)
set_status id s [] = []
set_status id s ((j, t) ∷ us) = if j == id then (j, s) ∷ us else (j, t) ∷ set_status id s us

-- `PgBossAdmissionInput`: its `queueName`, `data` and send options are one value, `job`.
pub record AdmissionInput (Job : Type 0) : Type 0 where
  pub update_id : ℕ
  pub telegram_user_id : Text
  pub telegram_chat_id : Text
  pub job : Job

module _ {Jobs : Type 0} where
  -- INSERT ... ON CONFLICT (update_id) DO NOTHING RETURNING update_id: did a row come back?
  unfoldable pub claim : ℕ → Database Jobs → Bool × Database Jobs
  unfolding status_of
  claim id d = elim (status_of id d.updates) [
    | none ↦ (true, record d { updates = (id, received) ∷ d.updates })
    | some _ ↦ (false, d)
  ]

  unfoldable pub mark_failed : ℕ → Database Jobs → Unit {0} × Database Jobs
  unfolding set_status
  mark_failed id d = (tt, record d { updates = set_status id failed d.updates })

  unfoldable pub refuse : ℕ → M Jobs Bool
  unfolding mark_failed
  refuse id = do statement (mark_failed id); commit; set_in_transaction false; return false

  abbrev pub duplicate : M Jobs Bool
  duplicate = do rollback; set_in_transaction false; return false

  abbrev pub connect : M Jobs (Unit {0})
  connect = call (λ s. (tt, s))

  -- `catch` and `finally`: a failed ROLLBACK is ignored.
  unfoldable pub settle : {A : Type 0} → Result A × Session Jobs → Result A × Session Jobs
  settle (ok a, s) = (ok a, record s { released = true })
  settle (thrown, s) =
      (thrown, record (if s.in_transaction then (rollback s).1 else s) { released = true })

-- `send` puts a job into the tables of pg-boss; `none` stands for the id `null`.
module _ {Job Jobs : Type 0} (send : Job → Jobs → Option Jobs) where
  abbrev pub send_in : Job → Database Jobs → Bool × Database Jobs
  send_in job d = elim (send job d.jobs) [
    | none ↦ (false, d)
    | some jobs ↦ (true, record d { jobs = jobs })
  ]

  abbrev pub sent_or_not : Bool → M Jobs Bool
  sent_or_not true = do commit; set_in_transaction false; return true
  sent_or_not false = do rollback; set_in_transaction false; throw

  unfoldable pub send_job : Job → M Jobs Bool
  send_job job = do sent ← statement (send_in job); sent_or_not sent

  -- The part behind the claim.
  unfoldable pub admit : AdmissionInput Job → Option ℕ → M Jobs Bool
  unfolding send_job refuse
  admit input clock = do
    admitted ← admit_update clock input.telegram_user_id input.telegram_chat_id
    if admitted then send_job input.job else refuse input.update_id

  unfoldable pub attempt : AdmissionInput Job → Option ℕ → M Jobs Bool
  unfolding claim admit
  attempt input clock = do
    begin
    set_in_transaction true
    claimed ← statement (claim input.update_id)
    if claimed then admit input clock else duplicate

  -- `database.connect()` stands before the `try`.
  unfoldable pub enqueue_pg_boss_job : AdmissionInput Job → Option ℕ → M Jobs Bool
  unfolding attempt settle
  enqueue_pg_boss_job input clock = do call (λ s. (tt, s)); λ s. settle (attempt input clock s)
