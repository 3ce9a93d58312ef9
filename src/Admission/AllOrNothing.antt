-- ===== src/Admission/AllOrNothing.antt =====
-- What `enqueuePgBossJob` commits, whatever calls fail.
use vennek.Prelude.{
  ℕ, ◌≡◌, refl, ap, ◌⊎◌, inl, inr, List, [], ◌∷◌, Bool, true, false, ◌&&◌, Option, none, some, Text,
  arith, if◌then◌else◌, ltb,
}
use vennek.Admission.Session.{
  AdmissionState, Database, Session, Fault, fine, refused, lost, Result, ok, thrown, M, resume,
  ◌>>=◌, ◌>>◌, return, throw, call, statement, commit, set_in_transaction, begin,
}
use vennek.Admission.Limiter.{
  SubjectType, user, chat, admission_limit, checked_row, the_time, judge, lock_admission_state,
  admit_update, within_admission_limit,
}
use vennek.Admission.Enqueue.{
  AdmissionInput, connect, claim, mark_failed, send_in, sent_or_not, send_job, refuse, admit,
  duplicate, attempt, settle, enqueue_pg_boss_job,
}
use vennek.Admission.Atomicity.{
  clear, Ends, Follows, IsTame, bind-IsTame, statement-IsTame, begin-IsTame, rollback-IsTame,
  return-IsTame, throw-IsTame, set_in_transaction-IsTame, commit-Follows, bind-Follows,
}

module _ {Jobs : Type 0} where
  branch-IsTame :
      {A : Type 0} (b : Bool) (m n : M Jobs A) → IsTame m → IsTame n → IsTame (if b then m else n)
  branch-IsTame true m n t u = t
  branch-IsTame false m n t u = u

  checked_row-IsTame :
      (row : Option AdmissionState) (now : ℕ) → IsTame {Jobs = Jobs} (checked_row row now)
  checked_row-IsTame none now = return-IsTame _
  checked_row-IsTame (some row) now =
      branch-IsTame (ltb admission_limit row.accepted_count) throw (return row) throw-IsTame
        (return-IsTame row)

  the_time-IsTame : (clock : Option ℕ) → IsTame {Jobs = Jobs} (the_time clock)
  the_time-IsTame none = throw-IsTame
  the_time-IsTame (some now) = return-IsTame now

  lock-IsTame :
      (kind : SubjectType) (id : Text) (now : ℕ)
      → IsTame {Jobs = Jobs} (lock_admission_state kind id now)
  unfolding lock_admission_state
  lock-IsTame kind id now =
      bind-IsTame _ _ (statement-IsTame _)
        λ _. bind-IsTame _ _ (statement-IsTame _) λ row. checked_row-IsTame row now

  judge-IsTame :
      (user_id chat_id : Text) (of_user of_chat : AdmissionState) (now : ℕ)
      → IsTame {Jobs = Jobs} (judge user_id chat_id of_user of_chat now)
  judge-IsTame user_id chat_id of_user of_chat now =
      branch-IsTame (within_admission_limit of_user now && within_admission_limit of_chat now) _ _
        (bind-IsTame _ _ (statement-IsTame _)
          λ _. bind-IsTame _ _ (statement-IsTame _) λ _. return-IsTame true)
        (return-IsTame false)

  admit_update-IsTame :
      (clock : Option ℕ) (user_id chat_id : Text)
      → IsTame {Jobs = Jobs} (admit_update clock user_id chat_id)
  unfolding admit_update
  admit_update-IsTame clock user_id chat_id = bind-IsTame _ _ (statement-IsTame _) λ read.
      bind-IsTame _ _ (the_time-IsTame read) λ now.
        bind-IsTame _ _ (lock-IsTame user user_id now) λ of_user.
          bind-IsTame _ _ (lock-IsTame chat chat_id now)
            λ of_chat. judge-IsTame user_id chat_id of_user of_chat now

  -- The session after the run shows the same database as the session of the other run.
  abbrev pub AllOrNothing :
      Database Jobs → Result Bool × Session Jobs → Result Bool × Session Jobs → Type 0
  AllOrNothing d p p' =
      ((p.0 ≡ p'.0) × (p.1.committed ≡ p'.1.committed))
      ⊎ ((p.0 ≡ thrown) × (p.1.committed ≡ d))
      ⊎ ((p.0 ≡ thrown) × (p.1.committed ≡ p'.1.committed))

module _ {Job Jobs : Type 0} (send : Job → Jobs → Option Jobs) where
  tame-Follows :
      {A B : Type 0} (m : M Jobs A) (f : A → M Jobs B)
      → IsTame m
      → ((a : A) → Follows (f a))
      → Follows (m >>= f)
  tame-Follows m f t k = bind-Follows m f t.quiet t.follows k

  sent_or_not-Follows : (sent : Bool) → Follows (sent_or_not send sent)
  sent_or_not-Follows true = commit-Follows true
  sent_or_not-Follows false =
      (bind-IsTame _ _ rollback-IsTame
        λ _. bind-IsTame _ _ (set_in_transaction-IsTame false) λ _. throw-IsTame).follows

  send_job-Follows : (job : Job) → Follows (send_job send job)
  unfolding send_job
  send_job-Follows job =
      tame-Follows (statement (send_in send job)) (sent_or_not send) (statement-IsTame _)
        sent_or_not-Follows

  refuse-Follows : (id : ℕ) → Follows {Jobs = Jobs} (refuse id)
  unfolding refuse
  refuse-Follows id =
      tame-Follows (statement (mark_failed id))
        (λ _. commit >> (set_in_transaction false >> return false)) (statement-IsTame _)
        λ _. commit-Follows false

  branch-Follows :
      {A : Type 0} (b : Bool) (m n : M Jobs A)
      → Follows m
      → Follows n
      → Follows (if b then m else n)
  branch-Follows true m n t u = t
  branch-Follows false m n t u = u

  admit-Follows : (input : AdmissionInput Job) (clock : Option ℕ) → Follows (admit send input clock)
  unfolding admit
  admit-Follows input clock =
      tame-Follows (admit_update clock input.telegram_user_id input.telegram_chat_id)
        (λ admitted. if admitted then send_job send input.job else refuse input.update_id)
        (admit_update-IsTame clock _ _)
        λ admitted.
          branch-Follows admitted _ _ (send_job-Follows input.job) (refuse-Follows input.update_id)

  duplicate-Follows : Follows {Jobs = Jobs} (duplicate)
  duplicate-Follows =
      (bind-IsTame _ _ rollback-IsTame
        λ _. bind-IsTame _ _ (set_in_transaction-IsTame false) λ _. return-IsTame false).follows

  attempt-Follows :
      (input : AdmissionInput Job) (clock : Option ℕ) → Follows (attempt send input clock)
  unfolding attempt
  attempt-Follows input clock =
      tame-Follows begin
        (λ _. set_in_transaction true >>= λ _. statement (claim input.update_id) >>= rest)
        begin-IsTame
        λ _.
          tame-Follows (set_in_transaction true) (λ _. statement (claim input.update_id) >>= rest)
            (set_in_transaction-IsTame true)
            λ _.
              tame-Follows (statement (claim input.update_id)) rest (statement-IsTame _)
                λ claimed. branch-Follows claimed _ _ (admit-Follows input clock) duplicate-Follows
    where
      rest : Bool → M Jobs Bool
      rest claimed = if claimed then admit send input clock else duplicate

  settle-AllOrNothing :
      (d : Database Jobs) (p p' : Result Bool × Session Jobs)
      → Ends d p p'
      → AllOrNothing d (settle p) (settle p')
  unfolding settle call
  settle-AllOrNothing d (ok b, s) (ok b', s') e = ground arith
  settle-AllOrNothing d (ok b, s) (thrown, s') e = ground arith
  settle-AllOrNothing d (thrown, s) (ok b', s') e = ground arith
  settle-AllOrNothing d (thrown, s) (thrown, s') e = ground arith

  connect_cases :
      (s : Session Jobs)
      → ((rest : List Fault) × (connect s ≡ (ok tt, record s { faults = rest })))
        ⊎ ((rest : List Fault) × (connect s ≡ (thrown, record s { faults = rest })))
  unfolding call
  connect_cases s = go s.faults refl
    where
      go :
          (fs : List Fault)
          → s.faults ≡ fs
          → ((rest : List Fault) × (connect s ≡ (ok tt, record s { faults = rest })))
            ⊎ ((rest : List Fault) × (connect s ≡ (thrown, record s { faults = rest })))
      go [] e = inl ([], ground arith)
      go (fine ∷ rest) e = inl (rest, ground arith)
      go (refused ∷ rest) e = inr (rest, ground arith)
      go (lost ∷ rest) e = inr (rest, ground arith)

  connected_clear : (s : Session Jobs) → connect (clear s) ≡ (ok tt, clear s)
  unfolding call
  connected_clear s = refl

  enqueue_connected :
      (input : AdmissionInput Job) (clock : Option ℕ) (s t : Session Jobs)
      → connect s ≡ (ok tt, t)
      → enqueue_pg_boss_job send input clock s ≡ settle (attempt send input clock t)
  unfolding enqueue_pg_boss_job
  enqueue_connected input clock s t e =
      ap (λ p. resume p (λ _ t. settle (attempt send input clock t))) e

  enqueue_unconnected :
      (input : AdmissionInput Job) (clock : Option ℕ) (s t : Session Jobs)
      → connect s ≡ (thrown, t)
      → enqueue_pg_boss_job send input clock s ≡ (thrown, t)
  unfolding enqueue_pg_boss_job
  enqueue_unconnected input clock s t e =
      ap (λ p. resume p (λ _ t. settle (attempt send input clock t))) e

  -- Whatever calls fail, and however: `enqueuePgBossJob` answers and commits what it does when none
  -- fails, or it throws and has committed nothing, or it throws and has committed what it does when
  -- none fails (the reply to COMMIT was lost).
  pub enqueue_pg_boss_job-AllOrNothing :
      (input : AdmissionInput Job) (clock : Option ℕ) (s : Session Jobs)
      → AllOrNothing s.committed
          (enqueue_pg_boss_job send input clock s)
          (enqueue_pg_boss_job send input clock (clear s))
  enqueue_pg_boss_job-AllOrNothing input clock s = elim (connect_cases s) [
    | inl (rest, e) ↦
        rw
          (
            enqueue_connected input clock s _ e,
            enqueue_connected input clock (clear s) (clear s) (connected_clear s),
          )
          (settle-AllOrNothing s.committed _ _
            (attempt-Follows input clock (record s { faults = rest })))
    | inr (rest, e) ↦ inr (inl (rw (enqueue_unconnected input clock s _ e) (refl, refl)))
  ]
