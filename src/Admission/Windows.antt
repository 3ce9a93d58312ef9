-- ===== src/Admission/Windows.antt =====
-- privateComparisonQueue.ts: what `admitUpdate` does to the windows of a user and a chat.
use vennek.Prelude.{
  ℕ, ◌≡◌, refl, ap, ◌∙◌, inl, inr, Bool, true, false, ◌&&◌, List, [], none, some, Text, arith,
  if◌then◌else◌, ltb, get, put, get-put, same_iff, Bool-cases,
}
use vennek.Admission.Session.{
  AdmissionState, Database, Session, Result, ok, thrown, call, M, resume, ◌>>=◌,
}
use vennek.Admission.Limiter.{
  admission_limit, within_admission_limit, next_admission_state, admit_update, SubjectType, user,
  chat, update_row, judge, save_window, windows_of, with_windows, lock_admission_state,
}

-- The row of a subject, and a fresh one where there is none.
abbrev pub row_at : Text → ℕ → List (Text × AdmissionState) → AdmissionState
row_at id now ws = elim (get id ws) [
  | none ↦ record { window_started_at = now; accepted_count = 0 }
  | some row ↦ row
]

abbrev pub opened : Text → ℕ → List (Text × AdmissionState) → List (Text × AdmissionState)
opened id now ws = elim (get id ws) [
  | none ↦ put id (record { window_started_at = now; accepted_count = 0 }) ws
  | some row ↦ ws
]

abbrev pub over : Text → ℕ → List (Text × AdmissionState) → Bool
over id now ws = ltb admission_limit (row_at id now ws).accepted_count

get-opened :
    (id : Text) (now : ℕ) (ws : List (Text × AdmissionState))
    → get id (opened id now ws) ≡ some (row_at id now ws)
get-opened id now ws = ground (
  arith,
  same_iff id id,
  get-put id id (record { window_started_at = now; accepted_count = 0 }) ws,
)

update_row-opened :
    (id : Text) (now : ℕ) (state : AdmissionState) (ws : List (Text × AdmissionState))
    → update_row id state (opened id now ws) ≡ put id state (opened id now ws)
update_row-opened id now state ws = ground (arith, get-opened id now ws)

module _ {Jobs : Type 0} where
  -- A session none of whose calls fails.
  abbrev pub session : (committed working : Database Jobs) → Bool → Session Jobs
  session c w b = record {
    committed = c;
    working = w;
    in_transaction = b;
    released = false;
    faults = [];
  }

  abbrev pub open_windows : SubjectType → Text → ℕ → Database Jobs → Database Jobs
  open_windows kind id now d = with_windows kind (opened id now (windows_of kind d)) d

  abbrev read_row : SubjectType → Text → ℕ → Database Jobs → Result AdmissionState
  read_row kind id now d =
      if over id now (windows_of kind d) then thrown else ok (row_at id now (windows_of kind d))

  lock_at :
      (kind : SubjectType) (id : Text) (now : ℕ) (c w : Database Jobs) (b : Bool)
      → lock_admission_state kind id now (session c w b)
        ≡ (read_row kind id now w, session c (open_windows kind id now w) b)
  unfolding lock_admission_state call
  lock_at user id now c w b = ground (arith, get-opened id now w.user_windows)
  lock_at chat id now c w b = ground (arith, get-opened id now w.chat_windows)

  abbrev pub saved : Text → Text → ℕ → Database Jobs → Database Jobs
  saved user_id chat_id now d = record d {
    user_windows =
        put user_id (next_admission_state (row_at user_id now d.user_windows) now)
          (opened user_id now d.user_windows);
    chat_windows =
        put chat_id (next_admission_state (row_at chat_id now d.chat_windows) now)
          (opened chat_id now d.chat_windows);
  }

  abbrev pub unsaved : Text → Text → ℕ → Database Jobs → Database Jobs
  unsaved user_id chat_id now d = record d {
    user_windows = opened user_id now d.user_windows;
    chat_windows = opened chat_id now d.chat_windows;
  }

  judge_at :
      (user_id chat_id : Text) (now : ℕ) (of_user of_chat : AdmissionState) (c w : Database Jobs)
      (b : Bool)
      → of_user ≡ row_at user_id now w.user_windows
      → of_chat ≡ row_at chat_id now w.chat_windows
      → judge user_id chat_id of_user of_chat now (session c (unsaved user_id chat_id now w) b) ≡ (
          if within_admission_limit of_user now && within_admission_limit of_chat now
          then (ok true, session c (saved user_id chat_id now w) b)
          else (ok false, session c (unsaved user_id chat_id now w) b))
  unfolding call save_window
  judge_at user_id chat_id now of_user of_chat c w b eu ec = ground (
    arith,
    update_row-opened user_id now (next_admission_state of_user now) w.user_windows,
    update_row-opened chat_id now (next_admission_state of_chat now) w.chat_windows,
  )

  abbrev pub admits : Text → Text → ℕ → Database Jobs → Bool
  admits user_id chat_id now d =
      within_admission_limit (row_at user_id now d.user_windows) now
      && within_admission_limit (row_at chat_id now d.chat_windows) now

  pub admit_at :
      (user_id chat_id : Text) (now : ℕ) (c w : Database Jobs) (b : Bool)
      → admit_update (some now) user_id chat_id (session c w b) ≡ (
          if over user_id now w.user_windows
          then (thrown, session c (open_windows user user_id now w) b)
          else if over chat_id now w.chat_windows
          then (thrown, session c (unsaved user_id chat_id now w) b)
          else if admits user_id chat_id now w
          then (ok true, session c (saved user_id chat_id now w) b)
          else (ok false, session c (unsaved user_id chat_id now w) b))
  unfolding admit_update call
  admit_at user_id chat_id now c w b =
      ap (λ p. resume p rest) (lock_at user user_id now c w b)
      ∙ (elim (Bool-cases (over user_id now w.user_windows)) [
        | inl e ↦ rw (e, resume)
        | inr e ↦
            rw (e, resume)
              (ap
                  (λ p. resume p (λ of_chat.
                    judge user_id chat_id (row_at user_id now w.user_windows) of_chat now))
                  (lock_at chat chat_id now c (open_windows user user_id now w) b)
                ∙ (elim (Bool-cases (over chat_id now w.chat_windows)) [
                  | inl e' ↦ rw (e', resume)
                  | inr e' ↦ rw (e', resume) (judge_at user_id chat_id now _ _ c w b refl refl)
                ]))
      ])
    where
      rest : AdmissionState → M Jobs Bool
      rest of_user = lock_admission_state chat chat_id now >>= λ of_chat.
          judge user_id chat_id of_user of_chat now

  -- The answer and the committed database.
  abbrev pub Gives : Result Bool × Session Jobs → Result Bool × Database Jobs → Type 0
  Gives p q = (p.0 ≡ q.0) × (p.1.committed ≡ q.1) × (p.1.released ≡ true)
