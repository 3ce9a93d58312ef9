-- ===== src/Admission/Limiter.antt =====
-- `admitUpdate` and its helpers: at most ten updates a minute for a user and for a chat.
use vennek.Prelude.{
  ℕ, ◌+◌, Bool, true, false, ◌&&◌, ◌||◌, List, Option, none, some, Text, if◌then◌else◌, ltb, leb,
  get, put,
}
use vennek.Admission.Session.{AdmissionState, Database, M, ◌>>=◌, ◌>>◌, return, throw, statement}

abbrev pub admission_limit : ℕ
admission_limit = 10

abbrev pub admission_window_ms : ℕ
admission_window_ms = 60000

unfoldable pub within_admission_limit : AdmissionState → ℕ → Bool
within_admission_limit state now =
    leb (state.window_started_at + admission_window_ms) now
    || ltb state.accepted_count admission_limit

unfoldable pub next_admission_state : AdmissionState → ℕ → AdmissionState
next_admission_state state now =
    if leb (state.window_started_at + admission_window_ms) now
    then record { window_started_at = now; accepted_count = 1 }
    else record state { accepted_count = state.accepted_count + 1 }

pub data SubjectType : Type 0 where
  user chat : SubjectType

-- UPDATE: a row that is not there is left out.
abbrev pub update_row :
    Text → AdmissionState → List (Text × AdmissionState) → List (Text × AdmissionState)
update_row id state ws = elim (get id ws) [ none ↦ ws | some _ ↦ put id state ws ]

module _ {Jobs : Type 0} where
  abbrev pub windows_of : SubjectType → Database Jobs → List (Text × AdmissionState)
  windows_of user d = d.user_windows
  windows_of chat d = d.chat_windows

  abbrev pub with_windows :
      SubjectType → List (Text × AdmissionState) → Database Jobs → Database Jobs
  with_windows user ws d = record d { user_windows = ws }
  with_windows chat ws d = record d { chat_windows = ws }

  -- INSERT ... ON CONFLICT DO NOTHING
  unfoldable pub insert_window : SubjectType → Text → ℕ → Database Jobs → Unit {0} × Database Jobs
  insert_window kind id now d = elim (get id (windows_of kind d)) [
    | none ↦ (
      tt,
      with_windows kind
          (put id (record { window_started_at = now; accepted_count = 0 }) (windows_of kind d)) d,
    )
    | some _ ↦ (tt, d)
  ]

  abbrev pub select_window :
      SubjectType → Text → Database Jobs → Option AdmissionState × Database Jobs
  select_window kind id d = (get id (windows_of kind d), d)

  abbrev pub checked_row : Option AdmissionState → ℕ → M Jobs AdmissionState
  checked_row none now = return (record { window_started_at = now; accepted_count = 0 })
  checked_row (some row) now = if ltb admission_limit row.accepted_count then throw else return row

  unfoldable pub lock_admission_state : SubjectType → Text → ℕ → M Jobs AdmissionState
  unfolding insert_window
  lock_admission_state kind id now = do
    statement (insert_window kind id now)
    row ← statement (select_window kind id)
    checked_row row now

  unfoldable pub save_window :
      SubjectType → Text → AdmissionState → Database Jobs → Unit {0} × Database Jobs
  save_window kind id state d = (tt, with_windows kind (update_row id state (windows_of kind d)) d)

  abbrev pub the_time : Option ℕ → M Jobs ℕ
  the_time none = throw
  the_time (some now) = return now

  abbrev pub save_both : Text → Text → AdmissionState → AdmissionState → M Jobs Bool
  save_both user_id chat_id of_user of_chat = do
    statement (save_window user user_id of_user)
    statement (save_window chat chat_id of_chat)
    return true

  abbrev pub judge : Text → Text → AdmissionState → AdmissionState → ℕ → M Jobs Bool
  judge user_id chat_id of_user of_chat now =
      if within_admission_limit of_user now && within_admission_limit of_chat now
      then save_both user_id chat_id (next_admission_state of_user now)
          (next_admission_state of_chat now)
      else return false

  -- `clock` is what `SELECT clock_timestamp()` gives, `none` where `asDate` rejects it.
  unfoldable pub admit_update : Option ℕ → Text → Text → M Jobs Bool
  admit_update clock user_id chat_id = do
    read ← statement (λ d. (clock, d))
    now ← the_time read
    of_user ← lock_admission_state user user_id now
    of_chat ← lock_admission_state chat chat_id now
    judge user_id chat_id of_user of_chat now
