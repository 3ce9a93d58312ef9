-- ===== src/Admission/Session.antt =====
-- A database client inside one transaction: `committed` is what every session sees, `working` what
-- the open transaction has done so far. Times are milliseconds.
use vennek.Prelude.{ℕ, Bool, false, List, [], ◌∷◌, Text}

pub data Status : Type 0 where
  received failed : Status

-- A row of `telegram_admission_windows`: `AdmissionState`.
pub record AdmissionState : Type 0 where
  pub window_started_at : ℕ
  pub accepted_count : ℕ

-- `jobs` stands for the tables of pg-boss.
pub record Database (Jobs : Type 0) : Type 0 where
  pub updates : List (ℕ × Status)
  pub user_windows : List (Text × AdmissionState)
  pub chat_windows : List (Text × AdmissionState)
  pub jobs : Jobs

pub data Fault : Type 0 where
  fine refused lost : Fault

-- `faults` tells how the coming calls end; the calls after its last entry are fine.
pub record Session (Jobs : Type 0) : Type 0 where
  pub committed : Database Jobs
  pub working : Database Jobs
  pub in_transaction : Bool
  pub released : Bool
  pub faults : List Fault

pub data Result (A : Type 0) : Type 0 where
  ok : A → Result A
  thrown : Result A

abbrev pub M : Type 0 → Type 0 → Type 0
M Jobs A = Session Jobs → Result A × Session Jobs

module _ {Jobs : Type 0} where
  abbrev pub resume :
      {A B : Type 0} → Result A × Session Jobs → (A → M Jobs B) → Result B × Session Jobs
  resume p f = elim p.0 [ ok a ↦ f a p.1 | thrown ↦ (thrown, p.1) ]

  infixl 5 ◌>>=◌ ◌>>◌
  abbrev pub ◌>>=◌ : {A B : Type 0} → M Jobs A → (A → M Jobs B) → M Jobs B
  ◌>>=◌ m f s = resume (m s) f

  abbrev pub ◌>>◌ : {B : Type 0} → M Jobs (Unit {0}) → M Jobs B → M Jobs B
  m >> k = m >>= λ _. k

  abbrev pub return : {A : Type 0} → A → M Jobs A
  return a s = (ok a, s)

  abbrev pub throw : {A : Type 0} → M Jobs A
  throw s = (thrown, s)

  -- One awaited call.
  unfoldable pub call : {A : Type 0} → (Session Jobs → A × Session Jobs) → M Jobs A
  call f s = elim s.faults [
    | [] ↦ (ok (f s).0, (f s).1)
    | fine ∷ rest ↦ (ok (f (record s { faults = rest })).0, (f (record s { faults = rest })).1)
    | refused ∷ rest ↦ (thrown, record s { faults = rest })
    | lost ∷ rest ↦ (thrown, (f (record s { faults = rest })).1)
  ]

  -- A statement inside the transaction.
  abbrev pub statement : {A : Type 0} → (Database Jobs → A × Database Jobs) → M Jobs A
  statement f = call (λ s. ((f s.working).0, record s { working = (f s.working).1 }))

  -- `working` is what the client sees. Without an open transaction that is what is committed; in one
  -- that was left open, BEGIN gives a warning and goes on with it.
  abbrev pub begin : M Jobs (Unit {0})
  begin = call (λ s. (tt, s))

  abbrev pub commit : M Jobs (Unit {0})
  commit = call (λ s. (tt, record s { committed = s.working }))

  abbrev pub rollback : M Jobs (Unit {0})
  rollback = call (λ s. (tt, record s { working = s.committed }))

  abbrev pub set_in_transaction : Bool → M Jobs (Unit {0})
  set_in_transaction b s = (ok tt, record s { in_transaction = b })

  -- A session that has not begun, whose calls end as `faults` says.
  abbrev pub starting : Database Jobs → List Fault → Session Jobs
  starting d faults = record {
    committed = d;
    working = d;
    in_transaction = false;
    released = false;
    faults = faults;
  }
