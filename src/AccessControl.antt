-- ===== src/AccessControl.antt =====
-- apps/telegram-bot/src/accessControl.ts: the fixed-window rate limiter of the polling loop.
-- `String(chatId)` is the key, a `Text`; `Date.now()` is the argument `now`.
pub mod Bounds
pub mod Tests
use vennek.Prelude.{
  ℕ, ◌+◌, ◌-◌, Bool, true, false, ◌||◌, List, [], ◌∷◌, Option, none, some, Text, get, put, ltb, leb,
  if◌then◌else◌,
}

pub record Window : Type 0 where
  pub started_at : ℕ
  pub count : ℕ

pub record Limiter : Type 0 where
  pub limit : ℕ
  pub window_ms : ℕ
  pub windows : List (Text × Window)

abbrev pub max_safe_integer : ℕ
max_safe_integer = 9007199254740991

-- The constructor; `none` is its exception.
unfoldable pub create : ℕ → ℕ → Option Limiter
create limit window_ms =
    if (leb limit 0 || ltb max_safe_integer limit)
      || (leb window_ms 0 || ltb max_safe_integer window_ms)
    then none
    else some (record { limit = limit; window_ms = window_ms; windows = [] })

-- A window that lies in the future, or that has run out, is replaced.
unfoldable pub stale : ℕ → Window → ℕ → Bool
stale window_ms w now = ltb now w.started_at || leb window_ms (now - w.started_at)

abbrev restart : Limiter → Text → ℕ → Bool × Limiter
restart l key now =
    (true, record l { windows = put key (record { started_at = now; count = 1 }) l.windows })

unfoldable pub allow : Limiter → Text → ℕ → Bool × Limiter
unfolding stale
allow l key now = elim (get key l.windows) [
  | none ↦ restart l key now
  | some w ↦
      if stale l.window_ms w now
      then restart l key now
      else if leb l.limit w.count
      then (false, l)
      else (true, record l { windows = put key (record w { count = w.count + 1 }) l.windows })
]
