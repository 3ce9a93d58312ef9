-- ===== src/AccessControl/Bounds.antt =====
-- How many calls of `FixedWindowRateLimiter.allow` succeed for one chat, whatever the other chats do.
use vennek.Prelude.{
  ℕ, suc, ◌+◌, ◌-◌, ◌*◌, ◌≤◌, ◌<◌, length, min, ◌≡◌, refl, ◌∙◌, ◌⊎◌, Bool, true, false, List, [],
  ◌∷◌, Option, none, some, Text, leb, get, get-put, same, same_iff, if◌then◌else◌, arith,
  Bool-cases, Option-cases, inl, inr,
}
use vennek.AccessControl.{Window, Limiter, stale, allow}

-- A call: the chat and the time.
abbrev pub Call : Type 0
Call = Text × ℕ

-- The answers that one chat gets in a run of calls.
unfoldable pub answers : Text → Limiter → List Call → List Bool
answers k l [] = []
answers k l ((j, t) ∷ cs) =
    let rest = answers k (allow l j t).1 cs in if same j k then (allow l j t).0 ∷ rest else rest

unfoldable pub calls_of : Text → List Call → List Call
calls_of k [] = []
calls_of k ((j, t) ∷ cs) = if same j k then (j, t) ∷ calls_of k cs else calls_of k cs

unfoldable pub granted : List Bool → ℕ
granted [] = 0
granted (true ∷ bs) = suc (granted bs)
granted (false ∷ bs) = granted bs

-- The times of the calls never go back, start at `lo` and end before `hi`.
abbrev pub Within : ℕ → ℕ → List Call → Type 0
Within lo hi [] = Unit {0}
Within lo hi ((j, t) ∷ cs) = (lo ≤ t) × (t < hi) × Within t hi cs

abbrev window_of : Text → Limiter → Option Window
window_of k l = get k l.windows

-- One chat's window by itself: the answer, and the window left behind.
next : (limit window_ms : ℕ) → Option Window → ℕ → Bool × Window
unfolding stale
next limit window_ms none t = (true, record { started_at = t; count = 1 })
next limit window_ms (some w) t =
    if stale window_ms w t
    then (true, record { started_at = t; count = 1 })
    else if leb limit w.count
    then (false, w)
    else (true, record w { count = w.count + 1 })

module _ (l : Limiter) (j : Text) (t : ℕ) where
  allow_config : ((allow l j t).1.limit ≡ l.limit) × ((allow l j t).1.window_ms ≡ l.window_ms)
  unfolding allow
  allow_config = ground arith

  allow_other : (k : Text) → same j k ≡ false → window_of k (allow l j t).1 ≡ window_of k l
  unfolding allow
  allow_other k e = elim (Option-cases (get j l.windows)) [
    | inl absent ↦ rw (absent, allow) (rw (get-put j k _ l.windows, e))
    | inr (w, found) ↦
        rw (found, allow)
          (ground (
            arith,
            get-put j k (record { started_at = t; count = 1 }) l.windows,
            get-put j k (record w { count = w.count + 1 }) l.windows,
          ))
  ]

  allow_own :
      ((allow l j t).0 ≡ (next l.limit l.window_ms (window_of j l) t).0)
      × (window_of j (allow l j t).1 ≡ some (next l.limit l.window_ms (window_of j l) t).1)
  unfolding allow next
  allow_own = elim (Option-cases (get j l.windows)) [
    | inl absent ↦
        rw (absent, allow, next) (refl, rw (get-put j j _ l.windows, (same_iff j j).1 refl))
    | inr (w, found) ↦
        rw (found, allow, next)
          (ground (
            arith,
            same_iff j j,
            found,
            get-put j j (record { started_at = t; count = 1 }) l.windows,
            get-put j j (record w { count = w.count + 1 }) l.windows,
          ))
  ]

-- Two limiters that one chat cannot tell apart.
abbrev Agree : Text → Limiter → Limiter → Type 0
Agree k l m = (l.limit ≡ m.limit) × (l.window_ms ≡ m.window_ms) × (window_of k l ≡ window_of k m)

answers-Agree :
    (k : Text) (l m : Limiter) (cs : List Call)
    → Agree k l m
    → answers k l cs ≡ answers k m (calls_of k cs)
unfolding answers calls_of
answers-Agree k l m [] a = refl
answers-Agree k l m ((j, t) ∷ cs) a = elim (Bool-cases (same j k)) [
  | inl hit ↦ rw hit (
      ground (
        arith,
        allow_own l j t,
        allow_own m j t,
        allow_config l j t,
        allow_config m j t,
        (same_iff j k).0 hit,
        hit,
        answers-Agree k (allow l j t).1 (allow m j t).1 cs,
      ))
  | inr miss ↦ rw miss (
      answers-Agree k (allow l j t).1 m cs
        (ground (arith, allow_config l j t, allow_other l j t k miss)))
]

-- The other chats change nothing: a chat gets the answers that it would get alone.
pub answers-calls_of :
    (k : Text) (l : Limiter) (cs : List Call) → answers k l cs ≡ answers k l (calls_of k cs)
answers-calls_of k l cs = answers-Agree k l l cs (refl, refl, refl)

-- A call that meets its chat's window.
meets_window :
    (l : Limiter) (k : Text) (t : ℕ) (w : Window)
    → window_of k l ≡ some w
    → w.started_at ≤ t
    → t < w.started_at + l.window_ms
    → ((l.limit ≤ w.count) × ((allow l k t).0 ≡ false) × (window_of k (allow l k t).1 ≡ some w))
      ⊎ ((w.count < l.limit)
          × ((allow l k t).0 ≡ true)
          × (window_of k (allow l k t).1 ≡ some (record w { count = w.count + 1 })))
unfolding next
meets_window l k t w found s h = ground (arith, allow_own l k t)

-- The calls of one chat that meet one window: as many as the limit leaves are granted.
bounded_window :
    (k : Text) (l : Limiter) (limit window_ms : ℕ) (w : Window) (lo hi : ℕ) (cs : List Call)
    → l.limit ≡ limit
    → l.window_ms ≡ window_ms
    → window_of k l ≡ some w
    → w.count ≤ limit
    → w.started_at ≤ lo
    → hi ≤ w.started_at + window_ms
    → Within lo hi cs
    → granted (answers k l cs) ≡ min (limit - w.count) (length (calls_of k cs))
unfolding answers calls_of granted
bounded_window k l limit window_ms w lo hi [] _ _ found c s h v = omega arith
bounded_window k l limit window_ms w lo hi ((j, t) ∷ cs) el ew found c s h (after, before, v) =
    elim (Bool-cases (same j k)) [
      | inl hit ↦
          rw hit
            (elim (meets_window l j t w (rw ((same_iff j k).0 hit) found) (omega arith)
              (omega arith)) [
                | inl (spent, no_, kept) ↦ rw no_ (
                    omega (
                      arith,
                      bounded_window k (allow l j t).1 limit window_ms w t hi cs (config.0 ∙ el)
                          (config.1 ∙ ew) (rw (← (same_iff j k).0 hit) kept) c (omega arith) h v,
                    ))
                | inr (room, yes_, kept) ↦ rw yes_ (
                    omega (
                      arith,
                      bounded_window k (allow l j t).1 limit window_ms
                          (record w { count = w.count + 1 }) t hi cs (config.0 ∙ el) (config.1 ∙ ew)
                          (rw (← (same_iff j k).0 hit) kept) (omega arith) (omega arith) h v,
                    ))
              ])
      | inr miss ↦ rw miss (
          bounded_window k (allow l j t).1 limit window_ms w t hi cs (config.0 ∙ el) (config.1 ∙ ew)
            (allow_other l j t k miss ∙ found) c (omega arith) h v)
    ]
  where
    config : ((allow l j t).1.limit ≡ l.limit) × ((allow l j t).1.window_ms ≡ l.window_ms)
    config = allow_config l j t

abbrev room : ℕ → Option Window → ℕ
room limit none = 0
room limit (some w) = limit - w.count

room_le : (limit : ℕ) (w : Option Window) → room limit w ≤ limit
room_le limit none = omega arith
room_le limit (some w) = omega arith

-- A call starts a window, or uses up a place in one, or is refused by a full one.
room_lem :
    (l : Limiter) (k : Text) (t : ℕ)
    → (((allow l k t).0 ≡ true)
        × (window_of k (allow l k t).1 ≡ some (record { started_at = t; count = 1 })))
      ⊎ (granted ((allow l k t).0 ∷ []) + room l.limit (window_of k (allow l k t).1)
          ≡ room l.limit (window_of k l))
unfolding next granted
room_lem l k t = elim (Option-cases (window_of k l)) [
  | inl absent ↦ ground (arith, allow_own l k t, absent)
  | inr (w, found) ↦ ground (arith, allow_own l k t, found)
]

granted_interval :
    (k : Text) (l : Limiter) (limit window_ms lo hi : ℕ) (cs : List Call)
    → l.limit ≡ limit
    → l.window_ms ≡ window_ms
    → 1 ≤ limit
    → hi ≤ lo + window_ms
    → Within lo hi cs
    → granted (answers k l cs) ≤ limit + room limit (window_of k l)
unfolding answers granted
granted_interval k l limit window_ms lo hi [] el ew p h v = omega arith
granted_interval k l limit window_ms lo hi ((j, t) ∷ cs) el ew p h (after, before, v) =
    let config = allow_config l j t in
    let rest =
      granted_interval k (allow l j t).1 limit window_ms t hi cs (config.0 ∙ el) (config.1 ∙ ew) p
        (omega arith) v in
    elim (Bool-cases (same j k)) [
      | inl hit ↦ rw hit (elim (room_lem l j t) [
        | inl (ok, new) ↦ rw ok (
            omega (
              arith,
              bounded_window k (allow l j t).1 limit window_ms
                  (record { started_at = t; count = 1 }) t hi cs (config.0 ∙ el) (config.1 ∙ ew)
                  (rw (← (same_iff j k).0 hit) new) p (omega arith) (omega arith) v,
            ))
        | inr same_room ↦ ground (arith, same_room, rest, (same_iff j k).0 hit)
      ])
      | inr miss ↦ rw miss (ground (arith, rest, allow_other l j t k miss))
    ]

-- A chat that starts with no window gets exactly the first `limit` of its calls within one window.
pub granted-fresh_window :
    (k : Text) (l : Limiter) (t : ℕ) (cs : List Call)
    → window_of k l ≡ none
    → 1 ≤ l.limit
    → Within t (t + l.window_ms) cs
    → granted (answers k l ((k, t) ∷ cs)) ≡ min l.limit (length (calls_of k ((k, t) ∷ cs)))
unfolding answers calls_of granted next
granted-fresh_window k l t cs absent p v = rw ((same_iff k k).1 refl) (
    ground (
      arith,
      absent,
      allow_own l k t,
      allow_config l k t,
      bounded_window k (allow l k t).1 l.limit l.window_ms (record { started_at = t; count = 1 }) t
          (t + l.window_ms) cs,
    ))

-- In any stretch of time of one window's length, over which the times of the calls never go back, a
-- chat gets at most twice the limit, if that is at least one, whatever happened before and whatever
-- the other chats do.
pub granted-le-twice_limit :
    (k : Text) (l : Limiter) (lo : ℕ) (cs : List Call)
    → 1 ≤ l.limit
    → Within lo (lo + l.window_ms) cs
    → granted (answers k l cs) ≤ 2 * l.limit
granted-le-twice_limit k l lo cs p v = omega (
  arith,
  granted_interval k l l.limit l.window_ms lo (lo + l.window_ms) cs refl refl p (omega arith) v,
  room_le l.limit (window_of k l),
)
