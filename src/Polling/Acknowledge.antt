-- ===== src/Polling/Acknowledge.antt =====
-- What the polling loop acknowledges: the offset in memory and the offset on disk.
use mathlib.Core.Path.{subst}
use vennek.Prelude.{
  ℕ, ◌≤◌, ◌<◌, ◌≡◌, refl, ap, sym, ◌∙◌, inl, inr, Bool, true, false, List, [], ◌∷◌, Option, none,
  some, Text, arith, Bool-cases, Option-cases,
}
use vennek.Value.{Value, read_of, positive_safe}
use vennek.Polling.Step.{
  State, World, Flow, proceed, leave, thrown, Cycle, handle_update, on_proceed, for_updates,
  on_caught, run_cycles, cycle_updates,
}
use vennek.Polling.Ends.{Ends, handle_update-Ends}

-- Offsets that never go back.
abbrev pub Forward : State → State → Type 0
Forward s t = (s.offset ≤ t.offset) × (t.saved ≤ t.offset)

Ends-Forward :
    (s : State) (update_id : ℕ) (b : Bool) (r : State × Flow)
    → s.saved ≤ s.offset
    → Ends s.offset s.saved update_id b r
    → Forward s r.0
Ends-Forward s update_id b r k (inl (f, o, v)) = (omega arith, omega arith)
Ends-Forward s update_id b r k (inr (inl (f, o, v))) = (omega arith, omega arith)
Ends-Forward s update_id b r k (inr (inr (f, e, o, v))) = (omega arith, omega arith)

handle_update-Forward :
    (find : Text → Bool) (s : State) (w : World) (update : Value)
    → s.saved ≤ s.offset
    → Forward s (handle_update find s w update).0
unfolding handle_update
handle_update-Forward find s w update k =
    elim (Option-cases (positive_safe (read_of "update_id" update))) [
      | inl e ↦ elim (Bool-cases w.aborted) [
        | inl a ↦ rw a (omega arith, k)
        | inr a ↦ rw (a, e) (omega arith, k)
      ]
      | inr (update_id, e) ↦
          Ends-Forward s update_id w.write_throws (handle_update find s w update) k
            (handle_update-Ends find s w update update_id e)
    ]

chain_offsets : (s t u : State) → Forward s t → Forward t u → Forward s u
chain_offsets s t u (a, b) (c, d) = (omega arith, d)

on_proceed-Forward :
    (s : State) (r : State × Flow) (rest : State → State × Flow)
    → Forward s r.0
    → ((t : State) → t.saved ≤ t.offset → Forward t (rest t).0)
    → Forward s (on_proceed r rest).0
on_proceed-Forward s (t, proceed) rest f g = chain_offsets s t (rest t).0 f (g t f.1)
on_proceed-Forward s (t, leave) rest f g = f
on_proceed-Forward s (t, thrown) rest f g = f

for_updates-Forward :
    (find : Text → Bool) (s : State) (updates : List (Value × World))
    → s.saved ≤ s.offset
    → Forward s (for_updates find s updates).0
unfolding for_updates
for_updates-Forward find s [] k = (omega arith, k)
for_updates-Forward find s ((update, w) ∷ updates) k =
    on_proceed-Forward s (handle_update find s w update) (λ t. for_updates find t updates)
      (handle_update-Forward find s w update k) (λ t f. for_updates-Forward find t updates f)

on_caught-Forward :
    (s : State) (aborted : Bool) (r : State × Flow) (rest : State → State)
    → Forward s r.0
    → ((t : State) → t.saved ≤ t.offset → Forward t (rest t))
    → Forward s (on_caught aborted r rest)
on_caught-Forward s true (t, proceed) rest f g = chain_offsets s t (rest t) f (g t f.1)
on_caught-Forward s true (t, leave) rest f g = chain_offsets s t (rest t) f (g t f.1)
on_caught-Forward s true (t, thrown) rest f g = f
on_caught-Forward s false (t, flow) rest f g = chain_offsets s t (rest t) f (g t f.1)

cycle_updates-Forward :
    (find : Text → Bool) (s : State) (updates : Option (List (Value × World)))
    → s.saved ≤ s.offset
    → Forward s (cycle_updates find s updates).0
cycle_updates-Forward find s none k = (omega arith, k)
cycle_updates-Forward find s (some updates) k = for_updates-Forward find s updates k

-- Over any run of the loop, whatever the API, the queue, the signal and the disk do, the offset never
-- goes back, and the offset on disk is never ahead of the one in memory if it was not at the start.
pub run_cycles-Forward :
    (find : Text → Bool) (s : State) (cycles : List Cycle)
    → s.saved ≤ s.offset
    → Forward s (run_cycles find s cycles)
unfolding run_cycles
run_cycles-Forward find s [] k = (omega arith, k)
run_cycles-Forward find s (c ∷ cycles) k = elim (Bool-cases c.aborted) [
  | inl a ↦ rw a (omega arith, k)
  | inr a ↦ rw a (
      on_caught-Forward s c.aborted_failing (cycle_updates find s (c.updates s.offset))
        (λ t. run_cycles find t cycles) (cycle_updates-Forward find s (c.updates s.offset) k)
        (λ t f. run_cycles-Forward find t cycles f))
]

-- Every update of a batch that has an identifier lies before an offset.
unfoldable pub Covers : ℕ → List (Value × World) → Type 0
Covers offset [] = Unit {0}
Covers offset ((update, w) ∷ updates) =
    ((update_id : ℕ)
      → positive_safe (read_of "update_id" update) ≡ some update_id
      → update_id < offset)
    × Covers offset updates

on_proceed-finished :
    (r : State × Flow) (rest : State → State × Flow)
    → (on_proceed r rest).1 ≡ proceed
    → (r.1 ≡ proceed) × (on_proceed r rest ≡ rest r.0)
on_proceed-finished (t, proceed) rest e = (refl, refl)
on_proceed-finished (t, leave) rest e = cc
on_proceed-finished (t, thrown) rest e = cc

Ends-finished :
    (offset saved update_id : ℕ) (b : Bool) (r : State × Flow)
    → r.1 ≡ proceed
    → Ends offset saved update_id b r
    → update_id < r.0.offset
Ends-finished offset saved update_id b r p (inl (f, o, v)) = omega arith
Ends-finished offset saved update_id b r p (inr (inl (f, o, v))) = absurd (f p)
Ends-finished offset saved update_id b r p (inr (inr (f, e, o, v))) = absurd (f p)

-- A batch that the inner loop goes through to its end is acknowledged as a whole: every update with
-- an identifier lies before the new offset.
pub for_updates-Covers :
    (find : Text → Bool) (s : State) (updates : List (Value × World))
    → s.saved ≤ s.offset
    → (for_updates find s updates).1 ≡ proceed
    → Covers (for_updates find s updates).0.offset updates
unfolding for_updates Covers
for_updates-Covers find s [] k e = tt
for_updates-Covers find s ((update, w) ∷ updates) k e =
    let r = handle_update find s w update in
    let (p, q) = on_proceed-finished r (λ t. for_updates find t updates) e in
    let f = handle_update-Forward find s w update k in
    let rest = for_updates-Forward find r.0 updates f.1 in
    (
      λ update_id id. rw q (
          let passed =
            Ends-finished s.offset s.saved update_id w.write_throws r p
              (handle_update-Ends find s w update update_id id) in
          omega (arith, passed, rest.0)),
      subst (λ x. Covers x.0.offset updates) (sym q)
          (for_updates-Covers find r.0 updates f.1 (ap (λ x. x.1) (sym q) ∙ e)),
    )
