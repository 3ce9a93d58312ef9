-- ===== src/Prelude/Spaces.antt =====
-- `trimStart` and `trimEnd` take spaces off and nothing else.
use Prim.Native.Nat.{ℕ, ◌≤◌}
use mathlib.Core.Path.{◌≡◌, refl, sym, ap, ◌∙◌}
use mathlib.Core.Logic.{inl, inr}
use mathlib.Core.Bool.{true}
use mathlib.Core.List.{[], ◌∷◌, ◌++◌, reverse, reverse-append, reverse-reverse, append-nil}
use native.Mathlib.Omega.{arith}
use vennek.Prelude.Lists.{length, take, drop, length-append, take-append-drop}
use vennek.Prelude.Texts.{Text, is_space, trim_start, trim_end, trim}
use vennek.Prelude.Tests.{Bool-cases, if◌then◌else◌}

abbrev pub AllSpaces : Text → Type 0
AllSpaces [] = Unit {0}
AllSpaces (c ∷ s) = (is_space c ≡ true) × AllSpaces s

pub AllSpaces-append : (s t : Text) → AllSpaces s → AllSpaces t → AllSpaces (s ++ t)
AllSpaces-append [] t hs ht = ht
AllSpaces-append (c ∷ s) t hs ht = (hs.0, AllSpaces-append s t hs.1 ht)

pub AllSpaces-reverse : (s : Text) → AllSpaces s → AllSpaces (reverse s)
AllSpaces-reverse [] h = tt
AllSpaces-reverse (c ∷ s) h =
    rw (reverse-append (c ∷ []) s)
      (AllSpaces-append (reverse s) (c ∷ []) (AllSpaces-reverse s h.1) (h.0, tt))

pub trim_start-splits :
    (s : Text) → (spaces : Text) × AllSpaces spaces × (spaces ++ trim_start s ≡ s)
unfolding trim_start
trim_start-splits [] = ([], tt, refl)
trim_start-splits (c ∷ s) = elim (Bool-cases (is_space c)) [
  | inl space ↦
      let (spaces, all, e) = trim_start-splits s in
      (c ∷ spaces, (space, all), rw (trim_start, space) (ap (◌∷◌ c) e))
  | inr solid ↦ ([], tt, rw (trim_start, solid) refl)
]

pub trim_end-splits : (s : Text) → (spaces : Text) × AllSpaces spaces × (trim_end s ++ spaces ≡ s)
unfolding trim_end
trim_end-splits s =
    let (spaces, all, e) = trim_start-splits (reverse s) in
    (
      reverse spaces,
      AllSpaces-reverse spaces all,
      sym (reverse-append spaces (trim_start (reverse s))) ∙ ap reverse e ∙ reverse-reverse s,
    )

pub length-trim_start-le : (s : Text) → length (trim_start s) ≤ length s
length-trim_start-le s =
    let (spaces, all, e) = trim_start-splits s in
    omega (arith, length-append spaces (trim_start s), ap length e)

pub length-trim_end-le : (s : Text) → length (trim_end s) ≤ length s
length-trim_end-le s =
    let (spaces, all, e) = trim_end-splits s in
    omega (arith, length-append (trim_end s) spaces, ap length e)

pub length-trim-le : (s : Text) → length (trim s) ≤ length s
unfolding trim
length-trim-le s = omega (arith, length-trim_end-le (trim_start s), length-trim_start-le s)

-- The units of a text that are no spaces.
unfoldable pub solid : Text → Text
solid [] = []
solid (c ∷ s) = if is_space c then solid s else c ∷ solid s

pub solid-append : (s t : Text) → solid (s ++ t) ≡ solid s ++ solid t
unfolding solid
solid-append [] t = refl
solid-append (c ∷ s) t = elim (Bool-cases (is_space c)) [
  | inl space ↦ rw (solid, space) (solid-append s t)
  | inr other ↦ rw (solid, other) (ap (◌∷◌ c) (solid-append s t))
]

pub solid_spaces : (s : Text) → AllSpaces s → solid s ≡ []
unfolding solid
solid_spaces [] h = refl
solid_spaces (c ∷ s) h = rw (solid, h.0) (solid_spaces s h.1)

pub solid-trim_start : (s : Text) → solid (trim_start s) ≡ solid s
solid-trim_start s =
    let (spaces, all, e) = trim_start-splits s in
    sym (ap (λ t. t ++ solid (trim_start s)) (solid_spaces spaces all))
    ∙ sym (solid-append spaces (trim_start s))
    ∙ ap solid e

pub solid-trim_end : (s : Text) → solid (trim_end s) ≡ solid s
solid-trim_end s =
    let (spaces, all, e) = trim_end-splits s in
    sym (append-nil (solid (trim_end s)))
    ∙ sym (ap (◌++◌ (solid (trim_end s))) (solid_spaces spaces all))
    ∙ sym (solid-append (trim_end s) spaces)
    ∙ ap solid e

pub solid-trim : (s : Text) → solid (trim s) ≡ solid s
unfolding trim
solid-trim s = solid-trim_end (trim_start s) ∙ solid-trim_start s

pub solid-cut : (n : ℕ) (s : Text) → solid (take n s) ++ solid (drop n s) ≡ solid s
solid-cut n s = sym (solid-append (take n s) (drop n s)) ∙ ap solid (take-append-drop n s)
