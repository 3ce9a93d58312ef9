-- ===== src/Prelude/Tables.antt =====
-- Where an element stands in a longer list, and what a dictionary gives after `put`.
use Prim.Native.Nat.{ℕ, zero, suc}
use mathlib.Core.Path.{◌≡◌, refl, sym, ap, ◌∙◌}
use mathlib.Core.Logic.{◌⊎◌, inl, inr}
use mathlib.Core.Bool.{false}
use mathlib.Core.List.{List, [], ◌∷◌, ◌++◌}
use mathlib.Core.Option.{some}
use vennek.Prelude.Tests.{if_true, if_false, Bool-cases}
use vennek.Prelude.Lists.{length, get_elem?, some_equal}
use vennek.Prelude.Texts.{Text, same, same_iff, get, put, get-put}

module _ {ℓ} {A : Type ℓ} where
  pub get_elem?-append :
      (xs ys : List A) (i : ℕ) {item : A}
      → get_elem? xs i ≡ some item
      → get_elem? (xs ++ ys) i ≡ some item
  get_elem?-append [] ys i h = cc
  get_elem?-append (x ∷ xs) ys zero h = h
  get_elem?-append (x ∷ xs) ys (suc i) h = get_elem?-append xs ys i h

  pub get_elem?-last : (xs : List A) (x : A) → get_elem? (xs ++ x ∷ []) (length xs) ≡ some x
  get_elem?-last [] x = refl
  get_elem?-last (y ∷ xs) x = get_elem?-last xs x

  -- An element of the longer list is an old one or the new one.
  pub get_elem?-snoc :
      (xs : List A) (x item : A) (i : ℕ)
      → get_elem? (xs ++ x ∷ []) i ≡ some item
      → (get_elem? xs i ≡ some item) ⊎ ((i ≡ length xs) × (item ≡ x))
  get_elem?-snoc [] x item zero h = inr (refl, cc)
  get_elem?-snoc [] x item (suc i) h = cc
  get_elem?-snoc (y ∷ xs) x item zero h = inl h
  get_elem?-snoc (y ∷ xs) x item (suc i) h = elim (get_elem?-snoc xs x item i h) [
    | inl old ↦ inl old
    | inr (e, new) ↦ inr (ap suc e, new)
  ]

module _ {ℓ} {V : Type ℓ} (table : List (Text × V)) (key : Text) (value : V) where
  pub put-same : get key (put key value table) ≡ some value
  put-same =
      get-put key key value table ∙ if_true (some value) (get key table) ((same_iff key key).1 refl)

  pub put-other : (j : Text) → same key j ≡ false → get j (put key value table) ≡ get j table
  put-other j e = get-put key j value table ∙ if_false (some value) (get j table) e

  pub put-cases :
      (j : Text) (n : V)
      → get j (put key value table) ≡ some n
      → ((key ≡ j) × (n ≡ value)) ⊎ (get j table ≡ some n)
  put-cases j n h = elim (Bool-cases (same key j)) [
    | inl e ↦
        let new : some value ≡ some n =
          sym (get-put key j value table ∙ if_true (some value) (get j table) e) ∙ h in
        inl ((same_iff key j).0 e, some_equal n value (sym new))
    | inr e ↦ inr (sym (put-other j e) ∙ h)
  ]
