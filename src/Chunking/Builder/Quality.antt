-- ===== src/Chunking/Builder/Quality.antt =====
-- chunkDocument.ts: qualities of chunks that the closures keep, and the sizes of pieces.
use vennek.Prelude.{
  ℕ, ◌+◌, ◌≤◌, ◌≡◌, refl, Bool, true, false, Option, none, some, List, [], ◌∷◌, ◌++◌, Text,
  if◌then◌else◌, length, arith,
}
use vennek.Prelude.Every.{All}
use vennek.Chunking.Split.{split_prose, split_code}
use vennek.Chunking.Split.Ends.{Parts}
use vennek.Chunking.Builder.{
  target_chars, hard_cap_chars, out_of_fuel, Result, ok, err, ◌>>=◌, from_option, Piece,
  payload_chars, joins,
}

-- A result with the property, or an error of the code: not the end of the fuel.
abbrev pub Holds {ℓ} : {A : Type ℓ} → (A → Type 0) → Result A → Type 0
Holds P (ok a) = P a
Holds P (err out_of_fuel) = ⊥
Holds P (err _) = Unit {0}

pub Holds-bind {ℓ κ} :
    {A : Type ℓ} {B : Type κ} (P : A → Type 0) (Q : B → Type 0) (m : Result A) (f : A → Result B)
    → Holds P m
    → ((a : A) → P a → Holds Q (f a))
    → Holds Q (m >>= f)
Holds-bind P Q (ok a) f hm hf = hf a hm
Holds-bind P Q (err out_of_fuel) f hm hf = hm
Holds-bind P Q (err _) f hm hf = tt

pub Holds-if {ℓ} :
    {A : Type ℓ} (P : A → Type 0) (test : Bool) (x y : Result A)
    → (test ≡ true → Holds P x)
    → (test ≡ false → Holds P y)
    → Holds P (if test then x else y)
Holds-if P true x y hx hy = hx refl
Holds-if P false x y hx hy = hy refl

pub from_option-Holds :
    (P : Text → Type 0) (r : Option (List Text)) → Parts P r → Holds (All P) (from_option r)
unfolding from_option
from_option-Holds P none h = h
from_option-Holds P (some pieces) h = h

-- Qualities of headings, of texts before they are cut, and of pieces.
pub record Quality : Type 1 where
  pub IsHeading : Text → Type 0
  pub IsWhole : Text → Type 0
  pub IsPart : Text → Type 0
  pub split_prose-Parts :
      (text : Text) → IsWhole text → Parts IsPart (split_prose text target_chars hard_cap_chars)
  pub split_code-Parts :
      (text : Text) → IsWhole text → Parts IsPart (split_code text hard_cap_chars)
  pub join-IsPart :
      (s t : Text)
      → IsPart s
      → IsPart t
      → length s + 2 + length t ≤ target_chars
      → IsPart (s ++ 10 ∷ 10 ∷ t)

unfoldable pub total_chars : List Piece → ℕ
total_chars [] = 0
total_chars (piece ∷ pieces) = payload_chars piece + total_chars pieces

pub total_chars-append :
    (ps qs : List Piece) → total_chars (ps ++ qs) ≡ total_chars ps + total_chars qs
unfolding total_chars
total_chars-append [] qs = omega arith
total_chars-append (p ∷ ps) qs = omega (arith, total_chars-append ps qs)

pub joins-le :
    (heading piece : Text) (current : Piece)
    → joins heading piece current ≡ true
    → length current.content + 2 + length piece ≤ target_chars
unfolding joins
joins-le heading piece current fits = ground arith
