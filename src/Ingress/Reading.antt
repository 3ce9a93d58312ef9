-- ===== src/Ingress/Reading.antt =====
-- What the bounded read of a body returns.
use vennek.Prelude.{
  ℕ, ◌+◌, ◌-◌, ◌≤◌, ◌≡◌, refl, ap, sym, ◌∙◌, ◌↔◌, false, List, [], ◌∷◌, ◌++◌, Option, none, some,
  ltb, length, length-append, arith, Bool-cases, inl, inr,
}
use mathlib.Core.List.{append-nil, append_assoc}
use vennek.Ingress.Body.{
  Read, chunk, failed, body, read_loop, read_body, max_body_bytes, max_empty_reads,
}

abbrev prepend : List ℕ → Option (List ℕ) → Option (List ℕ)
prepend c none = none
prepend c (some cs) = some (c ++ cs)

-- The bytes of a stream, where no read failed.
unfoldable pub contents : List Read → Option (List ℕ)
contents [] = some []
contents (failed ∷ reads) = none
contents (chunk c ∷ reads) = prepend c (contents reads)

abbrev one_if_empty : List ℕ → ℕ
one_if_empty [] = 1
one_if_empty (b ∷ bs) = 0

unfoldable pub empty_reads : List Read → ℕ
empty_reads [] = 0
empty_reads (failed ∷ reads) = empty_reads reads
empty_reads (chunk c ∷ reads) = one_if_empty c + empty_reads reads

body_injective : (a b : List ℕ) → body b ≡ body a → a ≡ b
body_injective a b e = cc

not_ltb : (a b : ℕ) → ltb a b ≡ false → b ≤ a
not_ltb a b h = ground arith

step_empty :
    (acc : List ℕ) (e : ℕ) (reads : List Read)
    → ltb max_empty_reads (e + 1) ≡ false
    → read_loop acc e (chunk [] ∷ reads) ≡ read_loop acc (e + 1) reads
unfolding read_loop
step_empty acc e reads fits = rw (fits, read_loop) refl

step_bytes :
    (acc : List ℕ) (e b : ℕ) (bs : List ℕ) (reads : List Read)
    → ltb (max_body_bytes - length acc) (length (b ∷ bs)) ≡ false
    → read_loop acc e (chunk (b ∷ bs) ∷ reads) ≡ read_loop (acc ++ b ∷ bs) e reads
unfolding read_loop
step_bytes acc e b bs reads fits = ground arith

abbrev Accepts : (acc : List ℕ) (e : ℕ) → List Read → List ℕ → Type 0
Accepts acc e reads bytes =
    (rest : List ℕ) × (contents reads ≡ some rest)
    × (bytes ≡ acc ++ rest)
    × (length bytes ≤ max_body_bytes)
    × (e + empty_reads reads ≤ max_empty_reads)

read_loop_sound :
    (acc : List ℕ) (e : ℕ) (reads : List Read) (bytes : List ℕ)
    → length acc ≤ max_body_bytes
    → e ≤ max_empty_reads
    → read_loop acc e reads ≡ body bytes
    → Accepts acc e reads bytes
unfolding read_loop contents empty_reads
read_loop_sound acc e [] bytes l h r = (
  [],
  refl,
  body_injective bytes acc r ∙ sym (append-nil acc),
  rw (body_injective bytes acc r) l,
  omega arith,
)
read_loop_sound acc e (failed ∷ reads) bytes l h r = cc
read_loop_sound acc e (chunk [] ∷ reads) bytes l h r =
    elim (Bool-cases (ltb max_empty_reads (e + 1))) [
      | inl over ↦ ground arith
      | inr fits ↦
          let (rest, c, q, b, m) =
            read_loop_sound acc (e + 1) reads bytes l (not_ltb _ _ fits)
              (sym (step_empty acc e reads fits) ∙ r) in
          (rest, rw c refl, q, b, omega arith)
    ]
read_loop_sound acc e (chunk (b ∷ bs) ∷ reads) bytes l h r =
    elim (Bool-cases (ltb (max_body_bytes - length acc) (length (b ∷ bs)))) [
      | inl over ↦ ground arith
      | inr fits ↦
          let (rest, c, q, k, m) =
            read_loop_sound (acc ++ b ∷ bs) e reads bytes
              (omega (arith, length-append acc (b ∷ bs), not_ltb _ _ fits)) h
              (sym (step_bytes acc e b bs reads fits) ∙ r) in
          ((b ∷ bs) ++ rest, rw c refl, q ∙ append_assoc acc (b ∷ bs) rest, k, omega arith)
    ]

tail_nil : (rest : List ℕ) → ◌≡◌ {A = Option (List ℕ)} (some []) (some rest) → rest ≡ []
tail_nil rest e = cc

without_nil : (o : Option (List ℕ)) (rest : List ℕ) → prepend [] o ≡ some rest → o ≡ some rest
without_nil none rest e = e
without_nil (some cs) rest e = e

split_prepend :
    (c : List ℕ) (o : Option (List ℕ)) (rest : List ℕ)
    → prepend c o ≡ some rest
    → (more : List ℕ) × (o ≡ some more) × (rest ≡ c ++ more)
split_prepend c none rest e = cc
split_prepend c (some cs) rest e = (cs, refl, cc)

read_loop_complete :
    (acc : List ℕ) (e : ℕ) (reads : List Read) (rest : List ℕ)
    → contents reads ≡ some rest
    → length (acc ++ rest) ≤ max_body_bytes
    → e + empty_reads reads ≤ max_empty_reads
    → read_loop acc e reads ≡ body (acc ++ rest)
unfolding read_loop contents empty_reads
read_loop_complete acc e [] rest c l h = rw (tail_nil rest c) (sym (ap body (append-nil acc)))
read_loop_complete acc e (failed ∷ reads) rest c l h = cc
read_loop_complete acc e (chunk [] ∷ reads) rest c l h =
    elim (Bool-cases (ltb max_empty_reads (e + 1))) [
      | inl over ↦ ground arith
      | inr fits ↦
          step_empty acc e reads fits
          ∙ read_loop_complete acc (e + 1) reads rest (without_nil _ rest c) l (omega arith)
    ]
read_loop_complete acc e (chunk (b ∷ bs) ∷ reads) rest c l h =
    let (more, got, q) = split_prepend (b ∷ bs) (contents reads) rest c in
    elim (Bool-cases (ltb (max_body_bytes - length acc) (length (b ∷ bs)))) [
      | inl over ↦ ground (arith, length-append acc rest, length-append (b ∷ bs) more)
      | inr fits ↦
          step_bytes acc e b bs reads fits
          ∙ rw (q, sym (append_assoc acc (b ∷ bs) more))
              (read_loop_complete (acc ++ b ∷ bs) e reads more got
                (rw (append_assoc acc (b ∷ bs) more, sym q) l) (omega arith))
    ]

-- A body is read exactly when no read failed, at most 8 reads were empty and the bytes together are
-- at most 262144; what is read is all the bytes in order.
pub read_body_iff :
    (reads : List Read) (bytes : List ℕ)
    → (read_body (some reads) ≡ body bytes) ↔ (
        (contents reads ≡ some bytes)
        × (length bytes ≤ max_body_bytes)
        × (empty_reads reads ≤ max_empty_reads))
unfolding read_body
read_body_iff reads bytes = (
  λ r.
      let (rest, c, q, b, m) = read_loop_sound [] 0 reads bytes (omega arith) (omega arith) r in
      (rw q c, b, omega arith),
  λ h. read_loop_complete [] 0 reads bytes h.0 h.1 (omega arith),
)
