-- ===== src/Envelope/Plain.antt =====
-- A platform that hides nothing, which has the laws of `IsNode`: the laws can hold.
use vennek.Prelude.{
  ◌-◌, ◌*◌, ◌/◌, ◌%◌, ◌≤◌, ℕ, zero, suc, ◌+◌, ◌≡◌, refl, ap, ◌∙◌, true, [], ◌∷◌, ◌++◌, Option, none,
  some, Text, if◌then◌else◌, ◌==◌, length, take, drop, replicate, arith,
}
use vennek.Value.{Value, Members, object, string, number, int, pos, own}
use vennek.Metadata.Validate.{Metadata}
use vennek.Metadata.RoundTrip.{value_of_metadata}
use vennek.Prelude.Every.{All}
use vennek.Unicode.{is_high, is_low}
use vennek.Unicode.WellFormed.{IsPlain, plain-IsWellFormed}
use vennek.Envelope.Cipher.{
  AllBytes, IsUtf16, Bytes, Node, IsNode, canonical_base64, is_base64_char,
}

-- A byte as four letters, of which the first two tell it.
letters : Bytes → Text
letters [] = []
letters (b ∷ bs) = (65 + b / 16) ∷ (65 + b % 16) ∷ 65 ∷ 65 ∷ letters bs

from_letters : Text → Bytes
from_letters (a ∷ b ∷ _ ∷ _ ∷ s) = ((a - 65) * 16 + (b - 65)) ∷ from_letters s
from_letters _ = []

from_letters-letters : (bs : Bytes) → AllBytes bs → from_letters (letters bs) ≡ bs
unfolding from_letters letters
from_letters-letters [] h = refl
from_letters-letters (b ∷ bs) h = rw (from_letters-letters bs h.1) (ap (λ k. k ∷ bs) (omega arith))

quad :
    (a b : ℕ) (s : Text)
    → is_base64_char a ≡ true
    → is_base64_char b ≡ true
    → canonical_base64 s ≡ true
    → canonical_base64 (a ∷ b ∷ 65 ∷ 65 ∷ s) ≡ true
unfolding canonical_base64 is_base64_char
quad a b [] h k l = ground arith
quad a b (d ∷ s) h k l = ground arith

letter : (k : ℕ) → k ≤ 15 → is_base64_char (65 + k) ≡ true
unfolding is_base64_char
letter k h = ground arith

canonical-letters : (bs : Bytes) → AllBytes bs → canonical_base64 (letters bs) ≡ true
unfolding letters canonical_base64
canonical-letters [] h = refl
canonical-letters (b ∷ bs) h =
    quad (65 + b / 16) (65 + b % 16) (letters bs) (letter (b / 16) (omega (arith, h.0)))
      (letter (b % 16) (omega arith)) (canonical-letters bs h.1)

-- A unit of 16 bits as two bytes.
halves : Text → Bytes
halves [] = []
halves (u ∷ s) = (u / 256) ∷ (u % 256) ∷ halves s

from_halves : Bytes → Text
from_halves (a ∷ b ∷ bs) = (a * 256 + b) ∷ from_halves bs
from_halves _ = []

from_halves-halves : (s : Text) → from_halves (halves s) ≡ s
unfolding from_halves halves
from_halves-halves [] = refl
from_halves-halves (u ∷ s) = rw (from_halves-halves s) (ap (λ k. k ∷ s) (omega arith))

halves-AllBytes : (s : Text) → All (λ u. u ≤ 65535) s → AllBytes (halves s)
unfolding halves
halves-AllBytes [] h = tt
halves-AllBytes (u ∷ s) h = (omega (arith, h.0), (omega arith, halves-AllBytes s h.1))

-- A list of numbers in unary.
tally : ℕ → Text → Text
tally zero rest = 66 ∷ rest
tally (suc n) rest = 65 ∷ tally n rest

tallies : Text → Text
unfolding tally
tallies [] = []
tallies (n ∷ s) = tally n (tallies s)

count : ℕ → Text → Text
count n [] = []
count n (c ∷ s) =
    let next = count (n + 1) s in let done = n ∷ count 0 s in if c == 65 then next else done

count-tally : (n b : ℕ) (rest : Text) → count n (tally b rest) ≡ (n + b) ∷ count 0 rest
unfolding tally count
count-tally n zero rest = ap (λ k. k ∷ count 0 rest) (omega arith)
count-tally n (suc b) rest = count-tally (n + 1) b rest ∙ ap (λ k. k ∷ count 0 rest) (omega arith)

count-tallies : (s : Text) → count 0 (tallies s) ≡ s
unfolding tallies count
count-tallies [] = refl
count-tallies (b ∷ s) =
    count-tally 0 b (tallies s) ∙ rw (count-tallies s) (ap (λ k. k ∷ s) (omega arith))

abbrev IsLetter : ℕ → Type 0
IsLetter c = (c ≤ 65535) × IsPlain c

tally-AllLetters : (n : ℕ) (rest : Text) → All IsLetter rest → All IsLetter (tally n rest)
unfolding tally is_high is_low
tally-AllLetters zero rest h = ((omega arith, (refl, refl)), h)
tally-AllLetters (suc n) rest h = ((omega arith, (refl, refl)), tally-AllLetters n rest h)

tallies-AllLetters : (s : Text) → All IsLetter (tallies s)
unfolding tallies
tallies-AllLetters [] = tt
tallies-AllLetters (n ∷ s) = tally-AllLetters n (tallies s) (tallies-AllLetters s)

AllLetters-AllUnits : (s : Text) → All IsLetter s → All (λ u. u ≤ 65535) s
AllLetters-AllUnits [] h = tt
AllLetters-AllUnits (c ∷ s) h = (h.0.0, AllLetters-AllUnits s h.1)

AllLetters-AllPlain : (s : Text) → All IsLetter s → All IsPlain s
AllLetters-AllPlain [] h = tt
AllLetters-AllPlain (c ∷ s) h = (h.0.1, AllLetters-AllPlain s h.1)

tallies-IsUtf16 : (s : Text) → IsUtf16 (tallies s)
tallies-IsUtf16 s = (
  AllLetters-AllUnits (tallies s) (tallies-AllLetters s),
  plain-IsWellFormed (tallies s) (AllLetters-AllPlain (tallies s) (tallies-AllLetters s)),
)

-- A text behind its length.
text_code : Text → Text → Text
text_code s rest = length s ∷ (s ++ rest)

text_from : Text → Text × Text
text_from [] = ([], [])
text_from (n ∷ s) = (take n s, drop n s)

text_from-code : (s rest : Text) → text_from (text_code s rest) ≡ (s, rest)
unfolding text_from text_code
text_from-code [] rest = refl
text_from-code (c ∷ s) rest = ap (λ p. (c ∷ p.0, p.1)) (text_from-code s rest)

maybe_code : Option Text → Text → Text
unfolding text_code
maybe_code none rest = 0 ∷ rest
maybe_code (some s) rest = 1 ∷ text_code s rest

maybe_from : Text → Option Text × Text
unfolding text_from
maybe_from [] = (none, [])
maybe_from (n ∷ s) = if n == 0 then (none, s) else (some (text_from s).0, (text_from s).1)

size_code : Option ℕ → Text
size_code none = []
size_code (some n) = n ∷ []

size_from : Text → Option ℕ
size_from [] = none
size_from (n ∷ s) = some n

metadata_code : Metadata → Text
unfolding text_code maybe_code size_code
metadata_code m = text_code m.caption (
    text_code m.file_id (
      text_code m.file_unique_id
        (maybe_code m.file_name (maybe_code m.mime (size_code m.file_size)))))

metadata_from : Text → Metadata
metadata_from t =
    let c = text_from t in
    let f = text_from c.1 in
    let u = text_from f.1 in
    let name = maybe_from u.1 in
    let mime = maybe_from name.1 in
    record {
      caption = c.0;
      file_id = f.0;
      file_unique_id = u.0;
      file_name = name.0;
      mime = mime.0;
      file_size = size_from mime.1;
    }

abbrev text_or_empty : Option Value → Text
text_or_empty (some (string s)) = s
text_or_empty _ = []

abbrev text_or_none : Option Value → Option Text
text_or_none (some (string s)) = some s
text_or_none _ = none

abbrev size_or_none : Option Value → Option ℕ
size_or_none (some (number (int (pos n)))) = some n
size_or_none _ = none

abbrev metadata_of : Members → Metadata
metadata_of ms = record {
  caption = text_or_empty (own "caption" ms);
  file_id = text_or_empty (own "fileId" ms);
  file_unique_id = text_or_empty (own "fileUniqueId" ms);
  file_name = text_or_none (own "fileName" ms);
  mime = text_or_none (own "mime" ms);
  file_size = size_or_none (own "fileSize" ms);
}

written : Value → Text
unfolding own metadata_code
written (object ms) = metadata_code (metadata_of ms)
written _ = []

written-value :
    (c f u : Text) (name mime : Option Text) (size : Option ℕ)
    → let m : Metadata = record {
      caption = c;
      file_id = f;
      file_unique_id = u;
      file_name = name;
      mime = mime;
      file_size = size;
    } in
      written (value_of_metadata m) ≡ metadata_code m
unfolding value_of_metadata written own
written-value c f u none none none = refl
written-value c f u none none (some n) = refl
written-value c f u none (some t) none = refl
written-value c f u none (some t) (some n) = refl
written-value c f u (some s) none none = refl
written-value c f u (some s) none (some n) = refl
written-value c f u (some s) (some t) none = refl
written-value c f u (some s) (some t) (some n) = refl

maybe_from-code : (o : Option Text) (rest : Text) → maybe_from (maybe_code o rest) ≡ (o, rest)
unfolding maybe_from maybe_code
maybe_from-code none rest = refl
maybe_from-code (some s) rest = ap (λ p. (some p.0, p.1)) (text_from-code s rest)

size_from-code : (o : Option ℕ) → size_from (size_code o) ≡ o
unfolding size_from size_code
size_from-code none = refl
size_from-code (some n) = refl

metadata_from-code : (m : Metadata) → metadata_from (metadata_code m) ≡ m
unfolding metadata_from metadata_code
metadata_from-code m =
    rw
      (
        text_from-code m.caption (
            text_code m.file_id (
              text_code m.file_unique_id
                (maybe_code m.file_name (maybe_code m.mime (size_code m.file_size))))),
        text_from-code m.file_id (
            text_code m.file_unique_id
              (maybe_code m.file_name (maybe_code m.mime (size_code m.file_size)))),
        text_from-code m.file_unique_id
            (maybe_code m.file_name (maybe_code m.mime (size_code m.file_size))),
        maybe_from-code m.file_name (maybe_code m.mime (size_code m.file_size)),
        maybe_from-code m.mime (size_code m.file_size),
        size_from-code m.file_size,
      )
      refl

unfoldable pub plain_node : Node
unfolding letters from_letters halves from_halves tally tallies count written metadata_from
    metadata_code text_from maybe_from size_from text_code maybe_code size_code value_of_metadata
plain_node = record {
  seal = λ key iv aad plain. (halves plain, replicate 16 0);
  unseal = λ key iv aad ciphertext tag. some (from_halves ciphertext);
  to_base64 = letters;
  from_base64 = from_letters;
  stringify = λ v. tallies (written v);
  parse = λ t. some (value_of_metadata (metadata_from (count 0 t)));
}

pub plain_node-IsNode : IsNode plain_node
unfolding plain_node
plain_node-IsNode = record {
  base64_canonical = canonical-letters;
  base64_decodes = from_letters-letters;
  sealed_bytes = λ key iv aad plain h. (halves-AllBytes plain h.0, no_tag);
  opens = λ key iv aad plain h. ap some (from_halves-halves plain);
  json_text = λ m. tallies-IsUtf16 (written (value_of_metadata m));
  json = λ m h.
      ap (λ x. some (value_of_metadata (metadata_from x)))
        (count-tallies (written (value_of_metadata m)))
      ∙ ap (λ x. some (value_of_metadata x))
          (ap metadata_from
              (written-value m.caption m.file_id m.file_unique_id m.file_name m.mime m.file_size)
            ∙ metadata_from-code m);
}
  where
    no_tag : AllBytes (replicate 16 0)
    no_tag = omega arith
