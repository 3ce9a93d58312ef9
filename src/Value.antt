-- ===== src/Value.antt =====
-- The JavaScript values that the program receives as `unknown`: what `JSON.parse` returns. Objects
-- are plain, with their own keys in order; a number is an integer or something else.
pub mod Decimal
pub mod Tests
use Prim.Native.String.{String}
use text.Mathlib.Text.{◌==◌ as str_eq}
use vennek.Prelude.{
  ℕ, suc, ◌≤◌, Bool, true, false, ◌&&◌, ◌||◌, List, [], ◌∷◌, Option, none, some, Text, leb, ltb,
  if◌then◌else◌,
}

pub data ℤ : Type 0 where
  pos : ℕ → ℤ
  negsuc : ℕ → ℤ

pub data Number : Type 0 where
  int : ℤ → Number
  other : (bits : ℕ) → Number

mutual
  -- The own keys of an object with their values, oldest first.
  pub data Members : Type 0 where
    last : Members
    member : (key : String) (value : Value) (others : Members) → Members

  pub data Elements : Type 0 where
    stop : Elements
    element : (value : Value) (others : Elements) → Elements

  pub data Value : Type 0 where
    object : Members → Value
    array : Elements → Value
    string : Text → Value
    number : Number → Value
    boolean : Bool → Value
    undefined null : Value

abbrev pub elements : Elements → List Value
elements stop = []
elements (element v vs) = v ∷ elements vs

abbrev pub keys : Members → List String
keys last = []
keys (member k v ms) = k ∷ keys ms

-- `fs[k]`, as the own field if there is one.
unfoldable pub own : String → Members → Option Value
own k last = none
own k (member j v fs) = if str_eq j k then some v else own k fs

unfoldable pub has_own : String → Members → Bool
has_own k last = false
has_own k (member j v fs) = str_eq j k || has_own k fs

abbrev or_undefined : Option Value → Value
or_undefined none = undefined
or_undefined (some v) = v

unfoldable pub read : String → Members → Value
unfolding own
read k fs = or_undefined (own k fs)

-- A key of an object, `undefined` on any value that is no object.
unfoldable pub read_of : String → Value → Value
unfolding read
read_of k (object fs) = read k fs
read_of k _ = undefined

abbrev pub max_safe_integer : ℕ
max_safe_integer = 9007199254740991

-- `typeof value === "number" && Number.isSafeInteger(value) && value > 0`.
unfoldable pub positive_safe : Value → Option ℕ
positive_safe (number (int (pos n))) = if leb 1 n && leb n max_safe_integer then some n else none
positive_safe _ = none

-- `typeof value === "number" && Number.isSafeInteger(value) && value !== 0`.
unfoldable pub nonzero_safe : Value → Option ℤ
nonzero_safe (number (int (pos n))) =
    if leb 1 n && leb n max_safe_integer then some (pos n) else none
nonzero_safe (number (int (negsuc n))) = if ltb n max_safe_integer then some (negsuc n) else none
nonzero_safe _ = none

abbrev pub is_object : Value → Bool
is_object (object fs) = true
is_object _ = false

abbrev pub as_text : Value → Option Text
as_text (string s) = some s
as_text _ = none
