-- ===== src/Envelope/Cipher.antt =====
-- `encryptText` and `decryptText` over AES-256-GCM, and the shape of their envelopes.
use vennek.Prelude.{
  ◌≤◌, ℕ, zero, ◌≡◌, suc, Bool, true, false, ◌&&◌, ◌||◌, List, [], ◌∷◌, Option, some, Text, leb,
  ◌==◌, same, length,
}
use vennek.Value.{Value}
use vennek.Metadata.Validate.{Metadata, ◌>>=◌, check}
use vennek.Metadata.RoundTrip.{value_of_metadata, EachSize}
use vennek.Prelude.Every.{All}
use vennek.Unicode.WellFormed.{IsWellFormed}

abbrev pub Bytes : Type 0
Bytes = List ℕ

-- The calls of the platform.
pub record Node : Type 0 where
  pub seal : (key iv : Bytes) (aad plain : Text) → Bytes × Bytes
  pub unseal : (key iv : Bytes) (aad : Text) (ciphertext tag : Bytes) → Option Text
  pub to_base64 : Bytes → Text
  pub from_base64 : Text → Bytes
  pub stringify : Value → Text
  pub parse : Text → Option Value

pub record EncryptedText : Type 0 where
  pub ciphertext : Text
  pub iv : Text
  pub tag : Text

unfoldable pub is_base64_char : ℕ → Bool
is_base64_char c =
    (leb 65 c && leb c 90)
    || (leb 97 c && leb c 122)
    || (leb 48 c && leb c 57)
    || c == 43
    || c == 47

-- /^(?:[A-Za-z0-9+/]{4})*(?:[A-Za-z0-9+/]{2}==|[A-Za-z0-9+/]{3}=)?$/
unfoldable pub canonical_base64 : Text → Bool
unfolding is_base64_char
canonical_base64 [] = true
canonical_base64 (a ∷ b ∷ c ∷ d ∷ s) = elim (length s) [
  | zero ↦
      is_base64_char a
      && (is_base64_char b
          && ((is_base64_char c && (is_base64_char d || d == 61)) || (c == 61 && d == 61)))
  | suc _ ↦
      (is_base64_char a && (is_base64_char b && (is_base64_char c && is_base64_char d)))
      && canonical_base64 s
]
canonical_base64 _ = false

module _ (n : Node) where
  -- `decodeBase64`: the pattern, and the bytes encode to the same text.
  unfoldable pub decode_base64 : Text → Option Bytes
  decode_base64 value =
      check (canonical_base64 value && same (n.to_base64 (n.from_base64 value)) value)
        (n.from_base64 value)

  -- `iv` is `randomBytes(12)`.
  unfoldable pub encrypt_text :
      (plain : Text) (key : Bytes) (aad : Text) (iv : Bytes) → Option EncryptedText
  encrypt_text plain key aad iv = check (length key == 32) (record {
    ciphertext = n.to_base64 (n.seal key iv aad plain).0;
    iv = n.to_base64 iv;
    tag = n.to_base64 (n.seal key iv aad plain).1;
  })

  abbrev lengths_ok : Bytes → Bytes → Bool
  lengths_ok iv tag = (length iv == 12) && (length tag == 16)

  unfoldable pub decrypt_text : EncryptedText → (key : Bytes) (aad : Text) → Option Text
  decrypt_text envelope key aad = do
    valid_key ← check (length key == 32) key
    ciphertext ← decode_base64 envelope.ciphertext
    iv ← decode_base64 envelope.iv
    tag ← decode_base64 envelope.tag
    sized ← check (lengths_ok iv tag) iv
    n.unseal valid_key sized aad ciphertext tag

-- The bytes of a buffer.
abbrev pub AllBytes : Bytes → Type 0
AllBytes bs = All (λ b. b ≤ 255) bs

-- A text that UTF-8 keeps: units of 16 bits, and no lone surrogate.
abbrev pub IsUtf16 : Text → Type 0
IsUtf16 s = All (λ u. u ≤ 65535) s × IsWellFormed s

-- What the code relies on: base64 of bytes is canonical and decodes; GCM gives bytes, and opens what
-- it seals under the same key, vector and associated data, if UTF-8 keeps the text; `JSON.stringify`
-- escapes lone surrogates, and a record of metadata survives `JSON` if its size is a number of the
-- validator.
pub record IsNode (n : Node) : Type 0 where
  pub base64_canonical : (bs : Bytes) → AllBytes bs → canonical_base64 (n.to_base64 bs) ≡ true
  pub base64_decodes : (bs : Bytes) → AllBytes bs → n.from_base64 (n.to_base64 bs) ≡ bs
  pub sealed_bytes :
      (key iv : Bytes) (aad plain : Text)
      → IsUtf16 plain
      → AllBytes (n.seal key iv aad plain).0 × AllBytes (n.seal key iv aad plain).1
  pub opens :
      (key iv : Bytes) (aad plain : Text)
      → IsUtf16 plain
      → n.unseal key iv aad (n.seal key iv aad plain).0 (n.seal key iv aad plain).1 ≡ some plain
  pub json_text : (m : Metadata) → IsUtf16 (n.stringify (value_of_metadata m))
  pub json :
      (m : Metadata)
      → EachSize m.file_size
      → n.parse (n.stringify (value_of_metadata m)) ≡ some (value_of_metadata m)
