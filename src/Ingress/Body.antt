-- ===== src/Ingress/Body.antt =====
-- `readBody`: the bounded read of the request's stream.
use vennek.Prelude.{
  ℕ, ◌+◌, ◌-◌, true, false, List, [], ◌∷◌, ◌++◌, Option, none, some, ltb, ◌==◌, length,
}

abbrev pub max_body_bytes : ℕ
max_body_bytes = 262144

abbrev pub max_empty_reads : ℕ
max_empty_reads = 8

-- What one `read` gives: bytes, or an error or an abort. The stream is done after the last one.
pub data Read : Type 0 where
  chunk : List ℕ → Read
  failed : Read

pub data BodyResult : Type 0 where
  body : List ℕ → BodyResult
  too_large invalid_payload : BodyResult

-- The loop, over the bytes read so far.
unfoldable pub read_loop : (bytes : List ℕ) → (empty_reads : ℕ) → List Read → BodyResult
read_loop bytes empty_reads [] = body bytes
read_loop bytes empty_reads (failed ∷ reads) = invalid_payload
read_loop bytes empty_reads (chunk c ∷ reads) = elim (length c == 0) [
  | true ↦ elim (ltb max_empty_reads (empty_reads + 1)) [
    | true ↦ invalid_payload
    | false ↦ read_loop bytes (empty_reads + 1) reads
  ]
  | false ↦ elim (ltb (max_body_bytes - length bytes) (length c)) [
    | true ↦ too_large
    | false ↦ read_loop (bytes ++ c) empty_reads reads
  ]
]

-- `none` is a request with no body.
unfoldable pub read_body : Option (List Read) → BodyResult
unfolding read_loop
read_body none = invalid_payload
read_body (some reads) = read_loop [] 0 reads
