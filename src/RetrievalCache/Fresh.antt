-- ===== src/RetrievalCache/Fresh.antt =====
-- What a snapshot of the cache may return, and what a write makes it return.
use mathlib.Core.Path.{subst}
use vennek.Prelude.{some_equal}
use vennek.Prelude.{
  ℕ, ◌≤◌, ◌<◌, ◌≡◌, refl, sym, ◌∙◌, inl, inr, Bool, true, false, ◌&&◌, ◌||◌, not, List, [], ◌∷◌,
  Option, none, some, Text, ltb, ◌==◌, same_iff, length, arith, Bool-cases, if_true, if_false,
}
use vennek.Value.{Value, Elements, stop, element, array, string, Number}
use vennek.Value.Decimal.{is_canonical}
use vennek.RetrievalCache.Row.{
  value_if, Key, Row, Entry, count, canonical_ids, parse_chunk_ids, parse_scores, entry_of,
}
use vennek.RetrievalCache.Transaction.{
  finish, read_row, read_found, snapshot_with, Database, Course, run_retrieval_transaction,
  find_row, Snapshot, source_version_fingerprint, read_retrieval_cache, snapshot_of,
  retrieval_cache_snapshot,
}

abbrev pub AllCanonical : List Text → Type 0
AllCanonical [] = Unit {0}
AllCanonical (s ∷ ids) = (is_canonical s ≡ true) × AllCanonical ids

canonical_ids-length : (vs : Elements) → length (canonical_ids vs) ≤ count vs
unfolding canonical_ids
canonical_ids-length stop = omega arith
canonical_ids-length (element v vs) = ground (arith, canonical_ids-length vs)

canonical_ids-AllCanonical : (vs : Elements) → AllCanonical (canonical_ids vs)
unfolding canonical_ids
canonical_ids-AllCanonical stop = tt
canonical_ids-AllCanonical (element (string s) vs) = elim (Bool-cases (is_canonical s)) [
  | inl c ↦ rw c (c, canonical_ids-AllCanonical vs)
  | inr c ↦ rw c (canonical_ids-AllCanonical vs)
]
canonical_ids-AllCanonical (element _ vs) = canonical_ids-AllCanonical vs

abbrev IdsOk : List Text → Type 0
IdsOk ids = (length ids ≤ 10) × AllCanonical ids

parse_chunk_ids-IdsOk : (v : Value) → IdsOk (parse_chunk_ids v)
unfolding parse_chunk_ids
parse_chunk_ids-IdsOk (array vs) = elim (Bool-cases (ltb 10 (count vs))) [
  | inl c ↦ rw c (omega arith, tt)
  | inr c ↦ rw c (ground (arith, canonical_ids-length vs), canonical_ids-AllCanonical vs)
]
parse_chunk_ids-IdsOk _ = (omega arith, tt)

-- Between 1 and 10 canonical identifiers, with a score for each.
abbrev pub IsUsable : Entry → Type 0
IsUsable e =
    (1 ≤ length e.chunk_ids)
    × (length e.chunk_ids ≤ 10)
    × AllCanonical e.chunk_ids
    × (length e.chunk_ids ≡ length e.scores)

value_if-some : {A : Type 0} (b : Bool) (a a' : A) → value_if b a ≡ some a' → (b ≡ true) × (a ≡ a')
value_if-some true a a' e = (refl, some_equal a a' e)
value_if-some false a a' e = cc

entry_of-IsUsable :
    (is_finite : Number → Bool) (row : Row) (e : Entry)
    → entry_of is_finite row ≡ some e
    → IsUsable e
unfolding entry_of
entry_of-IsUsable is_finite row e q =
    let ids = parse_chunk_ids row.chunk_ids in
    let scores = parse_scores is_finite row.scores in
    let (most, canonical) = parse_chunk_ids-IdsOk row.chunk_ids in
    let (b, same_entry) =
      value_if-some (not ((length ids == 0) || not (length ids == length scores)))
        (record { chunk_ids = ids; scores = scores }) e q in
    subst IsUsable same_entry (ground (arith, b), most, canonical, ground (arith, b))

module _ {A : Type 0} where
  finish-some :
      (active : Bool) (d e : Database) (o : Option (A × Database)) (a : A)
      → finish active d o ≡ (some a, e)
      → o ≡ some (a, e)
  finish-some active d e none a q = cc
  finish-some true d e (some (a', e')) a q = cc
  finish-some false d e (some (a', e')) a q = cc

  -- A transaction that returns has done what its operation does.
  pub run-some :
      (c : Course) (f : Database → Option (A × Database)) (d e : Database) (a : A)
      → run_retrieval_transaction c f d ≡ (some a, e)
      → f d ≡ some (a, e)
  unfolding run_retrieval_transaction
  run-some c f d e a q = elim (Bool-cases (c.begins && (c.completes && c.commits))) [
    | inl b ↦ finish-some c.active_after d e (f d) a (sym (if_true _ _ b) ∙ q)
    | inr b ↦ absurd (cc (sym (if_false (finish c.active_after d (f d)) (none, d) b) ∙ q))
  ]

pair_equal :
    {A B : Type 0} (a a' : A) (b b' : B)
    → ◌≡◌ {A = Option (A × B)} (some (a, b)) (some (a', b'))
    → (a ≡ a') × (b ≡ b')
pair_equal a a' b b' e = (cc, cc)

module _ (hash : Text → Text) (is_finite : Number → Bool) where
  -- The row of an entry that is read: present, of the expected fingerprint and not expired.
  abbrev pub ReadFrom : Option Row → (now : ℕ) (expected : Text) → Entry → Type 0
  ReadFrom o now expected entry =
      (row : Row) × (o ≡ some row)
      × (row.fingerprint ≡ expected)
      × (now < row.expires_at)
      × (entry_of is_finite row ≡ some entry)

  read_found-ReadFrom :
      (o : Option Row) (now : ℕ) (expected : Text) (entry : Entry)
      → (read_found hash is_finite o now expected).0 ≡ some entry
      → ReadFrom o now expected entry
  unfolding read_row
  read_found-ReadFrom none now expected entry q = cc
  read_found-ReadFrom (some row) now expected entry q =
      (row, refl, ground (arith, same_iff row.fingerprint expected), ground arith, ground arith)

  abbrev FreshIn : Key → ℕ → Database → Option Text → Snapshot → Database → Type 0
  FreshIn k now d o s e =
      (e ≡ d)
      × (o ≡ some s.fingerprint)
      × (s.cached ≡ (read_retrieval_cache hash is_finite k now s.fingerprint d).0)

  snapshot_with-FreshIn :
      (k : Key) (now : ℕ) (d e : Database) (o : Option Text) (s : Snapshot)
      → snapshot_with hash is_finite k now d o ≡ some (s, e)
      → FreshIn k now d o s e
  snapshot_with-FreshIn k now d e none s q = cc
  snapshot_with-FreshIn k now d e (some fingerprint) s q =
      let (same_s, same_d) = pair_equal _ s d e q in
      subst (λ t. FreshIn k now d (some fingerprint) t e) same_s (sym same_d, refl, refl)

  -- A cached entry comes from a row of the key that was written under the present revision and has
  -- not expired; it has between 1 and 10 canonical identifiers of chunks, with a score for each. The
  -- snapshot changes nothing.
  pub snapshot-Fresh :
      (c : Course) (k : Key) (now : ℕ) (d e : Database) (s : Snapshot) (entry : Entry)
      → retrieval_cache_snapshot hash is_finite c k now d ≡ (some s, e)
      → s.cached ≡ some entry
      → (e ≡ d)
        × (source_version_fingerprint hash d ≡ some s.fingerprint)
        × ReadFrom (find_row k d.rows) now s.fingerprint entry
        × IsUsable entry
  unfolding retrieval_cache_snapshot snapshot_of read_retrieval_cache
  snapshot-Fresh c k now d e s entry q h =
      let taken = run-some c (snapshot_of hash is_finite k now) d e s q in
      let (same_d, f, cached) =
        snapshot_with-FreshIn k now d e (source_version_fingerprint hash d) s taken in
      let (row, found, fresh, left, usable) =
        read_found-ReadFrom (find_row k d.rows) now s.fingerprint entry (sym cached ∙ h) in
      (same_d, f, (row, found, fresh, left, usable), entry_of-IsUsable is_finite row entry usable)
