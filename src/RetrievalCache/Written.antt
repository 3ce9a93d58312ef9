-- ===== src/RetrievalCache/Written.antt =====
-- What is read from the cache after a write to it.
use mathlib.Core.Path.{subst}
use vennek.Prelude.{
  ℕ, ◌+◌, ◌≤◌, ◌<◌, ◌≡◌, refl, ap, sym, ◌∙◌, Bool, true, false, ◌&&◌, ◌||◌, not, List, [], ◌∷◌,
  Option, none, some, Text, leb, ltb, ◌==◌, same, same_iff, length, arith, Bool-cases, inl, inr,
  if_true, if_false, suc,
}
use vennek.Value.{array, Number}
use vennek.RetrievalCache.Row.{
  Json, Key, Row, Entry, cache_ttl_ms, same_key, count, canonical_ids, parse_chunk_ids,
  finite_scores, parse_scores, entry_of, value_of_ids, value_of_scores,
}
use vennek.RetrievalCache.Transaction.{
  insert_row, finish, if_not_empty, read_row, read_found, snapshot_with, write_with, Database,
  Course, run_retrieval_transaction, find_row, put_row, Snapshot, source_version_fingerprint,
  read_retrieval_cache, snapshot_of, retrieval_cache_snapshot, row_of, write_entry,
  write_retrieval_cache,
}
use vennek.RetrievalCache.Fresh.{AllCanonical, IsUsable, run-some}

canonical_ids-value : (ids : List Text) → AllCanonical ids → canonical_ids (value_of_ids ids) ≡ ids
unfolding canonical_ids value_of_ids
canonical_ids-value [] c = refl
canonical_ids-value (s ∷ ids) (c, cs) = if_true _ _ c ∙ ap (λ t. s ∷ t) (canonical_ids-value ids cs)

count-value_of_ids : (ids : List Text) → count (value_of_ids ids) ≡ length ids
unfolding value_of_ids
count-value_of_ids [] = refl
count-value_of_ids (s ∷ ids) = ap suc (count-value_of_ids ids)

count-value_of_scores : (ns : List Number) → count (value_of_scores ns) ≡ length ns
unfolding value_of_scores
count-value_of_scores [] = refl
count-value_of_scores (n ∷ ns) = ap suc (count-value_of_scores ns)

same_refl : (s : Text) → same s s ≡ true
same_refl s = (same_iff s s).1 refl

same_key_refl : (k : Key) → same_key k k ≡ true
unfolding same_key
same_key_refl k = ground (
  arith,
  same_refl k.query_hash,
  same_refl k.language,
  same_refl k.filter_hash,
  same_refl k.embedding_model,
)

find_row-put_row :
    (k : Key) (row : Row) (rows : List (Key × Row)) → find_row k (put_row k row rows) ≡ some row
unfolding find_row put_row
find_row-put_row k row [] = if_true _ _ (same_key_refl k)
find_row-put_row k row ((j, old) ∷ rows) =
    ground (arith, same_key_refl k, find_row-put_row k row rows)

parse_chunk_ids-value :
    (ids : List Text)
    → length ids ≤ 10
    → AllCanonical ids
    → parse_chunk_ids (array (value_of_ids ids)) ≡ ids
unfolding parse_chunk_ids
parse_chunk_ids-value ids l c =
    if_false {b = ltb 10 (count (value_of_ids ids))} _ _ (ground (arith, count-value_of_ids ids))
    ∙ canonical_ids-value ids c

usable_lem : (m n : ℕ) → 1 ≤ m → m ≡ n → not ((m == 0) || not (m == n)) ≡ true
usable_lem m n l e = ground arith

-- The row of an entry that comes back as it was written.
abbrev pub stored_row : (fingerprint : Text) → Entry → (now : ℕ) → Row
stored_row fingerprint entry now = record {
  fingerprint = fingerprint;
  chunk_ids = array (value_of_ids entry.chunk_ids);
  scores = array (value_of_scores entry.scores);
  expires_at = now + cache_ttl_ms;
}

module _ (is_finite : Number → Bool) where
  abbrev pub AllFinite : List Number → Type 0
  AllFinite [] = Unit {0}
  AllFinite (n ∷ ns) = (is_finite n ≡ true) × AllFinite ns

  finite_scores-value :
      (ns : List Number) → AllFinite ns → finite_scores is_finite (value_of_scores ns) ≡ ns
  unfolding finite_scores value_of_scores
  finite_scores-value [] c = refl
  finite_scores-value (n ∷ ns) (c, cs) = if_true _ _ c ∙ ap (λ t. n ∷ t) (finite_scores-value ns cs)

  parse_scores-value :
      (ns : List Number)
      → length ns ≤ 10
      → AllFinite ns
      → parse_scores is_finite (array (value_of_scores ns)) ≡ ns
  unfolding parse_scores
  parse_scores-value ns l c =
      if_false {b = ltb 10 (count (value_of_scores ns))} _ _
        (ground (arith, count-value_of_scores ns))
      ∙ finite_scores-value ns c

  -- What the code relies on of JSON and `jsonb`: lists of decimal texts and of finite numbers come
  -- back as they were.
  pub record IsJson (json : Json) : Type 0 where
    pub ids :
        (ids : List Text)
        → AllCanonical ids
        → json.through_jsonb (json.stringify (array (value_of_ids ids)))
          ≡ some (array (value_of_ids ids))
    pub scores :
        (ns : List Number)
        → AllFinite ns
        → json.through_jsonb (json.stringify (array (value_of_scores ns)))
          ≡ some (array (value_of_scores ns))

  row_of-stored :
      (json : Json) (f : Text) (entry : Entry) (now : ℕ)
      → IsJson json
      → IsUsable entry
      → AllFinite entry.scores
      → row_of json f entry now ≡ some (stored_row f entry now)
  unfolding row_of
  row_of-stored json f entry now law (low, most, canonical, equal) finite =
      rw (law.ids entry.chunk_ids canonical, law.scores entry.scores finite) refl

  entry_of-stored :
      (f : Text) (entry : Entry) (now : ℕ)
      → IsUsable entry
      → AllFinite entry.scores
      → entry_of is_finite (stored_row f entry now) ≡ some entry
  unfolding entry_of
  entry_of-stored f entry now (low, most, canonical, equal) finite =
      rw
        (
          parse_chunk_ids-value entry.chunk_ids most canonical,
          parse_scores-value entry.scores (omega arith) finite,
          usable_lem (length entry.chunk_ids) (length entry.scores) low equal,
        )
        refl

database_equal :
    (a b : Bool) (d e : Database)
    → ◌≡◌ {A = Option (Bool × Database)} (some (a, d)) (some (b, e))
    → d ≡ e
database_equal a b d e q = cc

flag_differs :
    (d e : Database) → ¬ (◌≡◌ {A = Option (Bool × Database)} (some (false, d)) (some (true, e)))
flag_differs d e q = cc

module _ (json : Json) (hash : Text → Text) (is_finite : Number → Bool) where
  -- The state after a write that was done.
  abbrev pub Holds : Key → (fingerprint : Text) → Entry → (now : ℕ) → Database → Type 0
  Holds k fingerprint entry now e =
      (source_version_fingerprint hash e ≡ some fingerprint)
      × (find_row k e.rows ≡ some (stored_row fingerprint entry now))

  write_with-Holds :
      (k : Key) (fingerprint : Text) (entry : Entry) (now : ℕ) (d e : Database) (o : Option Text)
      → row_of json fingerprint entry now ≡ some (stored_row fingerprint entry now)
      → source_version_fingerprint hash d ≡ o
      → write_with json hash k fingerprint entry now d o ≡ some (true, e)
      → Holds k fingerprint entry now e
  unfolding source_version_fingerprint
  write_with-Holds k fingerprint entry now d e none r w q = cc
  write_with-Holds k fingerprint entry now d e (some current) r w q =
      elim (Bool-cases (same current fingerprint)) [
        | inl b ↦
            let written = record d { rows = put_row k (stored_row fingerprint entry now) d.rows } in
            let same_e = database_equal true true written e (
              sym (
                if_false {b = not (same current fingerprint)} _ _ (ap not b)
                ∙ ap (insert_row k d) r)
              ∙ q) in
            subst (Holds k fingerprint entry now) same_e (
              w ∙ ap some ((same_iff current fingerprint).0 b),
              find_row-put_row k (stored_row fingerprint entry now) d.rows,
            )
        | inr b ↦ absurd (
            flag_differs d e
              (sym (if_true {b = not (same current fingerprint)} _ _ (ap not b)) ∙ q))
      ]

  read_row-written :
      (fingerprint : Text) (entry : Entry) (now later_now : ℕ)
      → IsUsable entry
      → AllFinite is_finite entry.scores
      → later_now < now + cache_ttl_ms
      → read_row hash is_finite (stored_row fingerprint entry now) later_now fingerprint
        ≡ (some entry, none)
  unfolding read_row
  read_row-written fingerprint entry now later_now usable finite before =
      if_false {b = not (same fingerprint fingerprint)} _ _ (ap not (same_refl fingerprint))
      ∙ if_false {b = leb (now + cache_ttl_ms) later_now} _ _ (ground arith)
      ∙ ap (λ x. (x, none)) (entry_of-stored is_finite fingerprint entry now usable finite)

  abbrev fresh_snapshot : (fingerprint : Text) → Option Entry × Option Text → Snapshot
  fresh_snapshot fingerprint found = record {
    fingerprint = fingerprint;
    cached = found.0;
    stale_fingerprint = if_not_empty found.1;
  }

  -- Where JSON and `jsonb` give back lists of decimal texts and of finite numbers: an entry with
  -- between 1 and 10 canonical identifiers and as many finite scores, written by a transaction that
  -- says so, is what a later snapshot of the same key returns, if it goes through
  -- before the entry expires and nothing was changed in between.
  pub snapshot-write :
      (c later : Course) (k : Key) (fingerprint : Text) (entry : Entry) (now later_now : ℕ)
      (d e : Database)
      → IsJson is_finite json
      → IsUsable entry
      → AllFinite is_finite entry.scores
      → write_retrieval_cache json hash c k fingerprint entry now d ≡ (some true, e)
      → later_now < now + cache_ttl_ms
      → (later.begins && (later.completes && later.commits)) ≡ true
      → later.active_after ≡ true
      → retrieval_cache_snapshot hash is_finite later k later_now e ≡ (
        some (record { fingerprint = fingerprint; cached = some entry; stale_fingerprint = none }),
        e,
      )
  unfolding retrieval_cache_snapshot snapshot_of write_retrieval_cache write_entry
      run_retrieval_transaction read_retrieval_cache
  snapshot-write c later k fingerprint entry now later_now d e law usable finite q before ok after =
      let (version, row) =
        write_with-Holds k fingerprint entry now d e (source_version_fingerprint hash d)
          (row_of-stored is_finite json fingerprint entry now law usable finite) refl
          (run-some c (write_entry json hash k fingerprint entry now) d e true q) in
      let found =
        ap (λ o. read_found hash is_finite o later_now fingerprint) row
        ∙ read_row-written fingerprint entry now later_now usable finite before in
      if_true _ _ ok
      ∙ ap (λ o. finish later.active_after e (snapshot_with hash is_finite k later_now e o)) version
      ∙ ap (λ f. finish later.active_after e (some (fresh_snapshot fingerprint f, e))) found
      ∙ ap (λ b. finish b e (some (fresh_snapshot fingerprint (some entry, none), e))) after
