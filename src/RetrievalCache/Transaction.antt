-- ===== src/RetrievalCache/Transaction.antt =====
-- The transactions on the cache.
use vennek.Prelude.{
  ℕ, ◌+◌, Bool, true, false, ◌&&◌, not, List, [], ◌∷◌, Option, none, some, Text, leb, if◌then◌else◌,
  same,
}
use vennek.Value.{Value, array, Number}
use vennek.RetrievalCache.Row.{
  Json, Key, Row, Entry, cache_ttl_ms, value_if, same_key, entry_of, value_of_ids, value_of_scores,
}

pub record Database : Type 0 where
  pub revision : Option Text
  pub rows : List (Key × Row)

-- How a transaction goes: whether a client is acquired and the transaction begun; whether no query
-- and no check for an abort or a deadline throws inside it; whether COMMIT is reached and succeeds;
-- and whether the check behind it passes.
pub record Course : Type 0 where
  pub begins : Bool
  pub completes : Bool
  pub commits : Bool
  pub active_after : Bool

-- The end of a transaction on a database, after its operation.
abbrev pub finish :
    {A : Type 0} → (active_after : Bool) → Database → Option (A × Database) → Option A × Database
finish active_after d none = (none, d)
finish active_after d (some (a, e)) = (value_if active_after a, e)

-- `runRetrievalTransaction`: `none` is an exception, after ROLLBACK unless COMMIT has succeeded.
unfoldable pub run_retrieval_transaction :
    {A : Type 0}
    → Course
    → (operation : Database → Option (A × Database)) → Database
    → Option A × Database
run_retrieval_transaction c operation d =
    if c.begins && (c.completes && c.commits)
    then finish c.active_after d (operation d)
    else (none, d)

unfoldable pub find_row : Key → List (Key × Row) → Option Row
unfolding same_key
find_row k [] = none
find_row k ((j, row) ∷ rows) = if same_key j k then some row else find_row k rows

-- INSERT ... ON CONFLICT DO UPDATE
unfoldable pub put_row : Key → Row → List (Key × Row) → List (Key × Row)
unfolding same_key
put_row k row [] = (k, row) ∷ []
put_row k row ((j, old) ∷ rows) =
    if same_key j k then (j, row) ∷ rows else (j, old) ∷ put_row k row rows

-- DELETE ... WHERE the key and the fingerprint match
unfoldable pub delete_row : Key → (fingerprint : Text) → List (Key × Row) → List (Key × Row)
unfolding same_key same
delete_row k f [] = []
delete_row k f ((j, row) ∷ rows) =
    let rest = delete_row k f rows in
    if same_key j k && same row.fingerprint f then rest else (j, row) ∷ rest

pub record Snapshot : Type 0 where
  pub fingerprint : Text
  pub cached : Option Entry
  pub stale_fingerprint : Option Text

-- An empty text is left out.
abbrev pub if_not_empty : Option Text → Option Text
if_not_empty none = none
if_not_empty (some []) = none
if_not_empty (some (c ∷ s)) = some (c ∷ s)

module _ (hash : Text → Text) where
  -- An empty or missing revision is an exception.
  unfoldable pub source_version_fingerprint : Database → Option Text
  source_version_fingerprint d = elim d.revision [
    | none ↦ none
    | some [] ↦ none
    | some (c ∷ s) ↦ some (hash (c ∷ s))
  ]

module _ (hash : Text → Text) (is_finite : Number → Bool) where
  unfoldable pub read_row : Row → (now : ℕ) → (expected : Text) → Option Entry × Option Text
  unfolding entry_of same
  read_row row now expected =
      if not (same row.fingerprint expected)
      then (none, some row.fingerprint)
      else if leb row.expires_at now
      then (none, none)
      else (entry_of is_finite row, none)

  -- The entry, and the fingerprint of a stale row.
  abbrev pub read_found : Option Row → (now : ℕ) → (expected : Text) → Option Entry × Option Text
  read_found none now expected = (none, none)
  read_found (some row) now expected = read_row row now expected

  unfoldable pub read_retrieval_cache :
      Key → (now : ℕ) → (expected : Text) → Database → Option Entry × Option Text
  unfolding find_row read_row
  read_retrieval_cache k now expected d = read_found (find_row k d.rows) now expected

  abbrev pub snapshot_with : Key → (now : ℕ) → Database → Option Text → Option (Snapshot × Database)
  snapshot_with k now d none = none
  snapshot_with k now d (some fingerprint) =
      let found = read_retrieval_cache k now fingerprint d in
      some (
        record {
          fingerprint = fingerprint;
          cached = found.0;
          stale_fingerprint = if_not_empty found.1;
        },
        d,
      )

  unfoldable pub snapshot_of : Key → (now : ℕ) → Database → Option (Snapshot × Database)
  unfolding source_version_fingerprint read_retrieval_cache
  snapshot_of k now d = snapshot_with k now d (source_version_fingerprint hash d)

  -- `withRetrievalCacheSnapshot`, with the snapshot as the result of the operation.
  unfoldable pub retrieval_cache_snapshot :
      Course → Key → (now : ℕ) → Database → Option Snapshot × Database
  unfolding run_retrieval_transaction snapshot_of
  retrieval_cache_snapshot c k now d = run_retrieval_transaction c (snapshot_of k now) d

module _ (json : Json) where
  abbrev row_with :
      (fingerprint : Text) → (now : ℕ) → (chunk_ids scores : Option Value) → Option Row
  row_with fingerprint now (some chunk_ids) (some scores) = some (record {
    fingerprint = fingerprint;
    chunk_ids = chunk_ids;
    scores = scores;
    expires_at = now + cache_ttl_ms;
  })
  row_with fingerprint now _ _ = none

  -- The row as it is read back; `none` where the database refuses one of the texts.
  unfoldable pub row_of : (fingerprint : Text) → Entry → (now : ℕ) → Option Row
  unfolding value_of_ids value_of_scores
  row_of fingerprint entry now =
      row_with fingerprint now
        (json.through_jsonb (json.stringify (array (value_of_ids entry.chunk_ids))))
        (json.through_jsonb (json.stringify (array (value_of_scores entry.scores))))

abbrev pub insert_row : Key → Database → Option Row → Option (Bool × Database)
insert_row k d none = none
insert_row k d (some row) = some (true, record d { rows = put_row k row d.rows })

module _ (json : Json) (hash : Text → Text) where
  abbrev pub write_with :
      Key
      → (fingerprint : Text) → Entry
      → (now : ℕ) → Database
      → Option Text
      → Option (Bool × Database)
  write_with k fingerprint entry now d none = none
  write_with k fingerprint entry now d (some current) =
      if not (same current fingerprint)
      then some (false, d)
      else insert_row k d (row_of json fingerprint entry now)

  unfoldable pub write_entry :
      Key → (fingerprint : Text) → Entry → (now : ℕ) → Database → Option (Bool × Database)
  unfolding source_version_fingerprint put_row row_of same
  write_entry k fingerprint entry now d =
      write_with k fingerprint entry now d (source_version_fingerprint hash d)

  unfoldable pub write_retrieval_cache :
      Course → Key → (fingerprint : Text) → Entry → (now : ℕ) → Database → Option Bool × Database
  unfolding run_retrieval_transaction write_entry
  write_retrieval_cache c k fingerprint entry now d =
      run_retrieval_transaction c (write_entry k fingerprint entry now) d

unfoldable pub delete_stale_retrieval_cache :
    Course → Key → (observed : Text) → Database → Option (Unit {0}) × Database
unfolding run_retrieval_transaction delete_row
delete_stale_retrieval_cache c k observed d =
    run_retrieval_transaction c (λ e. some (tt, record e { rows = delete_row k observed e.rows })) d
