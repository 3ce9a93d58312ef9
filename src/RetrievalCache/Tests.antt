-- ===== src/RetrievalCache/Tests.antt =====
-- An entry written and read again.
use vennek.Prelude.{◌≡◌, refl, Bool, true, false, [], ◌∷◌, none, some, Text, codes, same, arith}
use vennek.Value.{other, Number, int, pos}
use vennek.Value.Decimal.{is_canonical, all_digits, is_digit}
use vennek.RetrievalCache.Row.{
  Key, Row, Entry, same_key, entry_of, parse_chunk_ids, parse_scores, canonical_ids, finite_scores,
  value_of_ids, value_of_scores,
}
use vennek.RetrievalCache.Transaction.{
  Database, Course, Snapshot, run_retrieval_transaction, find_row, put_row, read_row,
  source_version_fingerprint, read_retrieval_cache, snapshot_of, retrieval_cache_snapshot, row_of,
  write_entry, write_retrieval_cache, delete_stale_retrieval_cache,
}
use vennek.RetrievalCache.Fresh.{IsUsable, ReadFrom, snapshot-Fresh}
use vennek.RetrievalCache.Written.{stored_row, snapshot-write}
use vennek.RetrievalCache.Plain.{plain_json, plain_json-IsJson}
use vennek.RetrievalCache.Deleted.{delete_stale_retrieval_cache-spares}

run : Unit {0}
unfolding retrieval_cache_snapshot snapshot_of read_retrieval_cache read_row
    run_retrieval_transaction find_row put_row same_key same source_version_fingerprint
    write_retrieval_cache write_entry row_of plain_json value_of_ids value_of_scores entry_of
    parse_chunk_ids parse_scores canonical_ids finite_scores is_canonical all_digits is_digit
run = tt

abbrev key : Key
key = record {
  query_hash = codes "q";
  language = codes "en";
  filter_hash = codes "f";
  embedding_model = codes "m";
}

abbrev hash : Text → Text
hash s = 35 ∷ s

abbrev finite : Number → Bool
finite n = true

abbrev fine : Course
fine = record { begins = true; completes = true; commits = true; active_after = true }

abbrev before : Database
before = record { revision = some (codes "8"); rows = [] }

abbrev entry : Entry
entry = record {
  chunk_ids = codes "12" ∷ codes "7" ∷ [];
  scores = other 4602678819172646912 ∷ int (pos 1) ∷ [];
}

abbrev row : Row
row = stored_row (codes "#8") entry 1000

abbrev after : Database
after = record { revision = some (codes "8"); rows = (key, row) ∷ [] }

abbrev snapshot : Snapshot
snapshot = record { fingerprint = codes "#8"; cached = some entry; stale_fingerprint = none }

written_test :
    write_retrieval_cache plain_json hash fine key (codes "#8") entry 1000 before
    ≡ (some true, after)
unfolding run
written_test = refl

-- The write is refused where the revision has changed.
refused_test :
    write_retrieval_cache plain_json hash fine key (codes "#7") entry 1000 before
    ≡ (some false, before)
unfolding run
refused_test = refl

read_test : retrieval_cache_snapshot hash finite fine key 900999 after ≡ (some snapshot, after)
unfolding run
read_test = refl

expired_test : (read_retrieval_cache hash finite key 901000 (codes "#8") after).0 ≡ none
unfolding run
expired_test = refl

entry_test : IsUsable entry
unfolding is_canonical all_digits
entry_test = (omega arith, omega arith, (refl, (refl, tt)), refl)

snapshot-write_example :
    retrieval_cache_snapshot hash finite fine key 5000 after ≡ (some snapshot, after)
snapshot-write_example =
    snapshot-write plain_json hash finite fine fine key (codes "#8") entry 1000 5000 before after
      (plain_json-IsJson finite) entry_test (refl, (refl, tt)) written_test (omega arith) refl refl

snapshot-Fresh_example :
    (after ≡ after)
    × (source_version_fingerprint hash after ≡ some (codes "#8"))
    × ReadFrom hash finite (find_row key after.rows) 900999 (codes "#8") entry
    × IsUsable entry
snapshot-Fresh_example =
    snapshot-Fresh hash finite fine key 900999 after after snapshot entry read_test refl

found_test : find_row key after.rows ≡ some row
unfolding find_row same_key same
found_test = refl

differs_test : same row.fingerprint (codes "#7") ≡ false
unfolding same
differs_test = refl

delete_stale_retrieval_cache-spares_example :
    find_row key (delete_stale_retrieval_cache fine key (codes "#7") after).1.rows ≡ some row
delete_stale_retrieval_cache-spares_example =
    delete_stale_retrieval_cache-spares fine key (codes "#7") after row found_test differs_test
