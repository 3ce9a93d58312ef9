-- ===== src/RetrievalCache/Row.antt =====
-- Keys, rows and entries of the cache, and the checks of what a row holds.
use vennek.Prelude.{
  ℕ, suc, Bool, true, false, ◌&&◌, ◌||◌, not, List, [], ◌∷◌, Option, none, some, Text, ltb, ◌==◌,
  if◌then◌else◌, same, length,
}
use vennek.Value.{Value, Elements, stop, element, array, string, number, Number}
use vennek.Value.Decimal.{is_canonical}

pub record Key : Type 0 where
  pub query_hash : Text
  pub language : Text
  pub filter_hash : Text
  pub embedding_model : Text

pub record Row : Type 0 where
  pub fingerprint : Text
  pub chunk_ids : Value
  pub scores : Value
  pub expires_at : ℕ

pub record Entry : Type 0 where
  pub chunk_ids : List Text
  pub scores : List Number

abbrev pub value_if : {A : Type 0} → Bool → A → Option A
value_if true a = some a
value_if false a = none

abbrev pub cache_ttl_ms : ℕ
cache_ttl_ms = 900000

unfoldable pub same_key : Key → Key → Bool
unfolding same
same_key j k =
    same j.query_hash k.query_hash
    && (same j.language k.language
        && (same j.filter_hash k.filter_hash && same j.embedding_model k.embedding_model))

abbrev pub count : Elements → ℕ
count stop = 0
count (element v vs) = suc (count vs)

abbrev keep_id : Value → List Text → List Text
keep_id (string s) ids = if is_canonical s then s ∷ ids else ids
keep_id _ ids = ids

unfoldable pub canonical_ids : Elements → List Text
unfolding is_canonical
canonical_ids stop = []
canonical_ids (element v vs) = keep_id v (canonical_ids vs)

-- `parseChunkIds`.
unfoldable pub parse_chunk_ids : Value → List Text
unfolding canonical_ids
parse_chunk_ids (array vs) = if ltb 10 (count vs) then [] else canonical_ids vs
parse_chunk_ids _ = []

module _ (is_finite : Number → Bool) where
  abbrev keep_score : Value → List Number → List Number
  keep_score (number n) ns = if is_finite n then n ∷ ns else ns
  keep_score _ ns = ns

  unfoldable pub finite_scores : Elements → List Number
  finite_scores stop = []
  finite_scores (element v vs) = keep_score v (finite_scores vs)

  -- `parseScores`.
  unfoldable pub parse_scores : Value → List Number
  unfolding finite_scores
  parse_scores (array vs) = if ltb 10 (count vs) then [] else finite_scores vs
  parse_scores _ = []

  -- The entry of a row, where it has chunks, with a score for each.
  unfoldable pub entry_of : Row → Option Entry
  unfolding parse_chunk_ids parse_scores
  entry_of row =
      let ids = parse_chunk_ids row.chunk_ids in
      let scores = parse_scores row.scores in
      value_if (not ((length ids == 0) || not (length ids == length scores)))
        (record { chunk_ids = ids; scores = scores })

-- `JSON.stringify`, and the value that the driver reads back from a `jsonb` column that the text was
-- written to; `none` where the database refuses the text.
pub record Json : Type 0 where
  pub stringify : Value → Text
  pub through_jsonb : Text → Option Value

-- The two lists of an entry as values.
unfoldable pub value_of_ids : List Text → Elements
value_of_ids [] = stop
value_of_ids (s ∷ ids) = element (string s) (value_of_ids ids)

unfoldable pub value_of_scores : List Number → Elements
value_of_scores [] = stop
value_of_scores (n ∷ ns) = element (number n) (value_of_scores ns)
