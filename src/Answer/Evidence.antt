-- ===== src/Answer/Evidence.antt =====
-- groundedPrompt.ts, `snapshotEvidence`: the evidence that crosses to a model, bounded and with new
-- identifiers. What the platform does is a record of arguments.
use vennek.Prelude.{
  ℕ, ◌+◌, ◌*◌, Bool, true, false, not, ◌&&◌, ◌||◌, Option, none, some, List, [], ◌∷◌, ◌++◌, Text,
  codes, leb, ◌==◌, if◌then◌else◌, same, trim, length,
}
use vennek.Value.{Value, Members, object, array, boolean, elements, read, as_text}
use vennek.Value.Decimal.{decimal}
use vennek.Unicode.{code_points, byte_length}
use vennek.Metadata.Validate.{◌>>=◌, check}

pub record Url : Type 0 where
  pub protocol : Text
  pub username : Text
  pub password : Text
  pub hostname : Text

-- `JSON.parse`, `new URL`, `normalize("NFKC")`, `toLocaleLowerCase("en-US")`, and whether
-- `new Date(s)` is finite and prints as `s`.
pub record Platform : Type 0 where
  pub json_parse : Text → Option Value
  pub parse_url : Text → Option Url
  pub nfkc : Text → Text
  pub to_lower : Text → Text
  pub is_instant : Text → Bool

pub data TrustTier : Type 0 where
  official : TrustTier
  community : TrustTier
  unverified : TrustTier

pub record GroundedEvidence : Type 0 where
  pub id : Text
  pub source_id : Text
  pub owner : Text
  pub trust_tier : TrustTier
  pub title : Text
  pub url : Text
  pub excerpt : Text
  pub published_at : Option Text
  pub retrieved_at : Text
  pub version_hash : Text
  pub stale : Bool

abbrev pub max_evidence : ℕ
max_evidence = 10

abbrev pub max_total_evidence_chars : ℕ
max_total_evidence_chars = 12000

unfoldable pub character_count : Text → ℕ
unfolding code_points
character_count s = length (code_points s)

unfoldable pub is_blank : Text → Bool
unfolding trim same
is_blank s = same (trim s) []

unfoldable pub within_bounds : Text → ℕ → Bool
unfolding character_count byte_length
within_bounds s max =
    leb (character_count s) max && leb (length s) (max * 4) && leb (byte_length s) (max * 4)

-- `boundedString(value, max)`, where something is required.
unfoldable pub bounded_string : Value → ℕ → Option Text
unfolding within_bounds is_blank
bounded_string value max = do s ← as_text value; check (within_bounds s max && not (is_blank s)) s

-- `validTimestamp`: a value that is missing and one that is no time give the same.
unfoldable pub valid_timestamp : Platform → Value → Option Text
unfolding is_blank
valid_timestamp platform value = do
  s ← as_text value
  check (not (is_blank s) && platform.is_instant s) s

unfoldable pub has_ascii_control : Text → Bool
has_ascii_control [] = false
has_ascii_control (c ∷ s) = leb c 0x1f || c == 0x7f || has_ascii_control s

unfoldable pub is_safe_url : Url → Bool
unfolding same
is_safe_url url =
    same url.protocol (codes "https:")
    && same url.username []
    && same url.password []
    && not (same url.hostname [])

unfoldable pub valid_https_url : Platform → Value → Option Text
unfolding bounded_string has_ascii_control is_safe_url
valid_https_url platform value = do
  url ← bounded_string value 2048
  parsed ← platform.parse_url url
  check (not (has_ascii_control url) && is_safe_url parsed) url

unfoldable pub is_hex : ℕ → Bool
is_hex c = (leb b'0' c && leb c b'9') || (leb b'a' c && leb c b'f') || (leb b'A' c && leb c b'F')

unfoldable pub all_hex : Text → Bool
unfolding is_hex
all_hex [] = true
all_hex (c ∷ s) = is_hex c && all_hex s

-- `/^[0-9a-f]{64}$/iu`
unfoldable pub is_version_hash : Text → Bool
unfolding all_hex
is_version_hash s = all_hex s && length s == 64

unfoldable pub tier_of : Text → Option TrustTier
unfolding same
tier_of s =
    if same s (codes "official")
    then some official
    else if same s (codes "community")
    then some community
    else if same s (codes "unverified")
    then some unverified
    else none

abbrev pub as_boolean : Value → Option Bool
as_boolean (boolean b) = some b
as_boolean _ = none

unfoldable pub frozen_evidence : Platform → Members → Option GroundedEvidence
unfolding bounded_string valid_https_url valid_timestamp is_version_hash tier_of read
frozen_evidence platform ms = do
  id ← bounded_string (read "id" ms) 128
  source_id ← bounded_string (read "sourceId" ms) 128
  owner ← bounded_string (read "owner" ms) 200
  title ← bounded_string (read "title" ms) 300
  url ← valid_https_url platform (read "url" ms)
  excerpt ← bounded_string (read "excerpt" ms) 1000
  retrieved_at ← valid_timestamp platform (read "retrievedAt" ms)
  version_hash ← bounded_string (read "versionHash" ms) 128
  tier_text ← as_text (read "trustTier" ms)
  trust_tier ← tier_of tier_text
  stale ← as_boolean (read "stale" ms)
  check (is_version_hash version_hash) (record {
    id = id;
    source_id = source_id;
    owner = owner;
    trust_tier = trust_tier;
    title = title;
    url = url;
    excerpt = excerpt;
    published_at = valid_timestamp platform (read "publishedAt" ms);
    retrieved_at = retrieved_at;
    version_hash = version_hash;
    stale = stale;
  })

-- `ids.has(id)`, `list.includes(id)`.
unfoldable pub listed : Text → List Text → Bool
unfolding same
listed s [] = false
listed s (t ∷ ts) = same s t || listed s ts

unfoldable pub evidence_chars : GroundedEvidence → ℕ
unfolding character_count
evidence_chars e =
    character_count e.id
    + character_count e.source_id
    + character_count e.owner
    + character_count e.title
    + character_count e.url
    + character_count e.excerpt

-- `E${n}`
unfoldable pub evidence_id : ℕ → Text
unfolding decimal
evidence_id n = b'E' ∷ decimal n

abbrev pub members_of : Value → Option Members
members_of (object ms) = some ms
members_of _ = none

abbrev pub with_id : Text → GroundedEvidence → GroundedEvidence
with_id new e = record e { id = new }

unfoldable pub snapshot_items :
    Platform
    → List Value
    → (ids : List Text) → (total : ℕ) → (result : List GroundedEvidence)
    → Option (List GroundedEvidence)
unfolding frozen_evidence listed evidence_chars evidence_id
snapshot_items platform [] ids total result = some result
snapshot_items platform (item ∷ items) ids total result = do
  ms ← members_of item
  evidence ← frozen_evidence platform ms
  fresh ← check (not (listed evidence.id ids)) evidence
  bounded ← check (leb (total + evidence_chars fresh) max_total_evidence_chars) fresh
  snapshot_items platform items (bounded.id ∷ ids) (total + evidence_chars bounded)
      (result ++ with_id (evidence_id (length result + 1)) bounded ∷ [])

-- `none` is the error that the code throws.
unfoldable pub snapshot_evidence : Platform → Value → Option (List GroundedEvidence)
unfolding snapshot_items
snapshot_evidence platform (array vs) =
    if leb (length (elements vs)) max_evidence
    then snapshot_items platform (elements vs) [] 0 []
    else none
snapshot_evidence platform _ = none
