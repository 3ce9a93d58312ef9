-- ===== src/Answer/Tests.antt =====
-- A question answered from one piece of evidence, over a platform that knows the two texts of the
-- models.
use Prim.Native.String.{String}
use vennek.Prelude.{
  ℕ, ◌+◌, ◌≡◌, refl, get_elem?, true, false, none, some, List, [], ◌∷◌, codes, replicate, length,
  if◌then◌else◌, same, includes, starts_with, trim, trim_end, trim_start, is_space, get, put,
}
use vennek.Unicode.{is_high, is_low, code_points, point_bytes, bytes_of, byte_length, is_format}
use vennek.Value.{
  Value, object, array, string, number, boolean, undefined, last, member, stop, element, int, pos,
  own, read,
}
use vennek.Value.Decimal.{is_digit, all_digits, is_canonical, value_from}
use vennek.Metadata.Validate.{all_listed}
use vennek.Metadata.Validate
use vennek.Chunking.Blocks.{join}
use vennek.Answer.Links.{
  is_letter, is_word, run_while, head_is, is_scheme_unit, is_solid, after_colon, scheme_rest,
  uri_at, is_label_unit, is_alphanumeric, last_of, top_level, domain_at, after_bracket, without_e,
  citation_at, matches_from, has_link_or_marker,
}
use vennek.Answer.Links
use vennek.Answer.Evidence.{
  character_count, is_blank, within_bounds, bounded_string, valid_timestamp, has_ascii_control,
  is_safe_url, valid_https_url, is_hex, all_hex, is_version_hash, tier_of, frozen_evidence, listed,
  evidence_chars, evidence_id, snapshot_items, snapshot_evidence, Url, Platform, GroundedEvidence,
  official,
}
use vennek.Answer.Claims.{
  exact_keys, known_from, by_id, citation_ids, all_unverified, official_sources, names_owners,
  kind_of, kind_supported, is_nonempty, claim_text, claim_kind, claim_citations, supported_claim,
  parse_claim, parse_claims, raw_claims, answer_fields, parse_generated_answer, GeneratedClaim,
  GeneratedAnswer, fact,
}
use vennek.Answer.Supported.{IsParsed, parse_generated_answer-IsParsed}
use vennek.Answer.Verify.{
  all_booleans, parse_support, filter_supported, known_citations, all_known, claims_or_refused,
  verify_output, can_verify, verify_claims,
}
use vennek.Answer.Prepare.{
  is_invisible, replace_invisible, squeeze, safe_label, provenance_key, date_label, nonempty_texts,
  joined_labels, bracketed, source_line, unique_cited, prepared, prepare_from, prepare_claims,
  RenderLabels, PreparedClaim,
}
use vennek.Answer.Render.{
  start_numbering, number_source, number_item, number_cited, every_tier, some_tier, claim_labels,
  citation_marks, label_prefix, claim_line, number_claims, claim_lines, conflict_keys, source_lines,
  with_sources, render_candidate, render_fitting, render_answer,
}
use vennek.Answer.Numbered.{AllResolve, HasNoRepetition, number_claims-AllResolve}
use vennek.Answer.Fits.{IsLongest, render_answer-IsLongest}
use vennek.Answer.Checks.{
  bounded_text, valid_question_text, is_user_id, is_chat_id, valid_telegram_identifier,
  canonical_question_input, input_text, detect_question_language, optional_answer,
  persistence_state_from, remove_all, with_notice, token_count, canonical_completion_output,
  Languages,
}
use vennek.Answer.Dependencies.{
  any_invisible, is_model_name, with_model, configured_models, snapshot_models, latency, usage_of,
  World, absent, function,
}
use vennek.Answer.Question.{
  safe_snapshot, any_stale, needs_discovery, select_model, newer_or, secret_output, record_usage,
  answer_rendered, answer_verification, observed_usage, verifier_output, verify, answer_parsed,
  answer_generated, generator_output, generate, is_secret_json, answer_from, refreshed_evidence,
  discover, answer_snapshot, answer_retrieved, retrieve, reuse, answer_persisted,
  question_contains_secret, valid_dependencies, answer_canonical, answer_question,
}
use vennek.Answer.Guarded.{IsGuarded, answer_question-IsGuarded}
use vennek.Answer.Possible.{IsAllowed}
use vennek.Answer.Allowed.{answer_question-IsAllowed}

-- The one name for what a test by `refl` computes with.
run : Unit {0}
unfolding same includes starts_with trim trim_end trim_start is_space get put is_high is_low
    code_points point_bytes bytes_of byte_length is_format own read is_digit all_digits is_canonical
    value_from all_listed Validate.listed join is_letter is_word run_while head_is is_scheme_unit
    is_solid after_colon scheme_rest uri_at is_label_unit is_alphanumeric last_of top_level
    domain_at after_bracket without_e citation_at matches_from has_link_or_marker Links.is_digit
    character_count is_blank within_bounds bounded_string valid_timestamp has_ascii_control
    is_safe_url valid_https_url is_hex all_hex is_version_hash tier_of frozen_evidence listed
    evidence_chars evidence_id snapshot_items snapshot_evidence exact_keys known_from by_id
    citation_ids all_unverified official_sources names_owners kind_of kind_supported is_nonempty
    claim_text claim_kind claim_citations supported_claim parse_claim parse_claims raw_claims
    answer_fields parse_generated_answer all_booleans parse_support filter_supported known_citations
    all_known claims_or_refused verify_output can_verify verify_claims is_invisible
    replace_invisible squeeze safe_label provenance_key date_label nonempty_texts joined_labels
    bracketed source_line unique_cited prepared prepare_from prepare_claims number_source
    number_item number_cited every_tier some_tier claim_labels citation_marks label_prefix
    claim_line number_claims claim_lines conflict_keys source_lines with_sources render_candidate
    render_fitting render_answer bounded_text valid_question_text is_user_id is_chat_id
    valid_telegram_identifier canonical_question_input input_text detect_question_language
    optional_answer persistence_state_from remove_all with_notice token_count
    canonical_completion_output any_invisible is_model_name with_model configured_models
    snapshot_models safe_snapshot any_stale needs_discovery select_model newer_or latency usage_of
    secret_output record_usage answer_rendered answer_verification observed_usage verifier_output
    verify answer_parsed answer_generated generator_output generate is_secret_json answer_from
    refreshed_evidence discover answer_snapshot answer_retrieved retrieve reuse answer_persisted
    question_contains_secret valid_dependencies answer_canonical answer_question
run = tt

abbrev evidence_value : Value
evidence_value = object (
    member "id" (string (codes "doc-7")) (
      member "sourceId" (string (codes "iog")) (
        member "owner" (string (codes "IOG")) (
          member "title" (string (codes "Docs")) (
            member "url" (string (codes "https://iog.io/docs")) (
              member "excerpt" (string (codes "Ouroboros is the protocol of Cardano.")) (
                member "retrievedAt" (string (codes "2026-01-02T00:00:00.000Z")) (
                  member "versionHash" (string (replicate 64 b'a')) (
                    member "stale" (boolean false)
                      (member "trustTier" (string (codes "official")) last))))))))))

abbrev claim_value : Value
claim_value = object (
    member "text" (string (codes "Ouroboros is a protocol.")) (
      member "citationIds" (array (element (string (codes "E1")) stop))
        (member "kind" (string (codes "fact")) last)))

abbrev generated_value : Value
generated_value = object (
    member "language" (string (codes "en"))
      (member "claims" (array (element claim_value stop)) last))

abbrev verdict_value : Value
verdict_value = object (member "supported" (array (element (boolean true) stop)) last)

abbrev https : Url
https = record {
  protocol = codes "https:";
  username = [];
  password = [];
  hostname = codes "iog.io";
}

abbrev toy : Platform
toy = record {
  json_parse = λ s.
      if same s (codes "generated")
      then some generated_value
      else if same s (codes "verdict")
      then some verdict_value
      else none;
  parse_url = λ _. some https;
  nfkc = λ s. s;
  to_lower = λ s. s;
  is_instant = λ _. true;
}

abbrev english : RenderLabels
english = record {
  community_only = codes "community-only";
  mixed_unverified = codes "mixed/unverified";
  conflict_label = codes "conflict";
  stale = codes "stale";
  sources = codes "Sources";
}

abbrev table : Languages
table = record {
  message = λ _ _. codes "message";
  labels = λ _. english;
  detect = λ _. codes "en";
  is_greeting = λ _ _. false;
  find_wallet_secret = λ s. includes s (codes "seed");
}

abbrev output_value : String → Value
output_value text = object (
    member "text" (string (codes text)) (
      member "model" (string (codes "m")) (
        member "promptTokens" (number (int (pos 10)))
          (member "completionTokens" (number (int (pos 5))) last))))

abbrev model_names : Value
model_names = object (
    member "fast" (string (codes "m"))
      (member "quality" (string (codes "m")) (member "verifier" (string (codes "m")) last)))

abbrev world : World
world = record {
  is_record = true;
  persist = function;
  retrieve = function;
  discover = absent;
  complete = function;
  record_usage = function;
  models = model_names;
  persisted = some undefined;
  retrieved = some (array (element evidence_value stop));
  discovered = false;
  refreshed = none;
  generated = some (output_value "generated");
  verified = some (output_value "verdict");
  generation_clock = (100, 350);
  verification_clock = (350, 600);
  stringify_evidence = λ _. some [];
}

abbrev question_value : String → Value
question_value text = object (
    member "telegramUserId" (string (codes "7"))
      (member "telegramChatId" (string (codes "-8")) (member "text" (string (codes text)) last)))

answered :
    (answer_question toy table world (question_value "What is Ouroboros?")).answer
    ≡ codes
        "Ouroboros is a protocol. [1]\n\nSources:\n[1] IOG — Docs (2026-01-02)\nhttps://iog.io/docs"
unfolding run
answered = refl

calls_made :
    length (answer_question toy table world (question_value "What is Ouroboros?")).calls ≡ 6
unfolding run
calls_made = refl

secret_refused : (answer_question toy table world (question_value "my seed")).calls ≡ []
unfolding run
secret_refused = refl

links_found :
    (has_link_or_marker (codes "see iog.io now") ≡ true)
    × (has_link_or_marker (codes "see ipfs:abc") ≡ true)
    × (has_link_or_marker (codes "as said [E1]") ≡ true)
    × (has_link_or_marker (codes "e.g. 3.5 ada") ≡ false)
unfolding run
links_found = (refl, refl, refl, refl)

answer_question-IsGuarded_example :
    IsGuarded toy table world
      (question_value "What is Ouroboros?")
      (answer_question toy table world (question_value "What is Ouroboros?")).calls
answer_question-IsGuarded_example =
    answer_question-IsGuarded toy table world (question_value "What is Ouroboros?")

answer_question-IsAllowed_example :
    IsAllowed toy table world
      (detect_question_language table (input_text (question_value "What is Ouroboros?")))
      (answer_question toy table world (question_value "What is Ouroboros?")).answer
answer_question-IsAllowed_example =
    answer_question-IsAllowed toy table world (question_value "What is Ouroboros?")

abbrev item : GroundedEvidence
item = record {
  id = codes "E1";
  source_id = codes "iog";
  owner = codes "IOG";
  trust_tier = official;
  title = codes "Docs";
  url = codes "https://iog.io/docs";
  excerpt = codes "Ouroboros is the protocol of Cardano.";
  published_at = none;
  retrieved_at = codes "2026-01-02T00:00:00.000Z";
  version_hash = replicate 64 b'a';
  stale = false;
}

snapshot_taken :
    snapshot_evidence toy (array (element evidence_value stop))
    ≡ some (record item { published_at = none } ∷ [])
unfolding run
snapshot_taken = refl

abbrev claim : GeneratedClaim
claim = record {
  text = codes "Ouroboros is a protocol.";
  citation_ids = codes "E1" ∷ [];
  kind = fact;
}

abbrev answer : GeneratedAnswer
answer = record { language = codes "en"; claims = claim ∷ [] }

answer_parsed_so :
    parse_generated_answer toy (codes "generated") (codes "en") (item ∷ []) ≡ some answer
unfolding run
answer_parsed_so = refl

parse_generated_answer-IsParsed_example : IsParsed toy (item ∷ []) (codes "en") answer
parse_generated_answer-IsParsed_example =
    parse_generated_answer-IsParsed toy (codes "generated") (codes "en") (item ∷ [])
      answer_parsed_so

render_answer-IsLongest_example :
    IsLongest english
      (prepare_claims (claim ∷ []) (item ∷ []))
      (length (prepare_claims (claim ∷ []) (item ∷ [])))
      (render_answer (claim ∷ []) (item ∷ []) english)
render_answer-IsLongest_example = render_answer-IsLongest (claim ∷ []) (item ∷ []) english

abbrev two_claims : List PreparedClaim
two_claims =
    record { text = codes "a"; kind = fact; cited = item ∷ [] }
    ∷ record { text = codes "b"; kind = fact; cited = item ∷ [] }
    ∷ []

number_claims-AllResolve_example :
    AllResolve
      (number_claims two_claims start_numbering).1.sources
      two_claims
      (number_claims two_claims start_numbering).0
    × HasNoRepetition (number_claims two_claims start_numbering).1.sources
    × ((i : ℕ) (source : GroundedEvidence)
        → get_elem? (number_claims two_claims start_numbering).1.sources i ≡ some source
        → get (provenance_key source) (number_claims two_claims start_numbering).1.numbers
          ≡ some (i + 1))
number_claims-AllResolve_example = number_claims-AllResolve two_claims
