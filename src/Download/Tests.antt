-- ===== src/Download/Tests.antt =====
-- A download of two chunks, its end and its consumer.
use vennek.Prelude.{
  ℕ, ◌≡◌, refl, inl, true, false, List, [], ◌∷◌, none, some, codes, length, same, trim, trim_start,
  trim_end, is_space, starts_with, includes, arith,
}
use vennek.Value.Decimal.{is_canonical, all_digits, is_digit, value_from}
use vennek.Ingress.Webhook.{before_semicolon, lower_ascii}
use vennek.Download.Headers.{
  absent, single, Response, is_refused, is_allowed_type, listed_text, parse_telegram_content_length,
  mismatch,
}
use vennek.Download.Machine.{
  resolved, rejected, returned, Event, response, data_chunk, ended, aborted, consumed, Download,
  start, step, on_response, on_data, on_end, succeed, fail, on_consumed, run_events,
}
use vennek.Value.{Value, member, last, object, string, number, int, pos, read, own}
use vennek.Unicode.{
  byte_length, bytes_of, point_bytes, code_points, is_high, is_low, any_control, is_control,
  is_format,
}
use vennek.Metadata.Validate.{all_listed, listed}
use vennek.Download.Paths.{
  TelegramFile, split_first, is_path_char, all_path_chars, is_segment, all_segments,
  validate_telegram_file_path, bounded_telegram_text, validate_members, validate_telegram_file,
}
use vennek.Download.SafeFile.{IsSafeFile, validate_telegram_file-IsSafeFile}
use vennek.Download.Settles.{Same, Wiped, run_events-Same, run_events-Wiped}
use vennek.Download.Handed.{Whole, data_until_end, run_events-handed}
use vennek.Download.Progress.{after_chunks, run_events-resolves}

abbrev pdf : Response
pdf = record {
  status = some 200;
  content_type = single (codes "Application/PDF");
  content_encoding = absent;
  content_length = single (codes "3");
}

run : Unit {0}
unfolding run_events step on_response on_data on_end succeed fail on_consumed is_refused
    is_allowed_type listed_text parse_telegram_content_length before_semicolon lower_ascii trim
    trim_start trim_end is_space same is_canonical all_digits is_digit value_from
run = tt

accepted_test : is_refused (some 3) pdf ≡ false
unfolding run
accepted_test = refl

abbrev chunks : List (List ℕ)
chunks = (1 ∷ 2 ∷ []) ∷ (3 ∷ []) ∷ []

abbrev bytes : List ℕ
bytes = 1 ∷ 2 ∷ 3 ∷ []

abbrev events : List Event
events = data_chunk (1 ∷ 2 ∷ []) ∷ data_chunk (3 ∷ []) ∷ ended ∷ consumed returned ∷ aborted ∷ []

declared_test :
    mismatch (parse_telegram_content_length pdf.content_length) (some (length bytes)) ≡ false
unfolding run
declared_test = refl

run_events-resolves_example :
    ((run_events
        (some 3)
        (response pdf ∷ after_chunks chunks (ended ∷ consumed returned ∷ aborted ∷ []))
        start).outcome
      ≡ some resolved)
    × ((run_events
          (some 3)
          (response pdf ∷ after_chunks chunks (ended ∷ consumed returned ∷ aborted ∷ []))
          start).handed
        ≡ some bytes)
run_events-resolves_example =
    run_events-resolves (some 3) pdf chunks returned (aborted ∷ []) accepted_test (omega arith)
      (omega arith) refl declared_test

handed_test : (run_events (some 3) (response pdf ∷ events) start).handed ≡ some bytes
unfolding run
handed_test = refl

run_events-handed_example :
    (is_refused (some 3) pdf ≡ false)
    × Whole
        (some 3)
        (parse_telegram_content_length pdf.content_length)
        (data_until_end events)
        bytes
run_events-handed_example = run_events-handed (some 3) pdf events bytes handed_test

abbrev done : Download
done = record start { settled = true; outcome = some (rejected 408) }

run_events-Same_example : Same done (run_events (some 3) events done)
run_events-Same_example = run_events-Same (some 3) events done refl

run_events-Wiped_example : Wiped (run_events (some 3) (response pdf ∷ events) start)
run_events-Wiped_example = run_events-Wiped (some 3) (response pdf ∷ events) start (inl refl)

abbrev answer : Value
answer = object (
    member "file_id" (string (codes "f1")) (
      member "file_unique_id" (string (codes "u1")) (
        member "file_size" (number (int (pos 3)))
          (member "file_path" (string (codes "documents/file_1.pdf")) last))))

abbrev file : TelegramFile
file = record {
  file_id = codes "f1";
  file_unique_id = codes "u1";
  file_size = some 3;
  file_path = some (codes "documents/file_1.pdf");
}

file_test : validate_telegram_file answer (codes "f1") ≡ some file
unfolding validate_telegram_file validate_members bounded_telegram_text validate_telegram_file_path
    read own same all_listed listed trim trim_start trim_end is_space split_first all_segments
    is_segment all_path_chars is_path_char starts_with includes byte_length bytes_of point_bytes
    code_points is_high is_low any_control is_control is_format
file_test = refl

climbing_test : validate_telegram_file_path (codes "a/../b") ≡ none
unfolding validate_telegram_file_path split_first all_segments is_segment all_path_chars
    is_path_char starts_with includes byte_length bytes_of point_bytes code_points is_high is_low
    any_control is_control is_format same
climbing_test = refl

validate_telegram_file-IsSafeFile_example : IsSafeFile (codes "f1") file
validate_telegram_file-IsSafeFile_example =
    validate_telegram_file-IsSafeFile answer (codes "f1") file file_test
