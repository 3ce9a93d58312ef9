-- ===== src/Polling/Tests.antt =====
-- A run of the polling loop: a private comparison that the queue refuses once.
use Prim.Native.Nat.{max}
use vennek.Prelude.{
  ℕ, ◌≤◌, ◌<◌, ◌≡◌, ◌↔◌, refl, Bool, true, false, List, [], ◌∷◌, none, some, get, ◌==◌,
  if◌then◌else◌, arith,
}
use vennek.AccessControl.{allow}
use vennek.Value.{
  Value, member, last, object, number, int, pos, read_of, read, own, has_own, positive_safe,
}
use vennek.Ingress.Sample.{finds_seed, document_update, sample_job, canonicalize-sample}
use vennek.Polling.Delivery.{
  Attempt, sent, rejected, deliver_message, is_transient, max_attempts,
  deliver_message-delivered_iff,
}
use vennek.Prelude.{same, trim, trim_end, trim_start, is_space, includes, starts_with}
use vennek.Value.Decimal.{decimal, is_canonical, all_digits, is_digit, value_from}
use vennek.Unicode.{
  is_high, is_low, byte_length, bytes_of, point_bytes, code_points, any_control, is_control,
  is_format,
}
use vennek.Metadata.Bounded.{bounded_text, bounded_file_name, bounded_mime, is_blank, scan}
use vennek.Metadata.Validate.{
  validate_private_comparison_metadata, optional_data_record, fields_of, caption_ok, identifier_ok,
  all_listed, listed,
}
use vennek.Ingress.Update.{
  canonical_private_telegram_identifier, has_any, parse_document, parse_private_comparison_job,
  canonicalize_message, canonicalize_telegram_update,
}
use vennek.Polling.Step.{
  enqueue_private, handle_private, is_retained, State, World, proceed, Cycle, throws, returns,
  handle_update, for_updates, run_cycles, next_offset_for, skip_update, acknowledge, handle_valid,
  text_parts,
}
use vennek.Polling.Acknowledge.{Forward, run_cycles-Forward, Covers, for_updates-Covers}
use vennek.Polling.Retry.{IsPrivate, Retained, retry}
use mathlib.Core.Path.{subst}
use vennek.Prelude.{some_equal}
use vennek.Prelude.Every.{All}
use vennek.Polling.Enqueued.{Fetched, AllOwned, run_cycles-AllOwned}

-- A passing error, then success.
abbrev second : ℕ → Attempt
second n = if n == 2 then sent else rejected (some 429) false false

delivery_test :
    deliver_message false second
    ≡ record { delivered = true; aborted = false; attempts = 2; status = none }
unfolding deliver_message
delivery_test = refl

-- A chat that blocked the bot is not tried again.
blocked_test :
    deliver_message false (λ n. rejected (some 403) false false)
    ≡ record { delivered = false; aborted = false; attempts = 1; status = some 403 }
unfolding deliver_message
blocked_test = refl

deliver_message-delivered_iff_example :
    (((deliver_message false second).delivered ≡ true)
      × ((deliver_message false second).attempts ≡ 2))
    ↔ (◌≡◌ {A = Bool} false false
        × (1 ≤ 2)
        × (2 ≤ max_attempts)
        × (second 2 ≡ sent)
        × ((k : ℕ) → 1 ≤ k → k < 2 → is_transient (second k) ≡ true))
deliver_message-delivered_iff_example = deliver_message-delivered_iff false second 2

abbrev start : State
start = record {
  offset = 7;
  pending = none;
  limiter = record { limit = 2; window_ms = 60000; windows = [] };
  saved = 7;
  enqueued = [];
  answered = [];
}

abbrev failing : World
failing = record {
  aborted = false;
  aborted_failing = false;
  now = 5;
  enqueue = throws;
  answer_throws = false;
  aborted_answering = false;
  send = second;
  write_throws = false;
}

-- An update with no message.
abbrev empty_update : Value
empty_update = object (member "update_id" (number (int (pos 9))) last)

abbrev batch : List (Value × World)
batch = (empty_update, failing) ∷ []

id_test : positive_safe (read_of "update_id" empty_update) ≡ some 9
unfolding positive_safe read_of
id_test = refl

batch_test : (for_updates finds_seed start batch).1 ≡ proceed
unfolding for_updates handle_update handle_valid read_of read own has_own positive_safe skip_update
    acknowledge text_parts
batch_test = refl

for_updates-Covers_example : Covers (for_updates finds_seed start batch).0.offset batch
for_updates-Covers_example = for_updates-Covers finds_seed start batch (omega arith) batch_test

abbrev cycles : List Cycle
cycles = record { aborted = false; updates = λ offset. some batch; aborted_failing = false } ∷ []

run_cycles-Forward_example : Forward start (run_cycles finds_seed start cycles)
run_cycles-Forward_example = run_cycles-Forward finds_seed start cycles (omega arith)

-- A cycle that fetches a document, which the queue takes.
abbrev taking : List Cycle
taking =
    record {
      aborted = false;
      updates = λ offset. some ((document_update, record failing { enqueue = returns true }) ∷ []);
      aborted_failing = false;
    }
    ∷ []

taking_test : (run_cycles finds_seed start taking).enqueued ≡ sample_job ∷ []
unfolding run_cycles for_updates handle_update handle_valid enqueue_private handle_private
    is_retained acknowledge allow get canonicalize_telegram_update canonicalize_message
    parse_private_comparison_job parse_document has_any canonical_private_telegram_identifier own
    has_own read read_of positive_safe decimal same validate_private_comparison_metadata
    optional_data_record fields_of caption_ok identifier_ok bounded_text bounded_file_name
    bounded_mime is_blank scan is_high is_low byte_length bytes_of point_bytes code_points
    any_control is_control is_format all_listed listed trim trim_end trim_start is_space includes
    starts_with is_canonical all_digits is_digit value_from
taking_test = refl

abbrev IsDocument : Value → Type 0
IsDocument update = update ≡ document_update

taking-Fetched : Fetched IsDocument taking
taking-Fetched =
    (λ offset updates e. subst (All (λ u. IsDocument u.0)) (some_equal _ updates e) (refl, tt), tt)

none_test : AllOwned finds_seed IsDocument []
unfolding AllOwned
none_test = tt

run_cycles-AllOwned_example :
    AllOwned finds_seed IsDocument (run_cycles finds_seed start taking).enqueued
run_cycles-AllOwned_example =
    run_cycles-AllOwned finds_seed IsDocument start taking taking-Fetched none_test

document_test : IsPrivate finds_seed document_update 7 sample_job
unfolding positive_safe read_of read own has_own
document_test = (refl, refl, canonicalize-sample)

allowed_test : (allow start.limiter sample_job.telegram_chat_id 5).0 ≡ true
unfolding allow get
allowed_test = refl

retry_example :
    (Retained start 7 sample_job (handle_update finds_seed start failing document_update).0)
    × ((t : State) (again : World) (admitted : Bool)
        → t.pending ≡ (handle_update finds_seed start failing document_update).0.pending
        → again.aborted ≡ false
        → again.enqueue ≡ returns admitted
        → again.write_throws ≡ false
        → handle_update finds_seed t again document_update ≡ (
          record t {
            enqueued = sample_job ∷ t.enqueued;
            pending = none;
            offset = max t.offset (next_offset_for 7);
            saved = max t.offset (next_offset_for 7);
          },
          proceed,
        ))
retry_example =
    retry finds_seed start failing document_update 7 sample_job document_test refl refl refl
      allowed_test
