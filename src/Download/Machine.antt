-- ===== src/Download/Machine.antt =====
-- The promise of `withTelegramFile` as a state and the events that change it.
use vennek.Prelude.{
  ℕ, ◌+◌, Bool, true, false, ◌&&◌, ◌||◌, not, List, [], ◌∷◌, ◌++◌, Option, none, some, ltb,
  if◌then◌else◌, length, replicate,
}
use vennek.Download.Headers.{
  Response, is_refused, parse_telegram_content_length, refusal_status, max_file_bytes, mismatch,
}

-- How the promise is settled: resolved, rejected with the status of a `TelegramApiError`, or rejected
-- with the error of the consumer.
pub data Outcome : Type 0 where
  resolved : Outcome
  rejected : (status : ℕ) → Outcome
  consumer_error : Outcome

-- What the consumer does with the bytes.
pub data Consumed : Type 0 where
  returned : Consumed
  threw : (client_error : Bool) → Consumed

pub data Event : Type 0 where
  response : Response → Event
  data_chunk : List ℕ → Event
  response_error ended request_error timed_out aborted : Event
  consumed : Consumed → Event

-- `buffer` is what was written of the buffer, `subarray(0, total)`; `listening` says that the
-- listeners for data, errors and the end are attached; `handed` is what the consumer was given.
pub record Download : Type 0 where
  pub buffer : List ℕ
  pub outcome : Option Outcome
  pub settled : Bool
  pub network_complete : Bool
  pub answered : Bool
  pub listening : Bool
  pub declared : Option ℕ
  pub handed : Option (List ℕ)

abbrev pub start : Download
start = record {
  buffer = [];
  outcome = none;
  settled = false;
  network_complete = false;
  answered = false;
  listening = false;
  declared = none;
  handed = none;
}

-- `buffer.fill(0)`.
abbrev pub clean_buffer : List ℕ → List ℕ
clean_buffer buffer = replicate (length buffer) 0

abbrev pub settle : Outcome → Download → Download
settle o d = record d { settled = true; outcome = some o; buffer = clean_buffer d.buffer }

-- Once it is settled, or the network is done, an error changes nothing.
unfoldable pub fail : ℕ → Download → Download
fail status d = if d.settled || d.network_complete then d else settle (rejected status) d

-- The buffer goes to the consumer, and the listeners of the network are detached.
unfoldable pub succeed : (expected_size : Option ℕ) → Download → Download
unfolding fail
succeed expected d =
    if d.settled || d.network_complete
    then d
    else if ltb (length d.buffer) 1 || mismatch expected (some (length d.buffer))
    then fail 502 d
    else record d { network_complete = true; listening = false; handed = some d.buffer }

abbrev pub exceeds : Option ℕ → ℕ → Bool
exceeds none total = false
exceeds (some declared) total = ltb declared total

unfoldable pub on_data : List ℕ → Download → Download
unfolding fail
on_data chunk d =
    let total = length d.buffer + length chunk in
    if d.settled || ltb max_file_bytes total || exceeds d.declared total
    then fail 502 d
    else record d { buffer = d.buffer ++ chunk }

unfoldable pub on_end : (expected_size : Option ℕ) → Download → Download
unfolding succeed fail
on_end expected d =
    if mismatch d.declared (some (length d.buffer)) then fail 502 d else succeed expected d

-- The callback of the request, which is called once.
unfoldable pub on_response : (expected_size : Option ℕ) → Response → Download → Download
unfolding is_refused parse_telegram_content_length fail
on_response expected r d =
    if d.answered || (d.settled || d.network_complete)
    then d
    else if is_refused expected r
    then fail (refusal_status r.status) (record d { answered = true })
    else record d {
      answered = true;
      listening = true;
      declared = parse_telegram_content_length r.content_length;
    }

abbrev pub outcome_of : Consumed → Outcome
outcome_of returned = resolved
outcome_of (threw true) = consumer_error
outcome_of (threw false) = rejected 502

-- The consumer runs once the network is done.
unfoldable pub on_consumed : Consumed → Download → Download
on_consumed c d = if d.network_complete && not d.settled then settle (outcome_of c) d else d

-- An event of the response is seen while its listeners are attached.
unfoldable pub step : (expected_size : Option ℕ) → Event → Download → Download
unfolding on_response on_data on_end fail on_consumed
step expected (response r) d = on_response expected r d
step expected (data_chunk c) d = if d.listening then on_data c d else d
step expected response_error d = if d.listening then fail 502 d else d
step expected ended d = if d.listening then on_end expected d else d
step expected request_error d = fail 502 d
step expected timed_out d = fail 408 d
step expected aborted d = fail 499 d
step expected (consumed c) d = on_consumed c d

unfoldable pub run_events : (expected_size : Option ℕ) → List Event → Download → Download
unfolding step
run_events expected [] d = d
run_events expected (e ∷ es) d = run_events expected es (step expected e d)
