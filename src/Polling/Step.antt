-- ===== src/Polling/Step.antt =====
-- `runPolling`: one update, a batch of updates, and the cycles.
use Prim.Native.Nat.{max}
use vennek.Prelude.{
  ℕ, ◌+◌, Bool, true, false, ◌&&◌, not, List, [], ◌∷◌, Option, none, some, Text, leb, ◌==◌,
  if◌then◌else◌, same, trim,
}
use vennek.AccessControl.{Limiter, allow}
use vennek.Value.{
  Value, object, string, number, has_own, read_of, as_text, positive_safe, nonzero_safe,
}
use vennek.Value.Decimal.{decimal, decimal_int, is_canonical, value_of}
use vennek.Ingress.Update.{
  PrivateJob, Parsed, private_compare, canonicalize_telegram_update, decimal_of,
}
use vennek.Polling.Delivery.{Attempt, deliver_message}

-- `canonicalTelegramIdentifier` of a text: a canonical decimal, signed where it is no user's,
-- within 64 bits.
abbrev pub max_int64 : ℕ
max_int64 = 9223372036854775807

unfoldable pub signed_identifier : Text → Bool
signed_identifier [] = false
signed_identifier (c ∷ s) =
    if c == 45
    then is_canonical s && leb (value_of s) (max_int64 + 1)
    else is_canonical (c ∷ s) && leb (value_of (c ∷ s)) max_int64

unfoldable pub user_identifier : Text → Bool
user_identifier s = is_canonical s && leb (value_of s) max_int64

abbrev text_if : Bool → Text → Option Text
text_if b s = if b then some s else none

abbrev int_text : Value → Option Text
int_text v = elim (nonzero_safe v) [ none ↦ none | some z ↦ some (decimal_int z) ]

unfoldable pub canonical_telegram_identifier : Value → (user : Bool) → Option Text
unfolding user_identifier signed_identifier positive_safe nonzero_safe decimal decimal_int
canonical_telegram_identifier (number n) user =
    if user then decimal_of (positive_safe (number n)) else int_text (number n)
canonical_telegram_identifier (string s) user =
    text_if (if user then user_identifier s else signed_identifier s) s
canonical_telegram_identifier _ user = none

-- What `enqueuePrivate` does: there is none, it throws, or it returns.
pub data Enqueue : Type 0 where
  unavailable : Enqueue
  throws : Enqueue
  returns : (admitted : Bool) → Enqueue

-- What happens around one update: the signal before it and after an error of the queue, the clock,
-- the queue, whether `answer` throws, the signal before the delivery and its attempts, and whether
-- the offset cannot be written.
pub record World : Type 0 where
  pub aborted : Bool
  pub aborted_failing : Bool
  pub now : ℕ
  pub enqueue : Enqueue
  pub answer_throws : Bool
  pub aborted_answering : Bool
  pub send : ℕ → Attempt
  pub write_throws : Bool

pub record Approval : Type 0 where
  pub update_id : ℕ
  pub chat_id : Text

-- The locals of the loop, the offset on disk, and the calls of the queue and of `answer` so far.
pub record State : Type 0 where
  pub offset : ℕ
  pub pending : Option Approval
  pub limiter : Limiter
  pub saved : ℕ
  pub enqueued : List PrivateJob
  pub answered : List ℕ

-- How the body of the loop ends: it goes on with the next update, breaks, or throws.
pub data Flow : Type 0 where
  proceed leave thrown : Flow

abbrev pub next_offset_for : ℕ → ℕ
next_offset_for update_id = update_id + 1

-- The offset in memory, then on disk.
unfoldable pub acknowledge :
    State → (update_id : ℕ) → (write_throws : Bool) → (failed : Flow) → State × Flow
acknowledge s update_id write_throws failed =
    let offset = max s.offset (next_offset_for update_id) in
    if write_throws
    then (record s { offset = offset }, failed)
    else (record s { offset = offset; saved = offset }, proceed)

unfoldable pub skip_update : State → World → (update_id : ℕ) → State × Flow
unfolding acknowledge
skip_update s w update_id = acknowledge s update_id w.write_throws thrown

unfoldable pub is_retained : Option Approval → (update_id : ℕ) (chat_id : Text) → Bool
unfolding same
is_retained none update_id chat_id = false
is_retained (some a) update_id chat_id = (a.update_id == update_id) && same a.chat_id chat_id

abbrev pub approve : (update_id : ℕ) (chat_id : Text) → Approval
approve update_id chat_id = record { update_id = update_id; chat_id = chat_id }

-- The `try` around the queue: a failed write of the offset ends in the same `catch`.
unfoldable pub enqueue_private : State → World → (update_id : ℕ) → PrivateJob → State × Flow
unfolding acknowledge
enqueue_private s w update_id job =
    let approval = some (approve update_id job.telegram_chat_id) in
    let called = record s { enqueued = job ∷ s.enqueued } in
    elim w.enqueue [
      | unavailable ↦ (record s { pending = approval }, leave)
      | throws ↦
          ((if w.aborted_failing then called else record called { pending = approval }), leave)
      | returns admitted ↦
          if w.write_throws
          then (
            record called {
              offset = max s.offset (next_offset_for update_id);
              pending = if w.aborted_failing then none else approval;
            },
            leave,
          )
          else acknowledge (record called { pending = none }) update_id false leave
    ]

abbrev pub use_limiter : State → Limiter → State
use_limiter s l = record s { limiter = l }

unfoldable pub handle_private : State → World → (update_id : ℕ) → PrivateJob → State × Flow
unfolding is_retained allow enqueue_private skip_update
handle_private s w update_id job =
    if is_retained s.pending update_id job.telegram_chat_id
    then enqueue_private s w update_id job
    else let limited = allow s.limiter job.telegram_chat_id w.now in
      if limited.0
      then enqueue_private (use_limiter s limited.1) w update_id job
      else skip_update (record s { pending = none; limiter = limited.1 }) w update_id

abbrev pub handle_parsed : State → World → (update_id : ℕ) → Parsed → State × Flow
handle_parsed s w update_id (private_compare job) = handle_private s w update_id job
handle_parsed s w update_id _ = skip_update (record s { pending = none }) w update_id

-- An answer for a text, from the limiter on.
unfoldable pub handle_text :
    State → World → (update_id : ℕ) → (chat_id user_id text : Text) → State × Flow
unfolding allow skip_update deliver_message
handle_text s w update_id chat_id user_id text =
    let limited = allow s.limiter chat_id w.now in
    let used = use_limiter s limited.1 in
    let asked = record used { answered = update_id ∷ s.answered } in
    let delivery = deliver_message w.aborted_answering w.send in
    if not limited.0
    then skip_update used w update_id
    else if w.answer_throws
    then (asked, thrown)
    else if delivery.aborted
    then (asked, leave)
    else skip_update asked w update_id

-- `chatId`, the trimmed text and `userId`, where the update has all three.
unfoldable pub text_parts : Value → Option (Text × Text × Text)
unfolding read_of canonical_telegram_identifier trim
text_parts message =
    elim (canonical_telegram_identifier (read_of "id" (read_of "chat" message)) false) [
      | none ↦ none
      | some chat_id ↦ elim (as_text (read_of "text" message)) [
        | none ↦ none
        | some raw ↦ elim (trim raw) [
          | [] ↦ none
          | c ∷ text ↦
              elim (canonical_telegram_identifier (read_of "id" (read_of "from" message)) true) [
                | none ↦ none
                | some user_id ↦ some (chat_id, user_id, c ∷ text)
              ]
        ]
      ]
    ]

abbrev pub has_document : Value → Bool
has_document (object ms) = has_own "document" ms
has_document _ = false

abbrev pub handle_parts :
    State → World → (update_id : ℕ) → Option (Text × Text × Text) → State × Flow
handle_parts s w update_id none = skip_update s w update_id
handle_parts s w update_id (some (chat_id, user_id, text)) =
    handle_text s w update_id chat_id user_id text

-- An update with an identifier.
unfoldable pub handle_valid :
    (find_wallet_secret : Text → Bool) → State → World → (update_id : ℕ) → Value → State × Flow
unfolding read_of has_own
handle_valid find s w update_id update =
    let message = read_of "message" update in
    if has_document message
    then handle_parsed s w update_id (canonicalize_telegram_update find update true)
    else handle_parts s w update_id (text_parts message)

unfoldable pub handle_update :
    (find_wallet_secret : Text → Bool) → State → World → Value → State × Flow
unfolding handle_valid positive_safe
handle_update find s w update =
    if w.aborted then (s, leave) else elim (positive_safe (read_of "update_id" update)) [
      | none ↦ (s, proceed)
      | some update_id ↦ handle_valid find s w update_id update
    ]

-- The rest of the inner loop, unless its body left it.
abbrev pub on_proceed : State × Flow → (State → State × Flow) → State × Flow
on_proceed (s, proceed) rest = rest s
on_proceed (s, leave) rest = (s, leave)
on_proceed (s, thrown) rest = (s, thrown)

unfoldable pub for_updates :
    (find_wallet_secret : Text → Bool) → State → List (Value × World) → State × Flow
for_updates find s [] = (s, proceed)
for_updates find s ((update, w) ∷ updates) =
    on_proceed (handle_update find s w update) (λ t. for_updates find t updates)

-- One round of the outer loop: the signal before it, what `getUpdates` answers for the offset (or
-- that it throws), and the signal after an error.
pub record Cycle : Type 0 where
  pub aborted : Bool
  pub updates : (offset : ℕ) → Option (List (Value × World))
  pub aborted_failing : Bool

abbrev pub cycle_updates :
    (find_wallet_secret : Text → Bool) → State → Option (List (Value × World)) → State × Flow
cycle_updates find s none = (s, thrown)
cycle_updates find s (some updates) = for_updates find s updates

-- The next round, unless the body threw into an aborted signal.
abbrev pub on_caught : (aborted : Bool) → State × Flow → (State → State) → State
on_caught true (s, thrown) rest = s
on_caught aborted (s, flow) rest = rest s

-- `maxCycles` is the length of the list, where it is given.
unfoldable pub run_cycles : (find_wallet_secret : Text → Bool) → State → List Cycle → State
unfolding for_updates
run_cycles find s [] = s
run_cycles find s (c ∷ cycles) =
    if c.aborted
    then s
    else on_caught c.aborted_failing (cycle_updates find s (c.updates s.offset))
        (λ t. run_cycles find t cycles)
