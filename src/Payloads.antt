-- ===== src/Payloads.antt =====
-- apps/relayer/src/phase3/execution-payload-store.ts: the queues of sealed payloads that the execution
-- workers lease, for settlement jobs and for payouts. Both tables go through the same statuses; `job_id`
-- is `payout_id` in the second. Each function is one transaction and one step, and what throws after
-- its transaction began leaves the store as it was, by ROLLBACK. `now` is CURRENT_TIMESTAMP, in
-- milliseconds. The row ids of events hold random bytes and are left out. What comes from outside is a
-- parameter (`Host`): the digest, the random token, the decipher with its key, the JSON codec and the
-- constraints of the tables, which no file of the repository declares.
pub mod Acquire
pub mod Enqueue
pub mod Report
pub mod Calls
pub mod Moves
pub mod Jobs
pub mod Refine
pub mod Changes
pub mod Reported
pub mod Acts
pub mod Fence
pub mod Leases
pub mod Steps
pub mod Full
pub mod Reads
mod Tests
use parly_relayer.Prelude.{
  ℕ, ◌+◌, ◌-◌, Bool, true, false, ◌&&◌, ◌||◌, not, ltb, leb, ◌==◌, if◌then◌else◌, Option, none,
  some, List, [], ◌∷◌, ◌++◌, Result, ok, err, ◌>>=◌, ◌>>◌, guard, Text, text_eq, to_lower, trim,
  is_nonempty, is_lower_bytes32, length, all, any,
}

pub data PayloadStatus : Type 0 where
  queued leased failed_retryable manual_review submitted confirmed : PayloadStatus

pub data FailureCode : Type 0 where
  lease_exhausted invalid_execution_payload broadcast_failed transaction_reverted : FailureCode

-- `RelayerOwnedOneTimeExecutionFunctionName`, and the function of the payout queue.
pub data FunctionName : Type 0 where
  register_attempt record_observation finalize_virtual_deposit submit_payout : FunctionName

pub data PayloadError : Type 0 where
  bad_identifier bad_attempt_id unbound_payload bad_max_attempts different_payload : PayloadError
  bad_lease bad_lease_token stale_lease bad_hash no_matching_checkpoint not_submitted : PayloadError
  unsupported_function not_next_step bad_hash_count hashes_differ rejected : PayloadError

pub data EventType : Type 0 where
  queued leased dry_run checkpoint_confirmed failed_retryable manual_review submitted confirmed :
      EventType

pub record ExecutionEvent : Type 0 where
  pub job_id : Text
  pub event_type : EventType
  pub step_index : Option ℕ
  pub lease_token_hash : Option Text
  pub evidence_hash : Option Text
  pub failure_code : Option FailureCode

pub record PayloadRow (Sealed : Type 0) : Type 0 where
  pub job_id : Text
  pub attempt_id : Text
  pub sealed : Sealed
  pub payload_hash : Text
  pub status : PayloadStatus
  pub attempt_number : ℕ
  pub max_attempts : ℕ
  pub failure_code : Option FailureCode
  pub locked_by : Option Text
  pub locked_until : Option ℕ
  pub lease_duration_ms : Option ℕ
  pub lease_token_hash : Option Text
  pub created_at : ℕ
  pub updated_at : ℕ

pub record CheckpointRow : Type 0 where
  pub job_id : Text
  pub step_index : ℕ
  pub function_name : FunctionName
  pub transaction_hash : Text

pub record PayloadStore (Sealed : Type 0) : Type 0 where
  pub payloads : List (PayloadRow Sealed)
  pub checkpoints : List CheckpointRow
  pub events : List ExecutionEvent

-- What the store does not implement. `seal` and `decipher` are AES-256-GCM under the key of the store,
-- `encode` and `decode` the JSON codec; a payload has three signed parts, each with an attempt id.
pub record Host (Sealed Payload : Type 0) : Type 0 where
  pub sha256 : Text → Text
  pub encode : Payload → Text
  pub decode : Text → Option Payload
  pub seal : Text → Sealed
  pub decipher : Sealed → Option Text
  pub attempt_id : Payload → Text
  pub observation_attempt_id : Payload → Text
  pub settlement_attempt_id : Payload → Text
  pub admits_payload : PayloadRow Sealed → List (PayloadRow Sealed) → Bool
  pub admits_checkpoint : CheckpointRow → List CheckpointRow → Bool

-- `FUNCTION_ORDER.indexOf`, for the functions that it has.
pub function_index : FunctionName → Option ℕ
function_index register_attempt = some 0
function_index record_observation = some 1
function_index finalize_virtual_deposit = some 2
function_index submit_payout = none

is_identifier_char : ℕ → Bool
is_identifier_char c =
    (leb b'a' c && leb c b'z')
    || (leb b'A' c && leb c b'Z')
    || (leb b'0' c && leb c b'9')
    || c == b':'
    || c == b'_'
    || c == b'-'

-- `/^[a-zA-Z0-9:_-]{1,160}$/`
unfoldable pub is_identifier : Text → Bool
unfolding is_identifier_char
is_identifier t = leb 1 (length t) && leb (length t) 160 && all is_identifier_char t

unfoldable pub is_leased : PayloadStatus → Bool
is_leased leased = true
is_leased _ = false

pub is_submitted : PayloadStatus → Bool
is_submitted submitted = true
is_submitted _ = false

-- `locked_until >= CURRENT_TIMESTAMP`, and `locked_until < CURRENT_TIMESTAMP`; NULL is neither.
unfoldable pub runs_at : Option ℕ → ℕ → Bool
runs_at none now = false
runs_at (some t) now = leb now t

unfoldable pub ran_out_at : Option ℕ → ℕ → Bool
ran_out_at none now = false
ran_out_at (some t) now = ltb t now

unfoldable pub has_token : Option Text → Text → Bool
has_token none hash = false
has_token (some t) hash = text_eq t hash

pub event : Text → EventType → ExecutionEvent
event job_id type = record {
  job_id = job_id;
  event_type = type;
  step_index = none;
  lease_token_hash = none;
  evidence_hash = none;
  failure_code = none;
}

module _ {Sealed : Type 0} where
  unfoldable pub has_job : Text → PayloadRow Sealed → Bool
  has_job job row = text_eq row.job_id job

  -- `job_id = $1 AND lease_token_hash = $2 AND status = 'leased' AND locked_until >= CURRENT_TIMESTAMP`
  unfoldable pub holds : ℕ → Text → Text → PayloadRow Sealed → Bool
  holds now job hash row =
      has_job job row
      && has_token row.lease_token_hash hash
      && is_leased row.status
      && runs_at row.locked_until now

  unfoldable pub update_rows :
      (PayloadRow Sealed → Bool)
      → (PayloadRow Sealed → PayloadRow Sealed)
      → List (PayloadRow Sealed)
      → List (PayloadRow Sealed)
  update_rows p f [] = []
  update_rows p f (row ∷ rows) = (if p row then f row else row) ∷ update_rows p f rows

  -- The number of rows that a statement updates or selects.
  unfoldable pub row_count : (PayloadRow Sealed → Bool) → List (PayloadRow Sealed) → ℕ
  row_count p [] = 0
  row_count p (row ∷ rows) = (if p row then 1 else 0) + row_count p rows

  -- The end of a lease, with the columns that every such statement clears.
  unfoldable pub unlocked : ℕ → PayloadStatus → PayloadRow Sealed → PayloadRow Sealed
  unlocked now status row = record row {
    status = status;
    locked_by = none;
    locked_until = none;
    lease_duration_ms = none;
    lease_token_hash = none;
    updated_at = now;
  }

  unfoldable pub log : ExecutionEvent → PayloadStore Sealed → PayloadStore Sealed
  log e store = record store { events = store.events ++ e ∷ [] }

module _ {Sealed Payload : Type 0} (host : Host Sealed Payload) where
  -- `leaseTokenHash`
  unfoldable pub lease_token_hash_of : Text → Result PayloadError Text
  lease_token_hash_of token = do
    guard (is_nonempty (trim token)) bad_lease_token
    ok (host.sha256 token)

  -- An UPDATE of the row that the lease holds, with `assertSingleRow`.
  unfoldable pub update_held :
      ℕ
      → Text
      → Text
      → (PayloadRow Sealed → PayloadRow Sealed)
      → PayloadStore Sealed
      → Result PayloadError (PayloadStore Sealed)
  update_held now job hash f store = do
    guard (row_count (holds now job hash) store.payloads == 1) stale_lease
    ok (record store { payloads = update_rows (holds now job hash) f store.payloads })

  -- The decryption, with the comparison of the digest; `none` where it throws.
  unfoldable pub open_row : PayloadRow Sealed → Option Payload
  open_row row = elim (host.decipher row.sealed) [
    | none ↦ none
    | some serialized ↦
        if text_eq (host.sha256 serialized) row.payload_hash then host.decode serialized else none
  ]
