-- ===== src/Payouts.antt =====
-- apps/relayer/src/phase3/execution-payload-store.ts: createPayoutV3ExecutionPayloadWriter and
-- createPayoutV3ExecutionPayloadDataSource, the queue of payouts. A row of it is a row of the table of
-- Payloads.antt, whose `job_id` is the payout id and whose `attempt_id` is the intent hash; statements
-- that differ by the names of table and column only are those of that file. A checkpoint has one
-- function, submitPayout, which is left out. `now` is CURRENT_TIMESTAMP.
pub mod Worker
pub mod Loads
pub mod Settled
mod Tests
use parly_relayer.Prelude.{
  ℕ, Bool, true, false, ◌&&◌, ◌||◌, ltb, leb, ◌==◌, if◌then◌else◌, Option, none, some, List, [],
  ◌∷◌, ◌++◌, filter, find?, head?, sort_by, Result, ok, err, ◌>>=◌, ◌>>◌, guard, Text, text_eq,
  text_ltb, to_lower,
}
use parly_relayer.Payloads.{
  PayloadStatus, PayloadError, bad_identifier, bad_max_attempts, unbound_payload, stale_lease,
  hashes_differ, rejected, FailureCode, EventType, ExecutionEvent, PayloadRow, CheckpointRow,
  PayloadStore, Host, is_identifier, event, has_job, holds, update_rows, row_count, unlocked, log,
  lease_token_hash_of, open_row,
}
use parly_relayer.Payloads.Acquire.{created_before, acquire_with}
use parly_relayer.Payloads.Enqueue.{queued_row, insert_payload}
use parly_relayer.Payloads.Report.{
  is_leased_under, record_relayer_owned_one_time_execution_dry_run,
  renew_relayer_owned_one_time_execution_lease, record_relayer_owned_one_time_execution_failed,
  record_relayer_owned_one_time_execution_payload_invalid,
}

-- `PayoutV3SubmitJob`
pub record PayoutSubmitJob : Type 0 where
  pub payout_id : Text
  pub intent_hash : Text
  pub idempotency_key : Text
  pub status : Text
  pub payout_authority : Text
  pub destination_recipient : Text
  pub provider_data : Text
  pub provider_data_hash : Text

pub record PayoutCheckpoint : Type 0 where
  pub payout_id : Text
  pub transaction_hash : Text
  pub created_at : ℕ

-- The tables of payouts; the checkpoints inside `queue` are not used.
pub record PayoutTables (Sealed : Type 0) : Type 0 where
  pub queue : PayloadStore Sealed
  pub checkpoints : List PayoutCheckpoint

-- `PayoutV3ExecutionJob`
pub record PayoutJob : Type 0 where
  pub lease_token : Text
  pub submit_job : PayoutSubmitJob
  pub confirmed_transaction : Option Text

pub of_payout : Text → PayoutCheckpoint → Bool
of_payout id row = text_eq row.payout_id id

-- ORDER BY created_at, transaction_hash
pub recorded_before : PayoutCheckpoint → PayoutCheckpoint → Bool
recorded_before a b =
    ltb a.created_at b.created_at
    || (a.created_at == b.created_at && text_ltb a.transaction_hash b.transaction_hash)

pub hash_of : Option PayoutCheckpoint → Option Text
hash_of none = none
hash_of (some row) = some row.transaction_hash

-- `checkpoint.rows[0]?.transaction_hash.toLowerCase() === hash.toLowerCase()`
pub is_hash_of_payout : Option PayoutCheckpoint → Text → Bool
is_hash_of_payout none hash = false
is_hash_of_payout (some row) hash = text_eq (to_lower row.transaction_hash) (to_lower hash)

module _ {Sealed : Type 0} where
  -- A statement on the queue alone.
  pub on_queue :
      PayoutTables Sealed
      → Result PayloadError (PayloadStore Sealed)
      → Result PayloadError (PayoutTables Sealed)
  on_queue tables (ok queue) = ok (record tables { queue = queue })
  on_queue tables (err thrown) = err thrown

-- The constraints of the table of checkpoints, and the row that LIMIT 1 takes of several, are the
-- database's: `admits` and `first`.
module _ {Sealed : Type 0} (host : Host Sealed PayoutSubmitJob)
    (admits : PayoutCheckpoint → List PayoutCheckpoint → Bool)
    (first : List PayoutCheckpoint → Option PayoutCheckpoint) where
  pub enqueue_payout_v3_execution_payload :
      (now : ℕ) (payout_id : Text) (payload : PayoutSubmitJob) (max_attempts : ℕ)
      → PayoutTables Sealed
      → Result PayloadError (PayoutTables Sealed)
  enqueue_payout_v3_execution_payload now payout_id payload max_attempts tables = do
    guard (is_identifier payout_id) bad_identifier
    guard (text_eq payload.payout_id payout_id) unbound_payload
    guard (leb 1 max_attempts && leb max_attempts 20) bad_max_attempts
    on_queue tables (
        insert_payload host (find? (has_job payout_id) tables.queue.payloads)
          (queued_row host now payout_id (to_lower payload.intent_hash) (host.encode payload)
            max_attempts)
          tables.queue)

  -- The `try` block, for the leased row; `none` where it throws.
  pub load_payout : List PayoutCheckpoint → Text → PayloadRow Sealed → Option PayoutJob
  load_payout checkpoints token row = elim (open_row host row) [
    | none ↦ none
    | some payload ↦
        if text_eq payload.payout_id row.job_id
        then some (record {
          lease_token = token;
          submit_job = payload;
          confirmed_transaction =
              hash_of (head? (sort_by recorded_before (filter (of_payout row.job_id) checkpoints)));
        })
        else none
  ]

  -- No job, one that cannot be read, or the leased one.
  pub acquire_payout_v3_execution_job :
      (now clock : ℕ) (locked : Text → Bool) (worker : Text) (lease_ms : ℕ) (token : Text)
      → PayoutTables Sealed
      → Result PayloadError (PayoutTables Sealed × Option (Option PayoutJob))
  acquire_payout_v3_execution_job now clock locked worker lease_ms token tables = do
    (queue, answer) ←
        acquire_with host (λ steps token row. load_payout tables.checkpoints token row)
          created_before now clock locked worker lease_ms token tables.queue
    ok (record tables { queue = queue }, answer)

  pub record_payout_v3_execution_dry_run :
      (now : ℕ) (payout_id lease_token : Text)
      → PayoutTables Sealed
      → Result PayloadError (PayoutTables Sealed)
  record_payout_v3_execution_dry_run now payout_id lease_token tables =
      on_queue tables (
        record_relayer_owned_one_time_execution_dry_run host now payout_id lease_token tables.queue)

  pub renew_payout_v3_execution_lease :
      (now : ℕ) (payout_id lease_token : Text)
      → PayoutTables Sealed
      → Result PayloadError (PayoutTables Sealed)
  renew_payout_v3_execution_lease now payout_id lease_token tables =
      on_queue tables
        (renew_relayer_owned_one_time_execution_lease host now payout_id lease_token tables.queue)

  pub record_payout_v3_execution_transaction_confirmed :
      (now : ℕ) (payout_id lease_token transaction_hash : Text)
      → PayoutTables Sealed
      → Result PayloadError (PayoutTables Sealed)
  record_payout_v3_execution_transaction_confirmed now payout_id lease_token transaction_hash
        tables =
      do
        hash ← lease_token_hash_of host lease_token
        guard (row_count (holds now payout_id hash) tables.queue.payloads == 1) stale_lease
        let row : PayoutCheckpoint = record {
          payout_id = payout_id;
          transaction_hash = to_lower transaction_hash;
          created_at = now;
        }
        guard (admits row tables.checkpoints) rejected
        ok (record tables {
          checkpoints = tables.checkpoints ++ row ∷ [];
          queue =
              log
                (record (event payout_id EventType.checkpoint_confirmed) {
                  lease_token_hash = some hash;
                  evidence_hash = some (host.sha256 (to_lower transaction_hash));
                })
                tables.queue;
        })

  pub record_payout_v3_execution_submitted :
      (now : ℕ) (payout_id lease_token transaction_hash : Text)
      → PayoutTables Sealed
      → Result PayloadError (PayoutTables Sealed)
  record_payout_v3_execution_submitted now payout_id lease_token transaction_hash tables = do
    hash ← lease_token_hash_of host lease_token
    guard (row_count (holds now payout_id hash) tables.queue.payloads == 1) stale_lease
    guard
        (is_hash_of_payout (first (filter (of_payout payout_id) tables.checkpoints))
          transaction_hash)
        hashes_differ
    guard (row_count (is_leased_under payout_id hash) tables.queue.payloads == 1) stale_lease
    ok (record tables {
      queue =
          log
            (record (event payout_id EventType.submitted) {
              lease_token_hash = some hash;
              evidence_hash = some (host.sha256 (to_lower transaction_hash));
            })
            (record tables.queue {
              payloads =
                  update_rows (is_leased_under payout_id hash)
                    (unlocked now PayloadStatus.submitted) tables.queue.payloads;
            });
    })

  pub record_payout_v3_execution_failed :
      (now : ℕ) (payout_id lease_token : Text) (failure_code : FailureCode)
      → PayoutTables Sealed
      → Result PayloadError (PayoutTables Sealed)
  record_payout_v3_execution_failed now payout_id lease_token failure_code tables =
      on_queue tables (
        record_relayer_owned_one_time_execution_failed host now payout_id lease_token failure_code
          tables.queue)

  pub record_payout_v3_execution_payload_invalid :
      (now : ℕ) (payout_id lease_token : Text)
      → PayoutTables Sealed
      → Result PayloadError (PayoutTables Sealed)
  record_payout_v3_execution_payload_invalid now payout_id lease_token tables = on_queue tables (
      record_relayer_owned_one_time_execution_payload_invalid host now payout_id lease_token
        tables.queue)
