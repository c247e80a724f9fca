-- ===== src/Payloads/Report.antt =====
-- What the holder of a lease reports on a settlement job. `now` is CURRENT_TIMESTAMP.
use parly_relayer.Prelude.{
  ℕ, ◌+◌, ◌-◌, Bool, true, false, ◌&&◌, ltb, ◌==◌, if◌then◌else◌, Option, none, some, List, [], ◌∷◌,
  ◌++◌, Result, ok, err, ◌>>=◌, ◌>>◌, guard, Text, text_eq, to_lower, length, filter, find?,
  sort_by,
}
use parly_relayer.Payloads.{
  PayloadStatus, PayloadError, bad_identifier, stale_lease, unsupported_function, not_next_step,
  bad_hash_count, hashes_differ, rejected, FailureCode, invalid_execution_payload, broadcast_failed,
  FunctionName, EventType, PayloadRow, CheckpointRow, PayloadStore, Host, function_index,
  is_identifier, is_leased, has_token, event, has_job, holds, update_rows, row_count, unlocked, log,
  lease_token_hash_of, update_held,
}
use parly_relayer.Payloads.Acquire.{of_job, earlier_step, is_function_at}

-- `locked_until` of a renewed lease; a duration that is NULL makes it NULL.
unfoldable pub renewed_until : ℕ → Option ℕ → Option ℕ
renewed_until now none = none
renewed_until now (some duration) = some (now + duration)

-- `failureCode === "broadcast_failed"`
is_retryable : FailureCode → Bool
is_retryable broadcast_failed = true
is_retryable _ = false

event_of_status : PayloadStatus → EventType
event_of_status PayloadStatus.failed_retryable = EventType.failed_retryable
event_of_status _ = EventType.manual_review

-- `checkpoints.rows.some(...)`, negated, from an index on.
unfoldable pub matches_steps : ℕ → List CheckpointRow → List Text → Bool
matches_steps index [] hashes = true
matches_steps index (row ∷ rows) [] = false
matches_steps index (row ∷ rows) (hash ∷ hashes) =
    row.step_index == index
    && is_function_at (function_index row.function_name) index
    && text_eq (to_lower row.transaction_hash) (to_lower hash)
    && matches_steps (index + 1) rows hashes

-- `hashes.map((hash) => hash.toLowerCase()).join(":")`
join_lower : List Text → Text
join_lower [] = []
join_lower (hash ∷ []) = to_lower hash
join_lower (hash ∷ hashes) = to_lower hash ++ b':' ∷ join_lower hashes

module _ {Sealed : Type 0} where
  -- The attempt of a run that broadcast nothing is given back.
  unfoldable pub requeue : ℕ → PayloadRow Sealed → PayloadRow Sealed
  requeue now row = record (unlocked now PayloadStatus.queued row) {
    attempt_number = row.attempt_number - 1;
  }

  unfoldable pub renew_row : ℕ → PayloadRow Sealed → PayloadRow Sealed
  unfolding renewed_until
  renew_row now row = record row {
    locked_until = renewed_until now row.lease_duration_ms;
    updated_at = now;
  }

  unfoldable pub failed_status : FailureCode → PayloadRow Sealed → PayloadStatus
  unfolding is_retryable
  failed_status code row =
      if is_retryable code && ltb row.attempt_number row.max_attempts
      then PayloadStatus.failed_retryable
      else PayloadStatus.manual_review

  unfoldable pub fail_row : ℕ → FailureCode → PayloadRow Sealed → PayloadRow Sealed
  fail_row now code row = record (unlocked now (failed_status code row) row) {
    failure_code = some code;
  }

  unfoldable pub review_invalid : ℕ → PayloadRow Sealed → PayloadRow Sealed
  review_invalid now row = record (unlocked now PayloadStatus.manual_review row) {
    failure_code = some invalid_execution_payload;
  }

  -- `updated.rows[0]?.status ?? "manual_review"`
  unfoldable pub failed_event : FailureCode → Option (PayloadRow Sealed) → EventType
  unfolding event_of_status
  failed_event code none = EventType.manual_review
  failed_event code (some row) = event_of_status (failed_status code row)

  -- `job_id = $1 AND lease_token_hash = $2 AND status = 'leased'`
  unfoldable pub is_leased_under : Text → Text → PayloadRow Sealed → Bool
  is_leased_under job hash row =
      has_job job row && has_token row.lease_token_hash hash && is_leased row.status

module _ {Sealed Payload : Type 0} (host : Host Sealed Payload) where
  unfoldable pub record_relayer_owned_one_time_execution_dry_run :
      (now : ℕ) (job_id lease_token : Text)
      → PayloadStore Sealed
      → Result PayloadError (PayloadStore Sealed)
  record_relayer_owned_one_time_execution_dry_run now job_id lease_token store = do
    guard (is_identifier job_id) bad_identifier
    hash ← lease_token_hash_of host lease_token
    updated ← update_held host now job_id hash (requeue now) store
    ok (log (record (event job_id EventType.dry_run) { lease_token_hash = some hash }) updated)

  unfoldable pub defer_relayer_owned_one_time_execution_job :
      (now : ℕ) (job_id lease_token : Text)
      → PayloadStore Sealed
      → Result PayloadError (PayloadStore Sealed)
  defer_relayer_owned_one_time_execution_job now job_id lease_token store = do
    guard (is_identifier job_id) bad_identifier
    hash ← lease_token_hash_of host lease_token
    updated ← update_held host now job_id hash (requeue now) store
    ok updated

  unfoldable pub renew_relayer_owned_one_time_execution_lease :
      (now : ℕ) (job_id lease_token : Text)
      → PayloadStore Sealed
      → Result PayloadError (PayloadStore Sealed)
  renew_relayer_owned_one_time_execution_lease now job_id lease_token store = do
    guard (is_identifier job_id) bad_identifier
    hash ← lease_token_hash_of host lease_token
    updated ← update_held host now job_id hash (renew_row now) store
    ok updated

  -- The statements for the function at `index`.
  unfoldable pub record_step :
      (now : ℕ) (job_id lease_token : Text) (function_name : FunctionName) (transaction_hash : Text)
      (index : ℕ)
      → PayloadStore Sealed
      → Result PayloadError (PayloadStore Sealed)
  record_step now job_id lease_token function_name transaction_hash index store = do
    hash ← lease_token_hash_of host lease_token
    guard (row_count (holds now job_id hash) store.payloads == 1) stale_lease
    guard (length (filter (of_job job_id) store.checkpoints) == index) not_next_step
    let row : CheckpointRow = record {
      job_id = job_id;
      step_index = index;
      function_name = function_name;
      transaction_hash = to_lower transaction_hash;
    }
    guard (host.admits_checkpoint row store.checkpoints) rejected
    ok (
        log
          (record (event job_id EventType.checkpoint_confirmed) {
            step_index = some index;
            lease_token_hash = some hash;
            evidence_hash = some (host.sha256 (to_lower transaction_hash));
          })
          (record store { checkpoints = store.checkpoints ++ row ∷ [] }))

  unfoldable pub record_relayer_owned_one_time_execution_transaction_confirmed :
      (now : ℕ) (job_id lease_token : Text) (function_name : FunctionName) (transaction_hash : Text)
      → PayloadStore Sealed
      → Result PayloadError (PayloadStore Sealed)
  record_relayer_owned_one_time_execution_transaction_confirmed now job_id lease_token function_name
        transaction_hash store =
      elim (function_index function_name) [
        | none ↦ err unsupported_function
        | some index ↦ record_step now job_id lease_token function_name transaction_hash index store
      ]

  unfoldable pub record_relayer_owned_one_time_execution_failed :
      (now : ℕ) (job_id lease_token : Text) (failure_code : FailureCode)
      → PayloadStore Sealed
      → Result PayloadError (PayloadStore Sealed)
  record_relayer_owned_one_time_execution_failed now job_id lease_token failure_code store = do
    guard (is_identifier job_id) bad_identifier
    hash ← lease_token_hash_of host lease_token
    updated ← update_held host now job_id hash (fail_row now failure_code) store
    ok (
        log
          (record (event job_id
            (failed_event failure_code (find? (holds now job_id hash) store.payloads))) {
              lease_token_hash = some hash;
              failure_code = some failure_code;
            })
          updated)

  unfoldable pub record_relayer_owned_one_time_execution_payload_invalid :
      (now : ℕ) (job_id lease_token : Text)
      → PayloadStore Sealed
      → Result PayloadError (PayloadStore Sealed)
  record_relayer_owned_one_time_execution_payload_invalid now job_id lease_token store = do
    guard (is_identifier job_id) bad_identifier
    hash ← lease_token_hash_of host lease_token
    updated ← update_held host now job_id hash (review_invalid now) store
    ok (
        log
          (record (event job_id EventType.manual_review) {
            lease_token_hash = some hash;
            failure_code = some invalid_execution_payload;
          })
          updated)

  unfoldable pub record_relayer_owned_one_time_execution_submitted :
      (now : ℕ) (job_id lease_token : Text) (transaction_hashes : List Text)
      → PayloadStore Sealed
      → Result PayloadError (PayloadStore Sealed)
  unfolding join_lower
  record_relayer_owned_one_time_execution_submitted now job_id lease_token transaction_hashes
        store =
      do
        guard (length transaction_hashes == 3) bad_hash_count
        hash ← lease_token_hash_of host lease_token
        guard (row_count (holds now job_id hash) store.payloads == 1) stale_lease
        let checkpoints : List CheckpointRow =
            sort_by earlier_step (filter (of_job job_id) store.checkpoints)
        guard (length checkpoints == 3 && matches_steps 0 checkpoints transaction_hashes)
            hashes_differ
        guard (row_count (is_leased_under job_id hash) store.payloads == 1) stale_lease
        ok (
            log
              (record (event job_id EventType.submitted) {
                lease_token_hash = some hash;
                evidence_hash = some (host.sha256 (join_lower transaction_hashes));
              })
              (record store {
                payloads =
                    update_rows (is_leased_under job_id hash) (unlocked now PayloadStatus.submitted)
                      store.payloads;
              }))
