-- ===== src/Payloads/Enqueue.antt =====
-- The writer's side of the settlement queue: a payload enters it, and its finalization is confirmed.
use parly_relayer.Prelude.{
  ℕ, false, ◌&&◌, leb, ◌==◌, if◌then◌else◌, Option, none, some, [], ◌∷◌, ◌++◌, Bool, Result, ok,
  err, ◌>>◌, guard, Text, text_eq, to_lower, is_lower_bytes32, find?,
}
use parly_relayer.Payloads.{
  PayloadStatus, PayloadError, bad_identifier, bad_attempt_id, unbound_payload, bad_max_attempts,
  different_payload, rejected, bad_hash, no_matching_checkpoint, not_submitted, EventType,
  PayloadRow, CheckpointRow, PayloadStore, Host, is_identifier, is_submitted, event, has_job,
  update_rows, row_count, log,
}

-- `checkpoint.rows[0]?.transaction_hash.toLowerCase() === hash.toLowerCase()`
unfoldable pub is_hash_of : Option CheckpointRow → Text → Bool
is_hash_of none hash = false
is_hash_of (some checkpoint) hash = text_eq (to_lower checkpoint.transaction_hash) (to_lower hash)

-- `job_id = $1 AND step_index = 2`
unfoldable pub is_last_step : Text → CheckpointRow → Bool
is_last_step job checkpoint = text_eq checkpoint.job_id job && checkpoint.step_index == 2

module _ {Sealed : Type 0} where
  -- `job_id = $1 AND status = 'submitted'`
  unfoldable pub awaits_confirmation : Text → PayloadRow Sealed → Bool
  awaits_confirmation job row = has_job job row && is_submitted row.status

  unfoldable pub confirm_row : ℕ → PayloadRow Sealed → PayloadRow Sealed
  confirm_row now row = record row { status = PayloadStatus.confirmed; updated_at = now }

module _ {Sealed Payload : Type 0} (host : Host Sealed Payload) where
  -- The row that INSERT makes, with the defaults of its other columns.
  unfoldable pub queued_row : ℕ → Text → Text → Text → ℕ → PayloadRow Sealed
  queued_row now job_id attempt_id serialized max_attempts = record {
    job_id = job_id;
    attempt_id = attempt_id;
    sealed = host.seal serialized;
    payload_hash = host.sha256 serialized;
    status = PayloadStatus.queued;
    attempt_number = 0;
    max_attempts = max_attempts;
    failure_code = none;
    locked_by = none;
    locked_until = none;
    lease_duration_ms = none;
    lease_token_hash = none;
    created_at = now;
    updated_at = now;
  }

  -- The transaction: the row that was found stays if its digest is the same, and is refused otherwise.
  unfoldable pub insert_payload :
      Option (PayloadRow Sealed)
      → PayloadRow Sealed
      → PayloadStore Sealed
      → Result PayloadError (PayloadStore Sealed)
  insert_payload (some existing) row store =
      if text_eq existing.payload_hash row.payload_hash then ok store else err different_payload
  insert_payload none row store = do
    guard (host.admits_payload row store.payloads) rejected
    ok (
        log (record (event row.job_id EventType.queued) { evidence_hash = some row.payload_hash })
          (record store { payloads = store.payloads ++ row ∷ [] }))

  unfoldable pub enqueue_relayer_owned_one_time_execution_payload :
      (now : ℕ) (job_id attempt_id : Text) (payload : Payload) (max_attempts : ℕ)
      → PayloadStore Sealed
      → Result PayloadError (PayloadStore Sealed)
  enqueue_relayer_owned_one_time_execution_payload now job_id attempt_id payload max_attempts
        store =
      do
        guard (is_identifier job_id) bad_identifier
        guard (is_lower_bytes32 (to_lower attempt_id)) bad_attempt_id
        guard
            (text_eq (to_lower (host.attempt_id payload)) (to_lower attempt_id)
              && text_eq (to_lower (host.observation_attempt_id payload)) (to_lower attempt_id)
              && text_eq (to_lower (host.settlement_attempt_id payload)) (to_lower attempt_id))
            unbound_payload
        guard (leb 1 max_attempts && leb max_attempts 20) bad_max_attempts
        insert_payload (find? (λ row. text_eq row.attempt_id (to_lower attempt_id)) store.payloads)
            (queued_row now job_id (to_lower attempt_id) (host.encode payload) max_attempts) store

  unfoldable pub confirm_relayer_owned_one_time_execution :
      (now : ℕ) (job_id finalization_transaction_hash : Text)
      → PayloadStore Sealed
      → Result PayloadError (PayloadStore Sealed)
  confirm_relayer_owned_one_time_execution now job_id hash store = do
    guard (is_identifier job_id) bad_identifier
    guard (is_lower_bytes32 (to_lower hash)) bad_hash
    guard (is_hash_of (find? (is_last_step job_id) store.checkpoints) hash) no_matching_checkpoint
    guard (row_count (awaits_confirmation job_id) store.payloads == 1) not_submitted
    ok (
        log
          (record (event job_id EventType.confirmed) {
            evidence_hash = some (host.sha256 (to_lower hash));
          })
          (record store {
            payloads = update_rows (awaits_confirmation job_id) (confirm_row now) store.payloads;
          }))
