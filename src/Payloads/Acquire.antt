-- ===== src/Payloads/Acquire.antt =====
-- The leasing of a payload: `acquireRelayerOwnedOneTimeExecutionJob`.
use parly_relayer.Prelude.{
  ℕ, ◌+◌, Bool, true, false, ◌&&◌, ◌||◌, not, ltb, leb, ◌==◌, if◌then◌else◌, Option, none, some,
  List, [], ◌∷◌, ◌++◌, map, Result, ok, ◌>>=◌, ◌>>◌, guard, Text, text_eq, text_ltb, to_lower,
  filter, any, head?, take, sort_by,
}
use parly_relayer.Payloads.{
  PayloadStatus, PayloadError, bad_identifier, bad_lease, lease_exhausted,
  invalid_execution_payload, EventType, ExecutionEvent, PayloadRow, CheckpointRow, PayloadStore,
  Host, FunctionName, function_index, is_identifier, is_leased, ran_out_at, has_token, event,
  has_job, update_rows, unlocked, log, lease_token_hash_of, open_row,
}

pub record ConfirmedTransaction : Type 0 where
  pub function_name : FunctionName
  pub transaction_hash : Text

-- `RelayerOwnedOneTimeExecutionJob`
pub record ExecutionJob (Payload : Type 0) : Type 0 where
  pub job_id : Text
  pub lease_token : Text
  pub payload : Payload
  pub confirmed_transactions : List ConfirmedTransaction

-- `invalid` is the throw that follows the commit.
pub data Acquired (Payload : Type 0) : Type 0 where
  idle invalid : Acquired Payload
  acquired : ExecutionJob Payload → Acquired Payload

unfoldable pub of_job : Text → CheckpointRow → Bool
of_job job row = text_eq row.job_id job

unfoldable pub earlier_step : CheckpointRow → CheckpointRow → Bool
earlier_step a b = ltb a.step_index b.step_index

-- `FUNCTION_ORDER[index] === name`
unfoldable pub is_function_at : Option ℕ → ℕ → Bool
is_function_at none index = false
is_function_at (some i) index = i == index

-- The map over the stored checkpoints, from an index on; `none` where it throws.
unfoldable pub ordered_prefix : ℕ → List CheckpointRow → Option (List ConfirmedTransaction)
ordered_prefix index [] = some []
ordered_prefix index (row ∷ rows) =
    if row.step_index == index && is_function_at (function_index row.function_name) index
    then elim (ordered_prefix (index + 1) rows) [
      | none ↦ none
      | some rest ↦ some (
          (record { function_name = row.function_name; transaction_hash = row.transaction_hash })
          ∷ rest)
    ]
    else none

unfoldable pub is_waiting : PayloadStatus → Bool
is_waiting PayloadStatus.queued = true
is_waiting PayloadStatus.failed_retryable = true
is_waiting _ = false

unfoldable pub until_before : Option ℕ → Option ℕ → Bool
until_before (some a) (some b) = ltb a b
until_before _ _ = false

module _ {Sealed : Type 0} where
  unfoldable pub is_exhausted : ℕ → PayloadRow Sealed → Bool
  is_exhausted now row =
      is_leased row.status
      && ran_out_at row.locked_until now
      && leb row.max_attempts row.attempt_number

  unfoldable pub is_candidate : ℕ → PayloadRow Sealed → Bool
  unfolding is_waiting
  is_candidate now row =
      ltb row.attempt_number row.max_attempts
      && (is_waiting row.status || (is_leased row.status && ran_out_at row.locked_until now))

  -- ORDER BY locked_until, job_id
  unfoldable pub runs_out_before : PayloadRow Sealed → PayloadRow Sealed → Bool
  unfolding until_before
  runs_out_before a b =
      until_before a.locked_until b.locked_until
      || (not (until_before b.locked_until a.locked_until) && text_ltb a.job_id b.job_id)

  -- ORDER BY updated_at, job_id, and for payouts ORDER BY created_at, payout_id
  unfoldable pub updated_before : PayloadRow Sealed → PayloadRow Sealed → Bool
  updated_before a b =
      ltb a.updated_at b.updated_at || (a.updated_at == b.updated_at && text_ltb a.job_id b.job_id)

  unfoldable pub created_before : PayloadRow Sealed → PayloadRow Sealed → Bool
  created_before a b =
      ltb a.created_at b.created_at || (a.created_at == b.created_at && text_ltb a.job_id b.job_id)

  unfoldable pub same_job_as : List (PayloadRow Sealed) → PayloadRow Sealed → Bool
  same_job_as candidates row = any (has_job row.job_id) candidates

  unfoldable pub exhausted_rows :
      ℕ → (Text → Bool) → List (PayloadRow Sealed) → List (PayloadRow Sealed)
  unfolding runs_out_before
  exhausted_rows now locked rows = take 100 (
      sort_by runs_out_before
        (filter (λ row. is_exhausted now row && not (locked row.job_id)) rows))

  unfoldable pub exhaust : ℕ → PayloadRow Sealed → PayloadRow Sealed
  exhaust now row = record (unlocked now PayloadStatus.manual_review row) {
    failure_code = some lease_exhausted;
  }

  unfoldable pub exhausted_event : PayloadRow Sealed → ExecutionEvent
  exhausted_event row = record (event row.job_id EventType.manual_review) {
    failure_code = some lease_exhausted;
  }

  -- The first two statements: leases that ran out on the last attempt. `locked` tells which rows
  -- another transaction holds, which SKIP LOCKED passes over.
  unfoldable pub retire_exhausted : ℕ → (Text → Bool) → PayloadStore Sealed → PayloadStore Sealed
  unfolding exhausted_event
  retire_exhausted now locked store =
      let candidates = exhausted_rows now locked store.payloads in
      record store {
        payloads = update_rows (same_job_as candidates) (exhaust now) store.payloads;
        events =
            store.events ++ map exhausted_event (filter (same_job_as candidates) store.payloads);
      }

  unfoldable pub candidate :
      (before : PayloadRow Sealed → PayloadRow Sealed → Bool)
      → ℕ
      → (Text → Bool)
      → List (PayloadRow Sealed)
      → Option (PayloadRow Sealed)
  candidate before now locked rows =
      head? (sort_by before (filter (λ row. is_candidate now row && not (locked row.job_id)) rows))

  -- The columns of a lease: until when, for how long, for whom and under which token.
  unfoldable pub lease : ℕ → ℕ → ℕ → Text → Text → PayloadRow Sealed → PayloadRow Sealed
  lease now until duration worker hash row = record row {
    status = PayloadStatus.leased;
    locked_by = some worker;
    locked_until = some until;
    lease_token_hash = some hash;
    lease_duration_ms = some duration;
    attempt_number = row.attempt_number + 1;
    updated_at = now;
  }

  -- A payload that cannot be read is put under review, where the lease still holds it.
  unfoldable pub discard : ℕ → Text → Text → PayloadStore Sealed → PayloadStore Sealed
  discard now job hash store =
      log
        (record (event job EventType.manual_review) {
          failure_code = some invalid_execution_payload;
        })
        (record store {
          payloads =
              update_rows
                (λ row.
                  has_job job row && has_token row.lease_token_hash hash && is_leased row.status)
                (λ row. record (unlocked now PayloadStatus.manual_review row) {
                  failure_code = some invalid_execution_payload;
                })
                store.payloads;
        })

unfoldable pub answer_of :
    {Job Payload : Type 0} → (Job → Acquired Payload) → Option (Option Job) → Acquired Payload
answer_of f none = idle
answer_of f (some none) = invalid
answer_of f (some (some job)) = f job

module _ {Sealed Payload : Type 0} (host : Host Sealed Payload) where
  -- The `try` block, for the leased row; `none` where it throws.
  unfoldable pub load_job :
      List CheckpointRow → Text → PayloadRow Sealed → Option (ExecutionJob Payload)
  load_job checkpoints token row =
      elim (ordered_prefix 0 (sort_by earlier_step (filter (of_job row.job_id) checkpoints))) [
        | none ↦ none
        | some confirmed ↦ elim (open_row host row) [
          | none ↦ none
          | some payload ↦
              if text_eq (to_lower (host.attempt_id payload)) (to_lower row.attempt_id)
              then some (record {
                job_id = row.job_id;
                lease_token = token;
                payload = payload;
                confirmed_transactions = confirmed;
              })
              else none
        ]
      ]

  -- The job that was read; where reading it threw, the row is put under review.
  unfoldable pub loaded :
      {Job : Type 0}
      → ℕ
      → Text
      → Text
      → PayloadStore Sealed
      → Option Job
      → PayloadStore Sealed × Option (Option Job)
  loaded now job hash store none = (discard now job hash store, some none)
  loaded now job hash store (some found) = (store, some (some found))

  -- The statements after the candidate was chosen; `load` is the `try` block.
  unfoldable pub lease_candidate :
      {Job : Type 0} (load : List CheckpointRow → Text → PayloadRow Sealed → Option Job)
      → ℕ
      → ℕ
      → ℕ
      → Text
      → Text
      → Text
      → Option (PayloadRow Sealed)
      → PayloadStore Sealed
      → PayloadStore Sealed × Option (Option Job)
  lease_candidate load now until duration worker token hash none store = (store, none)
  lease_candidate load now until duration worker token hash (some row) store =
      let held = lease now until duration worker hash row in
      let leased_store =
        log (record (event row.job_id EventType.leased) { lease_token_hash = some hash })
          (record store {
            payloads =
                update_rows (has_job row.job_id) (lease now until duration worker hash)
                  store.payloads;
          }) in
      loaded now row.job_id hash leased_store (load store.checkpoints token held)

  -- `now` is the time of the database and `clock` that of the worker, which sets the end of the lease.
  unfoldable pub acquire_with :
      {Job : Type 0} (load : List CheckpointRow → Text → PayloadRow Sealed → Option Job)
      → (before : PayloadRow Sealed → PayloadRow Sealed → Bool)
      → (now clock : ℕ) (locked : Text → Bool) (worker : Text) (lease_ms : ℕ) (token : Text)
      → PayloadStore Sealed
      → Result PayloadError (PayloadStore Sealed × Option (Option Job))
  unfolding lease_candidate
  acquire_with load before now clock locked worker lease_ms token store = do
    guard (is_identifier worker) bad_identifier
    guard (leb 1000 lease_ms && leb lease_ms 900000) bad_lease
    hash ← lease_token_hash_of host token
    let cleared = retire_exhausted now locked store
    ok (
        lease_candidate load now (clock + lease_ms) lease_ms worker token hash
          (candidate before now locked cleared.payloads) cleared)

  unfoldable pub acquire_relayer_owned_one_time_execution_job :
      (now clock : ℕ) (locked : Text → Bool) (worker : Text) (lease_ms : ℕ) (token : Text)
      → PayloadStore Sealed
      → Result PayloadError (PayloadStore Sealed × Acquired Payload)
  unfolding answer_of
  acquire_relayer_owned_one_time_execution_job now clock locked worker lease_ms token store = do
    (store', answer) ←
        acquire_with (load_job) updated_before now clock locked worker lease_ms token store
    ok (store', answer_of acquired answer)
