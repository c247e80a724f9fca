-- ===== src/Payloads/Moves.antt =====
-- The queue as a state machine: what one call may do to each row of the table and to the checkpoints.
use parly_relayer.Prelude.{
  ℕ, ◌≡◌, refl, Bool, true, false, List, [], ◌∷◌, ◌++◌, none, some, Text, length, filter, All,
  if◌then◌else◌,
}
use parly_relayer.Payloads.{
  PayloadStatus, FailureCode, PayloadRow, CheckpointRow, function_index, is_leased, is_submitted,
  has_token, holds, update_rows, row_count, unlocked,
}
use parly_relayer.Payloads.Acquire.{of_job, is_exhausted, is_candidate, exhaust, lease}
use parly_relayer.Payloads.Enqueue.{confirm_row}
use parly_relayer.Payloads.Report.{requeue, renew_row, fail_row, review_invalid}

module _ {Sealed : Type 0} where
  -- The move of one row, at the time `now`, by a call whose token has the digest `hash`.
  pub data Move (checkpoints : List CheckpointRow) (now : ℕ) (hash : Text)
      : PayloadRow Sealed → PayloadRow Sealed → Type 0 where
    exhausted :
        (row : PayloadRow Sealed)
        → is_exhausted now row ≡ true
        → Move checkpoints now hash row (exhaust now row)
    leased :
        (row : PayloadRow Sealed) (until duration : ℕ) (worker : Text)
        → is_candidate now row ≡ true
        → Move checkpoints now hash row (lease now until duration worker hash row)
    discarded :
        (row : PayloadRow Sealed)
        → has_token row.lease_token_hash hash ≡ true
        → is_leased row.status ≡ true
        → Move checkpoints now hash row (review_invalid now row)
    requeued :
        (row : PayloadRow Sealed)
        → holds now row.job_id hash row ≡ true
        → Move checkpoints now hash row (requeue now row)
    renewed :
        (row : PayloadRow Sealed)
        → holds now row.job_id hash row ≡ true
        → Move checkpoints now hash row (renew_row now row)
    failed :
        (row : PayloadRow Sealed) (code : FailureCode)
        → holds now row.job_id hash row ≡ true
        → Move checkpoints now hash row (fail_row now code row)
    submitted :
        (row : PayloadRow Sealed)
        → has_token row.lease_token_hash hash ≡ true
        → is_leased row.status ≡ true
        → length (filter (of_job row.job_id) checkpoints) ≡ 3
        → Move checkpoints now hash row (unlocked now PayloadStatus.submitted row)
    confirmed :
        (row : PayloadRow Sealed)
        → is_submitted row.status ≡ true
        → Move checkpoints now hash row (confirm_row now row)

  pub data Moves (checkpoints : List CheckpointRow) (now : ℕ) (hash : Text)
      : List (PayloadRow Sealed) → List (PayloadRow Sealed) → Type 0 where
    end : Moves checkpoints now hash [] []
    kept :
        (row : PayloadRow Sealed) {rows rows' : List (PayloadRow Sealed)}
        → Moves checkpoints now hash rows rows'
        → Moves checkpoints now hash (row ∷ rows) (row ∷ rows')
    moved :
        {row row' : PayloadRow Sealed} {rows rows' : List (PayloadRow Sealed)}
        → Move checkpoints now hash row row'
        → Moves checkpoints now hash rows rows'
        → Moves checkpoints now hash (row ∷ rows) (row' ∷ rows')

  -- A row as it enters the queue.
  unfoldable pub IsQueued : PayloadRow Sealed → Type 0
  IsQueued row =
      (row.status ≡ PayloadStatus.queued)
      × (row.attempt_number ≡ 0)
      × (row.locked_by ≡ none)
      × (row.locked_until ≡ none)
      × (row.lease_duration_ms ≡ none)
      × (row.lease_token_hash ≡ none)

  -- The whole effect of a call: moves of rows one after the other, a new row, or the next checkpoint of a
  -- job that the call holds.
  pub data Change (host_admits : PayloadRow Sealed → List (PayloadRow Sealed) → Bool) (now : ℕ)
      (hash : Text)
      : List (PayloadRow Sealed)
        → List CheckpointRow
        → List (PayloadRow Sealed)
        → List CheckpointRow
        → Type 0 where
    nothing :
        (rows : List (PayloadRow Sealed)) (checkpoints : List CheckpointRow)
        → Change host_admits now hash rows checkpoints rows checkpoints
    moves :
        {rows rows' rows'' : List (PayloadRow Sealed)}
        {checkpoints checkpoints' : List CheckpointRow}
        → Moves checkpoints now hash rows rows'
        → Change host_admits now hash rows' checkpoints rows'' checkpoints'
        → Change host_admits now hash rows checkpoints rows'' checkpoints'
    queued :
        (row : PayloadRow Sealed) (rows : List (PayloadRow Sealed))
        (checkpoints : List CheckpointRow)
        → IsQueued row
        → host_admits row rows ≡ true
        → Change host_admits now hash rows checkpoints (rows ++ row ∷ []) checkpoints
    recorded :
        (row : CheckpointRow) (rows : List (PayloadRow Sealed)) (checkpoints : List CheckpointRow)
        → row_count (holds now row.job_id hash) rows ≡ 1
        → length (filter (of_job row.job_id) checkpoints) ≡ row.step_index
        → function_index row.function_name ≡ some row.step_index
        → Change host_admits now hash rows checkpoints rows (checkpoints ++ row ∷ [])

  -- One row more, which moves if it is selected.
  moved_if :
      {checkpoints : List CheckpointRow} {now : ℕ} {hash : Text} (b : Bool)
      (row row' : PayloadRow Sealed) {rows rows' : List (PayloadRow Sealed)}
      → (b ≡ true → Move checkpoints now hash row row')
      → Moves checkpoints now hash rows rows'
      → Moves checkpoints now hash (row ∷ rows) ((if b then row' else row) ∷ rows')
  moved_if true row row' move rest = moved (move refl) rest
  moved_if false row row' move rest = kept row rest

  -- An UPDATE moves the rows that it selects.
  pub update_rows-Moves :
      (checkpoints : List CheckpointRow) (now : ℕ) (hash : Text) (p : PayloadRow Sealed → Bool)
      (f : PayloadRow Sealed → PayloadRow Sealed) (rows : List (PayloadRow Sealed))
      → All (λ row. p row ≡ true → Move checkpoints now hash row (f row)) rows
      → Moves checkpoints now hash rows (update_rows p f rows)
  unfolding update_rows
  update_rows-Moves cps now hash p f [] h = end
  update_rows-Moves cps now hash p f (row ∷ rows) (here, later) =
      moved_if (p row) row (f row) here (update_rows-Moves cps now hash p f rows later)

  pub Moves-All :
      {checkpoints : List CheckpointRow} {now : ℕ} {hash : Text}
      {rows rows' : List (PayloadRow Sealed)} (P : PayloadRow Sealed → Type 0)
      → ((row row' : PayloadRow Sealed) → Move checkpoints now hash row row' → P row → P row')
      → Moves checkpoints now hash rows rows'
      → All P rows
      → All P rows'
  Moves-All P f end h = tt
  Moves-All P f (kept row rest) (here, later) = (here, Moves-All P f rest later)
  Moves-All P f (moved move rest) (here, later) = (f _ _ move here, Moves-All P f rest later)
