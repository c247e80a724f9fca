-- ===== src/Payloads/Changes.antt =====
-- What the statements of a transaction do to the store, as changes of the state machine.
use parly_relayer.Prelude.{
  ℕ, ◌≡◌, refl, Bool, true, false, ◌&&◌, Option, none, some, List, Text, Result, ok, ◌>>=◌, ◌>>◌,
  guard, All, All-every, All-map, ◌==◌, arith,
}
use parly_relayer.Payloads.{
  PayloadError, PayloadRow, CheckpointRow, PayloadStore, Host, is_leased, has_token, has_job, holds,
  update_rows, row_count, log, event, EventType, update_held, stale_lease,
}
use parly_relayer.Payloads.Acquire.{
  is_candidate, lease, candidate, retire_exhausted, discard, loaded, lease_candidate,
}
use parly_relayer.Payloads.Report.{review_invalid}
use parly_relayer.Payloads.Moves.{
  Move, Moves, Change, leased, discarded, nothing, moves, update_rows-Moves,
}
use parly_relayer.Payloads.Jobs.{IsDistinct, IsOnly, Moves-IsDistinct}
use parly_relayer.Payloads.Refine.{one_only, retire_exhausted-Moves, candidate_sound}
use parly_relayer.Payloads.Calls.{stored}

module _ {Sealed Payload : Type 0} (host : Host Sealed Payload) (now : ℕ) (hash : Text) where
  -- One store follows another by a change.
  abbrev pub Changes : PayloadStore Sealed → PayloadStore Sealed → Type 0
  Changes store store' =
      Change host.admits_payload now hash store.payloads store.checkpoints store'.payloads
        store'.checkpoints

  pub unchanged : (store : PayloadStore Sealed) → Changes store store
  unchanged store = nothing store.payloads store.checkpoints

  -- A guard that throws changes nothing.
  pub guard-Changes :
      (store : PayloadStore Sealed) (test : Bool) (thrown : PayloadError)
      (rest : Result PayloadError (PayloadStore Sealed))
      → (test ≡ true → Changes store (stored rest store))
      → Changes store (stored (guard test thrown >> rest) store)
  guard-Changes store true thrown rest h = h refl
  guard-Changes store false thrown rest h = unchanged store

  held_if :
      (test : Bool) (store store' : PayloadStore Sealed)
      (rest : PayloadStore Sealed → Result PayloadError (PayloadStore Sealed))
      → Changes store (stored (rest store') store)
      → Changes store (stored ((guard test stale_lease >> ok store') >>= rest) store)
  held_if true store store' rest h = h
  held_if false store store' rest h = unchanged store

  pub held-Changes :
      (job : Text) (f : PayloadRow Sealed → PayloadRow Sealed) (store : PayloadStore Sealed)
      (rest : PayloadStore Sealed → Result PayloadError (PayloadStore Sealed))
      → Changes store (
          stored
            (rest (record store { payloads = update_rows (holds now job hash) f store.payloads }))
            store)
      → Changes store (stored (update_held host now job hash f store >>= rest) store)
  unfolding update_held
  held-Changes job f store rest h =
      held_if (row_count (holds now job hash) store.payloads == 1) store
        (record store { payloads = update_rows (holds now job hash) f store.payloads }) rest h

  pub updated :
      (p : PayloadRow Sealed → Bool) (f : PayloadRow Sealed → PayloadRow Sealed)
      (store : PayloadStore Sealed)
      → All (λ row. p row ≡ true → Move store.checkpoints now hash row (f row)) store.payloads
      → Change host.admits_payload now hash store.payloads store.checkpoints
          (update_rows p f store.payloads)
          store.checkpoints
  updated p f store h =
      moves (update_rows-Moves store.checkpoints now hash p f store.payloads h)
        (nothing (update_rows p f store.payloads) store.checkpoints)

  discard-Change :
      (job : Text) (store : PayloadStore Sealed) → Changes store (discard now job hash store)
  unfolding discard log review_invalid
  discard-Change job store =
      updated
        (λ row. has_job job row && has_token row.lease_token_hash hash && is_leased row.status)
        (review_invalid now) store
        (All-every _ store.payloads
          (λ row e. discarded row (ground (arith, e)) (ground (arith, e))))

  -- The end of an acquisition, where the payload was read or not.
  loaded-Change :
      {Job : Type 0} (job : Text) (store : PayloadStore Sealed) (load : Option Job)
      → Changes store (loaded host now job hash store load).0
  unfolding loaded
  loaded-Change job store none = discard-Change job store
  loaded-Change job store (some found) = unchanged store

  pub lease_candidate-Change :
      {Job : Type 0} (load : List CheckpointRow → Text → PayloadRow Sealed → Option Job)
      (until duration : ℕ) (worker token : Text) (found : Option (PayloadRow Sealed))
      (store : PayloadStore Sealed)
      → ((row : PayloadRow Sealed)
          → found ≡ some row
          → (is_candidate now row ≡ true) × IsOnly store.payloads row)
      → Changes store (lease_candidate host load now until duration worker token hash found store).0
  unfolding lease_candidate log
  lease_candidate-Change load until duration worker token none store h = unchanged store
  lease_candidate-Change load until duration worker token (some row) store h =
      let leased_store : PayloadStore Sealed =
        log (record (event row.job_id EventType.leased) { lease_token_hash = some hash })
          (record store {
            payloads =
                update_rows (has_job row.job_id) (lease now until duration worker hash)
                  store.payloads;
          }) in
      moves
        (update_rows-Moves store.checkpoints now hash (has_job row.job_id)
          (lease now until duration worker hash) store.payloads
          (All-map (λ other. has_job row.job_id other ≡ true → is_candidate now other ≡ true)
            (λ other.
              has_job row.job_id other ≡ true
              → Move store.checkpoints now hash other (lease now until duration worker hash other))
            store.payloads (λ other f e. leased other until duration worker (f e))
            (one_only (λ other. is_candidate now other ≡ true) store.payloads row (h row refl).0
              (h row refl).1)))
        (loaded-Change row.job_id leased_store
          (load store.checkpoints token (lease now until duration worker hash row)))

  pub acquire-Change :
      {Job : Type 0} (load : List CheckpointRow → Text → PayloadRow Sealed → Option Job)
      (before : PayloadRow Sealed → PayloadRow Sealed → Bool) (locked : Text → Bool)
      (until duration : ℕ) (worker token : Text) (store : PayloadStore Sealed)
      → IsDistinct store.payloads
      → (let cleared : PayloadStore Sealed = retire_exhausted now locked store in
          Changes store
            (lease_candidate host load now until duration worker token hash
              (candidate before now locked cleared.payloads)
              cleared).0)
  unfolding retire_exhausted
  acquire-Change load before locked until duration worker token store h =
      let cleared : PayloadStore Sealed = retire_exhausted now locked store in
      let m : Moves store.checkpoints now hash store.payloads cleared.payloads =
        retire_exhausted-Moves store.checkpoints now hash locked store h in
      moves m (
        lease_candidate-Change load until duration worker token
          (candidate before now locked cleared.payloads) cleared
          (λ row e.
            candidate_sound before now locked cleared.payloads row (Moves-IsDistinct m h) e))
