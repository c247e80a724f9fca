-- ===== src/Payloads/Reported.antt =====
-- The reports of a worker and the writer's confirmation, as changes of the state machine.
use parly_relayer.Prelude.{
  ℕ, ◌≡◌, refl, sym, ◌∙◌, subst, Bool, true, false, ◌&&◌, Option, none, some, List, Text,
  text_eq_iff, text_eq_refl, Result, ok, err, ◌>>=◌, ◌>>◌, guard, All-every, filter, find?, sort_by,
  length, length-sort_by, ◌==◌, ==_iff, arith, trim, is_nonempty, is_lower_bytes32, to_lower,
}
use parly_relayer.Payloads.{
  PayloadStatus, PayloadError, FailureCode, FunctionName, PayloadRow, CheckpointRow, PayloadStore,
  Host, bad_identifier, rejected, bad_hash, no_matching_checkpoint, not_submitted, bad_lease_token,
  stale_lease, bad_hash_count, unsupported_function, hashes_differ, not_next_step, is_identifier,
  has_job, holds, update_rows, row_count, log, lease_token_hash_of, update_held, unlocked,
  function_index,
}
use parly_relayer.Payloads.Acquire.{of_job, earlier_step}
use parly_relayer.Payloads.Enqueue.{
  is_hash_of, is_last_step, awaits_confirmation, confirm_row,
  confirm_relayer_owned_one_time_execution,
}
use parly_relayer.Payloads.Report.{
  requeue, renew_row, fail_row, review_invalid, is_leased_under, matches_steps, record_step,
  record_relayer_owned_one_time_execution_dry_run, defer_relayer_owned_one_time_execution_job,
  renew_relayer_owned_one_time_execution_lease,
  record_relayer_owned_one_time_execution_transaction_confirmed,
  record_relayer_owned_one_time_execution_failed,
  record_relayer_owned_one_time_execution_payload_invalid,
  record_relayer_owned_one_time_execution_submitted,
}
use parly_relayer.Payloads.Moves.{Move, recorded}
use parly_relayer.Payloads.Changes.{Changes, unchanged, guard-Changes, held-Changes, updated}
use parly_relayer.Payloads.Calls.{stored}

holds_own :
    {Sealed : Type 0} (now : ℕ) (job hash : Text) (row : PayloadRow Sealed)
    → holds now job hash row ≡ true
    → holds now row.job_id hash row ≡ true
unfolding holds has_job
holds_own now job hash row e = ground (arith, e, text_eq_refl row.job_id)

-- The checkpoints that a submission was compared with are those of each row that it updates.
all_steps :
    {Sealed : Type 0} (job hash : Text) (hashes : List Text) (checkpoints : List CheckpointRow)
    (row : PayloadRow Sealed)
    → (length (sort_by earlier_step (filter (of_job job) checkpoints)) == 3
        && matches_steps 0 (sort_by earlier_step (filter (of_job job) checkpoints)) hashes)
      ≡ true
    → is_leased_under job hash row ≡ true
    → length (filter (of_job row.job_id) checkpoints) ≡ 3
unfolding is_leased_under has_job
all_steps job hash hashes checkpoints row full e =
    let same : job ≡ row.job_id = sym ((text_eq_iff row.job_id job).0 (ground (arith, e))) in
    subst (λ j. length (filter (of_job j) checkpoints) ≡ 3) same
      (sym (length-sort_by earlier_step (filter (of_job job) checkpoints))
        ∙ (==_iff (length (sort_by earlier_step (filter (of_job job) checkpoints))) 3).0
            (ground (arith, full)))

module _ {Sealed Payload : Type 0} (host : Host Sealed Payload) (now : ℕ) (token : Text)
    (store : PayloadStore Sealed) where
  -- What follows the digest of the token.
  pub token-Changes :
      (rest : Text → Result PayloadError (PayloadStore Sealed))
      → Changes host now (host.sha256 token) store (stored (rest (host.sha256 token)) store)
      → Changes host now
          (host.sha256 token)
          store
          (stored (lease_token_hash_of host token >>= rest) store)
  unfolding lease_token_hash_of
  token-Changes rest h = go (is_nonempty (trim token))
    where
      go :
          (test : Bool)
          → Changes host now
              (host.sha256 token)
              store
              (stored ((guard test bad_lease_token >> ok (host.sha256 token)) >>= rest) store)
      go true = h
      go false = unchanged host now (host.sha256 token) store

  -- A report of the lease's holder that updates its row.
  pub report-Changes :
      (job : Text) (f : PayloadRow Sealed → PayloadRow Sealed)
      (rest : Text → PayloadStore Sealed → Result PayloadError (PayloadStore Sealed))
      → ((row : PayloadRow Sealed)
          → holds now job (host.sha256 token) row ≡ true
          → Move store.checkpoints now (host.sha256 token) row (f row))
      → ((s : PayloadStore Sealed)
          → Changes host now (host.sha256 token) store s
          → Changes host now (host.sha256 token) store (stored (rest (host.sha256 token) s) store))
      → Changes host now (host.sha256 token) store (
          stored
            (guard (is_identifier job) bad_identifier
              >> (lease_token_hash_of host token
                  >>= (λ hash. update_held host now job hash f store >>= rest hash)))
            store)
  report-Changes job f rest h k =
      guard-Changes host now (host.sha256 token) store (is_identifier job) bad_identifier _ (λ e.
        token-Changes (λ hash. update_held host now job hash f store >>= rest hash)
          (held-Changes host now (host.sha256 token) job f store (rest (host.sha256 token)) (
            k
              (record store {
                payloads = update_rows (holds now job (host.sha256 token)) f store.payloads;
              })
              (updated host now (host.sha256 token) (holds now job (host.sha256 token)) f store
                (All-every _ store.payloads h)))))

  pub dry_run-Changes :
      (job : Text)
      → Changes host now
          (host.sha256 token)
          store
          (stored (record_relayer_owned_one_time_execution_dry_run host now job token store) store)
  unfolding record_relayer_owned_one_time_execution_dry_run log
  dry_run-Changes job =
      report-Changes job (requeue now) _
        (λ row e. Move.requeued row (holds_own now job (host.sha256 token) row e)) (λ s h. h)

  pub defer-Changes :
      (job : Text)
      → Changes host now
          (host.sha256 token)
          store
          (stored (defer_relayer_owned_one_time_execution_job host now job token store) store)
  unfolding defer_relayer_owned_one_time_execution_job
  defer-Changes job =
      report-Changes job (requeue now) _
        (λ row e. Move.requeued row (holds_own now job (host.sha256 token) row e)) (λ s h. h)

  pub renew-Changes :
      (job : Text)
      → Changes host now
          (host.sha256 token)
          store
          (stored (renew_relayer_owned_one_time_execution_lease host now job token store) store)
  unfolding renew_relayer_owned_one_time_execution_lease
  renew-Changes job =
      report-Changes job (renew_row now) _
        (λ row e. Move.renewed row (holds_own now job (host.sha256 token) row e)) (λ s h. h)

  pub failed-Changes :
      (job : Text) (code : FailureCode)
      → Changes host now (host.sha256 token) store (
          stored
            (record_relayer_owned_one_time_execution_failed host now job token code store)
            store)
  unfolding record_relayer_owned_one_time_execution_failed log
  failed-Changes job code =
      report-Changes job (fail_row now code) _
        (λ row e. Move.failed row code (holds_own now job (host.sha256 token) row e)) (λ s h. h)

  pub invalid-Changes :
      (job : Text)
      → Changes host now (host.sha256 token) store (
          stored
            (record_relayer_owned_one_time_execution_payload_invalid host now job token store)
            store)
  unfolding record_relayer_owned_one_time_execution_payload_invalid log holds
  invalid-Changes job =
      report-Changes job (review_invalid now) _
        (λ row e. Move.discarded row (ground (arith, e)) (ground (arith, e))) (λ s h. h)

  pub next-Changes :
      (job : Text) (name : FunctionName) (hash : Text) (index : ℕ)
      → function_index name ≡ some index
      → Changes host now
          (host.sha256 token)
          store
          (stored (record_step host now job token name hash index store) store)
  unfolding record_step log
  next-Changes job name hash index e =
      let digest : Text = host.sha256 token in
      let row : CheckpointRow = record {
        job_id = job;
        step_index = index;
        function_name = name;
        transaction_hash = to_lower hash;
      } in
      token-Changes _ (
        guard-Changes host now digest store (row_count (holds now job digest) store.payloads == 1)
          stale_lease _
          (λ held.
            guard-Changes host now digest store
              (length (filter (of_job job) store.checkpoints) == index) not_next_step _
              (λ count.
                guard-Changes host now digest store (host.admits_checkpoint row store.checkpoints)
                  rejected _
                  (λ admitted.
                    recorded row store.payloads store.checkpoints ((==_iff _ 1).0 held)
                      ((==_iff _ index).0 count) e))))

  pub step-Changes :
      (job : Text) (name : FunctionName) (hash : Text)
      → Changes host now (host.sha256 token) store (
          stored
            (record_relayer_owned_one_time_execution_transaction_confirmed host now job token name
              hash store)
            store)
  unfolding record_relayer_owned_one_time_execution_transaction_confirmed
  step-Changes job name hash = go (function_index name) refl
    where
      go :
          (index : Option ℕ)
          → function_index name ≡ index
          → Changes host now (host.sha256 token) store (
              stored
                (elim index [
                  | none ↦ err unsupported_function
                  | some index ↦ record_step host now job token name hash index store
                ])
                store)
      go none e = unchanged host now (host.sha256 token) store
      go (some index) e = next-Changes job name hash index e

  pub submitted-Changes :
      (job : Text) (hashes : List Text)
      → Changes host now (host.sha256 token) store (
          stored
            (record_relayer_owned_one_time_execution_submitted host now job token hashes store)
            store)
  unfolding record_relayer_owned_one_time_execution_submitted log is_leased_under has_job
  submitted-Changes job hashes =
      let digest : Text = host.sha256 token in
      let found : List CheckpointRow =
        sort_by earlier_step (filter (of_job job) store.checkpoints) in
      guard-Changes host now digest store (length hashes == 3) bad_hash_count _ (λ e.
        token-Changes _ (
          guard-Changes host now digest store (row_count (holds now job digest) store.payloads == 1)
            stale_lease _
            (λ e.
              guard-Changes host now digest store
                (length found == 3 && matches_steps 0 found hashes) hashes_differ _
                (λ full.
                  guard-Changes host now digest store
                    (row_count (is_leased_under job digest) store.payloads == 1) stale_lease _
                    (λ e.
                      updated host now digest (is_leased_under job digest)
                        (unlocked now PayloadStatus.submitted) store
                        (All-every _ store.payloads (λ row e.
                          Move.submitted row (ground (arith, e)) (ground (arith, e))
                            (all_steps job digest hashes store.checkpoints row full e))))))))

  pub confirm-Changes :
      (job hash : Text)
      → Changes host now
          (host.sha256 token)
          store
          (stored (confirm_relayer_owned_one_time_execution host now job hash store) store)
  unfolding confirm_relayer_owned_one_time_execution log awaits_confirmation
  confirm-Changes job hash =
      let digest : Text = host.sha256 token in
      guard-Changes host now digest store (is_identifier job) bad_identifier _ (λ e.
        guard-Changes host now digest store (is_lower_bytes32 (to_lower hash)) bad_hash _ (λ e.
          guard-Changes host now digest store
            (is_hash_of (find? (is_last_step job) store.checkpoints) hash) no_matching_checkpoint _
            (λ e.
              guard-Changes host now digest store
                (row_count (awaits_confirmation job) store.payloads == 1) not_submitted _
                (λ e.
                  updated host now digest (awaits_confirmation job) (confirm_row now) store (
                    All-every _ store.payloads
                      (λ row e. Move.confirmed row (ground (arith, e))))))))
