-- ===== src/Payloads/Acts.antt =====
-- Every call of the settlement queue is a change of the state machine.
use parly_relayer.Prelude.{
  ℕ, ◌+◌, refl, Bool, true, false, ◌&&◌, Option, none, some, Text, text_eq, ok, err, ◌>>=◌, ◌>>◌,
  guard, find?, if◌then◌else◌, trim, is_nonempty, is_lower_bytes32, to_lower, leb,
}
use parly_relayer.Payloads.{
  PayloadRow, PayloadStore, Host, bad_identifier, bad_attempt_id, unbound_payload, bad_max_attempts,
  different_payload, rejected, bad_lease, bad_lease_token, is_identifier, log, lease_token_hash_of,
}
use parly_relayer.Payloads.Acquire.{
  Acquired, acquired, answer_of, load_job, updated_before, candidate, retire_exhausted,
  lease_candidate, acquire_with, acquire_relayer_owned_one_time_execution_job,
}
use parly_relayer.Payloads.Enqueue.{
  queued_row, insert_payload, enqueue_relayer_owned_one_time_execution_payload,
}
use parly_relayer.Payloads.Moves.{IsQueued, queued}
use parly_relayer.Payloads.Jobs.{IsDistinct, IsKeyed, Change-IsDistinct}
use parly_relayer.Payloads.Changes.{Changes, unchanged, guard-Changes, acquire-Change}
use parly_relayer.Payloads.Calls.{stored, store_of, perform, act, Call, Request}
use parly_relayer.Payloads.Reported.{
  dry_run-Changes, defer-Changes, renew-Changes, failed-Changes, invalid-Changes, step-Changes,
  submitted-Changes, confirm-Changes,
}

module _ {Sealed Payload : Type 0} (host : Host Sealed Payload) (now : ℕ) (token : Text)
    (store : PayloadStore Sealed) where
  insert-Changes :
      (found : Option (PayloadRow Sealed)) (row : PayloadRow Sealed)
      → IsQueued row
      → Changes host now
          (host.sha256 token)
          store
          (stored (insert_payload host found row store) store)
  unfolding insert_payload log
  insert-Changes (some existing) row h = same (text_eq existing.payload_hash row.payload_hash)
    where
      same :
          (test : Bool)
          → Changes host now
              (host.sha256 token)
              store
              (stored (if test then ok store else err different_payload) store)
      same true = unchanged host now (host.sha256 token) store
      same false = unchanged host now (host.sha256 token) store
  insert-Changes none row h =
      guard-Changes host now (host.sha256 token) store (host.admits_payload row store.payloads)
        rejected _ (λ admitted. queued row store.payloads store.checkpoints h admitted)

  enqueue-Changes :
      (job attempt : Text) (payload : Payload) (max_attempts : ℕ)
      → Changes host now (host.sha256 token) store (
          stored
            (enqueue_relayer_owned_one_time_execution_payload host now job attempt payload
              max_attempts store)
            store)
  unfolding enqueue_relayer_owned_one_time_execution_payload queued_row IsQueued
  enqueue-Changes job attempt payload max_attempts =
      let digest : Text = host.sha256 token in
      guard-Changes host now digest store (is_identifier job) bad_identifier _ (λ e.
        guard-Changes host now digest store (is_lower_bytes32 (to_lower attempt)) bad_attempt_id _
          (λ e.
            guard-Changes host now digest store
              (text_eq (to_lower (host.attempt_id payload)) (to_lower attempt)
                && text_eq (to_lower (host.observation_attempt_id payload)) (to_lower attempt)
                && text_eq (to_lower (host.settlement_attempt_id payload)) (to_lower attempt))
              unbound_payload _
              (λ e.
                guard-Changes host now digest store (leb 1 max_attempts && leb max_attempts 20)
                  bad_max_attempts _
                  (λ bounds.
                    insert-Changes
                      (find? (λ row. text_eq row.attempt_id (to_lower attempt)) store.payloads)
                      (queued_row host now job (to_lower attempt) (host.encode payload)
                        max_attempts)
                      (refl, refl, refl, refl, refl, refl)))))

  -- The guards of an acquisition, and the answer that is passed on.
  acquired-Changes :
      {Job : Type 0} (a b c : Bool) (next : Text → PayloadStore Sealed × Option (Option Job))
      (f : Job → Acquired Payload)
      → Changes host now (host.sha256 token) store (next (host.sha256 token)).0
      → Changes host now (host.sha256 token) store (
          stored
            (((guard a bad_identifier
                  >> (guard b bad_lease
                      >> ((guard c bad_lease_token >> ok (host.sha256 token))
                          >>= (λ hash. ok (next hash)))))
                >>= (λ pair. ok (pair.0, answer_of f pair.1)))
              >>= store_of)
            store)
  unfolding store_of
  acquired-Changes true true true next f h = h
  acquired-Changes true true false next f h = unchanged host now (host.sha256 token) store
  acquired-Changes true false c next f h = unchanged host now (host.sha256 token) store
  acquired-Changes false b c next f h = unchanged host now (host.sha256 token) store

  acquire-Changes :
      (clock : ℕ) (locked : Text → Bool) (worker : Text) (lease_ms : ℕ)
      → IsDistinct store.payloads
      → Changes host now (host.sha256 token) store (
          stored
            (acquire_relayer_owned_one_time_execution_job host now clock locked worker lease_ms
                token store
              >>= store_of)
            store)
  unfolding acquire_relayer_owned_one_time_execution_job acquire_with lease_token_hash_of
  acquire-Changes clock locked worker lease_ms h =
      let cleared : PayloadStore Sealed = retire_exhausted now locked store in
      acquired-Changes (is_identifier worker) (leb 1000 lease_ms && leb lease_ms 900000)
        (is_nonempty (trim token))
        (λ hash.
          lease_candidate host (load_job host) now (clock + lease_ms) lease_ms worker token hash
            (candidate updated_before now locked cleared.payloads) cleared)
        acquired
        (acquire-Change host now (host.sha256 token) (load_job host) updated_before locked
          (clock + lease_ms) lease_ms worker token store h)

  perform-Changes :
      (request : Request Payload)
      → IsDistinct store.payloads
      → Changes host now
          (host.sha256 token)
          store
          (stored (perform host now token request store) store)
  unfolding perform
  perform-Changes (Request.enqueue job attempt payload max_attempts) h =
      enqueue-Changes job attempt payload max_attempts
  perform-Changes (Request.acquire clock locked worker lease_ms) h =
      acquire-Changes clock locked worker lease_ms h
  perform-Changes (Request.dry_run job) h = dry_run-Changes host now token store job
  perform-Changes (Request.defer job) h = defer-Changes host now token store job
  perform-Changes (Request.renew job) h = renew-Changes host now token store job
  perform-Changes (Request.payload_invalid job) h = invalid-Changes host now token store job
  perform-Changes (Request.transaction_confirmed job name hash) h =
      step-Changes host now token store job name hash
  perform-Changes (Request.failed job code) h = failed-Changes host now token store job code
  perform-Changes (Request.submitted job hashes) h =
      submitted-Changes host now token store job hashes
  perform-Changes (Request.confirm job hash) h = confirm-Changes host now token store job hash

-- In a table whose job ids are distinct, each call of the settlement queue, whether it returns or throws,
-- makes one change of the state machine: moves of single rows, each from a status and a lease that allows
-- it, then at most one new row or one new checkpoint, which is the next step of a job that the call holds.
pub act-Change :
    {Sealed Payload : Type 0} (host : Host Sealed Payload) (call : Call Payload)
    (store : PayloadStore Sealed)
    → IsDistinct store.payloads
    → Changes host call.now (host.sha256 call.token) store (act host call store)
unfolding act
act-Change host call store h = perform-Changes host call.now call.token store call.request h

pub act-IsDistinct :
    {Sealed Payload : Type 0} (host : Host Sealed Payload) (call : Call Payload)
    (store : PayloadStore Sealed)
    → IsKeyed host.admits_payload
    → IsDistinct store.payloads
    → IsDistinct (act host call store).payloads
act-IsDistinct host call store key h = Change-IsDistinct key (act-Change host call store h) h
