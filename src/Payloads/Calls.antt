-- ===== src/Payloads/Calls.antt =====
-- The functions of the settlement queue as calls, and what any sequence of them leaves in the store.
use parly_relayer.Prelude.{ℕ, Bool, List, [], ◌∷◌, Text, Result, ok, err, ◌>>=◌}
use parly_relayer.Payloads.{FailureCode, FunctionName, PayloadError, PayloadStore, Host}
use parly_relayer.Payloads.Acquire.{Acquired, acquire_relayer_owned_one_time_execution_job}
use parly_relayer.Payloads.Enqueue.{
  enqueue_relayer_owned_one_time_execution_payload, confirm_relayer_owned_one_time_execution,
}
use parly_relayer.Payloads.Report.{
  record_relayer_owned_one_time_execution_dry_run, defer_relayer_owned_one_time_execution_job,
  renew_relayer_owned_one_time_execution_lease,
  record_relayer_owned_one_time_execution_transaction_confirmed,
  record_relayer_owned_one_time_execution_failed,
  record_relayer_owned_one_time_execution_payload_invalid,
  record_relayer_owned_one_time_execution_submitted,
}

pub data Request (Payload : Type 0) : Type 0 where
  enqueue : (job_id attempt_id : Text) (payload : Payload) (max_attempts : ℕ) → Request Payload
  acquire : (clock : ℕ) (locked : Text → Bool) (worker_id : Text) (lease_ms : ℕ) → Request Payload
  dry_run defer renew payload_invalid : (job_id : Text) → Request Payload
  transaction_confirmed :
      (job_id : Text) (function_name : FunctionName) (transaction_hash : Text) → Request Payload
  failed : (job_id : Text) (failure_code : FailureCode) → Request Payload
  submitted : (job_id : Text) (transaction_hashes : List Text) → Request Payload
  confirm : (job_id finalization_transaction_hash : Text) → Request Payload

-- `now` is the time of the transaction. The writer's two functions have no token.
pub record Call (Payload : Type 0) : Type 0 where
  pub now : ℕ
  pub token : Text
  pub request : Request Payload

module _ {Sealed Payload : Type 0} where
  unfoldable pub store_of :
      PayloadStore Sealed × Acquired Payload → Result PayloadError (PayloadStore Sealed)
  store_of (store, answer) = ok store

-- What throws leaves the store as it was.
abbrev pub stored :
    {Sealed : Type 0}
    → Result PayloadError (PayloadStore Sealed)
    → PayloadStore Sealed
    → PayloadStore Sealed
stored (ok store') store = store'
stored (err thrown) store = store

module _ {Sealed Payload : Type 0} (host : Host Sealed Payload) where
  unfoldable pub perform :
      ℕ → Text → Request Payload → PayloadStore Sealed → Result PayloadError (PayloadStore Sealed)
  perform now token (enqueue job attempt payload max_attempts) =
      enqueue_relayer_owned_one_time_execution_payload host now job attempt payload max_attempts
  perform now token (acquire clock locked worker lease_ms) = λ store.
      acquire_relayer_owned_one_time_execution_job host now clock locked worker lease_ms token store
      >>= store_of
  perform now token (dry_run job) =
      record_relayer_owned_one_time_execution_dry_run host now job token
  perform now token (defer job) = defer_relayer_owned_one_time_execution_job host now job token
  perform now token (renew job) = renew_relayer_owned_one_time_execution_lease host now job token
  perform now token (payload_invalid job) =
      record_relayer_owned_one_time_execution_payload_invalid host now job token
  perform now token (transaction_confirmed job name hash) =
      record_relayer_owned_one_time_execution_transaction_confirmed host now job token name hash
  perform now token (failed job code) =
      record_relayer_owned_one_time_execution_failed host now job token code
  perform now token (submitted job hashes) =
      record_relayer_owned_one_time_execution_submitted host now job token hashes
  perform now token (confirm job hash) = confirm_relayer_owned_one_time_execution host now job hash

  unfoldable pub act : Call Payload → PayloadStore Sealed → PayloadStore Sealed
  act call store = stored (perform call.now call.token call.request store) store

  unfoldable pub after : List (Call Payload) → PayloadStore Sealed → PayloadStore Sealed
  after [] store = store
  after (call ∷ calls) store = after calls (act call store)
