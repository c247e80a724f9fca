-- ===== src/Payouts/Worker.antt =====
-- apps/relayer/src/phase3/index.ts: runPayoutV3ExecutionOnce over the queue of payouts. Any number of runs
-- advance in any order; a run stops at each `await`, and an interleaving is a list of events. A run may
-- crash wherever it waits. The eligibility reader, the network, keccak256, getAddress and the encoding of
-- the call data are outside.
use parly_relayer.Prelude.{
  ℕ, zero, suc, Bool, false, ◌&&◌, not, if◌then◌else◌, ltb, Option, none, some, List, [], ◌∷◌, ◌++◌,
  Result, ok, err, Text, codes, text_eq, to_lower, trim, is_nonempty, is_bytes32, is_prefixed,
  is_hex_bytes, ◌==◌,
}
use parly_relayer.Payloads.{PayloadError, FailureCode, broadcast_failed, transaction_reverted, Host}
use parly_relayer.Payouts.{
  PayoutSubmitJob, PayoutCheckpoint, PayoutTables, PayoutJob, acquire_payout_v3_execution_job,
  record_payout_v3_execution_dry_run, renew_payout_v3_execution_lease,
  record_payout_v3_execution_transaction_confirmed, record_payout_v3_execution_submitted,
  record_payout_v3_execution_failed, record_payout_v3_execution_payload_invalid,
}

-- The arguments of a run; the three flags of its environment.
pub record Config : Type 0 where
  pub adapter_address : Text
  pub relayer_operator_address : Text
  pub worker_id : Text
  pub lease_ms : ℕ
  pub broadcast : Bool
  pub payout_execution_enabled : Option Text
  pub live_transactions_enabled : Option Text
  pub relay_outbound_broadcast_enabled : Option Text
  pub has_broadcaster : Bool

-- A transaction that was handed to the broadcaster, and the payout that it is for.
pub record Sent : Type 0 where
  pub payout_id : Text
  pub to : Text
  pub calldata : Text

-- What the source takes from viem.
pub record Ethereum : Type 0 where
  pub is_address : Text → Bool
  pub keccak256 : Text → Text
  pub get_address : Text → Text
  pub submit_payout_data : Text → Text → Text → Text

pub data Outcome : Type 0 where
  idle prepared thrown : Outcome
  submitted : Text → Outcome

-- Where a run waits.
pub data Stage : Type 0 where
  acquiring : Stage
  preparing invalid dry renewing broadcasting : PayoutJob → Stage
  failing : PayoutJob → FailureCode → Stage
  confirming submitting : PayoutJob → Text → Stage
  ended : Outcome → Stage

-- What a run is told when it goes on: the time of the database, the answer of the eligibility reader,
-- which is `false` where that throws, or the receipt. `crash` ends it where it waits.
pub data Reply : Type 0 where
  leasing : (now clock : ℕ) (locked : Text → Bool) (token : Text) → Reply
  at : (now : ℕ) → Reply
  eligible : Bool → Reply
  success : (hash : Text) → Reply
  reverted unsent crash : Reply

pub record World (Sealed : Type 0) : Type 0 where
  pub tables : PayoutTables Sealed
  pub sent : List Sent

is_true : Option Text → Bool
is_true none = false
is_true (some t) = text_eq t (codes "true")

unfoldable pub is_payout_v3_execution_broadcast_enabled : Config → Bool
unfolding is_true
is_payout_v3_execution_broadcast_enabled c =
    is_true c.payout_execution_enabled
    && is_true c.live_transactions_enabled
    && is_true c.relay_outbound_broadcast_enabled

-- The stage after a prepared transaction.
unfoldable pub planned : Config → PayoutJob → Option Text → Stage
planned c job confirmed =
    if not c.broadcast
    then dry job
    else if not (is_payout_v3_execution_broadcast_enabled c && c.has_broadcaster)
    then ended thrown
    else elim confirmed [ none ↦ renewing job | some hash ↦ submitting job hash ]

-- `/^0x0{40}$/i`
is_zero_address : Text → Bool
is_zero_address t = is_prefixed (λ c. c == b'0') 40 (to_lower t)

module _ (ethereum : Ethereum) where
  -- `assertAddress`
  is_nonzero_address : Text → Bool
  unfolding is_zero_address
  is_nonzero_address t = ethereum.is_address t && not (is_zero_address t)

  -- The checks before the job is acquired.
  unfoldable pub start : Config → Stage
  unfolding is_nonzero_address
  start c =
      if is_nonzero_address c.adapter_address
        && is_nonzero_address c.relayer_operator_address
        && is_nonempty (trim c.worker_id)
        && ltb 0 c.lease_ms
      then acquiring
      else ended thrown

  -- The checks of `preparePayoutV3SubmitPayoutTransaction`.
  unfoldable pub is_prepared : Config → Bool → PayoutSubmitJob → Bool
  unfolding is_nonzero_address
  is_prepared c is_eligible job =
      is_nonzero_address c.adapter_address
      && is_nonzero_address c.relayer_operator_address
      && is_bytes32 job.intent_hash
      && is_nonzero_address job.payout_authority
      && is_nonzero_address job.destination_recipient
      && text_eq job.status (codes "escrow_receipt_confirmed")
      && text_eq (ethereum.get_address job.payout_authority)
          (ethereum.get_address c.relayer_operator_address)
      && is_eligible
      && is_bytes32 job.provider_data_hash
      && is_hex_bytes job.provider_data
      && text_eq (ethereum.keccak256 job.provider_data) job.provider_data_hash

  unfoldable pub transaction_of : Config → PayoutSubmitJob → Sent
  transaction_of c job = record {
    payout_id = job.payout_id;
    to = ethereum.get_address c.adapter_address;
    calldata =
        ethereum.submit_payout_data job.intent_hash (ethereum.get_address job.destination_recipient)
          job.provider_data;
  }

module _ {Sealed : Type 0} where
  unfoldable pub leased :
      World Sealed
      → Result PayloadError (PayoutTables Sealed × Option (Option PayoutJob))
      → World Sealed × Stage
  leased w (err e) = (w, ended thrown)
  leased w (ok (tables, none)) = (record w { tables = tables }, ended idle)
  leased w (ok (tables, some none)) = (record w { tables = tables }, ended thrown)
  leased w (ok (tables, some (some job))) = (
    record w { tables = tables },
    if is_nonempty (trim job.lease_token) then preparing job else ended thrown,
  )

  -- A statement that a run waits for, and the stage after it.
  unfoldable pub recorded :
      World Sealed → Stage → Result PayloadError (PayoutTables Sealed) → World Sealed × Stage
  recorded w next (ok tables) = (record w { tables = tables }, next)
  recorded w next (err e) = (w, ended thrown)

  -- The broadcaster is called as soon as the lease was renewed.
  unfoldable pub broadcast_after :
      World Sealed
      → PayoutJob
      → Sent
      → Result PayloadError (PayoutTables Sealed)
      → World Sealed × Stage
  broadcast_after w job transaction (ok tables) =
      (record { tables = tables; sent = w.sent ++ transaction ∷ [] }, broadcasting job)
  broadcast_after w job transaction (err e) = (w, ended thrown)

module _ {Sealed : Type 0} (host : Host Sealed PayoutSubmitJob) (ethereum : Ethereum)
    (admits : PayoutCheckpoint → List PayoutCheckpoint → Bool)
    (first : List PayoutCheckpoint → Option PayoutCheckpoint) where
  unfoldable pub advance : Config → Stage → Reply → World Sealed → World Sealed × Stage
  advance c acquiring (leasing now clock locked token) w = leased w (
      acquire_payout_v3_execution_job host admits first now clock locked c.worker_id c.lease_ms
        token w.tables)
  advance c (preparing job) (eligible is_eligible) w = (
    w,
    if is_prepared ethereum c is_eligible job.submit_job
        then planned c job job.confirmed_transaction
        else invalid job,
  )
  advance c (invalid job) (at now) w = recorded w (ended thrown) (
      record_payout_v3_execution_payload_invalid host admits first now job.submit_job.payout_id
        job.lease_token w.tables)
  advance c (dry job) (at now) w = recorded w (ended prepared) (
      record_payout_v3_execution_dry_run host admits first now job.submit_job.payout_id
        job.lease_token w.tables)
  advance c (renewing job) (at now) w =
      broadcast_after w job (transaction_of ethereum c job.submit_job) (
        renew_payout_v3_execution_lease host admits first now job.submit_job.payout_id
          job.lease_token w.tables)
  advance c (broadcasting job) (success hash) w = (w, confirming job hash)
  advance c (broadcasting job) reverted w = (w, failing job transaction_reverted)
  advance c (broadcasting job) unsent w = (w, failing job broadcast_failed)
  advance c (failing job code) (at now) w = recorded w (ended thrown) (
      record_payout_v3_execution_failed host admits first now job.submit_job.payout_id
        job.lease_token code w.tables)
  advance c (confirming job hash) (at now) w = recorded w (submitting job hash) (
      record_payout_v3_execution_transaction_confirmed host admits first now
        job.submit_job.payout_id job.lease_token hash w.tables)
  advance c (submitting job hash) (at now) w = recorded w (ended (submitted hash)) (
      record_payout_v3_execution_submitted host admits first now job.submit_job.payout_id
        job.lease_token hash w.tables)
  advance c (ended outcome) reply w = (w, ended outcome)
  advance c stage crash w = (w, ended thrown)
  advance c stage reply w = (w, stage)

-- A call of `runPayoutV3ExecutionOnce`.
pub record Run : Type 0 where
  pub config : Config
  pub stage : Stage

pub data Event : Type 0 where
  launch : Config → Event
  resume : ℕ → Reply → Event

pub record System (Sealed : Type 0) : Type 0 where
  pub world : World Sealed
  pub runs : List Run

module _ {Sealed : Type 0} (host : Host Sealed PayoutSubmitJob) (ethereum : Ethereum)
    (admits : PayoutCheckpoint → List PayoutCheckpoint → Bool)
    (first : List PayoutCheckpoint → Option PayoutCheckpoint) where
  unfoldable pub resume_at : ℕ → Reply → World Sealed → List Run → World Sealed × List Run
  resume_at i reply w [] = (w, [])
  resume_at zero reply w (run ∷ runs) =
      let next = advance host ethereum admits first run.config run.stage reply w in
      (next.0, record run { stage = next.1 } ∷ runs)
  resume_at (suc i) reply w (run ∷ runs) =
      let rest = resume_at i reply w runs in (rest.0, run ∷ rest.1)

  unfoldable pub step : Event → System Sealed → System Sealed
  step (launch config) s = record s {
    runs = s.runs ++ record { config = config; stage = start ethereum config } ∷ [];
  }
  step (resume i reply) s =
      let next = resume_at i reply s.world s.runs in record { world = next.0; runs = next.1 }

  unfoldable pub steps : List Event → System Sealed → System Sealed
  steps [] s = s
  steps (e ∷ es) s = steps es (step e s)
