-- ===== src/Payouts/Tests.antt =====
-- A run that crashes after its transaction was recorded, and one that goes on from there.
use parly_relayer.Prelude.{
  ℕ, zero, suc, ◌≡◌, refl, Bool, true, false, Option, none, some, List, [], ◌∷◌, map, ok, err, Text,
  codes, text_eq, text_ltb, to_lower, trim, is_prefixed, is_bytes32, is_hex_digit,
  is_lower_hex_digit, is_hex_bytes, sort_by, Result,
}
use parly_relayer.Payloads.{
  PayloadError, Host, is_identifier, is_leased, has_token, holds, runs_at, ran_out_at, update_rows,
  row_count, unlocked, open_row, update_held, has_job, log, lease_token_hash_of,
}
use parly_relayer.Payloads.Acquire.{
  is_waiting, is_exhausted, is_candidate, until_before, runs_out_before, created_before,
  same_job_as, exhausted_rows, exhaust, exhausted_event, retire_exhausted, candidate, lease,
  discard, loaded, lease_candidate, acquire_with,
}
use parly_relayer.Payloads.Enqueue.{queued_row, insert_payload}
use parly_relayer.Payloads.Report.{
  renewed_until, renew_row, is_leased_under, renew_relayer_owned_one_time_execution_lease,
}
use parly_relayer.Payloads.Leases.{is_set}
use parly_relayer.Payloads.Full.{no_payloads}
use parly_relayer.Payouts.{
  PayoutSubmitJob, PayoutCheckpoint, PayoutTables, of_payout, recorded_before, hash_of,
  is_hash_of_payout, on_queue, enqueue_payout_v3_execution_payload, load_payout,
  acquire_payout_v3_execution_job, renew_payout_v3_execution_lease,
  record_payout_v3_execution_transaction_confirmed, record_payout_v3_execution_submitted,
}
use parly_relayer.Payouts.Worker.{
  Config, Ethereum, Outcome, Stage, Reply, Event, System, is_payout_v3_execution_broadcast_enabled,
  start, planned, is_prepared, transaction_of, leased, recorded, broadcast_after, advance,
  resume_at, step, steps,
}
use parly_relayer.Payouts.Loads.{has_checkpoint, is_safe_job}
use parly_relayer.Payouts.Settled.{sent_for, is_safe_stage, AreSafeRuns, sent_for-steps}

payouts : Unit {0}
unfolding is_identifier is_leased has_token holds runs_at ran_out_at update_rows row_count unlocked
    open_row update_held has_job log lease_token_hash_of is_waiting is_exhausted is_candidate
    until_before runs_out_before created_before same_job_as exhausted_rows exhaust exhausted_event
    retire_exhausted candidate lease discard loaded lease_candidate acquire_with queued_row
    insert_payload renewed_until renew_row is_leased_under
    renew_relayer_owned_one_time_execution_lease is_set of_payout recorded_before hash_of
    is_hash_of_payout on_queue enqueue_payout_v3_execution_payload load_payout
    acquire_payout_v3_execution_job renew_payout_v3_execution_lease
    record_payout_v3_execution_transaction_confirmed record_payout_v3_execution_submitted
    is_payout_v3_execution_broadcast_enabled start planned is_prepared transaction_of leased
    recorded broadcast_after advance resume_at step steps has_checkpoint sent_for is_safe_job
    is_safe_stage AreSafeRuns text_eq text_ltb to_lower trim is_prefixed is_bytes32 is_hex_digit
    is_lower_hex_digit is_hex_bytes sort_by
payouts = tt

abbrev repeat : ℕ → ℕ → Text
repeat zero digit = []
repeat (suc n) digit = digit ∷ repeat n digit

abbrev hash : ℕ → Text
hash digit = b'0' ∷ b'x' ∷ repeat 64 digit

abbrev address : ℕ → Text
address digit = b'0' ∷ b'x' ∷ repeat 40 digit

abbrev job : Text → PayoutSubmitJob
job id = record {
  payout_id = id;
  intent_hash = hash b'a';
  idempotency_key = id;
  status = codes "escrow_receipt_confirmed";
  payout_authority = address b'1';
  destination_recipient = address b'2';
  provider_data = codes "0x12";
  provider_data_hash = hash b'd';
}

-- A payload is kept as its payout id, unencrypted.
abbrev host : Host Text PayoutSubmitJob
host = record {
  sha256 = λ t. t;
  encode = λ p. p.payout_id;
  decode = λ t. some (job t);
  seal = λ t. t;
  decipher = λ t. some t;
  attempt_id = λ p. [];
  observation_attempt_id = λ p. [];
  settlement_attempt_id = λ p. [];
  admits_payload = λ row rows. true;
  admits_checkpoint = λ row rows. true;
}

abbrev ethereum : Ethereum
ethereum = record {
  is_address = λ t. true;
  keccak256 = λ t. hash b'd';
  get_address = λ t. t;
  submit_payout_data = λ intent recipient data_bytes. intent;
}

abbrev admits : PayoutCheckpoint → List PayoutCheckpoint → Bool
admits row rows = true

abbrev first : List PayoutCheckpoint → Option PayoutCheckpoint
first [] = none
first (row ∷ rows) = some row

abbrev free : Text → Bool
free id = false

abbrev config : Config
config = record {
  adapter_address = address b'9';
  relayer_operator_address = address b'1';
  worker_id = codes "worker";
  lease_ms = 60000;
  broadcast = true;
  payout_execution_enabled = some (codes "true");
  live_transactions_enabled = some (codes "true");
  relay_outbound_broadcast_enabled = some (codes "true");
  has_broadcaster = true;
}

abbrev stored : Result PayloadError (PayoutTables Text) → PayoutTables Text
stored (ok tables) = tables
stored (err e) = record { queue = no_payloads; checkpoints = [] }

abbrev queued_system : System Text
queued_system = record {
  world = record {
    tables = stored (
        enqueue_payout_v3_execution_payload host admits first 500 (codes "p1") (job (codes "p1")) 3
          (record { queue = no_payloads; checkpoints = [] }));
    sent = [];
  };
  runs = [];
}

abbrev before_crash : List Event
before_crash =
    Event.launch config
    ∷ Event.resume 0 (Reply.leasing 1000 1000 free (codes "t1"))
    ∷ Event.resume 0 (Reply.eligible true)
    ∷ Event.resume 0 (Reply.at 2000)
    ∷ Event.resume 0 (Reply.success (hash b'7'))
    ∷ Event.resume 0 (Reply.at 3000)
    ∷ Event.resume 0 Reply.crash
    ∷ []

-- Another run, after the lease of the first has ended.
abbrev after_crash : List Event
after_crash =
    Event.launch config
    ∷ Event.resume 1 (Reply.leasing 200000 200000 free (codes "t2"))
    ∷ Event.resume 1 (Reply.eligible true)
    ∷ Event.resume 1 (Reply.at 201000)
    ∷ []

abbrev crashed : System Text
crashed = steps host ethereum admits first before_crash queued_system

stages : System Text → List Stage
stages s = map (λ run. run.stage) s.runs

sent_once : map (λ s. s.payout_id) crashed.world.sent ≡ codes "p1" ∷ []
unfolding payouts
sent_once = refl

goes_on :
    stages (steps host ethereum admits first after_crash crashed)
    ≡ Stage.ended Outcome.thrown ∷ Stage.ended (Outcome.submitted (hash b'7')) ∷ []
unfolding payouts stages
goes_on = refl

crashed-has_checkpoint : has_checkpoint (codes "p1") crashed.world.tables ≡ true
unfolding payouts
crashed-has_checkpoint = refl

crashed-AreSafeRuns : AreSafeRuns host ethereum admits first (codes "p1") crashed.runs
unfolding payouts
crashed-AreSafeRuns = (refl, tt)

sent_for-steps_example :
    sent_for (codes "p1") (steps host ethereum admits first after_crash crashed).world.sent
    ≡ sent_for (codes "p1") crashed.world.sent
sent_for-steps_example =
    sent_for-steps host ethereum admits first (codes "p1") after_crash crashed
      crashed-has_checkpoint crashed-AreSafeRuns
