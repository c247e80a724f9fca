-- ===== src/Preparations.antt =====
-- apps/relayer/src/phase3/execution-payload-store.ts: createPayoutV3PreparationPayloadDataSource, which
-- moves a prepared payout into the queue of payouts. A row of that queue is a row of the table of
-- Payloads.antt, whose `job_id` is the payout id and whose `attempt_id` is the intent hash. `now` is
-- CURRENT_TIMESTAMP. The key, the JSON codec, keccak256 and getAddress of viem are parameters.
pub mod Promote
pub mod Queued
pub mod Promoted
mod Tests
use parly_relayer.Prelude.{
  ℕ, ◌+◌, Bool, true, false, ◌&&◌, ◌||◌, not, ltb, leb, ◌==◌, if◌then◌else◌, Option, none, some,
  List, [], ◌∷◌, ◌++◌, map, filter, any, find?, take, sort_by, all, length, ◌%◌, Result, ok, err,
  ◌>>=◌, ◌>>◌, guard, Text, codes, text_eq, text_ltb, to_lower, is_lower_bytes32, is_address,
  is_hex_digit,
}
use parly_relayer.Payloads.{
  FailureCode, invalid_execution_payload, EventType, ExecutionEvent, PayloadRow, PayloadStore, Host,
  is_identifier, event, has_job, log,
}
use parly_relayer.Payloads.Enqueue.{queued_row}

pub data PreparationStatus : Type 0 where
  awaiting_withdrawal withdrawal_submitted withdrawal_confirmed quote_accepted : PreparationStatus
  receipt_confirmed failed_retryable submitted manual_review : PreparationStatus

pub record PreparationRow (Sealed : Type 0) : Type 0 where
  pub payout_id : Text
  pub intent_hash : Text
  pub sealed : Sealed
  pub payload_hash : Text
  pub status : PreparationStatus
  pub attempt_number : ℕ
  pub max_attempts : ℕ
  pub failure_code : Option FailureCode
  pub created_at : ℕ
  pub updated_at : ℕ

-- `PayoutV3PreparationPayload`
pub record Preparation : Type 0 where
  pub payout_id : Text
  pub intent_hash : Text
  pub payout_authority : Text
  pub destination_recipient : Text
  pub provider_data : Text
  pub provider_data_hash : Text

pub record Candidate : Type 0 where
  pub payout_id : Text
  pub intent_hash : Text
  pub max_attempts : ℕ

pub data PreparationError : Type 0 where
  bad_limit bad_identifier bad_intent_hash not_confirmed invalid_preparation rejected :
      PreparationError

pub data Promotion : Type 0 where
  queued already_queued nothing : Promotion

pub record Tables (Sealed : Type 0) : Type 0 where
  pub preparations : List (PreparationRow Sealed)
  pub executions : PayloadStore Sealed

-- What a preparation is read with.
pub record Reader (Sealed : Type 0) : Type 0 where
  pub decipher : Sealed → Option Text
  pub parse : Text → Option Preparation
  pub keccak256 : Text → Text
  pub get_address : Text → Text

-- The statuses that both statements list.
pub is_open : PreparationStatus → Bool
is_open submitted = false
is_open manual_review = false
is_open _ = true

is_receipt_confirmed : PreparationStatus → Bool
is_receipt_confirmed PreparationStatus.receipt_confirmed = true
is_receipt_confirmed _ = false

module _ {Sealed : Type 0} where
  pub has_payout : Text → PreparationRow Sealed → Bool
  has_payout id row = text_eq row.payout_id id

  -- The LEFT JOIN with no execution, and the WHERE clause.
  pub is_listed : List (PayloadRow Sealed) → PreparationRow Sealed → Bool
  is_listed executions row =
      not (any (has_job row.payout_id) executions)
      && ltb row.attempt_number row.max_attempts
      && is_open row.status

  created_before : PreparationRow Sealed → PreparationRow Sealed → Bool
  created_before a b =
      ltb a.created_at b.created_at
      || (a.created_at == b.created_at && text_ltb a.payout_id b.payout_id)

  as_candidate : PreparationRow Sealed → Candidate
  as_candidate row = record {
    payout_id = row.payout_id;
    intent_hash = to_lower row.intent_hash;
    max_attempts = row.max_attempts;
  }

  pub list_payout_v3_preparation_candidates :
      ℕ → Tables Sealed → Result PreparationError (List Candidate)
  unfolding created_before as_candidate
  list_payout_v3_preparation_candidates limit tables = do
    guard (leb 1 limit && leb limit 50) bad_limit
    ok (
        map as_candidate (
          take limit (
            sort_by created_before
              (filter (is_listed tables.executions.payloads) tables.preparations))))

  pub update_preparations :
      (PreparationRow Sealed → Bool)
      → (PreparationRow Sealed → PreparationRow Sealed)
      → List (PreparationRow Sealed)
      → List (PreparationRow Sealed)
  update_preparations p f [] = []
  update_preparations p f (row ∷ rows) =
      (if p row then f row else row) ∷ update_preparations p f rows

  -- The WHERE clause of the first statement; `intent` is in lower case.
  pub is_promotable : Text → Text → PreparationRow Sealed → Bool
  is_promotable id intent row =
      has_payout id row
      && text_eq row.intent_hash intent
      && ltb row.attempt_number row.max_attempts
      && is_open row.status

  pub confirm_receipt : ℕ → PreparationRow Sealed → PreparationRow Sealed
  confirm_receipt now row = record row {
    status = PreparationStatus.receipt_confirmed;
    attempt_number = row.attempt_number + 1;
    updated_at = now;
  }

  pub is_confirmed_payout : Text → PreparationRow Sealed → Bool
  unfolding is_receipt_confirmed
  is_confirmed_payout id row = has_payout id row && is_receipt_confirmed row.status

  pub submit : ℕ → PreparationRow Sealed → PreparationRow Sealed
  submit now row = record row {
    status = PreparationStatus.submitted;
    failure_code = none;
    updated_at = now;
  }

  pub give_up : ℕ → PreparationRow Sealed → PreparationRow Sealed
  give_up now row = record row {
    status = PreparationStatus.manual_review;
    failure_code = some invalid_execution_payload;
    updated_at = now;
  }
