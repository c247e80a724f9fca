-- ===== src/Preparations/Promote.antt =====
-- `promotePayoutV3PreparationToExecution`: its transaction, and the reading of the sealed preparation.
use parly_relayer.Prelude.{
  ℕ, Bool, ◌&&◌, not, if◌then◌else◌, Option, none, some, [], ◌∷◌, ◌++◌, any, find?, Result, ok, err,
  Text, codes, text_eq, to_lower, is_lower_bytes32, is_address, is_hex_bytes,
}
use parly_relayer.Payloads.{
  EventType, PayloadRow, PayloadStore, Host, is_identifier, event, has_job, log,
}
use parly_relayer.Payloads.Enqueue.{queued_row}
use parly_relayer.Payouts.{PayoutSubmitJob}
use parly_relayer.Preparations.{
  PreparationRow, Preparation, PreparationError, Promotion, Tables, Reader, has_payout,
  update_preparations, is_promotable, confirm_receipt, is_confirmed_payout, submit, give_up,
  bad_identifier, bad_intent_hash, not_confirmed, invalid_preparation, rejected, queued,
  already_queued, nothing,
}

-- COMMIT of what the action left, or ROLLBACK to the tables from before it where the action throws.
unfoldable pub with_transaction :
    {A : Type 0} {Sealed : Type 0}
    → Tables Sealed
    → Tables Sealed × Result PreparationError A
    → Tables Sealed × Result PreparationError A
with_transaction before (tables, ok answer) = (tables, ok answer)
with_transaction before (tables, err thrown) = (before, err thrown)

-- `phase3-payout-v3:${id}:submitPayout`
idempotency_key_of : Text → Text
idempotency_key_of id = codes "phase3-payout-v3:" ++ id ++ codes ":submitPayout"

module _ {Sealed : Type 0} (host : Host Sealed PayoutSubmitJob) (reader : Reader Sealed) where
  unfoldable pub is_valid : Preparation → Bool
  unfolding is_hex_bytes
  is_valid p =
      is_identifier p.payout_id
      && is_lower_bytes32 (to_lower p.intent_hash)
      && is_address p.payout_authority
      && is_address p.destination_recipient
      && is_hex_bytes p.provider_data
      && is_lower_bytes32 (to_lower p.provider_data_hash)
      && text_eq (reader.keccak256 p.provider_data) p.provider_data_hash

  unfoldable pub normalized : Preparation → Preparation
  normalized p = record {
    payout_id = p.payout_id;
    intent_hash = to_lower p.intent_hash;
    payout_authority = reader.get_address p.payout_authority;
    destination_recipient = reader.get_address p.destination_recipient;
    provider_data = p.provider_data;
    provider_data_hash = to_lower p.provider_data_hash;
  }

  unfoldable pub validated : Option Preparation → Option Preparation
  unfolding is_valid normalized
  validated none = none
  validated (some p) = if is_valid p then some (normalized p) else none

  -- `none` where it throws.
  unfoldable pub decrypt_payout_v3_preparation_payload : PreparationRow Sealed → Option Preparation
  unfolding validated
  decrypt_payout_v3_preparation_payload row = elim (reader.decipher row.sealed) [
    | none ↦ none
    | some serialized ↦
        if text_eq (host.sha256 serialized) row.payload_hash
        then validated (reader.parse serialized)
        else none
  ]

  -- The preparation of a row, where it can be read and belongs to the row.
  unfoldable pub preparation_of : PreparationRow Sealed → Option Preparation
  preparation_of row = elim (decrypt_payout_v3_preparation_payload row) [
    | none ↦ none
    | some p ↦
        if text_eq p.payout_id row.payout_id && text_eq p.intent_hash (to_lower row.intent_hash)
        then some p
        else none
  ]

  unfoldable pub execution_of : Preparation → PayoutSubmitJob
  unfolding idempotency_key_of
  execution_of p = record {
    payout_id = p.payout_id;
    intent_hash = p.intent_hash;
    idempotency_key = idempotency_key_of p.payout_id;
    status = codes "escrow_receipt_confirmed";
    payout_authority = p.payout_authority;
    destination_recipient = p.destination_recipient;
    provider_data = p.provider_data;
    provider_data_hash = p.provider_data_hash;
  }

  unfoldable pub execution_row : ℕ → PreparationRow Sealed → Preparation → PayloadRow Sealed
  unfolding execution_of
  execution_row now row p =
      queued_row host now row.payout_id p.intent_hash (host.encode (execution_of p))
        row.max_attempts

  -- INSERT with ON CONFLICT DO NOTHING; `none` where another constraint refuses the row.
  unfoldable pub insert_execution :
      PayloadRow Sealed → PayloadStore Sealed → Option (PayloadStore Sealed)
  insert_execution row store =
      if any (has_job row.job_id) store.payloads
      then some store
      else if host.admits_payload row store.payloads
      then some (record store { payloads = store.payloads ++ row ∷ [] })
      else none

  -- The catch block: what it writes before it throws again.
  unfoldable pub given_up :
      ℕ
      → Text
      → PreparationError
      → Tables Sealed
      → Tables Sealed × Result PreparationError Promotion
  given_up now id thrown tables = (
    record tables {
      preparations = update_preparations (has_payout id) (give_up now) tables.preparations;
    },
    err thrown,
  )

  -- The try block after the preparation was read.
  unfoldable pub enqueue_execution :
      ℕ
      → PreparationRow Sealed
      → PayloadRow Sealed
      → Tables Sealed
      → Option (PayloadStore Sealed)
      → Tables Sealed × Result PreparationError Promotion
  unfolding given_up
  enqueue_execution now row execution tables none = given_up now row.payout_id rejected tables
  enqueue_execution now row execution tables (some executions) = (
    record tables {
      preparations =
          update_preparations (is_confirmed_payout row.payout_id) (submit now) tables.preparations;
      executions =
          log
            (record (event row.payout_id EventType.queued) {
              evidence_hash = some execution.payload_hash;
            })
            executions;
    },
    ok queued,
  )

  unfoldable pub promote_row :
      ℕ
      → PreparationRow Sealed
      → Tables Sealed
      → Option Preparation
      → Tables Sealed × Result PreparationError Promotion
  unfolding given_up
  promote_row now row tables none = given_up now row.payout_id invalid_preparation tables
  promote_row now row tables (some p) =
      enqueue_execution now row (execution_row now row p) tables
        (insert_execution (execution_row now row p) tables.executions)

  unfoldable pub promote_found :
      ℕ
      → Text
      → Text
      → Tables Sealed
      → Option (PreparationRow Sealed)
      → Tables Sealed × Result PreparationError Promotion
  promote_found now id intent tables none =
      (tables, ok (if any (has_job id) tables.executions.payloads then already_queued else nothing))
  promote_found now id intent tables (some row) =
      promote_row now (confirm_receipt now row)
        (record tables {
          preparations =
              update_preparations (is_promotable id intent) (confirm_receipt now)
                tables.preparations;
        })
        (preparation_of (confirm_receipt now row))

  unfoldable pub promote_payout_v3_preparation_to_execution :
      (now : ℕ) (payout_id intent_hash status : Text)
      → Tables Sealed
      → Tables Sealed × Result PreparationError Promotion
  promote_payout_v3_preparation_to_execution now id intent status tables =
      if not (is_identifier id)
      then (tables, err bad_identifier)
      else if not (is_lower_bytes32 (to_lower intent))
      then (tables, err bad_intent_hash)
      else if not (text_eq status (codes "escrow_receipt_confirmed"))
      then (tables, err not_confirmed)
      else with_transaction tables (
          promote_found now id (to_lower intent) tables
            (find? (is_promotable id (to_lower intent)) tables.preparations))
