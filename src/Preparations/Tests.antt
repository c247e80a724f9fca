-- ===== src/Preparations/Tests.antt =====
-- A prepared payout that can be read and one that cannot.
use parly_relayer.Prelude.{
  ℕ, zero, suc, ◌≡◌, refl, true, Option, none, some, [], ◌∷◌, ok, err, find?, Text, codes, text_eq,
  text_ltb, to_lower, is_lower_bytes32, is_address, is_prefixed, is_hex_digit, is_lower_hex_digit,
  sort_by,
}
use parly_relayer.Payloads.{Host, is_identifier, has_job, log}
use parly_relayer.Payloads.Full.{no_payloads}
use parly_relayer.Payloads.Enqueue.{queued_row}
use parly_relayer.Payouts.{PayoutSubmitJob}
use parly_relayer.Preparations.{
  PreparationStatus, PreparationRow, Preparation, invalid_preparation, queued, already_queued,
  Tables, Reader, is_open, has_payout, is_listed, list_payout_v3_preparation_candidates,
  update_preparations, is_promotable, confirm_receipt, is_receipt_confirmed, is_confirmed_payout,
  submit,
}
use parly_relayer.Preparations.Promote.{
  with_transaction, is_valid, normalized, validated, decrypt_payout_v3_preparation_payload,
  preparation_of, execution_of, execution_row, insert_execution, enqueue_execution, promote_row,
  promote_found, promote_payout_v3_preparation_to_execution,
}
use parly_relayer.Preparations.Promoted.{
  promote_payout_v3_preparation_to_execution-again, unreadable_stays,
}

preparations : Unit {0}
unfolding is_identifier has_job log queued_row is_open has_payout is_listed
    list_payout_v3_preparation_candidates update_preparations is_promotable confirm_receipt
    is_receipt_confirmed is_confirmed_payout submit with_transaction is_valid normalized validated
    decrypt_payout_v3_preparation_payload preparation_of execution_of execution_row insert_execution
    enqueue_execution promote_row promote_found promote_payout_v3_preparation_to_execution text_eq
    text_ltb to_lower is_lower_bytes32 is_address is_prefixed is_hex_digit is_lower_hex_digit
    sort_by
preparations = tt

abbrev repeat : ℕ → ℕ → Text
repeat zero digit = []
repeat (suc n) digit = digit ∷ repeat n digit

abbrev hash : ℕ → Text
hash digit = b'0' ∷ b'x' ∷ repeat 64 digit

abbrev host : Host Text PayoutSubmitJob
host = record {
  sha256 = λ t. t;
  encode = λ p. p.payout_id;
  decode = λ t. none;
  seal = λ t. t;
  decipher = λ t. some t;
  attempt_id = λ p. [];
  observation_attempt_id = λ p. [];
  settlement_attempt_id = λ p. [];
  admits_payload = λ row rows. true;
  admits_checkpoint = λ row rows. true;
}

abbrev deciphered : Text → Option Text
deciphered [] = none
deciphered (c ∷ t) = some (c ∷ t)

abbrev prepared : Preparation
prepared = record {
  payout_id = codes "p1";
  intent_hash = hash b'A';
  payout_authority = b'0' ∷ b'x' ∷ repeat 40 b'1';
  destination_recipient = b'0' ∷ b'x' ∷ repeat 40 b'2';
  provider_data = codes "0x12";
  provider_data_hash = hash b'd';
}

abbrev reader : Reader Text
reader = record {
  decipher = deciphered;
  parse = λ t. some prepared;
  keccak256 = λ t. hash b'd';
  get_address = λ t. t;
}

-- A sealed payload that is empty does not decipher.
abbrev row : Text → Text → PreparationRow Text
row id sealed = record {
  payout_id = id;
  intent_hash = hash b'a';
  sealed = sealed;
  payload_hash = sealed;
  status = PreparationStatus.withdrawal_confirmed;
  attempt_number = 0;
  max_attempts = 3;
  failure_code = none;
  created_at = 5;
  updated_at = 5;
}

abbrev tables : Tables Text
tables = record {
  preparations = row (codes "p1") (codes "s") ∷ row (codes "p2") [] ∷ [];
  executions = no_payloads;
}

abbrev confirmed : Text
confirmed = codes "escrow_receipt_confirmed"

abbrev promoted : Tables Text
promoted =
    (promote_payout_v3_preparation_to_execution host reader 9 (codes "p1") (hash b'a') confirmed
      tables).0

promotes :
    promote_payout_v3_preparation_to_execution host reader 9
      (codes "p1")
      (hash b'a')
      confirmed
      tables
    ≡ (promoted, ok queued)
unfolding preparations
promotes = refl

p1-is_identifier : is_identifier (codes "p1") ≡ true
unfolding preparations
p1-is_identifier = refl

p2-is_identifier : is_identifier (codes "p2") ≡ true
unfolding preparations
p2-is_identifier = refl

intent-is_lower_bytes32 : is_lower_bytes32 (to_lower (hash b'a')) ≡ true
unfolding preparations
intent-is_lower_bytes32 = refl

promote_payout_v3_preparation_to_execution-again_example :
    promote_payout_v3_preparation_to_execution host reader 20
      (codes "p1")
      (hash b'a')
      confirmed
      promoted
    ≡ (promoted, ok already_queued)
promote_payout_v3_preparation_to_execution-again_example =
    promote_payout_v3_preparation_to_execution-again host reader 9 20 (codes "p1") (hash b'a')
      confirmed tables promoted p1-is_identifier intent-is_lower_bytes32 refl promotes

p2_found :
    find? (is_promotable (codes "p2") (to_lower (hash b'a'))) tables.preparations
    ≡ some (row (codes "p2") [])
unfolding preparations
p2_found = refl

p2_unread : preparation_of host reader (confirm_receipt 9 (row (codes "p2") [])) ≡ none
unfolding preparations
p2_unread = refl

unreadable_stays_example :
    (promote_payout_v3_preparation_to_execution host reader 9
        (codes "p2")
        (hash b'a')
        confirmed
        tables
      ≡ (tables, err invalid_preparation))
    × (list_payout_v3_preparation_candidates 10
          (promote_payout_v3_preparation_to_execution host reader 9
            (codes "p2")
            (hash b'a')
            confirmed
            tables).0
        ≡ list_payout_v3_preparation_candidates 10 tables)
unreadable_stays_example =
    unreadable_stays host reader 9 10 (codes "p2") (hash b'a') confirmed tables
      (row (codes "p2") []) p2-is_identifier intent-is_lower_bytes32 refl p2_found p2_unread
