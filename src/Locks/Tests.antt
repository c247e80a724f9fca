-- ===== src/Locks/Tests.antt =====
-- Two relayers and two calls at one pool, and the theorems on locks there.
use parly_relayer.Prelude.{
  ℕ, zero, suc, ◌≡◌, ◌≢◌, refl, true, false, [], ◌∷◌, ◌&&◌, some, none, ok, err, Text, arith, any,
  text_eq, text_eq_iff, text_ltb, to_lower, is_lower_bytes32, is_address,
}
use parly_relayer.Locks.{
  Call, Execution, RetirementProof, Retained, is_released, overlaps, is_call, valid_identity,
  is_prior, reserved, insert_row, answer, retain_pool_v4_relay_execution, insert_text, sort_texts,
  join, same_texts, distinct, is_digit, is_positive_decimal, is_bound, is_same_binding, release,
  update_where, verified, retire_bound, retire_row, retire_payout_v7_source_lock, takes_hash,
  is_submitted, record_submission, inputs_taken, permanently_retired,
}
use parly_relayer.Locks.Fence.{here, onward, retained, retired, IsFenced}
use parly_relayer.Locks.Steps.{Reaches-IsFenced}
use parly_relayer.Locks.Retired.{retired_forever}
use parly_relayer.Locks.Excluded.{retain_excludes, retain-again}

locks : Unit {0}
unfolding is_released overlaps is_call valid_identity is_prior reserved insert_row answer
    retain_pool_v4_relay_execution insert_text sort_texts join same_texts distinct is_digit
    is_positive_decimal is_bound is_same_binding release update_where verified retire_bound
    retire_row retire_payout_v7_source_lock takes_hash is_submitted record_submission text_eq
    text_ltb to_lower is_lower_bytes32 is_address
locks = tt

abbrev repeat : ℕ → ℕ → Text
repeat zero digit = []
repeat (suc n) digit = digit ∷ repeat n digit

abbrev hash : ℕ → Text
hash digit = b'0' ∷ b'x' ∷ repeat 64 digit

abbrev address : ℕ → Text
address digit = b'0' ∷ b'x' ∷ repeat 40 digit

abbrev call_a : Call
call_a = record {
  call_hash = hash b'1';
  pool = address b'A';
  relayer = address b'B';
  nullifiers = hash b'6' ∷ hash b'5' ∷ [];
}

-- Another call that spends one of the same inputs.
abbrev call_b : Call
call_b = record {
  call_hash = hash b'2';
  pool = address b'a';
  relayer = address b'c';
  nullifiers = hash b'5' ∷ [];
}

abbrev row_a : Execution
row_a = record {
  call_hash = hash b'1';
  relayer_address = address b'b';
  pool_address = address b'a';
  nullifiers = hash b'6' ∷ hash b'5' ∷ [];
  transaction_hash = none;
  retired = none;
}

abbrev fresh_answer : Retained
fresh_answer = record { fresh = true; transaction_hash = none }

abbrev proof_a : RetirementProof
proof_a = record {
  source_call_hash = hash b'1';
  pool = address b'A';
  nullifiers = hash b'5' ∷ hash b'6' ∷ [];
  block_number = b'7' ∷ [];
  block_hash = hash b'9';
  block_timestamp = b'8' ∷ [];
}

abbrev retired_a : Execution
retired_a = record row_a { retired = some (3, proof_a) }

reserves_a : retain_pool_v4_relay_execution call_a true [] ≡ ok (row_a ∷ [], fresh_answer)
unfolding locks
reserves_a = refl

retires_a :
    retire_payout_v7_source_lock 3 call_a (some proof_a) (row_a ∷ []) ≡ ok (retired_a ∷ [], proof_a)
unfolding locks
retires_a = refl

abbrev row_b : Execution
row_b = record {
  call_hash = hash b'2';
  relayer_address = address b'c';
  pool_address = address b'a';
  nullifiers = hash b'5' ∷ [];
  transaction_hash = none;
  retired = none;
}

-- After the retirement the other call takes the input.
reserves_b :
    retain_pool_v4_relay_execution call_b true (retired_a ∷ [])
    ≡ ok (retired_a ∷ row_b ∷ [], fresh_answer)
unfolding locks
reserves_b = refl

submits_b :
    record_submission (hash b'2') (address b'C') (hash b'd') (retired_a ∷ row_b ∷ [])
    ≡ ok (retired_a ∷ record row_b { transaction_hash = some (hash b'd') } ∷ [])
unfolding locks
submits_b = refl

Reaches-IsFenced_example : IsFenced (retired_a ∷ row_b ∷ [])
Reaches-IsFenced_example =
    Reaches-IsFenced
      (onward (retained call_a true fresh_answer reserves_a) (
        onward (retired 3 call_a (some proof_a) proof_a retires_a)
          (onward (retained call_b true fresh_answer reserves_b) here)))
      tt

a_is_valid : valid_identity call_a ≡ true
unfolding locks
a_is_valid = refl

b_is_valid : valid_identity call_b ≡ true
unfolding locks
b_is_valid = refl

retired_forever_example :
    retain_pool_v4_relay_execution call_a false (retired_a ∷ row_b ∷ []) ≡ err permanently_retired
retired_forever_example =
    retired_forever 3 call_a call_a (some proof_a) proof_a false (row_a ∷ []) (retired_a ∷ [])
      (retired_a ∷ row_b ∷ []) retires_a
      (onward (retained call_b true fresh_answer reserves_b) here) refl a_is_valid

b_is_other : call_b.call_hash ≢ call_a.call_hash
unfolding text_eq
b_is_other e = ground (arith, (text_eq_iff _ _).1 e)

same_pool : to_lower call_a.pool ≡ to_lower call_b.pool
unfolding locks
same_pool = refl

shared_input : overlaps call_a.nullifiers call_b.nullifiers ≡ true
unfolding locks
shared_input = refl

b_is_live : any (λ row. is_call (hash b'2') row && is_released row) (row_a ∷ []) ≡ false
unfolding locks
b_is_live = refl

retain_excludes_example : retain_pool_v4_relay_execution call_b true (row_a ∷ []) ≡ err inputs_taken
retain_excludes_example =
    retain_excludes call_a call_b true fresh_answer [] (row_a ∷ []) reserves_a refl same_pool
      shared_input b_is_other b_is_valid b_is_live

retain-again_example :
    retain_pool_v4_relay_execution call_a true (row_a ∷ [])
    ≡ ok (row_a ∷ [], record { fresh = false; transaction_hash = none })
retain-again_example = retain-again call_a true fresh_answer [] (row_a ∷ []) reserves_a refl
