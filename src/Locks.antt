-- ===== src/Locks.antt =====
-- apps/relayer/src/pending-store.ts, the table `relay_pool_v4_executions`: which call may spend the
-- nullifiers of a pool. Each function is one transaction under advisory locks on its nullifiers, so
-- a call is one step. A callback that throws is `none`; a constraint that is violated is an error.
pub mod Fence
pub mod Steps
pub mod Dead
pub mod Retired
pub mod Excluded
mod Tests
use parly_relayer.Prelude.{
  ℕ, ◌+◌, Bool, true, false, ◌&&◌, ◌||◌, not, ltb, leb, ◌==◌, if◌then◌else◌, Option, none, some,
  List, [], ◌∷◌, ◌++◌, map, Result, ok, err, ◌>>=◌, ◌>>◌, guard, Text, text_eq, text_ltb, to_lower,
  is_lower_bytes32, is_address, find?, filter, any, all, length,
}

-- `args` of the three functions.
pub record Call : Type 0 where
  pub call_hash : Text
  pub pool : Text
  pub relayer : Text
  pub nullifiers : List Text

pub record RetirementProof : Type 0 where
  pub source_call_hash : Text
  pub pool : Text
  pub nullifiers : List Text
  pub block_number : Text
  pub block_hash : Text
  pub block_timestamp : Text

-- A row; `released_at` and `retirement_proof` are set together.
pub record Execution : Type 0 where
  pub call_hash : Text
  pub relayer_address : Text
  pub pool_address : Text
  pub nullifiers : List Text
  pub transaction_hash : Option Text
  pub retired : Option (ℕ × RetirementProof)

pub data LockError : Type 0 where
  bad_identity permanently_retired inputs_taken unique_violation : LockError
  binding_changed verify_failed proof_unbound execution_changed : LockError

pub is_released : Execution → Bool
is_released row = elim row.retired [ none ↦ false | some r ↦ true ]

-- `nullifiers && $2::text[]`
pub overlaps : List Text → List Text → Bool
overlaps ns ms = any (λ n. any (text_eq n) ms) ns

pub is_call : Text → Execution → Bool
is_call hash row = text_eq row.call_hash hash

pub valid_identity : Call → Bool
valid_identity c =
    is_lower_bytes32 c.call_hash
    && is_address c.pool
    && is_address c.relayer
    && leb 1 (length c.nullifiers)
    && leb (length c.nullifiers) 4
    && all is_lower_bytes32 c.nullifiers

-- The rows of `prior`.
pub is_prior : Call → Execution → Bool
is_prior c row =
    text_eq row.pool_address (to_lower c.pool)
    && not (is_released row)
    && overlaps row.nullifiers c.nullifiers

pub reserved : Call → Execution
reserved c = record {
  call_hash = c.call_hash;
  relayer_address = to_lower c.relayer;
  pool_address = to_lower c.pool;
  nullifiers = c.nullifiers;
  transaction_hash = none;
  retired = none;
}

-- `{ fresh, transactionHash }`
pub record Retained : Type 0 where
  pub fresh : Bool
  pub transaction_hash : Option Text

pub insert_row : Execution → List Execution → Result LockError (List Execution)
insert_row row rows =
    if any (is_call row.call_hash) rows then err unique_violation else ok (rows ++ row ∷ [])

-- What follows the reading of `prior`.
pub answer :
    Call → Bool → List Execution → List Execution → Result LockError (List Execution × Retained)
answer c reserve [] rows = do
  rows' ← (if reserve then insert_row (reserved c) rows else ok rows)
  ok (rows', record { fresh = true; transaction_hash = none })
answer c reserve (row ∷ []) rows =
    if text_eq row.call_hash c.call_hash && text_eq row.relayer_address (to_lower c.relayer)
    then ok (rows, record { fresh = false; transaction_hash = row.transaction_hash })
    else err inputs_taken
answer c reserve (row ∷ other ∷ more) rows = err inputs_taken

pub retain_pool_v4_relay_execution :
    Call → Bool → List Execution → Result LockError (List Execution × Retained)
unfolding valid_identity
retain_pool_v4_relay_execution c reserve rows = do
  guard (valid_identity c) bad_identity
  guard (not (any (λ row. is_call c.call_hash row && is_released row) rows)) permanently_retired
  answer c reserve (filter (is_prior c) rows) rows

-- `[...texts].sort().join()`
insert_text : Text → List Text → List Text
insert_text t [] = t ∷ []
insert_text t (u ∷ us) = if text_ltb u t then u ∷ insert_text t us else t ∷ u ∷ us

sort_texts : List Text → List Text
sort_texts [] = []
sort_texts (t ∷ ts) = insert_text t (sort_texts ts)

join : List Text → Text
join [] = []
join (t ∷ []) = t
join (t ∷ u ∷ ts) = t ++ b',' ∷ join (u ∷ ts)

pub same_texts : List Text → List Text → Bool
unfolding sort_texts insert_text join
same_texts ts us = text_eq (join (sort_texts ts)) (join (sort_texts us))

-- `new Set(texts).size === texts.length`
pub distinct : List Text → Bool
distinct [] = true
distinct (t ∷ ts) = not (any (text_eq t) ts) && distinct ts

is_digit : ℕ → Bool
is_digit c = leb b'0' c && leb c b'9'

-- `/^[1-9][0-9]*$/`
is_positive_decimal : Text → Bool
unfolding is_digit
is_positive_decimal [] = false
is_positive_decimal (c ∷ t) = leb b'1' c && leb c b'9' && all is_digit t

is_bound : Call → RetirementProof → Bool
unfolding is_positive_decimal
is_bound c proof =
    text_eq proof.source_call_hash c.call_hash
    && text_eq (to_lower proof.pool) (to_lower c.pool)
    && same_texts proof.nullifiers c.nullifiers
    && is_lower_bytes32 proof.block_hash
    && is_positive_decimal proof.block_number
    && is_positive_decimal proof.block_timestamp

pub is_same_binding : Call → Execution → Bool
is_same_binding c row =
    text_eq row.pool_address (to_lower c.pool)
    && text_eq row.relayer_address (to_lower c.relayer)
    && same_texts row.nullifiers c.nullifiers

pub release : ℕ → RetirementProof → Execution → Execution
release now proof row = record row { retired = some (now, proof) }

pub update_where : (Execution → Bool) → (Execution → Execution) → List Execution → List Execution
update_where p f rows = map (λ row. if p row then f row else row) rows

pub verified : Call → Option RetirementProof → Result LockError RetirementProof
unfolding is_bound
verified c none = err verify_failed
verified c (some proof) = if is_bound c proof then ok proof else err proof_unbound

-- What follows the comparison with the row; the option is its retirement.
pub retire_bound :
    ℕ
    → Call
    → Option RetirementProof
    → List Execution
    → Option (ℕ × RetirementProof)
    → Result LockError (List Execution × RetirementProof)
retire_bound now c verify rows (some (at, proof)) = ok (rows, proof)
retire_bound now c verify rows none = do
  proof ← verified c verify
  ok (update_where (is_call c.call_hash) (release now proof) rows, proof)

pub retire_row :
    ℕ
    → Call
    → Option RetirementProof
    → List Execution
    → Option Execution
    → Result LockError (List Execution × RetirementProof)
retire_row now c verify rows none = do
  proof ← verified c verify
  rows' ← insert_row (release now proof (reserved c)) rows
  ok (rows', proof)
retire_row now c verify rows (some row) = do
  guard (is_same_binding c row) binding_changed
  retire_bound now c verify rows row.retired

pub retire_payout_v7_source_lock :
    ℕ
    → Call
    → Option RetirementProof
    → List Execution
    → Result LockError (List Execution × RetirementProof)
unfolding valid_identity distinct
retire_payout_v7_source_lock now c verify rows = do
  guard (valid_identity c && distinct c.nullifiers) bad_identity
  retire_row now c verify rows (find? (is_call c.call_hash) rows)

-- `transaction_hash IS NULL OR transaction_hash=$3`
pub takes_hash : Text → Option Text → Bool
takes_hash hash none = true
takes_hash hash (some old) = text_eq old hash

pub is_submitted : Text → Text → Text → Execution → Bool
unfolding takes_hash
is_submitted call relayer hash row =
    is_call call row
    && text_eq row.relayer_address (to_lower relayer)
    && takes_hash hash row.transaction_hash

-- The first statement of `recordPoolV4RelaySubmission`; its arguments are call, relayer and hash.
pub record_submission : Text → Text → Text → List Execution → Result LockError (List Execution)
record_submission call relayer hash rows = do
  guard (length (filter (is_submitted call relayer hash) rows) == 1) execution_changed
  ok (
      update_where (is_submitted call relayer hash)
        (λ row. record row { transaction_hash = some hash }) rows)
