-- ===== src/Journal.antt =====
-- apps/relayer/src/pending-store.ts: the local journal of payout transactions, for the adapters V4,
-- V5 and V6. A checkpoint is written once for an intent and a step; a submission is evidence that
-- is only appended. The tables of the three versions differ in the steps that their CHECK allows.
-- A table is the list of its rows in the order of insertion; `now` is CURRENT_TIMESTAMP. A statement
-- that violates a constraint throws, as `check_violation` or `unique_violation`.
pub mod Table
pub mod Checkpoints
pub mod Recorded
pub mod Repeats
mod Tests
use parly_relayer.Prelude.{
  ℕ, Bool, true, false, ◌&&◌, ◌||◌, not, ltb, leb, ◌==◌, if◌then◌else◌, Option, none, some, List,
  [], ◌∷◌, ◌++◌, map, Result, ok, err, ◌>>=◌, ◌>>◌, guard, Text, text_eq, text_ltb, to_lower,
  is_bytes32, is_address, find?, filter, any, take,
}

pub data Version : Type 0 where
  v4 v5 v6 : Version

-- The steps of `PAYOUT_V4_EXECUTION_STEPS`, `PAYOUT_V5_EXECUTION_STEPS` and `PAYOUT_V6_EXECUTION_STEPS`.
pub data Step : Type 0 where
  accept_quote pool_withdraw confirm_escrow_receipt submit_payout complete_payout : Step
  prove_completion prove_relay_refund claim_refund : Step

pub step_index : Step → ℕ
step_index accept_quote = 0
step_index pool_withdraw = 1
step_index confirm_escrow_receipt = 2
step_index submit_payout = 3
step_index complete_payout = 4
step_index prove_completion = 5
step_index prove_relay_refund = 6
step_index claim_refund = 7

pub step_eq : Step → Step → Bool
unfolding step_index
step_eq s t = step_index s == step_index t

-- The CHECK of the tables of a version.
pub allows_step : Version → Step → Bool
allows_step v4 complete_payout = true
allows_step v4 prove_completion = false
allows_step v4 prove_relay_refund = false
allows_step v4 claim_refund = false
allows_step _ complete_payout = false
allows_step _ _ = true

pub data JournalError : Type 0 where
  bad_intent_hash bad_transaction_hash bad_relayer_address lookup_invalid : JournalError
  different_transaction check_violation unique_violation : JournalError

-- `PayoutV4LocalCheckpoint`, `PayoutV5LocalCheckpoint` and `PayoutV6LocalCheckpoint`.
pub record Checkpoint : Type 0 where
  pub intent_hash : Text
  pub step : Step
  pub transaction_hash : Text
  pub relayer_address : Text

pub record Row : Type 0 where
  pub entry : Checkpoint
  pub open entry use *
  pub created_at : ℕ

-- The tables of one version.
pub record Journal : Type 0 where
  pub checkpoints : List Row
  pub submissions : List Row

pub assert_checkpoint : Checkpoint → Result JournalError (Unit {0})
assert_checkpoint c = do
  guard (is_bytes32 c.intent_hash) bad_intent_hash
  guard (is_bytes32 c.transaction_hash) bad_transaction_hash
  guard (is_address c.relayer_address) bad_relayer_address

-- The parameters of the INSERT.
pub lowered : Checkpoint → Checkpoint
lowered c = record {
  intent_hash = to_lower c.intent_hash;
  step = c.step;
  transaction_hash = to_lower c.transaction_hash;
  relayer_address = to_lower c.relayer_address;
}

-- `intent_hash = $1 AND step = $2`
pub has_key : Text → Step → Row → Bool
has_key intent step row = text_eq row.intent_hash intent && step_eq row.step step

-- The comparison of a checkpoint with the row that is there.
agree : Row → Checkpoint → Bool
agree row c =
    text_eq (to_lower row.transaction_hash) (to_lower c.transaction_hash)
    && text_eq (to_lower row.relayer_address) (to_lower c.relayer_address)

-- INSERT … ON CONFLICT (intent_hash, step) DO NOTHING, and the reading of the row that is there.
-- The transaction hash is UNIQUE too, and a conflict on it alone is an error.
insert_checkpoint : ℕ → Checkpoint → Journal → Option Row → Result JournalError (Journal × Bool)
unfolding agree
insert_checkpoint now c j (some row) =
    if agree row c then ok (j, false) else err different_transaction
insert_checkpoint now c j none =
    if any (λ row. text_eq row.transaction_hash (to_lower c.transaction_hash)) j.checkpoints
    then err unique_violation
    else ok (
      record j {
        checkpoints = j.checkpoints ++ (record { entry = lowered c; created_at = now }) ∷ [];
      },
      true,
    )

-- The value is the field `recorded` of the result.
pub record_local_checkpoint :
    Version → ℕ → Checkpoint → Journal → Result JournalError (Journal × Bool)
unfolding insert_checkpoint
record_local_checkpoint version now c j = do
  assert_checkpoint c
  guard (allows_step version c.step) check_violation
  insert_checkpoint now c j (find? (has_key (to_lower c.intent_hash) c.step) j.checkpoints)

pub record_local_submission : Version → ℕ → Checkpoint → Journal → Result JournalError Journal
record_local_submission version now c j = do
  assert_checkpoint c
  guard (allows_step version c.step) check_violation
  ok (
      if any
        (λ row.
          has_key (to_lower c.intent_hash) c.step row
          && text_eq row.transaction_hash (to_lower c.transaction_hash))
        j.submissions
      then j
      else record j {
        submissions = j.submissions ++ (record { entry = lowered c; created_at = now }) ∷ [];
      })

-- `intent_hash = $1 AND step = $2 AND relayer_address = $3`
pub matches : Text → Step → Text → Row → Bool
matches intent step relayer row =
    has_key (to_lower intent) step row && text_eq row.relayer_address (to_lower relayer)

-- The check before a lookup; V4 names the two faults apart.
pub assert_lookup : Version → Text → Text → Result JournalError (Unit {0})
assert_lookup v4 intent relayer = do
  guard (is_bytes32 intent) bad_intent_hash
  guard (is_address relayer) bad_relayer_address
assert_lookup _ intent relayer = guard (is_bytes32 intent && is_address relayer) lookup_invalid

pub get_local_checkpoint :
    Version → Text → Step → Text → Journal → Result JournalError (Option Text)
get_local_checkpoint version intent step relayer j = do
  assert_lookup version intent relayer
  ok (elim (find? (matches intent step relayer) j.checkpoints) [
    | none ↦ none
    | some row ↦ some (to_lower row.transaction_hash)
  ])

-- ORDER BY created_at DESC, transaction_hash DESC
pub newer : Row → Row → Bool
newer a b =
    ltb b.created_at a.created_at
    || (a.created_at == b.created_at && text_ltb b.transaction_hash a.transaction_hash)

pub insert_newest : Row → List Row → List Row
insert_newest row [] = row ∷ []
insert_newest row (other ∷ rows) =
    if newer other row then other ∷ insert_newest row rows else row ∷ other ∷ rows

pub newest_first : List Row → List Row
newest_first [] = []
newest_first (row ∷ rows) = insert_newest row (newest_first rows)

pub list_local_submissions :
    Version → Text → Step → Text → Journal → Result JournalError (List Text)
list_local_submissions version intent step relayer j = do
  assert_lookup version intent relayer
  ok (
      map (λ row. to_lower row.transaction_hash)
        (newest_first (filter (matches intent step relayer) j.submissions)))

-- `listPayoutV6DownstreamCheckpoints`
pub is_terminal : Step → Bool
is_terminal prove_completion = true
is_terminal prove_relay_refund = true
is_terminal _ = false

pub ends : Row → Row → Bool
ends submitted row =
    text_eq row.intent_hash submitted.intent_hash
    && text_eq row.relayer_address submitted.relayer_address
    && is_terminal row.step

pub is_open : Text → List Row → Row → Bool
is_open relayer rows row =
    step_eq row.step submit_payout
    && text_eq row.relayer_address (to_lower relayer)
    && not (any (ends row) rows)

pub insert_oldest : Row → List Row → List Row
insert_oldest row [] = row ∷ []
insert_oldest row (other ∷ rows) =
    if leb row.created_at other.created_at
    then row ∷ other ∷ rows
    else other ∷ insert_oldest row rows

pub oldest_first : List Row → List Row
oldest_first [] = []
oldest_first (row ∷ rows) = insert_oldest row (oldest_first rows)

pub list_downstream_checkpoints : Text → Journal → Result JournalError (List (Text × Text))
list_downstream_checkpoints relayer j = do
  guard (is_address relayer) lookup_invalid
  ok (
      map (λ row. (to_lower row.intent_hash, to_lower row.transaction_hash))
        (take 50 (oldest_first (filter (is_open relayer j.checkpoints) j.checkpoints))))

-- The functions of the three versions.
pub record_payout_v4_local_checkpoint :
    ℕ → Checkpoint → Journal → Result JournalError (Journal × Bool)
record_payout_v4_local_checkpoint = record_local_checkpoint v4

pub record_payout_v4_local_submission : ℕ → Checkpoint → Journal → Result JournalError Journal
record_payout_v4_local_submission = record_local_submission v4

pub list_payout_v4_local_submissions :
    Text → Step → Text → Journal → Result JournalError (List Text)
list_payout_v4_local_submissions = list_local_submissions v4

pub get_payout_v4_local_checkpoint :
    Text → Step → Text → Journal → Result JournalError (Option Text)
get_payout_v4_local_checkpoint = get_local_checkpoint v4

pub record_payout_v5_local_checkpoint :
    ℕ → Checkpoint → Journal → Result JournalError (Journal × Bool)
record_payout_v5_local_checkpoint = record_local_checkpoint v5

pub record_payout_v5_local_submission : ℕ → Checkpoint → Journal → Result JournalError Journal
record_payout_v5_local_submission = record_local_submission v5

pub list_payout_v5_local_submissions :
    Text → Step → Text → Journal → Result JournalError (List Text)
list_payout_v5_local_submissions = list_local_submissions v5

pub get_payout_v5_local_checkpoint :
    Text → Step → Text → Journal → Result JournalError (Option Text)
get_payout_v5_local_checkpoint = get_local_checkpoint v5

pub record_payout_v6_local_checkpoint :
    ℕ → Checkpoint → Journal → Result JournalError (Journal × Bool)
record_payout_v6_local_checkpoint = record_local_checkpoint v6

pub record_payout_v6_local_submission : ℕ → Checkpoint → Journal → Result JournalError Journal
record_payout_v6_local_submission = record_local_submission v6

pub list_payout_v6_local_submissions :
    Text → Step → Text → Journal → Result JournalError (List Text)
list_payout_v6_local_submissions = list_local_submissions v6

pub get_payout_v6_local_checkpoint :
    Text → Step → Text → Journal → Result JournalError (Option Text)
get_payout_v6_local_checkpoint = get_local_checkpoint v6
