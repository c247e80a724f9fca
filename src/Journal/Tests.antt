-- ===== src/Journal/Tests.antt =====
-- A batch of two intents at the journal, and the journal theorems there.
use parly_relayer.Prelude.{
  text_ltb, ℕ, ◌≡◌, ◌≢◌, refl, true, false, zero, suc, [], ◌∷◌, some, none, ok, err, Text, arith,
  text_eq, text_eq_iff, to_lower, is_bytes32, is_address, find?,
}
use parly_relayer.Journal.{
  v5, step_index, step_eq, allows_step, Step, pool_withdraw, submit_payout, Checkpoint, Row,
  Journal, unique_violation, different_transaction, assert_checkpoint, lowered, has_key, agree,
  insert_checkpoint, record_local_checkpoint, record_local_submission, matches, assert_lookup,
  get_local_checkpoint, newer, insert_newest, newest_first, list_local_submissions, is_terminal,
  ends, is_open, insert_oldest, oldest_first, list_downstream_checkpoints,
}
use parly_relayer.Journal.Table.{IsTable}
use parly_relayer.Journal.Recorded.{
  record_local_checkpoint-IsTable, get_local_checkpoint-record_local_checkpoint,
}
use parly_relayer.Journal.Repeats.{
  at_once, after, record_local_checkpoint-again, record_local_checkpoint-different,
  record_local_checkpoint-shared,
}

journal : Unit {0}
unfolding step_index step_eq allows_step assert_checkpoint lowered has_key agree insert_checkpoint
    record_local_checkpoint record_local_submission matches assert_lookup get_local_checkpoint
    text_ltb newer insert_newest newest_first list_local_submissions is_terminal ends is_open
    insert_oldest oldest_first list_downstream_checkpoints text_eq to_lower is_bytes32 is_address
journal = tt

abbrev repeat : ℕ → ℕ → Text
repeat zero digit = []
repeat (suc n) digit = digit ∷ repeat n digit

abbrev hash : ℕ → Text
hash digit = b'0' ∷ b'x' ∷ repeat 64 digit

abbrev relayer : Text
relayer = b'0' ∷ b'x' ∷ repeat 40 b'E'

abbrev empty : Journal
empty = record { checkpoints = []; submissions = [] }

abbrev checkpoint : ℕ → Step → ℕ → Checkpoint
checkpoint intent step transaction = record {
  intent_hash = hash intent;
  step = step;
  transaction_hash = hash transaction;
  relayer_address = relayer;
}

abbrev first : Checkpoint
first = checkpoint b'A' pool_withdraw b'C'

abbrev second : Checkpoint
second = checkpoint b'B' pool_withdraw b'c'

abbrev stored : Checkpoint → ℕ → Row
stored c now = record {
  entry = record {
    intent_hash = to_lower c.intent_hash;
    step = c.step;
    transaction_hash = to_lower c.transaction_hash;
    relayer_address = to_lower c.relayer_address;
  };
  created_at = now;
}

abbrev one : Journal
one = record empty { checkpoints = stored first 7 ∷ [] }

recorded_first : record_local_checkpoint v5 7 first empty ≡ ok (one, true)
unfolding journal
recorded_first = refl

empty-IsTable : IsTable empty.checkpoints
empty-IsTable = record { keyed = tt; lower = tt }

record_local_checkpoint-IsTable_example : IsTable one.checkpoints
record_local_checkpoint-IsTable_example =
    record_local_checkpoint-IsTable v5 7 first empty one true empty-IsTable recorded_first

get_local_checkpoint-record_local_checkpoint_example :
    get_local_checkpoint v5 (hash b'A') pool_withdraw relayer one ≡ ok (some (to_lower (hash b'C')))
get_local_checkpoint-record_local_checkpoint_example =
    get_local_checkpoint-record_local_checkpoint v5 7 first empty one true empty-IsTable
      recorded_first

abbrev payout : Checkpoint
payout = checkpoint b'A' submit_payout b'd'

abbrev two : Journal
two = record empty { checkpoints = stored first 7 ∷ stored payout 8 ∷ [] }

recorded_payout : record_local_checkpoint v5 8 payout one ≡ ok (two, true)
unfolding journal
recorded_payout = refl

record_local_checkpoint-again_example : record_local_checkpoint v5 9 first two ≡ ok (two, false)
record_local_checkpoint-again_example =
    record_local_checkpoint-again v5 7 9 first empty one two true recorded_first
      (after 8 payout true recorded_payout at_once)

-- The transaction of the payout is not that of the withdrawal.
abbrev rival : Checkpoint
rival = checkpoint b'A' pool_withdraw b'd'

rival_is_valid : assert_checkpoint rival ≡ ok tt
unfolding journal
rival_is_valid = refl

rival_differs : to_lower first.transaction_hash ≢ to_lower rival.transaction_hash
unfolding text_eq to_lower
rival_differs e = ground (arith, (text_eq_iff _ _).1 e)

record_local_checkpoint-different_example :
    record_local_checkpoint v5 9 rival two ≡ err different_transaction
record_local_checkpoint-different_example =
    record_local_checkpoint-different v5 7 9 first rival empty one two true recorded_first
      (after 8 payout true recorded_payout at_once) rival_is_valid refl refl rival_differs

second_is_valid : assert_checkpoint second ≡ ok tt
unfolding journal
second_is_valid = refl

second_is_free : find? (has_key (to_lower second.intent_hash) second.step) one.checkpoints ≡ none
unfolding journal
second_is_free = refl

second_is_shared : to_lower second.transaction_hash ≡ to_lower first.transaction_hash
unfolding to_lower
second_is_shared = refl

second_is_allowed : allows_step v5 second.step ≡ true
unfolding allows_step
second_is_allowed = refl

-- The withdrawal of a batch is shared by its intents.
record_local_checkpoint-shared_example :
    record_local_checkpoint v5 8 second one ≡ err unique_violation
record_local_checkpoint-shared_example =
    record_local_checkpoint-shared v5 7 8 first second empty one one true empty-IsTable
      recorded_first at_once second_is_valid second_is_allowed second_is_free second_is_shared

listed : list_downstream_checkpoints relayer two ≡ ok ((to_lower (hash b'A'), hash b'd') ∷ [])
unfolding journal
listed = refl
