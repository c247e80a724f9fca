-- ===== src/Broadcast.antt =====
-- apps/relayer/src/phase3/payout-v7-worker.ts (`runPayoutV7Transaction`) over the table of signed
-- calls of payout-v7-worker-store.ts: a payout transaction is retained before it is broadcast.
-- Any number of runs, of one process or of several, advance in any order; a run stops at each
-- `await`, and an interleaving is a list of events. A run may crash wherever it waits. The hash
-- function, and the replies of `prepare`, `broadcast` and `outcome`, come from outside.
pub mod Execution
pub mod Keeps
pub mod Guarded
pub mod Once
pub mod Retained
pub mod Steps
pub mod Answers
mod Tests
use parly_relayer.Prelude.{
  ℕ, zero, suc, Bool, true, false, ◌&&◌, not, if◌then◌else◌, Option, none, some, List, [], ◌∷◌,
  ◌++◌, Text, text_eq, to_lower, find?,
}

pub record SignedCall : Type 0 where
  pub id : Text
  pub to : Text
  pub calldata : Text
  pub serialized_transaction : Text
  pub transaction_hash : Text

pub data WorkerError : Type 0 where
  corrupt hash_mismatch submitted_hash_mismatch call_changed not_successful crashed : WorkerError

pub data Outcome : Type 0 where
  pending success failed : Outcome

-- The table `relay_v7_signed_calls`, and the transactions that were handed to `broadcast`.
pub record World : Type 0 where
  pub calls : List SignedCall
  pub sent : List SignedCall

-- Where a run waits.
pub data Stage : Type 0 where
  reading missing : Stage
  prepared : SignedCall → Stage
  claimed : SignedCall → Stage
  lost : Stage
  retained : SignedCall → Stage
  done : Text → Stage
  stopped : WorkerError → Stage

-- A call of `runPayoutV7Transaction`.
pub record Run : Type 0 where
  pub id : Text
  pub to : Text
  pub calldata : Text
  pub stage : Stage

-- What the run is told when it goes on. `crash` ends it where it waits, by an exception or with its
-- process; `dropped` does so after the transaction has left.
pub data Reply : Type 0 where
  proceed crash dropped : Reply
  signed : Text → Text → Reply
  submitted : Text → Reply
  observed : Outcome → Reply

-- `launch` starts a run for an id, a target and its data; `resume` lets a run go on.
pub data Event : Type 0 where
  launch : Text → Text → Text → Event
  resume : ℕ → Reply → Event

pub record System : Type 0 where
  pub world : World
  pub runs : List Run

abbrev pub empty : System
empty = record { world = record { calls = []; sent = [] }; runs = [] }

pub find_call : Text → List SignedCall → Option SignedCall
find_call id = find? (λ row. text_eq row.id id)

module _ (keccak256 : Text → Text) where
  -- `read`, with the check of `open`; `missed` is the stage after a miss.
  read_call : Stage → Option SignedCall → Stage
  read_call missed none = missed
  read_call missed (some row) =
      if text_eq (keccak256 row.serialized_transaction) row.transaction_hash
      then retained row
      else stopped corrupt

  -- `retain`: the insertion is refused where the id is taken.
  retain_call : SignedCall → World → World × Stage
  retain_call row w =
      if not (text_eq (keccak256 row.serialized_transaction) row.transaction_hash)
      then (w, stopped hash_mismatch)
      else elim (find_call row.id w.calls) [
        | some taken ↦ (w, lost)
        | none ↦ (
          record w { calls = w.calls ++ (record row { to = to_lower row.to }) ∷ [] },
          claimed row,
        )
      ]

  -- The comparison of the retained call with the one asked for, and the reading of the outcome.
  settle : Run → SignedCall → Outcome → Stage
  settle run row success =
      if text_eq (to_lower row.to) (to_lower run.to) && text_eq row.calldata run.calldata
      then done row.transaction_hash
      else stopped call_changed
  settle run row _ =
      if text_eq (to_lower row.to) (to_lower run.to) && text_eq row.calldata run.calldata
      then stopped not_successful
      else stopped call_changed

  unfoldable pub advance : Stage → Reply → Run → World → World × Stage
  unfolding read_call retain_call settle find_call
  advance reading proceed run w = (w, read_call missing (find_call run.id w.calls))
  advance missing (signed transaction hash) run w = (
    w,
    prepared (record {
      id = run.id;
      to = run.to;
      calldata = run.calldata;
      serialized_transaction = transaction;
      transaction_hash = hash;
    }),
  )
  advance (prepared row) proceed run w = retain_call row w
  advance (claimed row) (submitted hash) run w = (
    record w { sent = w.sent ++ row ∷ [] },
    if text_eq hash row.transaction_hash then retained row else stopped submitted_hash_mismatch,
  )
  advance lost proceed run w = (w, read_call (stopped call_changed) (find_call run.id w.calls))
  advance (retained row) (observed outcome) run w = (w, settle run row outcome)
  advance (done hash) crash run w = (w, done hash)
  advance (stopped e) crash run w = (w, stopped e)
  advance (claimed row) dropped run w = (record w { sent = w.sent ++ row ∷ [] }, stopped crashed)
  advance stage crash run w = (w, stopped crashed)
  advance stage _ run w = (w, stage)

  pub resume_at : ℕ → Reply → World → List Run → World × List Run
  resume_at i reply w [] = (w, [])
  resume_at zero reply w (run ∷ runs) =
      let (w', stage) = advance run.stage reply run w in (w', record run { stage = stage } ∷ runs)
  resume_at (suc i) reply w (run ∷ runs) =
      let (w', runs') = resume_at i reply w runs in (w', run ∷ runs')

  pub step : Event → System → System
  step (launch id to calldata) s = record s {
    runs = record { id = id; to = to; calldata = calldata; stage = reading } ∷ s.runs;
  }
  step (resume i reply) s =
      let (w, runs) = resume_at i reply s.world s.runs in record { world = w; runs = runs }

  pub run_events : List Event → System → System
  run_events [] s = s
  run_events (e ∷ es) s = run_events es (step e s)
