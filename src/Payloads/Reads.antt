-- ===== src/Payloads/Reads.antt =====
-- What a worker is given when it leases a job: the payload as it was sealed, and the checkpoints as they
-- were recorded.
use parly_relayer.Prelude.{
  ℕ, ◌+◌, ◌&&◌, leb, is_nonempty, trim, guard, ◌>>=◌, ◌>>◌, ◌≡◌, refl, sym, ap, subst, ◌∙◌, Bool,
  true, false, if◌then◌else◌, Bool-cases, Option, none, some, List, map, ok, inl, inr, Text,
  text_eq, to_lower, filter, sort_by, arith,
}
use parly_relayer.Payloads.{
  PayloadRow, CheckpointRow, PayloadStore, Host, bad_identifier, bad_lease, bad_lease_token,
  is_identifier, open_row, lease_token_hash_of,
}
use parly_relayer.Payloads.Acquire.{
  ExecutionJob, Acquired, idle, invalid, acquired, ConfirmedTransaction, of_job, earlier_step,
  ordered_prefix, updated_before, retire_exhausted, candidate, lease, load_job, loaded,
  lease_candidate, acquire_with, answer_of, acquire_relayer_owned_one_time_execution_job,
}
use parly_relayer.Payloads.Jobs.{IsDistinct, IsKeyed}
use parly_relayer.Payloads.Calls.{Call, after}
use parly_relayer.Payloads.Steps.{AreSteps, confirmed_of, after-ordered_prefix}

module _ {Sealed Payload : Type 0} (host : Host Sealed Payload) where
  -- The payload of the row can be opened, and it is of the row's attempt.
  abbrev pub is_payload_of : PayloadRow Sealed → Option Payload → Bool
  is_payload_of row none = false
  is_payload_of row (some payload) =
      text_eq (to_lower (host.attempt_id payload)) (to_lower row.attempt_id)

  abbrev pub is_readable : PayloadRow Sealed → Bool
  is_readable row = is_payload_of row (open_row host row)

  -- What the job must carry, given the row that was leased and the checkpoints of the store.
  pub record IsJobOf (row : PayloadRow Sealed) (checkpoints : List CheckpointRow) (token : Text)
      (job : ExecutionJob Payload) : Type 0 where
    pub job_is : job.job_id ≡ row.job_id
    pub token_is : job.lease_token ≡ token
    pub payload_is : open_row host row ≡ some job.payload
    pub readable : is_readable row ≡ true
    pub confirmed :
        job.confirmed_transactions ≡ map confirmed_of (filter (of_job row.job_id) checkpoints)

  -- The answer for the row that is chosen, if there is one.
  abbrev pub IsAnswer :
      Option (PayloadRow Sealed) → List CheckpointRow → Text → Acquired Payload → Type 0
  IsAnswer none checkpoints token idle = Unit
  IsAnswer none checkpoints token invalid = ⊥
  IsAnswer none checkpoints token (acquired job) = ⊥
  IsAnswer (some row) checkpoints token idle = ⊥
  IsAnswer (some row) checkpoints token invalid = is_readable row ≡ false
  IsAnswer (some row) checkpoints token (acquired job) = IsJobOf row checkpoints token job

  -- The job that is built from the confirmed transactions and the opened payload.
  abbrev job_of :
      PayloadRow Sealed
      → Text
      → Option (List ConfirmedTransaction)
      → Option Payload
      → Option (ExecutionJob Payload)
  job_of row token transactions opened = elim transactions [
    | none ↦ none
    | some confirmed ↦ elim opened [
      | none ↦ none
      | some payload ↦
          if text_eq (to_lower (host.attempt_id payload)) (to_lower row.attempt_id)
          then some (record {
            job_id = row.job_id;
            lease_token = token;
            payload = payload;
            confirmed_transactions = confirmed;
          })
          else none
    ]
  ]

  load_job-job_of :
      (checkpoints : List CheckpointRow) (token : Text) (row : PayloadRow Sealed)
      (now until duration : ℕ) (worker hash : Text)
      → load_job host checkpoints token (lease now until duration worker hash row)
        ≡ job_of row token
            (ordered_prefix 0 (sort_by earlier_step (filter (of_job row.job_id) checkpoints)))
            (open_row host row)
  unfolding load_job lease open_row
  load_job-job_of checkpoints token row now until duration worker hash = refl

  job_of-IsAnswer :
      (checkpoints : List CheckpointRow) (token : Text) (row : PayloadRow Sealed)
      (opened : Option Payload)
      → open_row host row ≡ opened
      → IsAnswer (some row) checkpoints token (
          answer_of acquired (
            some (
              job_of row token
                (some (map confirmed_of (filter (of_job row.job_id) checkpoints)))
                opened)))
  unfolding answer_of
  job_of-IsAnswer checkpoints token row none o = ap (is_payload_of row) o
  job_of-IsAnswer checkpoints token row (some payload) o =
      elim (Bool-cases (text_eq (to_lower (host.attempt_id payload)) (to_lower row.attempt_id))) [
        | inl same ↦ rw same (record {
          job_is = refl;
          token_is = refl;
          payload_is = o;
          readable = ap (is_payload_of row) o ∙ same;
          confirmed = refl;
        })
        | inr other ↦ rw other (ap (is_payload_of row) o ∙ other)
      ]

  loaded-some :
      (now : ℕ) (job hash : Text) (store : PayloadStore Sealed)
      (found : Option (ExecutionJob Payload))
      → (loaded host now job hash store found).1 ≡ some found
  unfolding loaded
  loaded-some now job hash store none = refl
  loaded-some now job hash store (some x) = refl

  lease_candidate-IsAnswer :
      (now until duration : ℕ) (worker token hash : Text) (found : Option (PayloadRow Sealed))
      (store : PayloadStore Sealed)
      → ((job : Text)
          → ordered_prefix 0 (sort_by earlier_step (filter (of_job job) store.checkpoints))
            ≡ some (map confirmed_of (filter (of_job job) store.checkpoints)))
      → IsAnswer found store.checkpoints token (
          answer_of acquired
            (lease_candidate host
              (load_job host)
              now
              until
              duration
              worker
              token
              hash
              found
              store).1)
  unfolding lease_candidate answer_of
  lease_candidate-IsAnswer now until duration worker token hash none store ordered = tt
  lease_candidate-IsAnswer now until duration worker token hash (some row) store ordered =
      let read =
        load_job-job_of store.checkpoints token row now until duration worker hash
        ∙ ap (λ t. job_of row token t (open_row host row)) (ordered row.job_id) in
      subst (λ answer. IsAnswer (some row) store.checkpoints token (answer_of acquired answer))
        (sym (loaded-some now row.job_id hash _ _ ∙ ap some read))
        (job_of-IsAnswer store.checkpoints token row (open_row host row) refl)

  -- The guards of an acquisition, and the answer that is passed on.
  answer_of-guards :
      (token : Text) (a b c : Bool)
      (next : Text → PayloadStore Sealed × Option (Option (ExecutionJob Payload)))
      (answered : PayloadStore Sealed × Acquired Payload)
      → ((guard a bad_identifier
            >> (guard b bad_lease
                >> ((guard c bad_lease_token >> ok (host.sha256 token))
                    >>= (λ hash. ok (next hash)))))
          >>= (λ pair. ok (pair.0, answer_of acquired pair.1)))
        ≡ ok answered
      → answer_of acquired (next (host.sha256 token)).1 ≡ answered.1
  answer_of-guards token true true true next answered e = ground (arith, e)
  answer_of-guards token true true false next answered e = cc
  answer_of-guards token true false c next answered e = cc
  answer_of-guards token false b c next answered e = cc

  acquire-IsAnswer :
      (now clock : ℕ) (locked : Text → Bool) (worker : Text) (lease_ms : ℕ) (token : Text)
      (store : PayloadStore Sealed) (answered : PayloadStore Sealed × Acquired Payload)
      → ((job : Text)
          → ordered_prefix 0 (sort_by earlier_step (filter (of_job job) store.checkpoints))
            ≡ some (map confirmed_of (filter (of_job job) store.checkpoints)))
      → acquire_relayer_owned_one_time_execution_job host now clock locked worker lease_ms token
          store
        ≡ ok answered
      → IsAnswer
          (candidate updated_before now locked (retire_exhausted now locked store).payloads)
          store.checkpoints
          token
          answered.1
  unfolding acquire_relayer_owned_one_time_execution_job acquire_with lease_token_hash_of
      retire_exhausted
  acquire-IsAnswer now clock locked worker lease_ms token store answered ordered e =
      let cleared : PayloadStore Sealed = retire_exhausted now locked store in
      let found = candidate updated_before now locked cleared.payloads in
      subst (IsAnswer found store.checkpoints token)
        (answer_of-guards token (is_identifier worker) (leb 1000 lease_ms && leb lease_ms 900000)
          (is_nonempty (trim token))
          (λ hash.
            lease_candidate host (load_job host) now (clock + lease_ms) lease_ms worker token hash
              found cleared)
          answered e)
        (lease_candidate-IsAnswer now (clock + lease_ms) lease_ms worker token (host.sha256 token)
          found cleared ordered)

-- The store is one that any calls leave, from a table that has one row of a job at most, admits no second
-- one, and where the checkpoints of each job are its first steps in order. An acquisition that does not
-- throw before its commit answers that nothing is due if there is no candidate, that the job is invalid
-- if the candidate's payload cannot be opened or is of another attempt, and else with a job: it has the
-- id and the payload of that row, the token, and the transactions of all checkpoints of the job, in the
-- order in which they were recorded. So the checkpoints are never the reason why a job is invalid.
pub acquire_relayer_owned_one_time_execution_job-after :
    {Sealed Payload : Type 0} (host : Host Sealed Payload) (calls : List (Call Payload))
    (store : PayloadStore Sealed) (now clock : ℕ) (locked : Text → Bool) (worker : Text)
    (lease_ms : ℕ) (token : Text) (answered : PayloadStore Sealed × Acquired Payload)
    → IsKeyed host.admits_payload
    → IsDistinct store.payloads
    → ((job : Text) → AreSteps 0 (filter (of_job job) store.checkpoints))
    → acquire_relayer_owned_one_time_execution_job host now clock locked worker lease_ms token
        (after host calls store)
      ≡ ok answered
    → IsAnswer host
        (candidate updated_before now locked
          (retire_exhausted now locked (after host calls store)).payloads)
        (after host calls store).checkpoints
        token
        answered.1
acquire_relayer_owned_one_time_execution_job-after host calls store now clock locked worker lease_ms
      token answered key distinct steps e =
    acquire-IsAnswer host now clock locked worker lease_ms token (after host calls store) answered
      (λ job. after-ordered_prefix host calls store job key distinct (steps job)) e
