-- ===== src/Payloads/Tests.antt =====
-- One settlement job from its queueing to its confirmation, and the theorems on the queue there.
use parly_relayer.Prelude.{
  ℕ, zero, suc, ◌≡◌, ◌≢◌, refl, sym, Bool, true, false, not, Option, some, ok, List, [], ◌∷◌, ◌++◌,
  map, Text, codes, text_eq, text_eq_iff, text_ltb, to_lower, trim, is_lower_bytes32, any, filter,
  All, sort_by, arith,
}
use parly_relayer.Payloads.{
  PayloadStatus, FunctionName, PayloadRow, PayloadStore, Host, function_index, is_identifier,
  is_leased, is_submitted, runs_at, ran_out_at, has_token, event, has_job, holds, update_rows,
  row_count, unlocked, log, lease_token_hash_of, update_held, open_row,
}
use parly_relayer.Payloads.Acquire.{
  ExecutionJob, acquired, of_job, earlier_step, is_function_at, ordered_prefix, is_waiting,
  is_exhausted, is_candidate, until_before, runs_out_before, updated_before, same_job_as,
  exhausted_rows, exhaust, exhausted_event, retire_exhausted, candidate, lease, discard, loaded,
  lease_candidate, acquire_with, answer_of, load_job, acquire_relayer_owned_one_time_execution_job,
}
use parly_relayer.Payloads.Enqueue.{
  queued_row, insert_payload, enqueue_relayer_owned_one_time_execution_payload, is_hash_of,
  is_last_step, awaits_confirmation, confirm_row, confirm_relayer_owned_one_time_execution,
}
use parly_relayer.Payloads.Report.{
  requeue, renewed_until, renew_row, fail_row, failed_status, review_invalid, failed_event,
  is_leased_under, matches_steps, record_step, record_relayer_owned_one_time_execution_dry_run,
  defer_relayer_owned_one_time_execution_job, renew_relayer_owned_one_time_execution_lease,
  record_relayer_owned_one_time_execution_transaction_confirmed,
  record_relayer_owned_one_time_execution_failed,
  record_relayer_owned_one_time_execution_payload_invalid,
  record_relayer_owned_one_time_execution_submitted,
}
use parly_relayer.Payloads.Calls.{Request, Call, store_of, perform, act, after}
use parly_relayer.Payloads.Jobs.{IsDistinct, IsKeyed}
use parly_relayer.Payloads.Acts.{act-Change}
use parly_relayer.Payloads.Changes.{Changes}
use parly_relayer.Payloads.Fence.{AreOthers, after-holds}
use parly_relayer.Payloads.Leases.{is_set, has_lease, has_no_lease, IsSound, after-IsSound}
use parly_relayer.Payloads.Steps.{AreSteps}
use parly_relayer.Payloads.Reads.{IsAnswer, acquire_relayer_owned_one_time_execution_job-after}
use parly_relayer.Payloads.Full.{IsFull, no_payloads, after-IsFull}

queue : Unit {0}
unfolding function_index is_identifier is_leased is_submitted runs_at ran_out_at has_token event
    has_job holds update_rows row_count unlocked log lease_token_hash_of update_held open_row of_job
    earlier_step is_function_at ordered_prefix is_waiting is_exhausted is_candidate until_before
    runs_out_before updated_before same_job_as exhausted_rows exhaust exhausted_event
    retire_exhausted candidate lease discard loaded lease_candidate acquire_with answer_of load_job
    acquire_relayer_owned_one_time_execution_job queued_row insert_payload
    enqueue_relayer_owned_one_time_execution_payload is_hash_of is_last_step awaits_confirmation
    confirm_row confirm_relayer_owned_one_time_execution requeue renewed_until renew_row fail_row
    failed_status review_invalid failed_event is_leased_under matches_steps record_step
    record_relayer_owned_one_time_execution_dry_run defer_relayer_owned_one_time_execution_job
    renew_relayer_owned_one_time_execution_lease
    record_relayer_owned_one_time_execution_transaction_confirmed
    record_relayer_owned_one_time_execution_failed
    record_relayer_owned_one_time_execution_payload_invalid
    record_relayer_owned_one_time_execution_submitted store_of perform act after text_eq text_ltb
    to_lower trim is_lower_bytes32 sort_by IsDistinct AreOthers is_set has_lease has_no_lease
    IsSound
queue = tt

abbrev repeat : ℕ → ℕ → Text
repeat zero digit = []
repeat (suc n) digit = digit ∷ repeat n digit

abbrev hash : ℕ → Text
hash digit = b'0' ∷ b'x' ∷ repeat 64 digit

-- The payload is its attempt id, nothing is encrypted, and the digest of a text is the text.
abbrev host : Host Text Text
host = record {
  sha256 = λ t. t;
  encode = λ t. t;
  decode = λ t. some t;
  seal = λ t. t;
  decipher = λ t. some t;
  attempt_id = λ t. t;
  observation_attempt_id = λ t. t;
  settlement_attempt_id = λ t. t;
  admits_payload = λ row rows. not (any (λ other. text_eq other.job_id row.job_id) rows);
  admits_checkpoint = λ row rows. true;
}

host-IsKeyed : IsKeyed host.admits_payload
unfolding IsKeyed
host-IsKeyed row [] h = tt
host-IsKeyed row (other ∷ rows) h = (
  (λ e. ground (arith, h, (text_eq_iff other.job_id row.job_id).1 (sym e))),
  host-IsKeyed row rows (ground (arith, h)),
)

abbrev call : ℕ → Text → Request Text → Call Text
call now token request = record { now = now; token = token; request = request }

abbrev free : Text → Bool
free job = false

abbrev leasing : List (Call Text)
leasing =
    call 1000 [] (Request.enqueue (codes "job") (hash b'A') (hash b'a') 3)
    ∷ call 2000 (codes "t1") (Request.acquire 2000 free (codes "worker") 60000)
    ∷ []

abbrev steps : List (Call Text)
steps =
    call 3000 (codes "t1")
      (Request.transaction_confirmed (codes "job") FunctionName.register_attempt (hash b'1'))
    ∷ call 4000 (codes "t1")
        (Request.transaction_confirmed (codes "job") FunctionName.record_observation (hash b'2'))
    ∷ call 5000 (codes "t1") (
        Request.transaction_confirmed (codes "job") FunctionName.finalize_virtual_deposit
          (hash b'3'))
    ∷ call 6000 (codes "t1")
        (Request.submitted (codes "job") (hash b'1' ∷ hash b'2' ∷ hash b'3' ∷ []))
    ∷ call 7000 [] (Request.confirm (codes "job") (hash b'3'))
    ∷ []

abbrev leasing_and_steps : List (Call Text)
leasing_and_steps = leasing ++ steps

abbrev leased_store : PayloadStore Text
leased_store = after host leasing no_payloads

status_of : PayloadStore Text → List PayloadStatus
status_of store = map (λ row. row.status) store.payloads

leased_row : status_of leased_store ≡ PayloadStatus.leased ∷ []
unfolding queue status_of
leased_row = refl

confirmed_row : status_of (after host steps leased_store) ≡ PayloadStatus.confirmed ∷ []
unfolding queue status_of
confirmed_row = refl

abbrev queued_store : PayloadStore Text
queued_store =
    act host (call 1000 [] (Request.enqueue (codes "job") (hash b'A') (hash b'a') 3)) no_payloads

queued-IsDistinct : IsDistinct queued_store.payloads
unfolding queue
queued-IsDistinct = (tt, tt)

leased-IsDistinct : IsDistinct leased_store.payloads
unfolding queue
leased-IsDistinct = (tt, tt)

abbrev acquiring : Call Text
acquiring = call 2000 (codes "t1") (Request.acquire 2000 free (codes "worker") 60000)

act-Change_example : Changes host 2000 (codes "t1") queued_store (act host acquiring queued_store)
act-Change_example = act-Change host acquiring queued_store queued-IsDistinct

-- Another worker, before the lease ends at 62000.
abbrev rivals : List (Call Text)
rivals =
    call 50000 (codes "t2") (Request.acquire 90000 free (codes "rival") 60000)
    ∷ call 60000 (codes "t2") (Request.dry_run (codes "job"))
    ∷ []

tokens_differ : codes "t2" ≢ codes "t1"
unfolding text_eq
tokens_differ e = ground (arith, (text_eq_iff _ _).1 e)

rivals-AreOthers : AreOthers host 60000 (codes "t1") rivals
unfolding AreOthers
rivals-AreOthers = ((omega arith, tokens_differ), ((omega arith, tokens_differ), tt))

after-holds_example :
    filter (holds 60000 (codes "job") (codes "t1")) (after host rivals leased_store).payloads
    ≡ filter (holds 60000 (codes "job") (codes "t1")) leased_store.payloads
after-holds_example =
    after-holds host 60000 (codes "job") (codes "t1") rivals leased_store host-IsKeyed
      leased-IsDistinct rivals-AreOthers

leased-IsSound : All IsSound leased_store.payloads
unfolding queue
leased-IsSound = ((omega arith, refl), tt)

after-IsSound_example : All IsSound (after host steps leased_store).payloads
after-IsSound_example =
    after-IsSound host steps leased_store host-IsKeyed leased-IsDistinct leased-IsSound

no_steps : (job : Text) → AreSteps 0 (filter (of_job job) leased_store.checkpoints)
unfolding queue
no_steps job = tt

-- Two steps are recorded, the lease ends at 62000, and another worker takes the job over.
abbrev two_steps : List (Call Text)
two_steps =
    call 3000 (codes "t1")
      (Request.transaction_confirmed (codes "job") FunctionName.register_attempt (hash b'1'))
    ∷ call 4000 (codes "t1")
        (Request.transaction_confirmed (codes "job") FunctionName.record_observation (hash b'2'))
    ∷ []

abbrev interrupted : PayloadStore Text
interrupted = after host two_steps leased_store

abbrev taken_over : ExecutionJob Text
taken_over = record {
  job_id = codes "job";
  lease_token = codes "t2";
  payload = hash b'a';
  confirmed_transactions =
      record { function_name = FunctionName.register_attempt; transaction_hash = hash b'1' }
      ∷ record { function_name = FunctionName.record_observation; transaction_hash = hash b'2' }
      ∷ [];
}

abbrev taking_over : PayloadStore Text
taking_over =
    act host (call 70000 (codes "t2") (Request.acquire 70000 free (codes "rival") 60000))
      interrupted

abbrev chosen : Option (PayloadRow Text)
chosen = candidate updated_before 70000 free (retire_exhausted 70000 free interrupted).payloads

takes_over :
    acquire_relayer_owned_one_time_execution_job host 70000 70000 free
      (codes "rival")
      60000
      (codes "t2")
      interrupted
    ≡ ok (taking_over, acquired taken_over)
unfolding queue
takes_over = refl

acquire_relayer_owned_one_time_execution_job-after_example :
    IsAnswer host chosen interrupted.checkpoints (codes "t2") (acquired taken_over)
acquire_relayer_owned_one_time_execution_job-after_example =
    acquire_relayer_owned_one_time_execution_job-after host two_steps leased_store 70000 70000 free
      (codes "rival") 60000 (codes "t2") (taking_over, acquired taken_over) host-IsKeyed
      leased-IsDistinct no_steps takes_over

after-IsFull_example :
    All
      (IsFull (after host leasing_and_steps no_payloads).checkpoints)
      (after host leasing_and_steps no_payloads).payloads
after-IsFull_example = after-IsFull host leasing_and_steps host-IsKeyed
