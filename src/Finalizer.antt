-- ===== src/Finalizer.antt =====
-- apps/relayer/src/phase3/index.ts: the jobs of the settlement finalizer, their leases and fees.
-- `FinalizerJob`, `canFinalizeJob`, `createInMemoryFinalizerJobStore`,
-- `listFinalizableJobsFromDataSource`, `validateFinalizerFee` and `computeCappedFinalizerFee`.
-- Times and counters are natural numbers; amounts are integers; the clock is an argument.
pub mod Order
pub mod Lease
pub mod Calls
pub mod Exclusion
pub mod Attempts
pub mod Fee
mod Tests
use parly_relayer.Prelude.{
  ℕ, ◌+◌, Bool, true, false, ◌&&◌, ◌||◌, not, ltb, leb, ◌==◌, if◌then◌else◌, Option, none, some,
  List, [], ◌∷◌, Text, codes, ◌++◌, to_lower, text_eq, find?, filter,
}
use parly_relayer.Prelude.Int.{ℤ, pos, ◌-ℤ◌, ltb_ℤ, leb_ℤ}

pub data Eligibility : Type 0 where
  pending_confirmations eligible reorged needs_review : Eligibility

pub data JobStatus : Type 0 where
  queued locked submitted confirmed failed_retryable failed_manual_review abandoned : JobStatus
  refund_available refund_claimed manual_review ignored : JobStatus

pub data Reason : Type 0 where
  observation_not_eligible max_attempts_exceeded active_lease_not_finalizable : Reason
  retry_not_explicitly_enabled job_status_not_finalizable : Reason
  negative_fee fee_cap_exceeded fee_budget_exceeded principal_floor_exceeded : Reason

-- `{ ok: true }` with a value, or `{ ok: false, reason }`.
pub data Verdict (A : Type 0) : Type 0 where
  granted : A → Verdict A
  refused : Reason → Verdict A

pub record FinalizerJob : Type 0 where
  pub job_id : Text
  pub attempt_id : Text
  pub route_hash : Text
  pub observation_id : Text
  pub eligibility : Eligibility
  pub status : JobStatus
  pub locked_by : Option Text
  pub locked_until : Option ℕ
  pub attempt_number : ℕ
  pub max_attempts : ℕ
  pub retryable : Option Bool
  pub idempotency_key : Text
  pub last_error : Option Text
  pub created_at : ℕ
  pub updated_at : ℕ
  pub required_principal : ℤ
  pub observed_amount : ℤ
  pub max_finalizer_fee : ℤ
  pub settlement_fee_budget : ℤ
  pub finalizer_fee : ℤ

-- The truth value of `lockedUntil`.
pub is_set : Option ℕ → Bool
is_set none = false
is_set (some n) = not (n == 0)

-- `lockedUntil > nowMs`; a missing value is read only where `is_set` was tested first.
pub is_after : Option ℕ → ℕ → Bool
is_after none now = false
is_after (some n) now = ltb now n

is_eligible : Eligibility → Bool
is_eligible eligible = true
is_eligible _ = false

is_true : Option Bool → Bool
is_true (some true) = true
is_true _ = false

verdict_for : JobStatus → FinalizerJob → ℕ → Verdict (Unit {0})
unfolding is_set is_after is_true
verdict_for queued job now =
    if leb job.max_attempts job.attempt_number
    then refused max_attempts_exceeded
    else if is_set job.locked_until && is_after job.locked_until now
    then refused active_lease_not_finalizable
    else granted tt
verdict_for locked job now =
    if not (is_set job.locked_until) || is_after job.locked_until now
    then refused active_lease_not_finalizable
    else if leb job.max_attempts job.attempt_number
    then refused max_attempts_exceeded
    else granted tt
verdict_for failed_retryable job now =
    if not (is_true job.retryable)
    then refused retry_not_explicitly_enabled
    else if leb job.max_attempts job.attempt_number
    then refused max_attempts_exceeded
    else if is_set job.locked_until && is_after job.locked_until now
    then refused active_lease_not_finalizable
    else granted tt
verdict_for _ job now = refused job_status_not_finalizable

pub can_finalize_job : FinalizerJob → ℕ → Verdict (Unit {0})
unfolding is_eligible verdict_for
can_finalize_job job now =
    if not (is_eligible job.eligibility)
    then refused observation_not_eligible
    else verdict_for job.status job now

-- `.ok`
pub is_ok : {A : Type 0} → Verdict A → Bool
is_ok (granted a) = true
is_ok (refused r) = false

-- `sort((left, right) => left.createdAt - right.createdAt)`: the sort of arrays is stable.
pub insert : FinalizerJob → List FinalizerJob → List FinalizerJob
insert job [] = job ∷ []
insert job (other ∷ jobs) =
    if leb job.created_at other.created_at then job ∷ other ∷ jobs else other ∷ insert job jobs

pub sort_by_created : List FinalizerJob → List FinalizerJob
unfolding insert
sort_by_created [] = []
sort_by_created (job ∷ jobs) = insert job (sort_by_created jobs)

-- `Map.set`: a key that is there keeps its place.
pub put : FinalizerJob → List FinalizerJob → List FinalizerJob
put job [] = job ∷ []
put job (other ∷ jobs) =
    if text_eq other.job_id job.job_id then job ∷ jobs else other ∷ put job jobs

pub record JobStore : Type 0 where
  pub jobs : List FinalizerJob
  pub now : ℕ

pub set_now : ℕ → JobStore → JobStore
set_now next store = record store { now = next }

pub upsert : FinalizerJob → JobStore → JobStore
upsert job store = record store { jobs = put job store.jobs }

pub get : Text → JobStore → Option FinalizerJob
get id store = find? (λ job. text_eq job.job_id id) store.jobs

free_for : JobStatus → FinalizerJob → ℕ → Bool
free_for locked job now = is_set job.locked_until && not (is_after job.locked_until now)
free_for queued job now = not (is_set job.locked_until) || not (is_after job.locked_until now)
free_for failed_retryable job now =
    not (is_set job.locked_until) || not (is_after job.locked_until now)
free_for _ job now = false

-- The callback of `orderedJobs.find`.
pub is_candidate : ℕ → FinalizerJob → Bool
unfolding free_for
is_candidate now candidate =
    if not (is_ok (can_finalize_job candidate now))
    then false
    else free_for candidate.status candidate now

pub leased : Text → ℕ → ℕ → FinalizerJob → FinalizerJob
leased worker lease now job = record job {
  status = locked;
  locked_by = some worker;
  locked_until = some (now + lease);
  attempt_number = job.attempt_number + 1;
  updated_at = now;
}

grant : Text → ℕ → JobStore → Option FinalizerJob → JobStore × Option FinalizerJob
grant worker lease store none = (store, none)
grant worker lease store (some job) =
    let held = leased worker lease store.now job in (upsert held store, some held)

pub acquire_lease : Text → ℕ → JobStore → JobStore × Option FinalizerJob
unfolding grant
acquire_lease worker lease store =
    grant worker lease store (find? (is_candidate store.now) (sort_by_created store.jobs))

-- `listFinalizableJobsFromDataSource`, for jobs that the data source lists as `FinalizerJob`s.
pub list_finalizable_jobs : ℕ → List FinalizerJob → List FinalizerJob
list_finalizable_jobs now jobs =
    sort_by_created (filter (λ job. is_ok (can_finalize_job job now)) jobs)

-- `listFinalizableJobsForEligibleOperator`: the contract's answer is an argument.
pub list_finalizable_jobs_for_eligible_operator : Bool → ℕ → List FinalizerJob → List FinalizerJob
list_finalizable_jobs_for_eligible_operator is_eligible_operator now jobs =
    if not is_eligible_operator then [] else list_finalizable_jobs now jobs

pub record FeeRequest : Type 0 where
  pub observed_amount : ℤ
  pub required_principal : ℤ
  pub requested_fee : ℤ
  pub max_finalizer_fee : ℤ
  pub settlement_fee_budget : ℤ

pub validate_finalizer_fee : FeeRequest → Verdict ℤ
validate_finalizer_fee args =
    if ltb_ℤ args.requested_fee (pos 0)
    then refused negative_fee
    else if ltb_ℤ args.max_finalizer_fee args.requested_fee
    then refused fee_cap_exceeded
    else if ltb_ℤ args.settlement_fee_budget args.requested_fee
    then refused fee_budget_exceeded
    else if ltb_ℤ (args.observed_amount -ℤ args.requested_fee) args.required_principal
    then refused principal_floor_exceeded
    else granted args.requested_fee

-- The first argument is `estimatedGasCostBaseUnits`; the request's own fee is replaced.
pub compute_capped_finalizer_fee : ℤ → FeeRequest → Verdict ℤ
compute_capped_finalizer_fee estimate args = validate_finalizer_fee (record args {
  requested_fee =
      if leb_ℤ estimate args.max_finalizer_fee then estimate else args.max_finalizer_fee;
})

-- `buildFinalizerIdempotencyKey`; SHA-256, in hexadecimal digits, is a parameter.
pub build_finalizer_idempotency_key :
    (sha256 : Text → Text) (action attempt_id observation_id route_hash : Text) → Text
build_finalizer_idempotency_key sha256 action attempt_id observation_id route_hash = sha256 (
    codes "phase3-finalizer:"
    ++ action
    ++ codes ":"
    ++ to_lower attempt_id
    ++ codes ":"
    ++ to_lower observation_id
    ++ codes ":"
    ++ to_lower route_hash)
