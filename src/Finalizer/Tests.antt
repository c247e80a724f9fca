-- ===== src/Finalizer/Tests.antt =====
-- Tests of the finalizer's jobs and fees, and its theorems at a store of two jobs.
use mathlib.Core.Option
use parly_relayer.Prelude.{
  ℕ, ◌≡◌, ◌≢◌, ◌↔◌, refl, Option, some, none, List, [], ◌∷◌, arith, Text, codes, text_eq, All,
  head?, inl, inr,
}
use parly_relayer.Prelude.Int.{ℤ, pos, ◌-ℤ◌, ◌≤ℤ◌}
use parly_relayer.Finalizer.{
  FinalizerJob, JobStatus, queued, locked, confirmed, eligible, JobStore, granted, refused,
  fee_cap_exceeded, principal_floor_exceeded, FeeRequest, leased, get, set_now, acquire_lease,
  list_finalizable_jobs, upsert, put, can_finalize_job, is_ok, sort_by_created, is_candidate,
  is_set, is_after, grant, validate_finalizer_fee, compute_capped_finalizer_fee,
}
use parly_relayer.Finalizer.Fee.{validate_finalizer_fee_iff}
use parly_relayer.Finalizer.Order.{acquire_lease-list_finalizable_jobs}
use parly_relayer.Finalizer.Lease.{IsMap}
use parly_relayer.Finalizer.Calls.{Call, acquires, upserts, respond, act, after, leases}
use parly_relayer.Finalizer.Exclusion.{leases_exclusive}
use parly_relayer.Finalizer.Attempts.{IsCounted, times, leases-IsCounted}

finalizer : Unit {0}
unfolding acquire_lease list_finalizable_jobs upsert put leased can_finalize_job is_ok
    sort_by_created is_candidate grant is_set is_after validate_finalizer_fee
    compute_capped_finalizer_fee ◌-ℤ◌ text_eq get set_now respond act after leases
finalizer = tt

abbrev job : Text → JobStatus → ℕ → Option ℕ → ℕ → FinalizerJob
job id status created until attempts = record {
  job_id = id;
  attempt_id = codes "0xa";
  route_hash = codes "0xb";
  observation_id = codes "0xc";
  eligibility = eligible;
  status = status;
  locked_by = none;
  locked_until = until;
  attempt_number = attempts;
  max_attempts = 3;
  retryable = none;
  idempotency_key = codes "k";
  last_error = none;
  created_at = created;
  updated_at = created;
  required_principal = pos 100;
  observed_amount = pos 110;
  max_finalizer_fee = pos 5;
  settlement_fee_budget = pos 5;
  finalizer_fee = pos 1;
}

abbrev store : JobStore
store = record {
  jobs = job (codes "new") queued 20 none 0 ∷ job (codes "old") locked 10 (some 40) 2 ∷ [];
  now = 50;
}

abbrev held : FinalizerJob
held = leased (codes "w") 30 50 (job (codes "old") locked 10 (some 40) 2)

abbrev after_lease : JobStore
after_lease = record { jobs = job (codes "new") queued 20 none 0 ∷ held ∷ []; now = 50 }

-- The expired lease of the older job is taken over.
taken_over : acquire_lease (codes "w") 30 store ≡ (after_lease, some held)
unfolding finalizer
taken_over = refl

nothing_due :
    (acquire_lease
      (codes "w")
      30
      (record { jobs = job (codes "a") confirmed 1 none 0 ∷ []; now = 5 })).1
    ≡ none
unfolding finalizer
nothing_due = refl

abbrev request : ℤ → FeeRequest
request fee = record {
  observed_amount = pos 110;
  required_principal = pos 108;
  requested_fee = fee;
  max_finalizer_fee = pos 5;
  settlement_fee_budget = pos 5;
}

fees :
    (validate_finalizer_fee (request (pos 6)) ≡ refused fee_cap_exceeded)
    × (validate_finalizer_fee (request (pos 3)) ≡ refused principal_floor_exceeded)
    × (compute_capped_finalizer_fee (pos 2) (request (pos 0)) ≡ granted (pos 2))
unfolding finalizer
fees = (refl, refl, refl)

validate_finalizer_fee_iff_example :
    (validate_finalizer_fee (request (pos 2)) ≡ granted (pos 2)) ↔ (
      (pos 2 ≡ pos 2)
      × (pos 0 ≤ℤ pos 2)
      × (pos 2 ≤ℤ pos 5)
      × (pos 2 ≤ℤ pos 5)
      × (pos 108 ≤ℤ pos 110 -ℤ pos 2))
validate_finalizer_fee_iff_example = validate_finalizer_fee_iff (request (pos 2)) (pos 2)

acquire_lease-list_finalizable_jobs_example :
    (acquire_lease (codes "w") 30 store).1
    ≡ Option.map (leased (codes "w") 30 50) (head? (list_finalizable_jobs 50 store.jobs))
acquire_lease-list_finalizable_jobs_example =
    acquire_lease-list_finalizable_jobs (codes "w") 30 store

store-IsMap : IsMap store.jobs
store-IsMap = (((λ e. ground arith), tt), (tt, tt))

-- The leased job is put back with an error noted, and others call before its lease ends at 80.
abbrev calls : List Call
calls =
    record { now = 60; request = acquires (codes "v") 9 }
    ∷ record { now = 61; request = upserts (record held { last_error = some (codes "late") }) }
    ∷ record { now = 62; request = upserts (job (codes "third") queued 5 none 0) }
    ∷ record { now = 75; request = acquires (codes "w") 9 }
    ∷ []

leases_exclusive_example : All (λ j. j.job_id ≢ codes "old") (leases calls after_lease)
unfolding leased
leases_exclusive_example =
    leases_exclusive (codes "w") 30 store after_lease held calls store-IsMap taken_over
      (omega arith) (tt, (inr (refl, refl), ((inl (λ e. ground arith)), (tt, tt))))

abbrev new_job : FinalizerJob
new_job = job (codes "new") queued 20 none 0

-- The job is leased, and leased again after that lease ends.
abbrev rounds : List Call
rounds =
    record { now = 41; request = acquires (codes "v") 100 }
    ∷ record { now = 50; request = acquires (codes "w") 9 }
    ∷ record { now = 60; request = acquires (codes "v") 9 }
    ∷ []

leased_twice : times (codes "new") (leases rounds store) ≡ 2
unfolding finalizer
leased_twice = refl

leases-IsCounted_example :
    IsCounted (codes "new") new_job (times (codes "new") (leases rounds store)) (after rounds store)
unfolding finalizer
leases-IsCounted_example =
    leases-IsCounted rounds store new_job store-IsMap refl (omega arith) (tt, (tt, (tt, tt)))
