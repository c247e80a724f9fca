-- ===== src/Finalizer/Exclusion.antt =====
-- A job under an active lease is leased to nobody else.
use parly_relayer.Prelude.{
  ℕ, ◌+◌, ◌<◌, ◌≡◌, ◌≢◌, ap, sym, ◌∙◌, false, List, [], ◌∷◌, Option, some, none, arith, All,
  All-map, inl, inr, ◌⊎◌, Text,
}
use parly_relayer.Finalizer.{
  FinalizerJob, locked, JobStore, set_now, can_finalize_job, is_set, is_after, is_ok, leased,
  acquire_lease, upsert,
}
use parly_relayer.Finalizer.Lease.{IsMap, put-All, put-own, IsLeased, acquire_lease-IsLeased}
use parly_relayer.Finalizer.Calls.{
  Request, acquires, upserts, Call, respond, act, with_job, leases, acquire_lease_cases,
}

-- The job under the key `id`, if any, is locked until a given time.
abbrev pub IsHeld : Text → ℕ → List FinalizerJob → Type 0
IsHeld id until = All (λ k. k.job_id ≡ id → (k.status ≡ locked) × (k.locked_until ≡ some until))

locked_refused :
    (k : FinalizerJob) (now until : ℕ)
    → k.status ≡ locked
    → k.locked_until ≡ some until
    → now < until
    → is_ok (can_finalize_job k now) ≡ false
unfolding can_finalize_job is_ok is_set is_after
locked_refused k now until s u h = ground arith

module _ (worker : Text) (lease : ℕ) (store store' : JobStore) (job : FinalizerJob)
    (got : acquire_lease worker lease store ≡ (store', some job)) where
  acquired : IsLeased worker lease store store' job
  acquired = acquire_lease-IsLeased worker lease store store' job got

  pub acquire_lease-IsHeld_new :
      IsMap store.jobs → IsHeld job.job_id (store.now + lease) store'.jobs
  unfolding upsert leased
  acquire_lease-IsHeld_new h = rw acquired.kept (
      All-map _ _ _
        (λ k own e. (
          ap (λ (x : FinalizerJob). x.status) (own e ∙ acquired.result),
          ap (λ (x : FinalizerJob). x.locked_until) (own e ∙ acquired.result),
        ))
        (put-own job store.jobs h))

  pub acquire_lease-ne_held :
      (id : Text) (until : ℕ) → IsHeld id until store.jobs → store.now < until → job.job_id ≢ id
  unfolding leased
  acquire_lease-ne_held id until h early same =
      let held =
        acquired.stored _ h (sym (ap (λ (x : FinalizerJob). x.job_id) acquired.result) ∙ same) in
      cc (acquired.chosen, locked_refused acquired.candidate store.now until held.0 held.1 early)

  pub acquire_lease-IsHeld :
      (id : Text) (until : ℕ)
      → IsHeld id until store.jobs
      → store.now < until
      → IsHeld id until store'.jobs
  unfolding upsert
  acquire_lease-IsHeld id until h early =
      rw acquired.kept
        (put-All _ job store.jobs (λ e. absurd (acquire_lease-ne_held id until h early e)) h)

-- What is put under the key `id` leaves the job locked until `until`.
abbrev pub Spares : Text → ℕ → Request → Type 0
Spares id until (acquires worker lease) = Unit
Spares id until (upserts job) =
    (job.job_id ≢ id) ⊎ ((job.status ≡ locked) × (job.locked_until ≡ some until))

upsert-IsHeld :
    (id : Text) (until : ℕ) (job : FinalizerJob) (store : JobStore)
    → Spares id until (upserts job)
    → IsHeld id until store.jobs
    → IsHeld id until (upsert job store).jobs
unfolding upsert
upsert-IsHeld id until job store (inl other) h = put-All _ job store.jobs (λ e. absurd (other e)) h
upsert-IsHeld id until job store (inr held) h = put-All _ job store.jobs (λ e. held) h

-- One call before the lease ends.
act-IsHeld :
    (id : Text) (until : ℕ) (now : ℕ) (request : Request) (store : JobStore)
    → IsHeld id until store.jobs
    → now < until
    → Spares id until request
    → IsHeld id until (respond request (set_now now store)).0.jobs
      × All (λ j. j.job_id ≢ id) (with_job (respond request (set_now now store)).1 [])
unfolding respond set_now
act-IsHeld id until now (upserts job) store h early spares =
    (upsert-IsHeld id until job (set_now now store) spares h, tt)
act-IsHeld id until now (acquires worker lease) store h early spares =
    elim (acquire_lease_cases worker lease (set_now now store)) [
      | inl e ↦ rw e (h, tt)
      | inr (store', job, e) ↦ rw e (
        acquire_lease-IsHeld worker lease (set_now now store) store' job e id until h early,
        (acquire_lease-ne_held worker lease (set_now now store) store' job e id until h early, tt),
      )
    ]

with_job-All :
    (id : Text) (found : Option FinalizerJob) (jobs : List FinalizerJob)
    → All (λ j. j.job_id ≢ id) (with_job found [])
    → All (λ j. j.job_id ≢ id) jobs
    → All (λ j. j.job_id ≢ id) (with_job found jobs)
with_job-All id none jobs h k = k
with_job-All id (some job) jobs h k = (h.0, k)

leases-IsHeld :
    (id : Text) (until : ℕ) (calls : List Call) (store : JobStore)
    → IsHeld id until store.jobs
    → All (λ c. c.now < until) calls
    → All (λ c. Spares id until c.request) calls
    → All (λ j. j.job_id ≢ id) (leases calls store)
unfolding leases act
leases-IsHeld id until [] store h early spares = tt
leases-IsHeld id until (c ∷ calls) store h (early, earlies) (spare, spares) =
    let step = act-IsHeld id until c.now c.request store h early spare in
    with_job-All id (respond c.request (set_now c.now store)).1 _ step.1 (
      leases-IsHeld id until calls (respond c.request (set_now c.now store)).0 step.0 earlies
        spares)

-- Mutual exclusion: once a job is leased from a store whose keys are distinct, no call before the
-- lease ends leases it again, whoever calls, for however long, and whatever other jobs are leased or
-- put into the store in between; but what is put under the key of the job itself must leave it locked
-- until the lease ends.
pub leases_exclusive :
    (worker : Text) (lease : ℕ) (store store' : JobStore) (job : FinalizerJob) (calls : List Call)
    → IsMap store.jobs
    → acquire_lease worker lease store ≡ (store', some job)
    → All (λ c. c.now < store.now + lease) calls
    → All (λ c. Spares job.job_id (store.now + lease) c.request) calls
    → All (λ j. j.job_id ≢ job.job_id) (leases calls store')
leases_exclusive worker lease store store' job calls keys got early spares =
    leases-IsHeld job.job_id (store.now + lease) calls store'
      (acquire_lease-IsHeld_new worker lease store store' job got keys) early spares
