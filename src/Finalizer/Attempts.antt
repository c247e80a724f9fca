-- ===== src/Finalizer/Attempts.antt =====
-- The attempts of a job, and the leases that count them: acquireLease and upsert over the store.
use parly_relayer.Prelude.{
  ℕ, ◌+◌, ◌≤◌, ◌≡◌, ◌≢◌, refl, ap, sym, ◌∙◌, subst, true, false, if◌then◌else◌, List, [], ◌∷◌,
  Option, some, none, arith, All, All-map, find?, Bool-cases, inl, inr, Text, text_eq, text_eq_iff,
  text_eq-differs,
}
use parly_relayer.Finalizer.{
  FinalizerJob, JobStore, set_now, leased, acquire_lease, put, upsert, get,
}
use parly_relayer.Finalizer.Lease.{IsMap, put-IsMap, acquire_lease-IsLeased, ok-attempts}
use parly_relayer.Finalizer.Calls.{
  Request, acquires, upserts, Call, respond, act, after, with_job, leases, acquire_lease_cases,
}

-- How many of the jobs are the one under the key.
abbrev pub times : Text → List FinalizerJob → ℕ
times id [] = 0
times id (job ∷ jobs) = (if text_eq job.job_id id then 1 else 0) + times id jobs

-- Nothing is put under the key.
abbrev pub Leaves : Text → Request → Type 0
Leaves id (acquires worker lease) = Unit
Leaves id (upserts job) = job.job_id ≢ id

-- What the store holds under the key is the job after `count` further attempts, within its limit.
pub record IsCounted (id : Text) (job : FinalizerJob) (count : ℕ) (store : JobStore) : Type 0 where
  pub current : FinalizerJob
  pub found : get id store ≡ some current
  pub attempts : current.attempt_number ≡ job.attempt_number + count
  pub limit : current.max_attempts ≡ job.max_attempts
  pub within : current.attempt_number ≤ current.max_attempts

module _ (id : Text) where
  abbrev find_job : List FinalizerJob → Option FinalizerJob
  find_job = find? (λ (job : FinalizerJob). text_eq job.job_id id)

  find_job-put_other :
      (job : FinalizerJob) (jobs : List FinalizerJob)
      → job.job_id ≢ id
      → find_job (put job jobs) ≡ find_job jobs
  unfolding put
  find_job-put_other job [] differ = ground (arith, text_eq-differs job.job_id id differ)
  find_job-put_other job (other ∷ jobs) differ =
      elim (Bool-cases (text_eq other.job_id job.job_id)) [
        | inl same ↦
            let e = (text_eq_iff other.job_id job.job_id).0 same in
            rw same (
              ground (
                arith,
                text_eq-differs job.job_id id differ,
                text_eq-differs other.job_id id (λ x. differ (sym e ∙ x)),
              ))
        | inr other_key ↦ rw other_key (ground (arith, find_job-put_other job jobs differ))
      ]

  find_job-put :
      (job : FinalizerJob) (jobs : List FinalizerJob)
      → text_eq job.job_id id ≡ true
      → find_job (put job jobs) ≡ some job
  unfolding put
  find_job-put job [] mine = ground arith
  find_job-put job (other ∷ jobs) mine = elim (Bool-cases (text_eq other.job_id job.job_id)) [
    | inl same ↦ rw same (ground arith)
    | inr differ ↦
        let other_key : text_eq other.job_id id ≡ false = text_eq-differs other.job_id id (λ x. cc (
          differ,
          (text_eq_iff other.job_id job.job_id).1 (x ∙ sym ((text_eq_iff job.job_id id).0 mine)),
        )) in
        rw differ (ground (arith, find_job-put job jobs mine))
  ]

  -- Keys are distinct, so every job of the key is the one that is found.
  found_only :
      (job : FinalizerJob) (jobs : List FinalizerJob)
      → IsMap jobs
      → find_job jobs ≡ some job
      → All (λ k. k.job_id ≡ id → k ≡ job) jobs
  found_only job [] keys e = tt
  found_only job (other ∷ jobs) keys e = elim (Bool-cases (text_eq other.job_id id)) [
    | inl same ↦
        let k = (text_eq_iff other.job_id id).0 same in
        let first : other ≡ job = ground (arith, same) in
        ((λ x. first), All-map _ _ jobs (λ j n x. absurd (n (x ∙ sym k))) keys.0)
    | inr differ ↦ (
      (λ x. cc (differ, (text_eq_iff other.job_id id).1 x)),
      found_only job jobs keys.1 (ground (arith, differ)),
    )
  ]

  -- One lease: it counts for the job that is leased, and changes no other.
  acquire_lease-IsCounted :
      (worker : Text) (lease : ℕ) (store store' : JobStore) (job : FinalizerJob)
      (before : FinalizerJob) (count : ℕ)
      → acquire_lease worker lease store ≡ (store', some job)
      → IsMap store.jobs
      → IsCounted id before count store
      → IsCounted id before (count + times id (job ∷ [])) store'
  unfolding get upsert leased
  acquire_lease-IsCounted worker lease store store' job before count e keys h =
      let a = acquire_lease-IsLeased worker lease store store' job e in
      elim (Bool-cases (text_eq job.job_id id)) [
        | inl same ↦
            let key = (text_eq_iff job.job_id id).0 same in
            let was : a.candidate ≡ h.current =
              a.stored _ (found_only h.current store.jobs keys h.found)
                (sym (ap (λ (x : FinalizerJob). x.job_id) a.result) ∙ key) in
            let few = ok-attempts a.candidate store.now a.chosen in
            let more : job.attempt_number ≡ h.current.attempt_number + 1 =
              ap (λ (x : FinalizerJob). x.attempt_number) a.result
              ∙ ap (λ (x : FinalizerJob). x.attempt_number + 1) was in
            let limit : job.max_attempts ≡ h.current.max_attempts =
              ap (λ (x : FinalizerJob). x.max_attempts) a.result
              ∙ ap (λ (x : FinalizerJob). x.max_attempts) was in
            let same_attempts : a.candidate.attempt_number ≡ h.current.attempt_number =
              ap (λ (x : FinalizerJob). x.attempt_number) was in
            let same_limit : a.candidate.max_attempts ≡ h.current.max_attempts =
              ap (λ (x : FinalizerJob). x.max_attempts) was in
            rw same (record {
              current = job;
              found =
                  ap (λ (s : JobStore). find_job s.jobs) a.kept ∙ find_job-put job store.jobs same;
              attempts = omega (arith, more, h.attempts);
              limit = limit ∙ h.limit;
              within = omega (arith, more, limit, few, same_attempts, same_limit);
            })
        | inr differ ↦ rw differ (record {
          current = h.current;
          found =
              ap (λ (s : JobStore). find_job s.jobs) a.kept
              ∙ find_job-put_other job store.jobs
                  (λ x. cc (differ, (text_eq_iff job.job_id id).1 x))
              ∙ h.found;
          attempts = omega (arith, h.attempts);
          limit = h.limit;
          within = h.within;
        })
      ]

  acquire_lease-IsMap :
      (worker : Text) (lease : ℕ) (store store' : JobStore) (job : FinalizerJob)
      → acquire_lease worker lease store ≡ (store', some job)
      → IsMap store.jobs
      → IsMap store'.jobs
  unfolding upsert
  acquire_lease-IsMap worker lease store store' job e keys =
      rw (acquire_lease-IsLeased worker lease store store' job e).kept
        (put-IsMap job store.jobs keys)

  -- One call.
  act-IsCounted :
      (now : ℕ) (request : Request) (store : JobStore) (before : FinalizerJob) (count : ℕ)
      → IsMap store.jobs
      → Leaves id request
      → IsCounted id before count store
      → IsMap (respond request (set_now now store)).0.jobs
        × IsCounted id before
            (count + times id (with_job (respond request (set_now now store)).1 []))
            (respond request (set_now now store)).0
  unfolding respond set_now get upsert
  act-IsCounted now (upserts job) store before count keys leaves h = (
    put-IsMap job store.jobs keys,
    record {
      current = h.current;
      found = find_job-put_other job store.jobs leaves ∙ h.found;
      attempts = omega (arith, h.attempts);
      limit = h.limit;
      within = h.within;
    },
  )
  act-IsCounted now (acquires worker lease) store before count keys leaves h =
      let here = record store { now = now } in
      let still : IsCounted id before count here = record {
        current = h.current;
        found = h.found;
        attempts = h.attempts;
        limit = h.limit;
        within = h.within;
      } in
      elim (acquire_lease_cases worker lease here) [
        | inl e ↦ rw e (keys, subst (λ n. IsCounted id before n here) (omega arith) still)
        | inr (store', job, e) ↦ rw e (
          acquire_lease-IsMap worker lease here store' job e keys,
          acquire_lease-IsCounted worker lease here store' job before count e keys still,
        )
      ]

  times-with_job :
      (found : Option FinalizerJob) (jobs : List FinalizerJob)
      → times id (with_job found jobs) ≡ times id (with_job found []) + times id jobs
  times-with_job none jobs = omega arith
  times-with_job (some job) jobs = omega arith

  after-IsCounted :
      (calls : List Call) (store : JobStore) (before : FinalizerJob) (count : ℕ)
      → IsMap store.jobs
      → All (λ c. Leaves id c.request) calls
      → IsCounted id before count store
      → IsCounted id before (count + times id (leases calls store)) (after calls store)
  unfolding after leases act
  after-IsCounted [] store before count keys leaves h =
      subst (λ n. IsCounted id before n store) (omega arith) h
  after-IsCounted (c ∷ calls) store before count keys (leave, leaves) h =
      let answer = respond c.request (set_now c.now store) in
      let step = act-IsCounted c.now c.request store before count keys leave h in
      subst (λ n. IsCounted id before n (after calls answer.0))
        (omega (arith, times-with_job answer.1 (leases calls answer.0)))
        (after-IsCounted calls answer.0 before (count + times id (with_job answer.1 [])) step.0
          leaves step.1)

-- Every lease counts one attempt, and there is none beyond the limit: for a job of a store whose keys
-- are distinct, with no more attempts than its limit, after any calls that put nothing under its key
-- the store still has it with the same limit, its attempts are those from before and one for each time
-- that the calls leased it, and they are within the limit.
pub leases-IsCounted :
    (calls : List Call) (store : JobStore) (job : FinalizerJob)
    → IsMap store.jobs
    → get job.job_id store ≡ some job
    → job.attempt_number ≤ job.max_attempts
    → All (λ c. Leaves job.job_id c.request) calls
    → IsCounted job.job_id job (times job.job_id (leases calls store)) (after calls store)
leases-IsCounted calls store job keys found few leaves =
    subst (λ n. IsCounted job.job_id job n (after calls store)) (omega arith)
      (after-IsCounted job.job_id calls store job 0 keys leaves (record {
        current = job;
        found = found;
        attempts = omega arith;
        limit = refl;
        within = few;
      }))
