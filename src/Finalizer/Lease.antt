-- ===== src/Finalizer/Lease.antt =====
-- What a lease takes from the store, and the keys of the store.
use parly_relayer.Prelude.{
  ℕ, ◌<◌, ◌⊎◌, false, ◌≡◌, ◌≢◌, refl, subst, sym, ◌∙◌, Bool, true, List, [], ◌∷◌, Option, some,
  none, arith, find?, find?-sound, All, All-map, Bool-cases, inl, inr, Text, text_eq, text_eq_iff,
}
use parly_relayer.Finalizer.{
  FinalizerJob, JobStatus, locked, verdict_for, JobStore, can_finalize_job, is_ok, sort_by_created,
  is_candidate, leased, acquire_lease, put, upsert, grant,
}
use parly_relayer.Finalizer.Order.{is_candidate-eq, sort_by_created-All}

-- The keys of a map are distinct.
abbrev pub IsMap : List FinalizerJob → Type 0
IsMap [] = Unit
IsMap (job ∷ jobs) = All (λ other. other.job_id ≢ job.job_id) jobs × IsMap jobs

pub put-All {ℓ} :
    (P : FinalizerJob → Type ℓ) (job : FinalizerJob) (jobs : List FinalizerJob)
    → P job
    → All P jobs
    → All P (put job jobs)
unfolding put
put-All P job [] p h = (p, tt)
put-All P job (other ∷ jobs) p h = ground (arith, put-All P job jobs p h.1)

-- Storing a job under its key keeps the keys distinct.
pub put-IsMap : (job : FinalizerJob) (jobs : List FinalizerJob) → IsMap jobs → IsMap (put job jobs)
unfolding put
put-IsMap job [] h = (tt, tt)
put-IsMap job (other ∷ jobs) h = elim (Bool-cases (text_eq other.job_id job.job_id)) [
  | inl same ↦ rw same (
      let e = (text_eq_iff other.job_id job.job_id).0 same in
      (All-map _ _ jobs (λ k n. λ x. n (x ∙ sym e)) h.0, h.1))
  | inr differ ↦ rw differ (
    put-All (λ k. k.job_id ≢ other.job_id) job jobs
        (λ x. cc (differ, (text_eq_iff other.job_id job.job_id).1 (sym x))) h.0,
    put-IsMap job jobs h.1,
  )
]

-- What the store holds under the key of a job that was stored is that job.
pub put-own :
    (job : FinalizerJob) (jobs : List FinalizerJob)
    → IsMap jobs
    → All (λ k. k.job_id ≡ job.job_id → k ≡ job) (put job jobs)
unfolding put
put-own job [] h = ((λ e. refl), tt)
put-own job (other ∷ jobs) h = elim (Bool-cases (text_eq other.job_id job.job_id)) [
  | inl same ↦ rw same (
      let e = (text_eq_iff other.job_id job.job_id).0 same in
      ((λ x. refl), All-map _ _ jobs (λ k n x. absurd (n (x ∙ sym e))) h.0))
  | inr differ ↦
      rw differ
        ((λ x. cc (differ, (text_eq_iff other.job_id job.job_id).1 x)), put-own job jobs h.1)
]

find?-All {ℓ} :
    (P : FinalizerJob → Type ℓ) (p : FinalizerJob → Bool) (jobs : List FinalizerJob)
    (job : FinalizerJob)
    → All P jobs
    → find? p jobs ≡ some job
    → P job
find?-All P p [] job h e = cc
find?-All P p (other ∷ jobs) job h e = elim (Bool-cases (p other)) [
  | inl hit ↦ subst P (ground arith) h.0
  | inr miss ↦ find?-All P p jobs job h.1 (ground arith)
]

-- What a lease takes: a candidate of the store, put back under a lease.
pub record IsLeased (worker : Text) (lease : ℕ) (store store' : JobStore) (job : FinalizerJob)
    : Type 1 where
  pub candidate : FinalizerJob
  pub chosen : is_ok (can_finalize_job candidate store.now) ≡ true
  pub stored : (P : FinalizerJob → Type 0) → All P store.jobs → P candidate
  pub result : job ≡ leased worker lease store.now candidate
  pub kept : store' ≡ upsert job store

grant-IsLeased :
    (worker : Text) (lease : ℕ) (store store' : JobStore) (job : FinalizerJob)
    (found : Option FinalizerJob)
    → ((c : FinalizerJob) → found ≡ some c → is_ok (can_finalize_job c store.now) ≡ true)
    → ((c : FinalizerJob) → found ≡ some c → (P : FinalizerJob → Type 0) → All P store.jobs → P c)
    → grant worker lease store found ≡ (store', some job)
    → IsLeased worker lease store store' job
unfolding grant
grant-IsLeased worker lease store store' job none good stored e = cc
grant-IsLeased worker lease store store' job (some c) good stored e = record {
  candidate = c;
  chosen = good c refl;
  stored = stored c refl;
  result = cc;
  kept = cc;
}

pub acquire_lease-IsLeased :
    (worker : Text) (lease : ℕ) (store store' : JobStore) (job : FinalizerJob)
    → acquire_lease worker lease store ≡ (store', some job)
    → IsLeased worker lease store store' job
unfolding acquire_lease
acquire_lease-IsLeased worker lease store store' job e =
    grant-IsLeased worker lease store store' job
      (find? (is_candidate store.now) (sort_by_created store.jobs))
      (λ c found.
        sym (is_candidate-eq store.now c)
        ∙ find?-sound (is_candidate store.now) (sort_by_created store.jobs) c found)
      (λ c found P h.
        find?-All P (is_candidate store.now) (sort_by_created store.jobs) c
          (sort_by_created-All P store.jobs h) found)
      e

attempts_of :
    (s : JobStatus) (k : FinalizerJob) (now : ℕ)
    → (k.attempt_number < k.max_attempts) ⊎ (is_ok (verdict_for s k now) ≡ false)
unfolding verdict_for is_ok
attempts_of locked k now = ground arith
attempts_of _ k now = ground arith

pub ok-attempts :
    (k : FinalizerJob) (now : ℕ)
    → is_ok (can_finalize_job k now) ≡ true
    → k.attempt_number < k.max_attempts
unfolding can_finalize_job is_ok
ok-attempts k now h = elim (attempts_of k.status k now) [
  | inl few ↦ few
  | inr closed ↦ ground (arith, closed)
]
