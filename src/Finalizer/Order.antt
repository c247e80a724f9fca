-- ===== src/Finalizer/Order.antt =====
-- The job that a worker leases is the first one that the data source lists.
use mathlib.Core.Option
use parly_relayer.Prelude.{
  ℕ, ◌≤◌, ◌≡◌, refl, ap, ◌∙◌, sym, Bool, true, false, List, [], ◌∷◌, Option, some, none, arith,
  find?, filter, head?, All, leb, if◌then◌else◌, Bool-cases, leb→le, not, fun_ext, inl, inr, Text,
  All-map,
}
use parly_relayer.Finalizer.{
  FinalizerJob, JobStatus, locked, JobStore, can_finalize_job, is_ok, insert, sort_by_created,
  is_candidate, grant, verdict_for, free_for, is_set, is_after, leased, acquire_lease,
  list_finalizable_jobs,
}

-- The second test of the search adds nothing to `canFinalizeJob`.
verdict-free :
    (s : JobStatus) (job : FinalizerJob) (now : ℕ)
    → (if not (is_ok (verdict_for s job now)) then false else free_for s job now)
      ≡ is_ok (verdict_for s job now)
unfolding verdict_for free_for is_ok is_set is_after
verdict-free locked job now = ground arith
verdict-free _ job now = ground arith

pub is_candidate-eq :
    (now : ℕ) (job : FinalizerJob) → is_candidate now job ≡ is_ok (can_finalize_job job now)
unfolding is_candidate can_finalize_job is_ok
is_candidate-eq now job = ground (arith, verdict-free job.status job now)

abbrev pub IsSorted : List FinalizerJob → Type 0
IsSorted [] = Unit
IsSorted (job ∷ jobs) = All (λ other. job.created_at ≤ other.created_at) jobs × IsSorted jobs

insert-All {ℓ} :
    (P : FinalizerJob → Type ℓ) (job : FinalizerJob) (jobs : List FinalizerJob)
    → P job
    → All P jobs
    → All P (insert job jobs)
unfolding insert
insert-All P job [] p h = (p, tt)
insert-All P job (other ∷ jobs) p h = ground (arith, insert-All P job jobs p h.1)

All-le_trans :
    (a b : ℕ) (jobs : List FinalizerJob)
    → a ≤ b
    → All (λ other. b ≤ other.created_at) jobs
    → All (λ other. a ≤ other.created_at) jobs
All-le_trans a b jobs h = All-map _ _ jobs (λ other k. omega arith)

insert-IsSorted :
    (job : FinalizerJob) (jobs : List FinalizerJob) → IsSorted jobs → IsSorted (insert job jobs)
unfolding insert
insert-IsSorted job [] h = (tt, tt)
insert-IsSorted job (other ∷ jobs) h = elim (Bool-cases (leb job.created_at other.created_at)) [
  | inl before ↦
      rw before
        ((leb→le _ _ before, All-le_trans _ other.created_at jobs (leb→le _ _ before) h.0), h)
  | inr after ↦ rw after (
    insert-All (λ x. other.created_at ≤ x.created_at) job jobs (ground arith) h.0,
    insert-IsSorted job jobs h.1,
  )
]

sort_by_created-IsSorted : (jobs : List FinalizerJob) → IsSorted (sort_by_created jobs)
unfolding sort_by_created
sort_by_created-IsSorted [] = tt
sort_by_created-IsSorted (job ∷ jobs) = insert-IsSorted job _ (sort_by_created-IsSorted jobs)

pub sort_by_created-All {ℓ} :
    (P : FinalizerJob → Type ℓ) (jobs : List FinalizerJob)
    → All P jobs
    → All P (sort_by_created jobs)
unfolding sort_by_created
sort_by_created-All P [] h = tt
sort_by_created-All P (job ∷ jobs) h = insert-All P job _ h.0 (sort_by_created-All P jobs h.1)

module _ (p : FinalizerJob → Bool) where
  filter-insert-false :
      (job : FinalizerJob) (jobs : List FinalizerJob)
      → p job ≡ false
      → filter p (insert job jobs) ≡ filter p jobs
  unfolding insert
  filter-insert-false job [] h = ground arith
  filter-insert-false job (other ∷ jobs) h = ground (arith, filter-insert-false job jobs h)

  insert-before :
      (job : FinalizerJob) (jobs : List FinalizerJob)
      → All (λ other. job.created_at ≤ other.created_at) jobs
      → insert job jobs ≡ job ∷ jobs
  unfolding insert
  insert-before job [] h = refl
  insert-before job (other ∷ jobs) h = ground arith

  filter-All_le :
      (a : ℕ) (jobs : List FinalizerJob)
      → All (λ other. a ≤ other.created_at) jobs
      → All (λ other. a ≤ other.created_at) (filter p jobs)
  filter-All_le a [] h = tt
  filter-All_le a (other ∷ jobs) h = ground (arith, filter-All_le a jobs h.1)

  filter-insert-true :
      (job : FinalizerJob) (jobs : List FinalizerJob)
      → IsSorted jobs
      → p job ≡ true
      → filter p (insert job jobs) ≡ insert job (filter p jobs)
  unfolding insert
  filter-insert-true job [] s h = ground arith
  filter-insert-true job (other ∷ jobs) s h =
      elim (Bool-cases (leb job.created_at other.created_at)) [
        | inl before ↦ rw before (
            rw h (
              sym (
                insert-before job (filter p (other ∷ jobs)) (
                  filter-All_le job.created_at (other ∷ jobs) (
                    leb→le _ _ before,
                    All-le_trans _ other.created_at jobs (leb→le _ _ before) s.0,
                  )))))
        | inr after ↦ ground (arith, filter-insert-true job jobs s.1 h)
      ]

  filter-sort_by_created :
      (jobs : List FinalizerJob) → filter p (sort_by_created jobs) ≡ sort_by_created (filter p jobs)
  unfolding sort_by_created
  filter-sort_by_created [] = refl
  filter-sort_by_created (job ∷ jobs) = elim (Bool-cases (p job)) [
    | inl yes_ ↦ rw yes_ (
        filter-insert-true job _ (sort_by_created-IsSorted jobs) yes_
        ∙ ap (insert job) (filter-sort_by_created jobs))
    | inr no_ ↦ rw no_ (filter-insert-false job _ no_ ∙ filter-sort_by_created jobs)
  ]

  find?-head? : (jobs : List FinalizerJob) → find? p jobs ≡ head? (filter p jobs)
  find?-head? [] = refl
  find?-head? (job ∷ jobs) = ground (arith, find?-head? jobs)

first_of_sorted :
    (now : ℕ) (jobs : List FinalizerJob)
    → find? (is_candidate now) (sort_by_created jobs)
      ≡ head? (sort_by_created (filter (λ job. is_ok (can_finalize_job job now)) jobs))
first_of_sorted now jobs =
    ap (λ p. find? p (sort_by_created jobs)) (fun_ext (is_candidate-eq now))
    ∙ find?-head? _ (sort_by_created jobs)
    ∙ ap head? (filter-sort_by_created _ jobs)

grant-leased :
    (worker : Text) (lease : ℕ) (store : JobStore) (found : Option FinalizerJob)
    → (grant worker lease store found).1 ≡ Option.map (leased worker lease store.now) found
unfolding grant
grant-leased worker lease store none = refl
grant-leased worker lease store (some job) = refl

-- A worker leases exactly the first job of the listing: it gets none if nothing can be finalized, and
-- otherwise the oldest job that can, locked in its name until the lease ends, with one attempt more.
pub acquire_lease-list_finalizable_jobs :
    (worker : Text) (lease : ℕ) (store : JobStore)
    → (acquire_lease worker lease store).1
      ≡ Option.map
          (leased worker lease store.now)
          (head? (list_finalizable_jobs store.now store.jobs))
unfolding acquire_lease list_finalizable_jobs
acquire_lease-list_finalizable_jobs worker lease store =
    grant-leased worker lease store _
    ∙ ap (Option.map (leased worker lease store.now)) (first_of_sorted store.now store.jobs)
