-- ===== src/Finalizer/Calls.antt =====
-- Sequences of calls of the in-memory job store: what they lease, and what they leave in the store.
use parly_relayer.Prelude.{
  ℕ, ◌≡◌, ◌⊎◌, refl, inl, inr, List, [], ◌∷◌, Option, some, none, Option-cases, find?, Text,
}
use parly_relayer.Finalizer.{
  FinalizerJob, JobStore, set_now, sort_by_created, is_candidate, leased, acquire_lease, upsert,
  grant,
}

-- `acquireLease` and `upsert`.
pub data Request : Type 0 where
  acquires : (worker : Text) (lease : ℕ) → Request
  upserts : (job : FinalizerJob) → Request

-- The clock is set, by `setNow`, before each call.
pub record Call : Type 0 where
  pub now : ℕ
  pub request : Request

unfoldable pub respond : Request → JobStore → JobStore × Option FinalizerJob
respond (acquires worker lease) store = acquire_lease worker lease store
respond (upserts job) store = (upsert job store, none)

unfoldable pub act : Call → JobStore → JobStore × Option FinalizerJob
act call store = respond call.request (set_now call.now store)

unfoldable pub after : List Call → JobStore → JobStore
after [] store = store
after (call ∷ calls) store = after calls (act call store).0

abbrev pub with_job : Option FinalizerJob → List FinalizerJob → List FinalizerJob
with_job none jobs = jobs
with_job (some job) jobs = job ∷ jobs

-- The jobs that a sequence of calls leases.
unfoldable pub leases : List Call → JobStore → List FinalizerJob
leases [] store = []
leases (call ∷ calls) store = with_job (act call store).1 (leases calls (act call store).0)

pub acquire_lease_cases :
    (worker : Text) (lease : ℕ) (store : JobStore)
    → (acquire_lease worker lease store ≡ (store, none))
      ⊎ ((store' : JobStore) × (job : FinalizerJob) × (acquire_lease worker lease store
            ≡ (store', some job)))
unfolding acquire_lease grant
acquire_lease_cases worker lease store =
    elim (Option-cases (find? (is_candidate store.now) (sort_by_created store.jobs))) [
      | inl missing ↦ inl (rw (missing, grant) refl)
      | inr (c, found) ↦
          let held = leased worker lease store.now c in
          inr (upsert held store, held, rw (found, grant) refl)
    ]
