-- ===== src/Payouts/Settled.antt =====
-- A payout whose transaction was recorded is not sent again.
use parly_relayer.Prelude.{
  ℕ, zero, suc, ◌≡◌, refl, ◌∙◌, Bool, true, false, not, if◌then◌else◌, Option, none, some, List, [],
  ◌∷◌, filter, filter_skips, All, All-append, Result, ok, err, Text, text_eq, trim, is_nonempty,
  arith,
}
use parly_relayer.Payloads.{PayloadError, Host}
use parly_relayer.Payloads.Leases.{is_set}
use parly_relayer.Payouts.{
  PayoutSubmitJob, PayoutCheckpoint, PayoutTables, PayoutJob, record_payout_v3_execution_dry_run,
  renew_payout_v3_execution_lease, record_payout_v3_execution_failed,
  record_payout_v3_execution_payload_invalid,
}
use parly_relayer.Payouts.Worker.{
  Config, Sent, Ethereum, Outcome, Stage, Reply, World, Run, Event, System, start, planned,
  is_prepared, transaction_of, leased, recorded, broadcast_after, advance, resume_at, step, steps,
}
use parly_relayer.Payouts.Loads.{
  has_checkpoint, is_safe_job, IsSafeResult, Kept, on_queue-Kept, acquire-IsSafeResult,
  confirmed-Kept, submitted-Kept,
}

unfoldable pub sent_for : Text → List Sent → List Sent
sent_for p sent = filter (λ s. text_eq s.payout_id p) sent

-- A run that is not between the leasing and the broadcast of an unrecorded transaction of `p`.
unfoldable pub is_safe_stage : Text → Stage → Bool
is_safe_stage p (Stage.preparing job) = is_safe_job p job
is_safe_stage p (Stage.renewing job) = not (text_eq job.submit_job.payout_id p)
is_safe_stage p stage = true

leased_is_safe :
    (p : Text) (b : Bool) (job : PayoutJob)
    → is_safe_job p job ≡ true
    → is_safe_stage p (if b then Stage.preparing job else Stage.ended Outcome.thrown) ≡ true
unfolding is_safe_stage
leased_is_safe p true job h = h
leased_is_safe p false job h = refl

module _ {Sealed : Type 0} (p : Text) where
  -- What a run leaves: the checkpoint is there, the run is safe, and nothing was sent for the payout.
  IsSafeStep : World Sealed → World Sealed × Stage → Type 0
  IsSafeStep w next =
      (has_checkpoint p next.0.tables ≡ true)
      × (is_safe_stage p next.1 ≡ true)
      × (sent_for p next.0.sent ≡ sent_for p w.sent)

  leased-IsSafeStep :
      (w : World Sealed) (r : Result PayloadError (PayoutTables Sealed × Option (Option PayoutJob)))
      → has_checkpoint p w.tables ≡ true
      → IsSafeResult p r
      → IsSafeStep w (leased w r)
  unfolding IsSafeStep leased is_safe_stage
  leased-IsSafeStep w (err e) h k = (h, refl, refl)
  leased-IsSafeStep w (ok (tables, none)) h k = (k.0, refl, refl)
  leased-IsSafeStep w (ok (tables, some none)) h k = (k.0, refl, refl)
  leased-IsSafeStep w (ok (tables, some (some job))) h k =
      (k.0, leased_is_safe p (is_nonempty (trim job.lease_token)) job k.1, refl)

  recorded-IsSafeStep :
      (w : World Sealed) (next : Stage) (r : Result PayloadError (PayoutTables Sealed))
      → has_checkpoint p w.tables ≡ true
      → is_safe_stage p next ≡ true
      → Kept p r
      → IsSafeStep w (recorded w next r)
  unfolding IsSafeStep recorded Kept is_safe_stage
  recorded-IsSafeStep w next (ok tables) h s k = (k, s, refl)
  recorded-IsSafeStep w next (err e) h s k = (h, refl, refl)

  broadcast_after-IsSafeStep :
      (w : World Sealed) (job : PayoutJob) (transaction : Sent)
      (r : Result PayloadError (PayoutTables Sealed))
      → has_checkpoint p w.tables ≡ true
      → text_eq transaction.payout_id p ≡ false
      → Kept p r
      → IsSafeStep w (broadcast_after w job transaction r)
  unfolding IsSafeStep broadcast_after Kept is_safe_stage sent_for
  broadcast_after-IsSafeStep w job transaction (ok tables) h other k =
      (k, refl, filter_skips (λ s. text_eq s.payout_id p) w.sent transaction other)
  broadcast_after-IsSafeStep w job transaction (err e) h other k = (h, refl, refl)

module _ {Sealed : Type 0} (host : Host Sealed PayoutSubmitJob) (ethereum : Ethereum)
    (admits : PayoutCheckpoint → List PayoutCheckpoint → Bool)
    (first : List PayoutCheckpoint → Option PayoutCheckpoint) (p : Text) where
  planned_is_safe :
      (c : Config) (job : PayoutJob) (b : Bool)
      → is_safe_job p job ≡ true
      → is_safe_stage p (if b then planned c job job.confirmed_transaction else Stage.invalid job)
        ≡ true
  unfolding planned is_safe_stage is_safe_job is_set
  planned_is_safe c job b h = ground (arith, h)

  advance-IsSafeStep :
      (c : Config) (stage : Stage) (reply : Reply) (w : World Sealed)
      → has_checkpoint p w.tables ≡ true
      → is_safe_stage p stage ≡ true
      → IsSafeStep p w (advance host ethereum admits first c stage reply w)
  unfolding advance IsSafeStep is_safe_stage transaction_of
      record_payout_v3_execution_payload_invalid record_payout_v3_execution_dry_run
      renew_payout_v3_execution_lease record_payout_v3_execution_failed
  advance-IsSafeStep c Stage.acquiring (Reply.leasing now clock locked token) w h s =
      leased-IsSafeStep p w _ h (
        acquire-IsSafeResult p host admits first now clock locked c.worker_id c.lease_ms token
          w.tables h)
  advance-IsSafeStep c (Stage.preparing job) (Reply.eligible e) w h s =
      (h, planned_is_safe c job (is_prepared ethereum c e job.submit_job) s, refl)
  advance-IsSafeStep c (Stage.invalid job) (Reply.at now) w h s =
      recorded-IsSafeStep p w (Stage.ended Outcome.thrown) _ h refl (on_queue-Kept p w.tables _ h)
  advance-IsSafeStep c (Stage.dry job) (Reply.at now) w h s =
      recorded-IsSafeStep p w (Stage.ended Outcome.prepared) _ h refl (on_queue-Kept p w.tables _ h)
  advance-IsSafeStep c (Stage.renewing job) (Reply.at now) w h s =
      broadcast_after-IsSafeStep p w job (transaction_of ethereum c job.submit_job) _ h
        (ground (arith, s)) (on_queue-Kept p w.tables _ h)
  advance-IsSafeStep c (Stage.broadcasting job) (Reply.success hash) w h s = (h, refl, refl)
  advance-IsSafeStep c (Stage.broadcasting job) Reply.reverted w h s = (h, refl, refl)
  advance-IsSafeStep c (Stage.broadcasting job) Reply.unsent w h s = (h, refl, refl)
  advance-IsSafeStep c (Stage.failing job code) (Reply.at now) w h s =
      recorded-IsSafeStep p w (Stage.ended Outcome.thrown) _ h refl (on_queue-Kept p w.tables _ h)
  advance-IsSafeStep c (Stage.confirming job hash) (Reply.at now) w h s =
      recorded-IsSafeStep p w (Stage.submitting job hash) _ h refl (
        confirmed-Kept p host admits first now job.submit_job.payout_id job.lease_token hash
          w.tables h)
  advance-IsSafeStep c (Stage.submitting job hash) (Reply.at now) w h s =
      recorded-IsSafeStep p w (Stage.ended (Outcome.submitted hash)) _ h refl (
        submitted-Kept p host admits first now job.submit_job.payout_id job.lease_token hash
          w.tables h)
  advance-IsSafeStep c (Stage.ended outcome) reply w h s = (h, refl, refl)
  advance-IsSafeStep c stage Reply.crash w h s = (h, refl, refl)
  advance-IsSafeStep c stage reply w h s = (h, s, refl)

  -- No run of a system is between the leasing and the broadcast of an unrecorded transaction of `p`.
  unfoldable pub AreSafeRuns : List Run → Type 0
  AreSafeRuns runs = All (λ run. is_safe_stage p run.stage ≡ true) runs

  resume_at-AreSafeRuns :
      (i : ℕ) (reply : Reply) (w : World Sealed) (runs : List Run)
      → has_checkpoint p w.tables ≡ true
      → AreSafeRuns runs
      → (let next = resume_at host ethereum admits first i reply w runs in
          (has_checkpoint p next.0.tables ≡ true)
          × AreSafeRuns next.1
          × (sent_for p next.0.sent ≡ sent_for p w.sent))
  unfolding resume_at AreSafeRuns IsSafeStep
  resume_at-AreSafeRuns i reply w [] h s = (h, tt, refl)
  resume_at-AreSafeRuns zero reply w (run ∷ runs) h (here, later) =
      let next = advance-IsSafeStep run.config run.stage reply w h here in
      (next.0, (next.1, later), next.2)
  resume_at-AreSafeRuns (suc i) reply w (run ∷ runs) h (here, later) =
      let rest = resume_at-AreSafeRuns i reply w runs h later in (rest.0, (here, rest.1), rest.2)

  start_is_safe : (c : Config) → is_safe_stage p (start ethereum c) ≡ true
  unfolding start is_safe_stage
  start_is_safe c = ground arith

  step-AreSafeRuns :
      (e : Event) (s : System Sealed)
      → has_checkpoint p s.world.tables ≡ true
      → AreSafeRuns s.runs
      → (let next : System Sealed = step host ethereum admits first e s in
          (has_checkpoint p next.world.tables ≡ true)
          × AreSafeRuns next.runs
          × (sent_for p next.world.sent ≡ sent_for p s.world.sent))
  unfolding step AreSafeRuns
  step-AreSafeRuns (Event.launch config) s h k = (
    h,
    All-append (λ run. is_safe_stage p run.stage ≡ true) s.runs _ k (start_is_safe config, tt),
    refl,
  )
  step-AreSafeRuns (Event.resume i reply) s h k = resume_at-AreSafeRuns i reply s.world s.runs h k

  -- Once the transaction of a payout is recorded, and no run is between the leasing of the payout without it
  -- and its broadcast, no transaction is handed to the broadcaster for that payout: not by any run that is
  -- launched later or goes on, in any order, whatever the replies, and wherever runs crash.
  pub sent_for-steps :
      (es : List Event) (s : System Sealed)
      → has_checkpoint p s.world.tables ≡ true
      → AreSafeRuns s.runs
      → sent_for p (steps host ethereum admits first es s).world.sent ≡ sent_for p s.world.sent
  unfolding steps
  sent_for-steps [] s h k = refl
  sent_for-steps (e ∷ es) s h k =
      let next = step-AreSafeRuns e s h k in
      sent_for-steps es (step host ethereum admits first e s) next.0 next.1 ∙ next.2
