-- ===== src/Payloads/Full.antt =====
-- A job is submitted only with the checkpoints of all three steps, and keeps them.
use parly_relayer.Prelude.{
  ℕ, ◌≡◌, refl, sym, ap, ◌∙◌, subst, Bool, true, false, inl, inr, Bool-cases, some, List, [], ◌∷◌,
  ◌++◌, Text, text_eq, text_eq_iff, length, filter, filter_skips, All, All-append, All-map, arith,
}
use parly_relayer.Payloads.{
  PayloadStatus, FunctionName, PayloadRow, CheckpointRow, PayloadStore, Host, function_index,
  is_leased, is_submitted, holds, unlocked,
}
use parly_relayer.Payloads.Acquire.{of_job, exhaust, lease}
use parly_relayer.Payloads.Enqueue.{confirm_row}
use parly_relayer.Payloads.Report.{requeue, renew_row, fail_row, failed_status, review_invalid}
use parly_relayer.Payloads.Moves.{
  Move, Change, exhausted, leased, discarded, requeued, renewed, failed, submitted, confirmed,
  IsQueued, Moves-All, nothing, moves, queued, recorded,
}
use parly_relayer.Payloads.Jobs.{IsDistinct, IsKeyed}
use parly_relayer.Payloads.Acts.{act-Change, act-IsDistinct}
use parly_relayer.Payloads.Steps.{AreSteps, function_index_bound, Change-AreSteps}
use parly_relayer.Payloads.Calls.{Call, act, after}

unfoldable pub is_done : PayloadStatus → Bool
is_done PayloadStatus.submitted = true
is_done PayloadStatus.confirmed = true
is_done _ = false

module _ {Sealed : Type 0} where
  HasAll : List CheckpointRow → PayloadRow Sealed → Type 0
  HasAll cps row = is_done row.status ≡ true → length (filter (of_job row.job_id) cps) ≡ 3

  Move-HasAll :
      {cps : List CheckpointRow} {now : ℕ} {hash : Text} {row row' : PayloadRow Sealed}
      → Move cps now hash row row'
      → HasAll cps row
      → HasAll cps row'
  unfolding HasAll is_done is_submitted is_leased holds exhaust lease unlocked requeue renew_row
      fail_row failed_status review_invalid confirm_row
  Move-HasAll (exhausted row h) s = λ e. cc
  Move-HasAll (leased row until duration worker h) s = λ e. cc
  Move-HasAll (discarded row h k) s = λ e. cc
  Move-HasAll (requeued row h) s = λ e. cc
  Move-HasAll (renewed row h) s = λ e. ground (arith, h, e)
  Move-HasAll (failed row code h) s = λ e. ground (arith, e)
  Move-HasAll (submitted row h k l) s = λ e. l
  Move-HasAll (confirmed row h) s = λ e. s (ground (arith, h))

  recorded-HasAll :
      (checkpoint : CheckpointRow) (cps : List CheckpointRow) (row : PayloadRow Sealed)
      → length (filter (of_job checkpoint.job_id) cps) ≡ checkpoint.step_index
      → function_index checkpoint.function_name ≡ some checkpoint.step_index
      → HasAll cps row
      → HasAll (cps ++ checkpoint ∷ []) row
  unfolding HasAll of_job
  recorded-HasAll checkpoint cps row l f h = λ done.
      elim (Bool-cases (text_eq checkpoint.job_id row.job_id)) [
        | inl same ↦
            let three : length (filter (of_job checkpoint.job_id) cps) ≡ 3 =
              subst (λ j. length (filter (of_job j) cps) ≡ 3)
                (sym ((text_eq_iff checkpoint.job_id row.job_id).0 same)) (h done) in
            absurd (
              omega (
                arith,
                l,
                three,
                function_index_bound checkpoint.function_name checkpoint.step_index f,
              ))
        | inr other ↦ ap length (filter_skips (of_job row.job_id) cps checkpoint other) ∙ h done
      ]

  Change-HasAll :
      {admits : PayloadRow Sealed → List (PayloadRow Sealed) → Bool} {now : ℕ} {hash : Text}
      {rows rows' : List (PayloadRow Sealed)} {cps cps' : List CheckpointRow}
      → Change admits now hash rows cps rows' cps'
      → All (HasAll cps) rows
      → All (HasAll cps') rows'
  unfolding HasAll IsQueued is_done
  Change-HasAll (nothing rows cps) h = h
  Change-HasAll {cps = cps} (moves m rest) h =
      Change-HasAll rest (Moves-All (HasAll cps) (λ row row' move. Move-HasAll move) m h)
  Change-HasAll (queued row rows cps q a) h =
      All-append (HasAll cps) rows (row ∷ []) h ((λ e. ground (arith, q.0, e)), tt)
  Change-HasAll (recorded row rows cps k l f) h =
      All-map (HasAll cps) (HasAll (cps ++ row ∷ [])) rows (λ r. recorded-HasAll row cps r l f) h

at_0 : (name : FunctionName) → function_index name ≡ some 0 → name ≡ FunctionName.register_attempt
unfolding function_index
at_0 FunctionName.register_attempt e = refl
at_0 FunctionName.record_observation e = ground (arith, e)
at_0 FunctionName.finalize_virtual_deposit e = ground (arith, e)
at_0 FunctionName.submit_payout e = cc

at_1 : (name : FunctionName) → function_index name ≡ some 1 → name ≡ FunctionName.record_observation
unfolding function_index
at_1 FunctionName.register_attempt e = ground (arith, e)
at_1 FunctionName.record_observation e = refl
at_1 FunctionName.finalize_virtual_deposit e = ground (arith, e)
at_1 FunctionName.submit_payout e = cc

at_2 :
    (name : FunctionName)
    → function_index name ≡ some 2
    → name ≡ FunctionName.finalize_virtual_deposit
unfolding function_index
at_2 FunctionName.register_attempt e = ground (arith, e)
at_2 FunctionName.record_observation e = ground (arith, e)
at_2 FunctionName.finalize_virtual_deposit e = refl
at_2 FunctionName.submit_payout e = cc

abbrev pub function_order : List FunctionName
function_order =
    FunctionName.register_attempt ∷ FunctionName.record_observation
    ∷ FunctionName.finalize_virtual_deposit ∷ []

unfoldable pub function_names : List CheckpointRow → List FunctionName
function_names [] = []
function_names (row ∷ rows) = row.function_name ∷ function_names rows

three_steps :
    (rows : List CheckpointRow)
    → AreSteps 0 rows
    → length rows ≡ 3
    → function_names rows ≡ function_order
unfolding function_names
three_steps [] h l = absurd (omega (arith, l))
three_steps (a ∷ []) h l = absurd (omega (arith, l))
three_steps (a ∷ b ∷ []) h l = absurd (omega (arith, l))
three_steps (a ∷ b ∷ c ∷ []) (s, f, (t, g, (u, k, rest))) l =
    cc (at_0 a.function_name f, at_1 b.function_name g, at_2 c.function_name k)
three_steps (a ∷ b ∷ c ∷ d ∷ rows) h l = absurd (omega (arith, l))

-- The functions of a job's checkpoints, where the job is submitted or confirmed.
unfoldable pub IsFull : {Sealed : Type 0} → List CheckpointRow → PayloadRow Sealed → Type 0
IsFull checkpoints row =
    is_done row.status ≡ true
    → function_names (filter (of_job row.job_id) checkpoints) ≡ function_order

after-HasAll :
    {Sealed Payload : Type 0} (host : Host Sealed Payload) (calls : List (Call Payload))
    (store : PayloadStore Sealed)
    → IsKeyed host.admits_payload
    → IsDistinct store.payloads
    → ((job : Text) → AreSteps 0 (filter (of_job job) store.checkpoints))
    → All (HasAll store.checkpoints) store.payloads
    → All (IsFull (after host calls store).checkpoints) (after host calls store).payloads
unfolding after HasAll IsFull
after-HasAll host [] store key h steps full =
    All-map (HasAll store.checkpoints) (IsFull store.checkpoints) store.payloads
      (λ row all done.
        three_steps (filter (of_job row.job_id) store.checkpoints) (steps row.job_id) (all done))
      full
after-HasAll host (call ∷ calls) store key h steps full =
    after-HasAll host calls (act host call store) key (act-IsDistinct host call store key h)
      (λ job. Change-AreSteps job (act-Change host call store h) (steps job))
      (Change-HasAll (act-Change host call store h) full)

abbrev pub no_payloads : {Sealed : Type 0} → PayloadStore Sealed
no_payloads = record { payloads = []; checkpoints = []; events = [] }

-- After any calls on a queue that was empty, whatever their order, times and tokens, every job that is
-- submitted or confirmed has exactly the checkpoints of the three functions, in their order, given that the
-- table admits no second row of a job.
pub after-IsFull :
    {Sealed Payload : Type 0} (host : Host Sealed Payload) (calls : List (Call Payload))
    → IsKeyed host.admits_payload
    → All
        (IsFull (after host calls no_payloads).checkpoints)
        (after host calls no_payloads).payloads
unfolding IsDistinct
after-IsFull host calls key = after-HasAll host calls no_payloads key tt (λ job. tt) tt
