-- ===== src/Payloads/Steps.antt =====
-- The checkpoints of a job: always the first steps in their order, and all three once it is submitted.
use parly_relayer.Prelude.{
  ℕ, ◌+◌, ◌≤◌, ◌≡◌, refl, sym, ap, ◌∙◌, subst, Bool, false, inl, inr, Bool-cases, ltb, some, List,
  [], ◌∷◌, ◌++◌, map, Text, text_eq, text_eq_iff, length, filter, filter_skips, filter_keeps, All,
  All-map, sort_by, IsOrdered, sort_by-IsOrdered, arith,
}
use parly_relayer.Payloads.{
  FunctionName, PayloadRow, CheckpointRow, PayloadStore, Host, function_index,
}
use parly_relayer.Payloads.Acquire.{
  ConfirmedTransaction, of_job, earlier_step, is_function_at, ordered_prefix,
}
use parly_relayer.Payloads.Moves.{Change, nothing, moves, queued, recorded}
use parly_relayer.Payloads.Jobs.{IsDistinct, IsKeyed}
use parly_relayer.Payloads.Acts.{act-Change, act-IsDistinct}
use parly_relayer.Payloads.Calls.{Call, act, after}

-- The steps from an index on, in order.
abbrev pub AreSteps : ℕ → List CheckpointRow → Type 0
AreSteps index [] = Unit
AreSteps index (row ∷ rows) =
    (row.step_index ≡ index)
    × (function_index row.function_name ≡ some index)
    × AreSteps (index + 1) rows

AreSteps-snoc :
    (index : ℕ) (rows : List CheckpointRow) (row : CheckpointRow)
    → AreSteps index rows
    → row.step_index ≡ index + length rows
    → function_index row.function_name ≡ some row.step_index
    → AreSteps index (rows ++ row ∷ [])
AreSteps-snoc index [] row h e f = (omega (arith, e), f ∙ ap some (omega (arith, e)), tt)
AreSteps-snoc index (first ∷ rows) row (s, f, later) e g =
    (s, f, AreSteps-snoc (index + 1) rows row later (omega (arith, e)) g)

-- There are three steps.
pub function_index_bound :
    (name : FunctionName) (index : ℕ) → function_index name ≡ some index → index + 1 ≤ 3
unfolding function_index
function_index_bound FunctionName.register_attempt index e = ground (arith, e)
function_index_bound FunctionName.record_observation index e = ground (arith, e)
function_index_bound FunctionName.finalize_virtual_deposit index e = ground (arith, e)
function_index_bound FunctionName.submit_payout index e = cc

AreSteps-bound :
    (index : ℕ) (rows : List CheckpointRow)
    → AreSteps index rows
    → index ≤ 3
    → index + length rows ≤ 3
AreSteps-bound index [] h le = omega (arith, le)
AreSteps-bound index (row ∷ rows) (s, f, later) le =
    let next : index + 1 ≤ 3 = function_index_bound row.function_name index f in
    omega (arith, AreSteps-bound (index + 1) rows later next)

AreSteps-later :
    (index : ℕ) (rows : List CheckpointRow)
    → AreSteps index rows
    → All (λ row. index ≤ row.step_index) rows
AreSteps-later index [] h = tt
AreSteps-later index (row ∷ rows) (s, f, later) = (
  omega (arith, s),
  All-map (λ row. index + 1 ≤ row.step_index) (λ row. index ≤ row.step_index) rows
      (λ row le. omega (arith, le)) (AreSteps-later (index + 1) rows later),
)

AreSteps-IsOrdered :
    (index : ℕ) (rows : List CheckpointRow) → AreSteps index rows → IsOrdered earlier_step rows
unfolding earlier_step
AreSteps-IsOrdered index [] h = tt
AreSteps-IsOrdered index (row ∷ rows) (s, f, later) = (
  All-map (λ row. index + 1 ≤ row.step_index) (λ other. ltb other.step_index row.step_index ≡ false)
      rows (λ other le. ground (arith, le, s)) (AreSteps-later (index + 1) rows later),
  AreSteps-IsOrdered (index + 1) rows later,
)

unfoldable pub confirmed_of : CheckpointRow → ConfirmedTransaction
confirmed_of row = record {
  function_name = row.function_name;
  transaction_hash = row.transaction_hash;
}

ordered_prefix-AreSteps :
    (index : ℕ) (rows : List CheckpointRow)
    → AreSteps index rows
    → ordered_prefix index rows ≡ some (map confirmed_of rows)
unfolding ordered_prefix confirmed_of is_function_at
ordered_prefix-AreSteps index [] h = refl
ordered_prefix-AreSteps index (row ∷ rows) (s, f, later) =
    ground (arith, s, f, ordered_prefix-AreSteps (index + 1) rows later)

-- The next checkpoint of one job, seen from another or the same.
recorded-AreSteps :
    (job : Text) (row : CheckpointRow) (cps : List CheckpointRow)
    → length (filter (of_job row.job_id) cps) ≡ row.step_index
    → function_index row.function_name ≡ some row.step_index
    → AreSteps 0 (filter (of_job job) cps)
    → AreSteps 0 (filter (of_job job) (cps ++ row ∷ []))
unfolding of_job
recorded-AreSteps job row cps l f h = elim (Bool-cases (text_eq row.job_id job)) [
  | inl same ↦ subst (AreSteps 0) (sym (filter_keeps (of_job job) cps row same)) (
      AreSteps-snoc 0 (filter (of_job job) cps) row h
        (subst (λ j. row.step_index ≡ 0 + length (filter (of_job j) cps))
          ((text_eq_iff row.job_id job).0 same) (omega (arith, l)))
        f)
  | inr other ↦ subst (AreSteps 0) (sym (filter_skips (of_job job) cps row other)) h
]

module _ {Sealed : Type 0} where
  pub Change-AreSteps :
      {admits : PayloadRow Sealed → List (PayloadRow Sealed) → Bool} {now : ℕ} {hash : Text}
      {rows rows' : List (PayloadRow Sealed)} {cps cps' : List CheckpointRow} (job : Text)
      → Change admits now hash rows cps rows' cps'
      → AreSteps 0 (filter (of_job job) cps)
      → AreSteps 0 (filter (of_job job) cps')
  Change-AreSteps job (nothing rows cps) h = h
  Change-AreSteps job (moves m rest) h = Change-AreSteps job rest h
  Change-AreSteps job (queued row rows cps q a) h = h
  Change-AreSteps job (recorded row rows cps k l f) h = recorded-AreSteps job row cps l f h

-- If the checkpoints of a job are its first steps in order, and the table has one row of a job at most, then
-- in the store that any calls leave an acquisition reads them without an error: the sorted checkpoints pass
-- the test of an ordered prefix, and are handed to the worker as they were recorded.
pub after-ordered_prefix :
    {Sealed Payload : Type 0} (host : Host Sealed Payload) (calls : List (Call Payload))
    (store : PayloadStore Sealed) (job : Text)
    → IsKeyed host.admits_payload
    → IsDistinct store.payloads
    → AreSteps 0 (filter (of_job job) store.checkpoints)
    → (let recorded : List CheckpointRow =
          filter (of_job job) (after host calls store).checkpoints in
        ordered_prefix 0 (sort_by earlier_step recorded) ≡ some (map confirmed_of recorded))
unfolding after
after-ordered_prefix host [] store job key h steps =
    ap (ordered_prefix 0) (
      sort_by-IsOrdered earlier_step (filter (of_job job) store.checkpoints)
        (AreSteps-IsOrdered 0 (filter (of_job job) store.checkpoints) steps))
    ∙ ordered_prefix-AreSteps 0 (filter (of_job job) store.checkpoints) steps
after-ordered_prefix host (call ∷ calls) store job key h steps =
    after-ordered_prefix host calls (act host call store) job key
      (act-IsDistinct host call store key h)
      (Change-AreSteps job (act-Change host call store h) steps)
