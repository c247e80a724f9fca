-- ===== src/Locks/Steps.antt =====
-- The steps of the table keep the fence.
use parly_relayer.Prelude.{
  ℕ, length, ◌==◌, ◌≡◌, ◌≢◌, refl, sym, subst, Bool, true, false, ◌&&◌, not, List, [], ◌∷◌, ◌++◌,
  Option, some, none, ok, arith, filter, any, find?, All, All-map, inl, inr, ◌⊎◌, >>=-eq-ok, guard,
  guard-eq-ok,
}
use parly_relayer.Locks.{
  Call, Execution, RetirementProof, Retained, is_released, overlaps, is_call, is_prior, reserved,
  insert_row, answer, retain_pool_v4_relay_execution, release, verified, valid_identity, distinct,
  bad_identity, permanently_retired, binding_changed, execution_changed, is_same_binding,
  retire_bound, retire_row, retire_payout_v7_source_lock, is_submitted, record_submission,
}
use parly_relayer.Locks.Fence.{
  Apart, IsFenced, Step, retained, retired, submitted, Reaches, here, onward, IsFenced-append,
  update_where-IsFenced, release-Keeps, unused, overlaps_of_prior,
}

pub record IsInserted (row : Execution) (rows rows' : List Execution) : Type 0 where
  pub free : any (is_call row.call_hash) rows ≡ false
  pub grown : rows' ≡ rows ++ row ∷ []

pub insert_row-IsInserted :
    (row : Execution) (rows rows' : List Execution)
    → insert_row row rows ≡ ok rows'
    → IsInserted row rows rows'
unfolding insert_row
insert_row-IsInserted row rows rows' h = record { free = ground arith; grown = ground arith }

-- The table after a call of `retainPoolV4RelayExecution`: as it was, or with a new row.
pub answer_cases :
    (c : Call) (reserve : Bool) (prior rows rows' : List Execution) (a : Retained)
    → answer c reserve prior rows ≡ ok (rows', a)
    → (rows' ≡ rows) ⊎ ((prior ≡ []) × IsInserted (reserved c) rows rows')
unfolding answer
answer_cases c true [] rows rows' a h =
    let (rows'', inserted, h') = >>=-eq-ok (insert_row (reserved c) rows) _ h in
    inr (refl, insert_row-IsInserted (reserved c) rows rows' (ground (arith, inserted)))
answer_cases c false [] rows rows' a h = inl (ground arith)
answer_cases c reserve (row ∷ []) rows rows' a h = inl (ground arith)
answer_cases c reserve (row ∷ other ∷ more) rows rows' a h = cc

pub retain_cases :
    (c : Call) (reserve : Bool) (rows rows' : List Execution) (a : Retained)
    → retain_pool_v4_relay_execution c reserve rows ≡ ok (rows', a)
    → (answer c reserve (filter (is_prior c) rows) rows ≡ ok (rows', a))
      × (any (λ row. is_call c.call_hash row && is_released row) rows ≡ false)
unfolding retain_pool_v4_relay_execution
retain_cases c reserve rows rows' a h =
    let (_, _, h') = >>=-eq-ok (guard (valid_identity c) bad_identity) _ h in
    let (_, live, h'') =
      >>=-eq-ok
        (guard (not (any (λ row. is_call c.call_hash row && is_released row) rows))
          permanently_retired)
        _ h' in
    (h'', ground (arith, guard-eq-ok _ _ live))

inserted-IsFenced :
    (new : Execution) (rows rows' : List Execution)
    → IsInserted new rows rows'
    → All
        (λ r.
          is_released r ≡ false
          → is_released new ≡ false
          → r.pool_address ≡ new.pool_address
          → overlaps r.nullifiers new.nullifiers ≡ false)
        rows
    → IsFenced rows
    → IsFenced rows'
inserted-IsFenced new rows rows' i apart h =
    subst IsFenced (sym i.grown)
      (IsFenced-append rows new h (zip rows (unused new.call_hash rows i.free) apart))
  where
    zip :
        (xs : List Execution)
        → All (λ r. r.call_hash ≢ new.call_hash) xs
        → All
            (λ r.
              is_released r ≡ false
              → is_released new ≡ false
              → r.pool_address ≡ new.pool_address
              → overlaps r.nullifiers new.nullifiers ≡ false)
            xs
        → All (λ r. Apart r new) xs
    zip [] a b = tt
    zip (x ∷ xs) a b = ((a.0, b.0), zip xs a.1 b.1)

retain-IsFenced :
    (c : Call) (reserve : Bool) (rows rows' : List Execution) (a : Retained)
    → IsFenced rows
    → retain_pool_v4_relay_execution c reserve rows ≡ ok (rows', a)
    → IsFenced rows'
unfolding reserved
retain-IsFenced c reserve rows rows' a f h =
    elim (answer_cases c reserve (filter (is_prior c) rows) rows rows' a
      (retain_cases c reserve rows rows' a h).0) [
        | inl same ↦ subst IsFenced (sym same) f
        | inr (none_prior, i) ↦
            inserted-IsFenced (reserved c) rows rows' i
              (All-map _ _ rows (λ r far live _ pool. far live pool)
                (overlaps_of_prior c rows none_prior))
              f
      ]

release-IsReleased :
    (now : ℕ) (proof : RetirementProof) (r : Execution) → is_released (release now proof r) ≢ false
unfolding release is_released
release-IsReleased now proof r h = cc

always {ℓ} : {P : Execution → Type ℓ} (rows : List Execution) → ((r : Execution) → P r) → All P rows
always [] f = tt
always (r ∷ rows) f = (f r, always rows f)

retire_bound-IsFenced :
    (now : ℕ) (c : Call) (verify : Option RetirementProof) (rows rows' : List Execution)
    (at : Option (ℕ × RetirementProof)) (proof : RetirementProof)
    → IsFenced rows
    → retire_bound now c verify rows at ≡ ok (rows', proof)
    → IsFenced rows'
unfolding retire_bound
retire_bound-IsFenced now c verify rows rows' (some (at, old)) proof f h =
    subst IsFenced (ground arith) f
retire_bound-IsFenced now c verify rows rows' none proof f h =
    let (p, _, h') = >>=-eq-ok (verified c verify) _ h in
    subst IsFenced (ground (arith, h'))
      (update_where-IsFenced (is_call c.call_hash) (release now p) rows (release-Keeps now p) f)

retire_row-IsFenced :
    (now : ℕ) (c : Call) (verify : Option RetirementProof) (rows rows' : List Execution)
    (found : Option Execution) (proof : RetirementProof)
    → IsFenced rows
    → retire_row now c verify rows found ≡ ok (rows', proof)
    → IsFenced rows'
unfolding retire_row
retire_row-IsFenced now c verify rows rows' none proof f h =
    let (p, _, h') = >>=-eq-ok (verified c verify) _ h in
    let (rows'', inserted, h'') = >>=-eq-ok (insert_row (release now p (reserved c)) rows) _ h' in
    inserted-IsFenced (release now p (reserved c)) rows rows'
      (insert_row-IsInserted (release now p (reserved c)) rows rows'
        (ground (arith, inserted, h'')))
      (always rows (λ r live dead. absurd (release-IsReleased now p (reserved c) dead))) f
retire_row-IsFenced now c verify rows rows' (some row) proof f h =
    let (_, _, h') = >>=-eq-ok (guard (is_same_binding c row) binding_changed) _ h in
    retire_bound-IsFenced now c verify rows rows' row.retired proof f h'

pub Step-IsFenced : {rows rows' : List Execution} → Step rows rows' → IsFenced rows → IsFenced rows'
unfolding retire_payout_v7_source_lock record_submission is_released
Step-IsFenced (retained {rows} {rows'} c reserve a h) f = retain-IsFenced c reserve rows rows' a f h
Step-IsFenced (retired {rows} {rows'} now c verify proof h) f =
    let (_, _, h') =
      >>=-eq-ok (guard (valid_identity c && distinct c.nullifiers) bad_identity) _ h in
    retire_row-IsFenced now c verify rows rows' (find? (is_call c.call_hash) rows) proof f h'
Step-IsFenced (submitted {rows} {rows'} call relayer hash h) f =
    let (_, _, h') =
      >>=-eq-ok
        (guard (length (filter (is_submitted call relayer hash) rows) == 1) execution_changed) _
        h in
    subst IsFenced (ground (arith, h')) (
      update_where-IsFenced (is_submitted call relayer hash)
        (λ row. record row { transaction_hash = some hash }) rows
        (λ r. record { call = refl; pool = refl; inputs = refl; live = λ k. k }) f)

-- In a table that any calls of the three functions reach from one in which it holds, two rows are of
-- different calls, and no two live rows of a pool share a nullifier.
pub Reaches-IsFenced :
    {rows rows' : List Execution} → Reaches rows rows' → IsFenced rows → IsFenced rows'
Reaches-IsFenced here f = f
Reaches-IsFenced (onward s later) f = Reaches-IsFenced later (Step-IsFenced s f)
