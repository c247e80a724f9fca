-- ===== src/Payloads/Refine.antt =====
-- Every call of the settlement queue makes one change of the state machine.
use parly_relayer.Prelude.{
  ℕ, ◌≡◌, sym, subst, Bool, true, ◌&&◌, inl, inr, some, Bool-cases, List, [], ◌∷◌, Text, text_eq,
  text_eq_iff, All, All-every, All-zip, All-filter, All-map, filter-All, take-All, head?-All,
  filter, not, sort_by, sort_by-All, arith,
}
use parly_relayer.Payloads.{PayloadRow, CheckpointRow, PayloadStore, has_job}
use parly_relayer.Payloads.Acquire.{
  is_exhausted, is_candidate, exhaust, runs_out_before, exhausted_rows, same_job_as, candidate,
  retire_exhausted,
}
use parly_relayer.Payloads.Moves.{Move, Moves, exhausted, update_rows-Moves}
use parly_relayer.Payloads.Jobs.{IsDistinct, IsOnly, IsDistinct-IsOnly}

module _ {Sealed : Type 0} where
  -- The selection by `job_id` of rows that were chosen: only those rows are selected.
  chosen_only :
      (P : PayloadRow Sealed → Type 0) (rows chosen : List (PayloadRow Sealed))
      → All P chosen
      → All (IsOnly rows) chosen
      → All (λ row. same_job_as chosen row ≡ true → P row) rows
  unfolding same_job_as has_job IsOnly
  chosen_only P rows [] h k =
      All-every (λ row. same_job_as [] row ≡ true → P row) rows (λ row e. cc)
  chosen_only P rows (c ∷ cs) (here, later) (only, onlys) =
      All-zip (λ row. row.job_id ≡ c.job_id → row ≡ c) (λ row. same_job_as cs row ≡ true → P row)
        (λ row. same_job_as (c ∷ cs) row ≡ true → P row) rows
        (λ row same rest e. elim (Bool-cases (text_eq c.job_id row.job_id)) [
          | inl t ↦ subst P (sym (same (sym ((text_eq_iff c.job_id row.job_id).0 t)))) here
          | inr f ↦ rest (ground (arith, e, f))
        ])
        only (chosen_only P rows cs later onlys)

  pub one_only :
      (P : PayloadRow Sealed → Type 0) (rows : List (PayloadRow Sealed)) (c : PayloadRow Sealed)
      → P c
      → IsOnly rows c
      → All (λ row. has_job c.job_id row ≡ true → P row) rows
  unfolding has_job IsOnly
  one_only P rows c h only =
      All-map (λ row. row.job_id ≡ c.job_id → row ≡ c) (λ row. has_job c.job_id row ≡ true → P row)
        rows (λ row same e. subst P (sym (same ((text_eq_iff row.job_id c.job_id).0 e))) h) only

  exhausted_rows_sound :
      (now : ℕ) (locked : Text → Bool) (rows : List (PayloadRow Sealed))
      → All (λ row. is_exhausted now row ≡ true) (exhausted_rows now locked rows)
  unfolding exhausted_rows
  exhausted_rows_sound now locked rows =
      take-All (λ row. is_exhausted now row ≡ true) 100
        (sort_by runs_out_before
          (filter (λ row. is_exhausted now row && not (locked row.job_id)) rows))
        (sort_by-All runs_out_before (λ row. is_exhausted now row ≡ true)
          (filter (λ row. is_exhausted now row && not (locked row.job_id)) rows)
          (All-map _ (λ row. is_exhausted now row ≡ true)
            (filter (λ row. is_exhausted now row && not (locked row.job_id)) rows)
            (λ row e. ground (arith, e))
            (filter-All (λ row. is_exhausted now row && not (locked row.job_id)) rows)))

  exhausted_rows-IsOnly :
      (now : ℕ) (locked : Text → Bool) (rows : List (PayloadRow Sealed))
      → IsDistinct rows
      → All (IsOnly rows) (exhausted_rows now locked rows)
  unfolding exhausted_rows
  exhausted_rows-IsOnly now locked rows h =
      take-All (IsOnly rows) 100
        (sort_by runs_out_before
          (filter (λ row. is_exhausted now row && not (locked row.job_id)) rows))
        (sort_by-All runs_out_before (IsOnly rows)
          (filter (λ row. is_exhausted now row && not (locked row.job_id)) rows)
          (All-filter (IsOnly rows) (λ row. is_exhausted now row && not (locked row.job_id)) rows
            (IsDistinct-IsOnly rows h)))

  pub retire_exhausted-Moves :
      (cps : List CheckpointRow) (now : ℕ) (hash : Text) (locked : Text → Bool)
      (store : PayloadStore Sealed)
      → IsDistinct store.payloads
      → Moves cps now hash store.payloads (retire_exhausted now locked store).payloads
  unfolding retire_exhausted
  retire_exhausted-Moves cps now hash locked store h =
      let chosen = exhausted_rows now locked store.payloads in
      update_rows-Moves cps now hash (same_job_as chosen) (exhaust now) store.payloads (
        All-map (λ row. same_job_as chosen row ≡ true → is_exhausted now row ≡ true)
          (λ row. same_job_as chosen row ≡ true → Move cps now hash row (exhaust now row))
          store.payloads (λ row f e. exhausted row (f e))
          (chosen_only (λ row. is_exhausted now row ≡ true) store.payloads chosen
            (exhausted_rows_sound now locked store.payloads)
            (exhausted_rows-IsOnly now locked store.payloads h)))

  -- The row that is leased is a candidate, and the only one of its job.
  pub candidate_sound :
      (before : PayloadRow Sealed → PayloadRow Sealed → Bool) (now : ℕ) (locked : Text → Bool)
      (rows : List (PayloadRow Sealed)) (row : PayloadRow Sealed)
      → IsDistinct rows
      → candidate before now locked rows ≡ some row
      → (is_candidate now row ≡ true) × IsOnly rows row
  unfolding candidate
  candidate_sound before now locked rows row h e =
      let p = λ (row : PayloadRow Sealed). is_candidate now row && not (locked row.job_id) in
      (
        head?-All (λ row. is_candidate now row ≡ true) (sort_by before (filter p rows)) row
            (sort_by-All before (λ row. is_candidate now row ≡ true) (filter p rows)
              (All-map (λ row. p row ≡ true) (λ row. is_candidate now row ≡ true) (filter p rows)
                (λ row e. ground (arith, e)) (filter-All p rows)))
            e,
        head?-All (IsOnly rows) (sort_by before (filter p rows)) row
            (sort_by-All before (IsOnly rows) (filter p rows)
              (All-filter (IsOnly rows) p rows (IsDistinct-IsOnly rows h)))
            e,
      )
