-- ===== src/Payloads/Jobs.antt =====
-- The job ids of the table: no two rows have the same, and no call changes that of a row.
use parly_relayer.Prelude.{
  ℕ, ◌≡◌, ◌≢◌, refl, sym, ap, subst, Bool, true, List, [], ◌∷◌, ◌++◌, Text, All, All-append,
}
use parly_relayer.Payloads.{PayloadRow, CheckpointRow, unlocked}
use parly_relayer.Payloads.Acquire.{exhaust, lease}
use parly_relayer.Payloads.Enqueue.{confirm_row}
use parly_relayer.Payloads.Report.{requeue, renew_row, fail_row, review_invalid}
use parly_relayer.Payloads.Moves.{
  Move, Moves, Change, exhausted, leased, discarded, requeued, renewed, failed, submitted,
  confirmed, end, kept, moved, nothing, moves, queued, recorded,
}

abbrev pub Distinct : List Text → Type 0
Distinct [] = Unit
Distinct (t ∷ ts) = All (λ u. u ≢ t) ts × Distinct ts

Distinct-snoc :
    (ts : List Text) (t : Text) → Distinct ts → All (λ u. t ≢ u) ts → Distinct (ts ++ t ∷ [])
Distinct-snoc [] t h k = (tt, tt)
Distinct-snoc (u ∷ ts) t (here, later) (ne, nes) =
    (All-append (λ v. v ≢ u) ts (t ∷ []) here (ne, tt), Distinct-snoc ts t later nes)

module _ {Sealed : Type 0} where
  abbrev pub job_ids : List (PayloadRow Sealed) → List Text
  job_ids [] = []
  job_ids (row ∷ rows) = row.job_id ∷ job_ids rows

  job_ids-append :
      (rows rows' : List (PayloadRow Sealed))
      → job_ids (rows ++ rows') ≡ job_ids rows ++ job_ids rows'
  job_ids-append [] rows' = refl
  job_ids-append (row ∷ rows) rows' = ap (λ ids. row.job_id ∷ ids) (job_ids-append rows rows')

  unfoldable pub IsDistinct : List (PayloadRow Sealed) → Type 0
  IsDistinct rows = Distinct (job_ids rows)

  -- PRIMARY KEY: INSERT refuses a job id that a row has.
  unfoldable pub IsKeyed : (PayloadRow Sealed → List (PayloadRow Sealed) → Bool) → Type 0
  IsKeyed admits =
      (row : PayloadRow Sealed) (rows : List (PayloadRow Sealed))
      → admits row rows ≡ true
      → All (λ u. row.job_id ≢ u) (job_ids rows)

  pub Move-job_id :
      {cps : List CheckpointRow} {now : ℕ} {hash : Text} {row row' : PayloadRow Sealed}
      → Move cps now hash row row'
      → row'.job_id ≡ row.job_id
  unfolding exhaust unlocked lease review_invalid requeue renew_row fail_row confirm_row
  Move-job_id (exhausted row h) = refl
  Move-job_id (leased row until duration worker h) = refl
  Move-job_id (discarded row h k) = refl
  Move-job_id (requeued row h) = refl
  Move-job_id (renewed row h) = refl
  Move-job_id (failed row code h) = refl
  Move-job_id (submitted row h k l) = refl
  Move-job_id (confirmed row h) = refl

  pub Moves-job_ids :
      {cps : List CheckpointRow} {now : ℕ} {hash : Text} {rows rows' : List (PayloadRow Sealed)}
      → Moves cps now hash rows rows'
      → job_ids rows' ≡ job_ids rows
  Moves-job_ids end = refl
  Moves-job_ids (kept row rest) = cc (Moves-job_ids rest)
  Moves-job_ids (moved move rest) = cc (Move-job_id move, Moves-job_ids rest)

  pub Moves-IsDistinct :
      {cps : List CheckpointRow} {now : ℕ} {hash : Text} {rows rows' : List (PayloadRow Sealed)}
      → Moves cps now hash rows rows'
      → IsDistinct rows
      → IsDistinct rows'
  unfolding IsDistinct
  Moves-IsDistinct m h = subst Distinct (sym (Moves-job_ids m)) h

  pub Change-IsDistinct :
      {admits : PayloadRow Sealed → List (PayloadRow Sealed) → Bool} {now : ℕ} {hash : Text}
      {rows rows' : List (PayloadRow Sealed)} {cps cps' : List CheckpointRow}
      → IsKeyed admits
      → Change admits now hash rows cps rows' cps'
      → IsDistinct rows
      → IsDistinct rows'
  unfolding IsDistinct IsKeyed
  Change-IsDistinct key (nothing rows cps) h = h
  Change-IsDistinct key (moves m rest) h = Change-IsDistinct key rest (Moves-IsDistinct m h)
  Change-IsDistinct key (queued row rows cps q a) h =
      subst Distinct (sym (job_ids-append rows (row ∷ [])))
        (Distinct-snoc (job_ids rows) row.job_id h (key row rows a))
  Change-IsDistinct key (recorded row rows cps h1 h2 h3) h = h

  -- The only row of its job.
  unfoldable pub IsOnly : List (PayloadRow Sealed) → PayloadRow Sealed → Type 0
  IsOnly rows row = All (λ other. other.job_id ≡ row.job_id → other ≡ row) rows

  others_differ :
      (rows : List (PayloadRow Sealed)) (row : PayloadRow Sealed)
      → All (λ u. u ≢ row.job_id) (job_ids rows)
      → All (λ other. other.job_id ≡ row.job_id → other ≡ row) rows
  others_differ [] row h = tt
  others_differ (other ∷ rows) row (here, later) =
      ((λ e. absurd (here e)), others_differ rows row later)

  IsOnly-still :
      (x : PayloadRow Sealed) (rows rows' : List (PayloadRow Sealed))
      → All (λ u. u ≢ x.job_id) (job_ids rows')
      → All (IsOnly rows) rows'
      → All (IsOnly (x ∷ rows)) rows'
  unfolding IsOnly
  IsOnly-still x rows [] h k = tt
  IsOnly-still x rows (row ∷ rows') (ne, nes) (here, later) =
      (((λ e. absurd (ne (sym e))), here), IsOnly-still x rows rows' nes later)

  pub IsDistinct-IsOnly :
      (rows : List (PayloadRow Sealed)) → IsDistinct rows → All (IsOnly rows) rows
  unfolding IsDistinct IsOnly
  IsDistinct-IsOnly [] h = tt
  IsDistinct-IsOnly (row ∷ rows) (here, later) = (
    ((λ e. refl), others_differ rows row here),
    IsOnly-still row rows rows here (IsDistinct-IsOnly rows later),
  )
