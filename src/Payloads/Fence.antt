-- ===== src/Payloads/Fence.antt =====
-- A lease fences its job: until it ends, no call under another token touches the row.
use parly_relayer.Prelude.{
  ℕ, ◌≤◌, ◌≡◌, ◌≢◌, refl, sym, ◌∙◌, Bool, true, false, Option, none, some, List, [], ◌∷◌, Text,
  text_eq, text_eq_iff, text_eq_refl, filter_skips, Bool-cases, inl, inr, filter, All, arith,
}
use parly_relayer.Payloads.{
  PayloadStatus, FailureCode, PayloadRow, CheckpointRow, PayloadStore, Host, is_leased,
  is_submitted, runs_at, ran_out_at, has_token, holds, unlocked,
}
use parly_relayer.Payloads.Acquire.{is_waiting, is_exhausted, is_candidate, exhaust, lease}
use parly_relayer.Payloads.Enqueue.{confirm_row}
use parly_relayer.Payloads.Report.{requeue, renew_row, fail_row, failed_status, review_invalid}
use parly_relayer.Payloads.Moves.{
  Move, Moves, Change, exhausted, leased, discarded, requeued, renewed, failed, submitted,
  confirmed, IsQueued, end, kept, moved, nothing, moves, queued, recorded,
}
use parly_relayer.Payloads.Jobs.{IsDistinct, IsKeyed}
use parly_relayer.Payloads.Acts.{act-Change, act-IsDistinct}
use parly_relayer.Payloads.Calls.{Call, act, after}

-- A lease that ran out before `now` does not run at a later time.
not_running :
    (until : Option ℕ) (now later : ℕ)
    → now ≤ later
    → ran_out_at until now ≡ true
    → runs_at until later ≡ false
unfolding ran_out_at runs_at
not_running none now later le h = refl
not_running (some t) now later le h = ground arith

other_token :
    (token : Option Text) (hash other : Text)
    → other ≢ hash
    → has_token token other ≡ true
    → has_token token hash ≡ false
unfolding has_token
other_token none hash other ne h = refl
other_token (some t) hash other ne h = elim (Bool-cases (text_eq t hash)) [
  | inl same ↦ absurd (ne (sym ((text_eq_iff t other).0 h) ∙ (text_eq_iff t hash).0 same))
  | inr differ ↦ differ
]

module _ {Sealed : Type 0} (later : ℕ) (job hash : Text) where
  no_token :
      (row : PayloadRow Sealed)
      → has_token row.lease_token_hash hash ≡ false
      → holds later job hash row ≡ false
  unfolding holds
  no_token row h = ground (arith, h)

  no_lease :
      (row : PayloadRow Sealed) → is_leased row.status ≡ false → holds later job hash row ≡ false
  unfolding holds
  no_lease row h = ground (arith, h)

  no_time :
      (row : PayloadRow Sealed)
      → runs_at row.locked_until later ≡ false
      → holds later job hash row ≡ false
  unfolding holds
  no_time row h = ground (arith, h)

  fail_row-idle :
      (now : ℕ) (code : FailureCode) (row : PayloadRow Sealed)
      → is_leased (fail_row now code row).status ≡ false
  unfolding fail_row unlocked failed_status is_leased
  fail_row-idle now code row = ground arith

  exhausted-ran_out :
      (now : ℕ) (row : PayloadRow Sealed)
      → is_exhausted now row ≡ true
      → ran_out_at row.locked_until now ≡ true
  unfolding is_exhausted
  exhausted-ran_out now row h = ground (arith, h)

  candidate_out :
      {now : ℕ} (row : PayloadRow Sealed)
      → now ≤ later
      → is_candidate now row ≡ true
      → holds later job hash row ≡ false
  unfolding is_candidate is_waiting holds is_leased
  candidate_out {now = now} row le h = elim (Bool-cases (ran_out_at row.locked_until now)) [
    | inl out ↦ no_time row (not_running row.locked_until now later le out)
    | inr running ↦ ground (arith, h, running)
  ]

  held_other :
      (now : ℕ) {other : Text} (row : PayloadRow Sealed)
      → holds now row.job_id other row ≡ true
      → other ≢ hash
      → has_token row.lease_token_hash hash ≡ false
  unfolding holds
  held_other now {other = other} row h ne =
      other_token row.lease_token_hash hash other ne (ground (arith, h))

  -- A call under another token moves only rows that the lease does not hold, before and after.
  not_held :
      {cps : List CheckpointRow} {now : ℕ} {other : Text} {row row' : PayloadRow Sealed}
      → now ≤ later
      → other ≢ hash
      → Move cps now other row row'
      → (holds later job hash row ≡ false) × (holds later job hash row' ≡ false)
  unfolding holds has_token exhaust lease unlocked requeue renew_row review_invalid confirm_row
      is_leased is_submitted
  not_held {now = now} le ne (exhausted row h) = (
    no_time row (not_running row.locked_until now later le (exhausted-ran_out now row h)),
    no_lease (exhaust now row) refl,
  )
  not_held {now = now} {other = other} le ne (leased row until duration worker h) = (
    candidate_out row le h,
    no_token (lease now until duration worker other row)
        (other_token (some other) hash other ne (text_eq_refl other)),
  )
  not_held {now = now} {other = other} le ne (discarded row h k) = (
    no_token row (other_token row.lease_token_hash hash other ne h),
    no_lease (review_invalid now row) refl,
  )
  not_held {now = now} {other = other} le ne (requeued row h) =
      (no_token row (held_other now row h ne), no_lease (requeue now row) refl)
  not_held {now = now} {other = other} le ne (renewed row h) = (
    no_token row (held_other now row h ne),
    no_token (renew_row now row) (held_other now row h ne),
  )
  not_held {now = now} {other = other} le ne (failed row code h) = (
    no_token row (held_other now row h ne),
    no_lease (fail_row now code row) (fail_row-idle now code row),
  )
  not_held {now = now} {other = other} le ne (submitted row h k l) = (
    no_token row (other_token row.lease_token_hash hash other ne h),
    no_lease (unlocked now PayloadStatus.submitted row) refl,
  )
  not_held {now = now} le ne (confirmed row h) =
      (no_lease row (ground (arith, h)), no_lease (confirm_row now row) refl)

  held_rows : List (PayloadRow Sealed) → List (PayloadRow Sealed)
  held_rows rows = filter (holds later job hash) rows

  Moves-held_rows :
      {cps : List CheckpointRow} {now : ℕ} {other : Text} {rows rows' : List (PayloadRow Sealed)}
      → now ≤ later
      → other ≢ hash
      → Moves cps now other rows rows'
      → held_rows rows' ≡ held_rows rows
  unfolding held_rows
  Moves-held_rows le ne end = refl
  Moves-held_rows le ne (kept row rest) = ground (arith, Moves-held_rows le ne rest)
  Moves-held_rows le ne (moved move rest) =
      ground (arith, not_held le ne move, Moves-held_rows le ne rest)

  Change-held_rows :
      {admits : PayloadRow Sealed → List (PayloadRow Sealed) → Bool} {now : ℕ} {other : Text}
      {rows rows' : List (PayloadRow Sealed)} {cps cps' : List CheckpointRow}
      → now ≤ later
      → other ≢ hash
      → Change admits now other rows cps rows' cps'
      → held_rows rows' ≡ held_rows rows
  unfolding held_rows IsQueued is_leased
  Change-held_rows le ne (nothing rows cps) = refl
  Change-held_rows le ne (moves m rest) = Change-held_rows le ne rest ∙ Moves-held_rows le ne m
  Change-held_rows le ne (queued row rows cps q a) =
      filter_skips (holds later job hash) rows row (no_lease row (ground (arith, q.0)))
  Change-held_rows le ne (recorded row rows cps h k l) = refl

module _ {Sealed Payload : Type 0} (host : Host Sealed Payload) where
  -- The other calls, until `later`: under a token whose digest is not `hash`.
  unfoldable pub AreOthers : ℕ → Text → List (Call Payload) → Type 0
  AreOthers later hash calls =
      All (λ call. (call.now ≤ later) × (host.sha256 call.token ≢ hash)) calls

  -- Until `later`, no calls under other tokens change what a lease holds: the rows of the job that are
  -- leased under the digest `hash` until `later` at least are, with all their columns, those from before
  -- the calls, given that the table has one row of a job at most.
  pub after-holds :
      (later : ℕ) (job hash : Text) (calls : List (Call Payload)) (store : PayloadStore Sealed)
      → IsKeyed host.admits_payload
      → IsDistinct store.payloads
      → AreOthers later hash calls
      → filter (holds later job hash) (after host calls store).payloads
        ≡ filter (holds later job hash) store.payloads
  unfolding after AreOthers held_rows
  after-holds later job hash [] store key h others = refl
  after-holds later job hash (call ∷ calls) store key h ((le, ne), others) =
      after-holds later job hash calls (act host call store) key
        (act-IsDistinct host call store key h) others
      ∙ Change-held_rows later job hash le ne (act-Change host call store h)
