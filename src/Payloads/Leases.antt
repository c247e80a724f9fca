-- ===== src/Payloads/Leases.antt =====
-- The columns of a lease, and the number of attempts, of every row.
use parly_relayer.Prelude.{
  ℕ, ◌+◌, ◌≤◌, lt→ltb, ◌≡◌, refl, Bool, true, false, ◌&&◌, not, ltb, Option, none, some, List, [],
  ◌∷◌, Text, All, All-append, if◌then◌else◌, arith,
}
use parly_relayer.Payloads.{
  PayloadRow, CheckpointRow, PayloadStore, Host, is_leased, is_submitted, holds, unlocked,
}
use parly_relayer.Payloads.Acquire.{is_candidate, exhaust, lease}
use parly_relayer.Payloads.Enqueue.{confirm_row}
use parly_relayer.Payloads.Report.{
  requeue, renewed_until, renew_row, fail_row, failed_status, review_invalid,
}
use parly_relayer.Payloads.Moves.{
  Move, Change, exhausted, leased, discarded, requeued, renewed, failed, submitted, confirmed,
  IsQueued, Moves-All, nothing, moves, queued, recorded,
}
use parly_relayer.Payloads.Jobs.{IsDistinct, IsKeyed}
use parly_relayer.Payloads.Acts.{act-Change, act-IsDistinct}
use parly_relayer.Payloads.Calls.{Call, act, after}

unfoldable pub is_set : {A : Type 0} → Option A → Bool
is_set none = false
is_set (some a) = true

module _ {Sealed : Type 0} where
  -- All columns of a lease have a value, and the attempt was counted.
  unfoldable pub has_lease : PayloadRow Sealed → Bool
  has_lease row =
      is_set row.locked_by
      && is_set row.locked_until
      && is_set row.lease_duration_ms
      && is_set row.lease_token_hash
      && ltb 0 row.attempt_number

  -- No column of a lease has a value.
  unfoldable pub has_no_lease : PayloadRow Sealed → Bool
  has_no_lease row =
      not (is_set row.locked_by)
      && not (is_set row.locked_until)
      && not (is_set row.lease_duration_ms)
      && not (is_set row.lease_token_hash)

  unfoldable pub IsSound : PayloadRow Sealed → Type 0
  IsSound row =
      (row.attempt_number ≤ row.max_attempts)
      × ((if is_leased row.status then has_lease row else has_no_lease row) ≡ true)

  Move-IsSound :
      {cps : List CheckpointRow} {now : ℕ} {hash : Text} {row row' : PayloadRow Sealed}
      → Move cps now hash row row'
      → IsSound row
      → IsSound row'
  unfolding IsSound has_lease has_no_lease is_set is_leased is_submitted holds exhaust lease
      unlocked requeue renewed_until renew_row fail_row failed_status review_invalid confirm_row
      is_candidate
  Move-IsSound (exhausted row h) s = (ground (arith, s.0), refl)
  Move-IsSound (leased row until duration worker h) s =
      (ground (arith, h), lt→ltb 0 (row.attempt_number + 1) (omega arith))
  Move-IsSound (discarded row h k) s = (ground (arith, s.0), refl)
  Move-IsSound (requeued row h) s = (ground (arith, s.0), refl)
  Move-IsSound (renewed row h) s = ground (arith, s, h)
  Move-IsSound (failed row code h) s = (s.0, ground arith)
  Move-IsSound (submitted row h k l) s = (ground (arith, s.0), refl)
  Move-IsSound (confirmed row h) s = ground (arith, s, h)

  queued-IsSound : (row : PayloadRow Sealed) → IsQueued row → IsSound row
  unfolding IsQueued IsSound has_no_lease is_set is_leased
  queued-IsSound row h = ground (arith, h)

  Change-IsSound :
      {admits : PayloadRow Sealed → List (PayloadRow Sealed) → Bool} {now : ℕ} {hash : Text}
      {rows rows' : List (PayloadRow Sealed)} {cps cps' : List CheckpointRow}
      → Change admits now hash rows cps rows' cps'
      → All IsSound rows
      → All IsSound rows'
  Change-IsSound (nothing rows cps) h = h
  Change-IsSound (moves m rest) h =
      Change-IsSound rest (Moves-All IsSound (λ row row' move. Move-IsSound move) m h)
  Change-IsSound (queued row rows cps q a) h =
      All-append IsSound rows (row ∷ []) h (queued-IsSound row q, tt)
  Change-IsSound (recorded row rows cps k l e) h = h

-- If it is so before, then after any calls of the settlement queue a row that is leased has all columns of
-- a lease and counted its attempt, a row that is not leased has none of them, and no row has more attempts
-- than its limit, given that the table has one row of a job at most.
pub after-IsSound :
    {Sealed Payload : Type 0} (host : Host Sealed Payload) (calls : List (Call Payload))
    (store : PayloadStore Sealed)
    → IsKeyed host.admits_payload
    → IsDistinct store.payloads
    → All IsSound store.payloads
    → All IsSound (after host calls store).payloads
unfolding after
after-IsSound host [] store key h sound = sound
after-IsSound host (call ∷ calls) store key h sound =
    after-IsSound host calls (act host call store) key (act-IsDistinct host call store key h)
      (Change-IsSound (act-Change host call store h) sound)
