-- ===== src/Lifecycle/Progress.antt =====
-- The lifecycle cannot run in circles: every recorded event brings a payout nearer to its end.
use parly_relayer.Prelude.{
  ℕ, ◌+◌, ◌≤◌, ◌<◌, ◌≡◌, ap, true, List, [], ◌∷◌, ok, arith, length, length-append, >>=-eq-ok, inl,
  inr,
}
use parly_relayer.Lifecycle.{
  PayoutStatus, payout_requested, quote_accepted, escrow_address_reserved, pool_withdrawal_pending,
  escrow_receipt_confirmed, payout_pending, payout_submitted, payout_completed, payout_expired,
  provider_failed, manual_review, refund_available, refunded, LifecycleEvent, PayoutRecord, audit,
  allows, apply_event, apply_events,
}
use parly_relayer.Lifecycle.Replay.{apply_event_cases}

-- How many transitions a payout can still take.
unfoldable pub height : PayoutStatus → ℕ
height payout_requested = 11
height quote_accepted = 10
height escrow_address_reserved = 9
height pool_withdrawal_pending = 8
height escrow_receipt_confirmed = 7
height payout_pending = 6
height payout_submitted = 5
height manual_review = 4
height provider_failed = 3
height payout_expired = 2
height refund_available = 1
height payout_completed = 0
height refunded = 0

height-allows : (s t : PayoutStatus) → allows s t ≡ true → height t < height s
unfolding height allows
height-allows payout_requested t h = ground arith
height-allows _ t h = ground arith

module _ {F : Type 0} where
  apply_event-height :
      (r : PayoutRecord F) (e : LifecycleEvent) (r' : PayoutRecord F)
      → apply_event r e ≡ ok r'
      → length (audit r'.audit_event_ids) + height r'.status
        ≤ length (audit r.audit_event_ids) + height r.status
  apply_event-height r e r' h = elim (apply_event_cases r e r' h) [
    | inl (_, same) ↦ omega (
      arith,
      ap (λ (x : PayoutRecord F). length (audit x.audit_event_ids) + height x.status) same,
    )
    | inr m ↦ ground (
      arith,
      m.status,
      m.trail,
      height-allows r.status e.status m.allowed,
      length-append (audit r.audit_event_ids) (e.event_id ∷ []),
    )
  ]

  -- However many events are accepted, replays included, the audit trail grows by at most what the
  -- height of the status falls.
  pub apply_events-height :
      (r : PayoutRecord F) (es : List LifecycleEvent) (r' : PayoutRecord F)
      → apply_events r es ≡ ok r'
      → length (audit r'.audit_event_ids) + height r'.status
        ≤ length (audit r.audit_event_ids) + height r.status
  unfolding apply_events
  apply_events-height r [] r' h = ground arith
  apply_events-height r (e ∷ es) r' h =
      let (m, here, later) = >>=-eq-ok (apply_event r e) _ h in
      omega (arith, apply_event-height r e m here, apply_events-height m es r' later)
