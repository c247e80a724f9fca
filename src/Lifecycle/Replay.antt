-- ===== src/Lifecycle/Replay.antt =====
-- What one lifecycle event does, and that a replayed event does nothing.
use parly_relayer.Prelude.{
  ◌≡◌, true, false, List, [], ◌∷◌, ◌++◌, some, ok, err, arith, Text, text_eq_refl, ◌⊎◌, inl, inr,
  Bool-cases,
}
use parly_relayer.Lifecycle.{
  PayoutStatus, LifecycleEvent, PayoutRecord, invalid_transition, audit, includes, allows,
  needs_reason, has_text, recovery_path, terminal_path, apply_event,
}

includes-append : (ids : List Text) (id : Text) → includes (ids ++ id ∷ []) id ≡ true
unfolding includes
includes-append [] id = ground (arith, text_eq_refl id)
includes-append (t ∷ ids) id = ground (arith, includes-append ids id)

module _ {F : Type 0} where
  -- A record that took an event: an allowed status, a reason where one is needed, the event at the
  -- end of the audit trail, paths that agree with the status, and the other fields as they were.
  pub record IsMoved (r : PayoutRecord F) (e : LifecycleEvent) (r' : PayoutRecord F) : Type 0 where
    pub fresh : includes (audit r.audit_event_ids) e.event_id ≡ false
    pub allowed : allows r.status e.status ≡ true
    pub reasoned : (needs_reason e.status ≡ false) ⊎ (has_text e.reason_hash ≡ true)
    pub status : r'.status ≡ e.status
    pub trail : r'.audit_event_ids ≡ some (audit r.audit_event_ids ++ e.event_id ∷ [])
    pub recovery : r'.recovery ≡ some (recovery_path r'.status)
    pub terminal : r'.terminal ≡ some (terminal_path r'.status)
    pub fields : r'.fields ≡ r.fields

  -- An event that is accepted either was in the audit trail and leaves the record as it is, or moves
  -- the record along an allowed transition.
  pub apply_event_cases :
      (r : PayoutRecord F) (e : LifecycleEvent) (r' : PayoutRecord F)
      → apply_event r e ≡ ok r'
      → ((includes (audit r.audit_event_ids) e.event_id ≡ true) × (r' ≡ r)) ⊎ IsMoved r e r'
  unfolding apply_event
  apply_event_cases r e r' h = elim (Bool-cases (includes (audit r.audit_event_ids) e.event_id)) [
    | inl old ↦ inl (old, ground arith)
    | inr new ↦ inr (record {
      fresh = new;
      allowed = ground arith;
      reasoned = ground arith;
      status = ground arith;
      trail = ground arith;
      recovery = ground arith;
      terminal = ground arith;
      fields = ground arith;
    })
  ]

  -- An event that was accepted is accepted again by the record it gave, and then changes nothing.
  pub apply_event_idempotent :
      (r : PayoutRecord F) (e : LifecycleEvent) (r' : PayoutRecord F)
      → apply_event r e ≡ ok r'
      → apply_event r' e ≡ ok r'
  unfolding apply_event
  apply_event_idempotent r e r' h =
      ground (arith, includes-append (audit r.audit_event_ids) e.event_id)

  -- A payout that was completed or refunded refuses every event that is not in its audit trail.
  pub apply_event-terminal :
      (r : PayoutRecord F) (e : LifecycleEvent)
      → (r.status ≡ PayoutStatus.payout_completed) ⊎ (r.status ≡ PayoutStatus.refunded)
      → includes (audit r.audit_event_ids) e.event_id ≡ false
      → apply_event r e ≡ err (invalid_transition r.status e.status)
  unfolding apply_event allows
  apply_event-terminal r e h new = ground arith
