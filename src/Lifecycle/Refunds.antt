-- ===== src/Lifecycle/Refunds.antt =====
-- Which records take a V5 proof of a Relay refund.
use parly_relayer.Prelude.{
  ◌≡◌, ◌↔◌, ◌⊎◌, refl, if◌then◌else◌, true, false, List, [], ◌∷◌, ok, err, arith, codes, ◌++◌, Bool,
}
use parly_relayer.Lifecycle.{
  PayoutStatus, moved, proof_verifier, payout_expired, provider_failed, manual_review,
  refund_available, LifecycleEvent, PayoutRecord, LifecycleError, invalid_transition, audit,
  includes, allows, apply_event, apply_events,
}
use parly_relayer.Lifecycle.Versions.{Input, event, relay_refund_proven, map_v5}

-- The statuses from which a refund may become available.
allows-refund_available :
    (s : PayoutStatus)
    → (allows s refund_available ≡ true)
      ↔ ((s ≡ payout_expired) ⊎ ((s ≡ provider_failed) ⊎ (s ≡ manual_review)))
unfolding allows
allows-refund_available payout_expired = ground arith
allows-refund_available _ = ground arith

abbrev refund_event : Input → LifecycleEvent
refund_event input = event input "available" refund_available proof_verifier input.evidence_hash

mapped_refund :
    (input : Input) (es : List LifecycleEvent)
    → map_v5 relay_refund_proven input ≡ ok es
    → es ≡ refund_event input ∷ []
unfolding map_v5
mapped_refund input es e = ground arith

module _ {F : Type 0} where
  apply_events-one :
      (r : PayoutRecord F) (e : LifecycleEvent)
      → includes (audit r.audit_event_ids) e.event_id ≡ false
      → e.status ≡ refund_available
      → apply_events r (e ∷ []) ≡ (
          if allows r.status refund_available
          then ok (moved r e)
          else err (invalid_transition r.status refund_available))
  unfolding apply_events apply_event
  apply_events-one r e new s = ground arith

  only_then :
      (b : Bool) (x : PayoutRecord F) (e : LifecycleError) {y : PayoutRecord F}
      → (if b then ok x else err e) ≡ ok y
      → b ≡ true
  only_then true x e h = refl
  only_then false x e h = cc

  module _ (r : PayoutRecord F) (input : Input) (es : List LifecycleEvent) where
    -- Evidence of a Relay refund that V5 maps to public events, and whose event is not in the audit
    -- trail, is taken by a record exactly if the payout expired, its provider failed, or it is under
    -- review. So a payout whose public status is `payout_submitted` does not take it.
    pub relay_refund_proven-taken_iff :
        map_v5 relay_refund_proven input ≡ ok es
        → includes (audit r.audit_event_ids) (input.event_id ++ codes ":" ++ codes "available")
          ≡ false
        → ((r' : PayoutRecord F) × (apply_events r es ≡ ok r')) ↔ (
            (r.status ≡ payout_expired)
            ⊎ ((r.status ≡ provider_failed) ⊎ (r.status ≡ manual_review)))
    unfolding event
    relay_refund_proven-taken_iff mapped new = rw (mapped_refund input es mapped) (
        rw (apply_events-one r (refund_event input) new refl) (
          (λ (r', h). (allows-refund_available r.status).0 (only_then _ _ _ h)),
          λ h. (moved r (refund_event input), rw ((allows-refund_available r.status).1 h) refl),
        ))
