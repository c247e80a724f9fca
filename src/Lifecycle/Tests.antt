-- ===== src/Lifecycle/Tests.antt =====
-- Tests of the lifecycle, and its theorems at a V4 payout.
use parly_relayer.Prelude.{
  ℕ, ◌+◌, ◌≤◌, ◌≡◌, ◌↔◌, ◌⊎◌, inl, refl, true, Option, some, none, List, [], ◌∷◌, ok, err, Text,
  codes, text_eq, trim,
}
use parly_relayer.Lifecycle.{
  PayoutStatus, payout_requested, payout_submitted, payout_completed, payout_expired, manual_review,
  refund_available, operator, proof_verifier, system, invalid_transition, reason_required,
  LifecycleEvent, PayoutRecord, includes, allows, has_text, moved, recovery_path, terminal_path,
  apply_event, apply_events,
}
use parly_relayer.Lifecycle.Versions.{
  Input, event, V3EventType, V4EventType, map_v3, map_v4, map_v5,
}
use parly_relayer.Lifecycle.Replay.{
  IsMoved, apply_event_cases, apply_event_idempotent, apply_event-terminal,
}
use parly_relayer.Lifecycle.Progress.{height, apply_events-height}
use parly_relayer.Lifecycle.Whole.{AppliesWhole, AdapterEvent, map_adapter-AppliesWhole}
use parly_relayer.Lifecycle.Refunds.{relay_refund_proven-taken_iff}
use parly_relayer.Lifecycle.Effects.{SameStep, effects_v3, effects_v4, effects_v4-eq-effects_v3}

lifecycle : Unit {0}
unfolding apply_event apply_events allows has_text includes text_eq trim map_v3 map_v4 map_v5 height
    event recovery_path terminal_path
lifecycle = tt

abbrev payout : PayoutStatus → List Text → PayoutRecord ℕ
payout s ids = record {
  fields = 7;
  status = s;
  status_reason_hash = none;
  status_authority = none;
  audit_event_ids = some ids;
  recovery = none;
  terminal = none;
  updated_at = none;
}

abbrev requested : PayoutRecord ℕ
requested = payout payout_requested []

abbrev input : Input
input = record { event_id = codes "e1"; evidence_hash = some (codes "ab"); updated_at = none }

abbrev quoted : List LifecycleEvent
quoted =
    event input "quote" PayoutStatus.quote_accepted system none
    ∷ event input "escrow" PayoutStatus.escrow_address_reserved system none
    ∷ []

abbrev reserved : PayoutRecord ℕ
reserved =
    record (payout PayoutStatus.escrow_address_reserved
      (codes "e1:quote" ∷ codes "e1:escrow" ∷ [])) {
        status_authority = some system;
        recovery = some "continue payout lifecycle while live and broadcast flags remain gated";
        terminal = some "complete payout or make claimant-bound refund available";
      }

quote_applied : apply_events requested quoted ≡ ok reserved
unfolding lifecycle
quote_applied = refl

abbrev review : Option Text → LifecycleEvent
review reason = record {
  event_id = codes "r";
  status = manual_review;
  authority = operator;
  reason_hash = reason;
  updated_at = none;
}

blank_reason :
    apply_event (payout payout_submitted []) (review (some (codes "  ")))
    ≡ err (reason_required manual_review)
unfolding lifecycle
blank_reason = refl

abbrev reviewed : PayoutRecord ℕ
reviewed = moved (payout payout_submitted []) (review (some (codes "x")))

taken : apply_event (payout payout_submitted []) (review (some (codes "x"))) ≡ ok reviewed
unfolding lifecycle
taken = refl

apply_event_cases_example :
    ((includes [] (codes "r") ≡ true) × (reviewed ≡ payout payout_submitted []))
    ⊎ IsMoved (payout payout_submitted []) (review (some (codes "x"))) reviewed
apply_event_cases_example =
    apply_event_cases (payout payout_submitted []) (review (some (codes "x"))) reviewed taken

apply_event_idempotent_example : apply_event reviewed (review (some (codes "x"))) ≡ ok reviewed
apply_event_idempotent_example =
    apply_event_idempotent (payout payout_submitted []) (review (some (codes "x"))) reviewed taken

apply_event-terminal_example :
    apply_event (payout payout_completed []) (review none)
    ≡ err (invalid_transition payout_completed manual_review)
unfolding lifecycle
apply_event-terminal_example =
    apply_event-terminal (payout payout_completed []) (review none) (inl refl) refl

apply_events-height_example : 2 + height reserved.status ≤ height requested.status
unfolding lifecycle
apply_events-height_example = apply_events-height requested quoted reserved quote_applied

map_adapter-AppliesWhole_example : AppliesWhole requested input quoted
unfolding lifecycle
map_adapter-AppliesWhole_example =
    map_adapter-AppliesWhole requested input quoted (AdapterEvent.v4 V4EventType.quote_accepted)
      refl refl tt

abbrev proven : List LifecycleEvent
proven = event input "available" refund_available proof_verifier (some (codes "ab")) ∷ []

relay_refund_proven-taken_iff_example :
    ((r' : PayoutRecord ℕ) × (apply_events (payout payout_submitted []) proven ≡ ok r')) ↔ (
      (payout_submitted ≡ payout_expired)
      ⊎ ((payout_submitted ≡ PayoutStatus.provider_failed) ⊎ (payout_submitted ≡ manual_review)))
unfolding lifecycle
relay_refund_proven-taken_iff_example =
    relay_refund_proven-taken_iff (payout payout_submitted []) input proven refl refl

relay_refund_refused :
    apply_events (payout payout_submitted []) proven
    ≡ err (invalid_transition payout_submitted refund_available)
unfolding lifecycle
relay_refund_refused = refl

effects_v4-eq-effects_v3_example :
    effects_v4 (V4EventType.payout_submitted ∷ []) input
    ≡ effects_v3 V3EventType.payout_submitted input
effects_v4-eq-effects_v3_example = effects_v4-eq-effects_v3 SameStep.submit input
