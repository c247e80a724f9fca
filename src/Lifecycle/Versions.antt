-- ===== src/Lifecycle/Versions.antt =====
-- packages/shared-types/src/index.ts: the events of the V3, V4 and V5 payout adapters, as events of
-- the public lifecycle and as the effects that a data source must record.
use parly_relayer.Prelude.{
  Option, none, List, [], ◌∷◌, ◌++◌, map, Result, ok, ◌>>=◌, ◌>>◌, guard, Text, codes, String,
}
use parly_relayer.Lifecycle.{
  PayoutStatus, StatusAuthority, provider_contract, proof_verifier, operator, public_expiry,
  refund_claimant, system, LifecycleError, evidence_required, LifecycleEvent, has_text,
}

pub data V3EventType : Type 0 where
  quote_accepted escrow_receipt_confirmed payout_submitted payout_completed : V3EventType
  escrow_refund_available refund_available refund_claimed : V3EventType

pub data V4EventType : Type 0 where
  quote_accepted pool_withdrawal_confirmed escrow_receipt_confirmed payout_submitted : V4EventType
  payout_completed escrow_refund_available refund_available refund_claimed : V4EventType

pub data V5EventType : Type 0 where
  quote_accepted pool_withdrawal_confirmed escrow_receipt_confirmed payout_submitted : V5EventType
  payout_completed pre_submission_refund_available relay_refund_proven refund_claimed : V5EventType
  residual_refund_claimed : V5EventType

-- The statuses of the V3 adapter contract, which V4 and V5 keep.
pub data AdapterStatus : Type 0 where
  none_yet escrow_pending receipt_confirmed submitted completed refund_open refund_paid in_review :
      AdapterStatus

-- `input`, without its event type.
pub record Input : Type 0 where
  pub event_id : Text
  pub evidence_hash : Option Text
  pub updated_at : Option Text

-- The local helper `event` of each mapping.
unfoldable pub event :
    Input → String → PayoutStatus → StatusAuthority → Option Text → LifecycleEvent
event input suffix status authority reason_hash = record {
  event_id = input.event_id ++ codes ":" ++ codes suffix;
  status = status;
  authority = authority;
  reason_hash = reason_hash;
  updated_at = input.updated_at;
}

quote_events : Input → List LifecycleEvent
quote_events input =
    event input "quote" PayoutStatus.quote_accepted system none
    ∷ event input "escrow" PayoutStatus.escrow_address_reserved system none
    ∷ []

submit_events : Input → List LifecycleEvent
submit_events input =
    event input "pending" PayoutStatus.payout_pending operator none
    ∷ event input "submitted" PayoutStatus.payout_submitted provider_contract none
    ∷ []

expiry_events : Input → Option Text → List LifecycleEvent
expiry_events input reason =
    event input "expired" PayoutStatus.payout_expired public_expiry input.evidence_hash
    ∷ event input "available" PayoutStatus.refund_available public_expiry reason
    ∷ []

claim_events : Input → Result LifecycleError (List LifecycleEvent)
claim_events input = do
  guard (has_text input.evidence_hash) evidence_required
  ok (event input "refunded" PayoutStatus.refunded refund_claimant input.evidence_hash ∷ [])

unfoldable pub map_v3 : V3EventType → Input → Result LifecycleError (List LifecycleEvent)
unfolding event quote_events submit_events expiry_events claim_events
map_v3 quote_accepted input = ok (quote_events input)
map_v3 escrow_receipt_confirmed input = ok (
    event input "withdrawal-pending" PayoutStatus.pool_withdrawal_pending system none
    ∷ event input "receipt" PayoutStatus.escrow_receipt_confirmed system none
    ∷ [])
map_v3 payout_submitted input = ok (submit_events input)
map_v3 payout_completed input =
    ok (event input "completed" PayoutStatus.payout_completed proof_verifier none ∷ [])
map_v3 escrow_refund_available input = ok (expiry_events input none)
map_v3 refund_available input = ok (expiry_events input none)
map_v3 refund_claimed input = claim_events input

unfoldable pub map_v4 : V4EventType → Input → Result LifecycleError (List LifecycleEvent)
unfolding event quote_events submit_events expiry_events claim_events
map_v4 quote_accepted input = ok (quote_events input)
map_v4 pool_withdrawal_confirmed input =
    ok (event input "withdrawal" PayoutStatus.pool_withdrawal_pending operator none ∷ [])
map_v4 escrow_receipt_confirmed input =
    ok (event input "receipt" PayoutStatus.escrow_receipt_confirmed system none ∷ [])
map_v4 payout_submitted input = ok (submit_events input)
map_v4 payout_completed input =
    ok (event input "completed" PayoutStatus.payout_completed proof_verifier none ∷ [])
map_v4 escrow_refund_available input = ok (expiry_events input none)
map_v4 refund_available input = ok (expiry_events input none)
map_v4 refund_claimed input = claim_events input

unfoldable pub map_v5 : V5EventType → Input → Result LifecycleError (List LifecycleEvent)
unfolding event quote_events submit_events expiry_events claim_events
map_v5 quote_accepted input = ok (quote_events input)
map_v5 pool_withdrawal_confirmed input =
    ok (event input "withdrawal" PayoutStatus.pool_withdrawal_pending operator none ∷ [])
map_v5 escrow_receipt_confirmed input =
    ok (event input "receipt" PayoutStatus.escrow_receipt_confirmed system none ∷ [])
map_v5 payout_submitted input = ok (submit_events input)
map_v5 payout_completed input = do
  guard (has_text input.evidence_hash) evidence_required
  ok (event input "completed" PayoutStatus.payout_completed proof_verifier input.evidence_hash ∷ [])
map_v5 pre_submission_refund_available input = ok (expiry_events input input.evidence_hash)
map_v5 relay_refund_proven input = do
  guard (has_text input.evidence_hash) evidence_required
  ok (event input "available" PayoutStatus.refund_available proof_verifier input.evidence_hash ∷ [])
map_v5 refund_claimed input = claim_events input
map_v5 residual_refund_claimed input = do
  guard (has_text input.evidence_hash) evidence_required
  ok []

-- The spelling of a status.
unfoldable pub status_name : PayoutStatus → String
status_name PayoutStatus.payout_requested = "payout_requested"
status_name PayoutStatus.quote_accepted = "quote_accepted"
status_name PayoutStatus.escrow_address_reserved = "escrow_address_reserved"
status_name PayoutStatus.pool_withdrawal_pending = "pool_withdrawal_pending"
status_name PayoutStatus.escrow_receipt_confirmed = "escrow_receipt_confirmed"
status_name PayoutStatus.payout_pending = "payout_pending"
status_name PayoutStatus.payout_submitted = "payout_submitted"
status_name PayoutStatus.payout_completed = "payout_completed"
status_name PayoutStatus.payout_expired = "payout_expired"
status_name PayoutStatus.provider_failed = "provider_failed"
status_name PayoutStatus.manual_review = "manual_review"
status_name PayoutStatus.refund_available = "refund_available"
status_name PayoutStatus.refunded = "refunded"

unfoldable pub append_effect : LifecycleEvent → Text
unfolding status_name
append_effect e = codes "append:" ++ codes (status_name e.status)

pub record Projection (EventType : Type 0) : Type 0 where
  pub event_type : EventType
  pub adapter_status : Option AdapterStatus
  pub public_events : List LifecycleEvent
  pub required_effects : List Text
  pub redaction_policy : List String

unfoldable pub v3_effects : V3EventType → List Text
v3_effects payout_submitted = codes "set:provider_liability_status=active" ∷ []
v3_effects payout_completed = codes "set:provider_liability_status=released" ∷ []
v3_effects escrow_refund_available = codes "set:provider_liability_status=unreserved" ∷ []
v3_effects refund_available = codes "set:provider_liability_status=slashed" ∷ []
v3_effects refund_claimed = codes "set:terminal_path=terminal" ∷ []
v3_effects _ = []

unfoldable pub v4_effects : V4EventType → List Text
v4_effects payout_submitted = codes "set:provider_liability_status=active" ∷ []
v4_effects payout_completed = codes "set:provider_liability_status=released" ∷ []
v4_effects escrow_refund_available = codes "set:provider_liability_status=unreserved" ∷ []
v4_effects refund_available = codes "set:provider_liability_status=slashed" ∷ []
v4_effects refund_claimed = codes "set:terminal_path=terminal" ∷ []
v4_effects _ = []

unfoldable pub v5_effects : V5EventType → List Text
v5_effects payout_submitted = codes "set:relay_state=processing" ∷ []
v5_effects payout_completed = codes "set:terminal_path=completed" ∷ []
v5_effects relay_refund_proven = codes "set:proof_kind=relay_refund" ∷ []
v5_effects refund_claimed = codes "set:terminal_path=refunded" ∷ []
v5_effects residual_refund_claimed = codes "append:residual_refund_claimed" ∷ []
v5_effects _ = []

unfoldable pub project_v3 :
    V3EventType → Option AdapterStatus → Input → Result LifecycleError (Projection V3EventType)
unfolding v3_effects append_effect
project_v3 event_type v3_status input = do
  events ← map_v3 event_type input
  ok (record {
    event_type = event_type;
    adapter_status = v3_status;
    public_events = events;
    required_effects = map append_effect events ++ v3_effects event_type;
    redaction_policy =
        "hash escrow, provider contract, provider, actor, source adapter, signer, and compensation recipient"
        ∷ "store provider submission/proof ids only as already-hashed identifiers"
        ∷ "never store destination recipient, provider payload, refund salt, or raw status token"
        ∷ [];
  })

unfoldable pub project_v4 :
    V4EventType → Option AdapterStatus → Input → Result LifecycleError (Projection V4EventType)
unfolding v4_effects append_effect
project_v4 event_type v4_status input = do
  events ← map_v4 event_type input
  ok (record {
    event_type = event_type;
    adapter_status = v4_status;
    public_events = events;
    required_effects = map append_effect events ++ v4_effects event_type;
    redaction_policy =
        "hash escrow, provider contract, payout authority, actor, source adapter, and signer"
        ∷ "store provider submission and proof ids only as already-hashed identifiers"
        ∷ "never store destination recipient, provider payload, refund salt, or raw status token"
        ∷ [];
  })

unfoldable pub project_v5 :
    V5EventType → Option AdapterStatus → Input → Result LifecycleError (Projection V5EventType)
unfolding v5_effects append_effect
project_v5 event_type v5_status input = do
  events ← map_v5 event_type input
  ok (record {
    event_type = event_type;
    adapter_status = v5_status;
    public_events = events;
    required_effects = map append_effect events ++ v5_effects event_type;
    redaction_policy =
        "store Relay request ids and executable provider payloads only inside encrypted preparation records"
        ∷ "publish only opaque support references and hashed request, recipient, and evidence identifiers"
        ∷ "never store note secrets, refund salts, raw status tokens, or destination recipients in projections"
        ∷ [];
  })
