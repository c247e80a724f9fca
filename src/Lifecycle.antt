-- ===== src/Lifecycle.antt =====
-- packages/shared-types/src/index.ts: the public lifecycle of a payout. An event moves the record of
-- a payout from one status to the next, and is kept in the record's audit trail.
-- The fields of a payout record that no event touches are one value of a type `F`.
pub mod Versions
pub mod Replay
pub mod Progress
pub mod Chains
pub mod Whole
pub mod Refunds
pub mod Effects
pub mod Labels
mod Tests
use parly_relayer.Prelude.{
  ℕ, Bool, true, false, ◌&&◌, ◌==◌, not, Option, none, some, List, [], ◌∷◌, ◌++◌, Result, ok, err,
  ◌>>=◌, ◌>>◌, guard, Text, String, text_eq, trim, is_nonempty, any, if◌then◌else◌,
}

pub data PayoutStatus : Type 0 where
  payout_requested quote_accepted escrow_address_reserved pool_withdrawal_pending : PayoutStatus
  escrow_receipt_confirmed payout_pending payout_submitted payout_completed : PayoutStatus
  payout_expired provider_failed manual_review refund_available refunded : PayoutStatus

pub data StatusAuthority : Type 0 where
  owner provider_contract proof_verifier operator public_expiry refund_claimant : StatusAuthority
  system : StatusAuthority

pub data LifecycleError : Type 0 where
  invalid_transition : PayoutStatus → PayoutStatus → LifecycleError
  reason_required : PayoutStatus → LifecycleError
  evidence_required : LifecycleError

-- The place of a status in `PHASE3_PAYOUT_STATUSES`; two statuses are compared by it.
pub index : PayoutStatus → ℕ
index payout_requested = 0
index quote_accepted = 1
index escrow_address_reserved = 2
index pool_withdrawal_pending = 3
index escrow_receipt_confirmed = 4
index payout_pending = 5
index payout_submitted = 6
index payout_completed = 7
index payout_expired = 8
index provider_failed = 9
index manual_review = 10
index refund_available = 11
index refunded = 12

pub transitions : PayoutStatus → List PayoutStatus
transitions payout_requested = quote_accepted ∷ []
transitions quote_accepted = escrow_address_reserved ∷ []
transitions escrow_address_reserved = pool_withdrawal_pending ∷ payout_expired ∷ []
transitions pool_withdrawal_pending =
    escrow_receipt_confirmed ∷ payout_expired ∷ manual_review ∷ provider_failed ∷ []
transitions escrow_receipt_confirmed =
    payout_pending ∷ payout_expired ∷ manual_review ∷ provider_failed ∷ []
transitions payout_pending =
    payout_submitted ∷ payout_expired ∷ manual_review ∷ provider_failed ∷ []
transitions payout_submitted =
    payout_completed ∷ payout_expired ∷ provider_failed ∷ manual_review ∷ []
transitions payout_completed = []
transitions payout_expired = refund_available ∷ []
transitions provider_failed = payout_expired ∷ refund_available ∷ []
transitions manual_review = payout_completed ∷ provider_failed ∷ refund_available ∷ []
transitions refund_available = refunded ∷ []
transitions refunded = []

-- `PHASE3_PAYOUT_TRANSITIONS[from].includes(to)`
pub allows : PayoutStatus → PayoutStatus → Bool
unfolding index transitions
allows from to = any (λ s. index s == index to) (transitions from)

pub recovery_path : PayoutStatus → String
recovery_path payout_completed = "terminal"
recovery_path refunded = "terminal"
recovery_path refund_available = "refund claimant can claim with bound secret"
recovery_path provider_failed = "provider must return full compensation before claimant refund"
recovery_path manual_review = "claimant may recover after expiry while escrow remains funded"
recovery_path payout_expired = "any actor may make refund available while escrow remains funded"
recovery_path _ = "continue payout lifecycle while live and broadcast flags remain gated"

pub terminal_path : PayoutStatus → String
terminal_path payout_completed = "terminal"
terminal_path refunded = "terminal"
terminal_path _ = "complete payout or make claimant-bound refund available"

pub record LifecycleEvent : Type 0 where
  pub event_id : Text
  pub status : PayoutStatus
  pub authority : StatusAuthority
  pub reason_hash : Option Text
  pub updated_at : Option Text

pub record PayoutRecord (F : Type 0) : Type 0 where
  pub fields : F
  pub status : PayoutStatus
  pub status_reason_hash : Option Text
  pub status_authority : Option StatusAuthority
  pub audit_event_ids : Option (List Text)
  pub recovery : Option String
  pub terminal : Option String
  pub updated_at : Option Text

-- `?.trim()` as a truth value.
pub has_text : Option Text → Bool
has_text none = false
has_text (some t) = is_nonempty (trim t)

-- `ids ?? []`
abbrev pub audit : Option (List Text) → List Text
audit none = []
audit (some ids) = ids

-- `ids?.includes(id)` as a truth value.
pub includes : List Text → Text → Bool
includes ids id = any (λ t. text_eq t id) ids

-- `new ?? old`
abbrev pub or_else {ℓ} : {A : Type ℓ} → Option A → Option A → Option A
or_else none old = old
or_else (some a) old = some a

-- The statuses of the list in `applyPhase3PayoutLifecycleEvent`.
pub needs_reason : PayoutStatus → Bool
needs_reason provider_failed = true
needs_reason manual_review = true
needs_reason refunded = true
needs_reason _ = false

module _ {F : Type 0} where
  pub moved : PayoutRecord F → LifecycleEvent → PayoutRecord F
  moved r e = record r {
    status = e.status;
    status_reason_hash = e.reason_hash;
    status_authority = some e.authority;
    audit_event_ids = some (audit r.audit_event_ids ++ e.event_id ∷ []);
    recovery = some (recovery_path e.status);
    terminal = some (terminal_path e.status);
    updated_at = or_else e.updated_at r.updated_at;
  }

  unfoldable pub apply_event :
      PayoutRecord F → LifecycleEvent → Result LifecycleError (PayoutRecord F)
  unfolding moved needs_reason
  apply_event r e =
      if includes (audit r.audit_event_ids) e.event_id
      then ok r
      else if not (allows r.status e.status)
      then err (invalid_transition r.status e.status)
      else if needs_reason e.status && not (has_text e.reason_hash)
      then err (reason_required e.status)
      else ok (moved r e)

  -- The events of one adapter event, applied in order.
  pub apply_events : PayoutRecord F → List LifecycleEvent → Result LifecycleError (PayoutRecord F)
  apply_events r [] = ok r
  apply_events r (e ∷ es) = do r' ← apply_event r e; apply_events r' es
