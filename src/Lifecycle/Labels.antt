-- ===== src/Lifecycle/Labels.antt =====
-- packages/shared-types/src/index.ts: the labels of a payout's status, for operators and for the public.
use parly_relayer.Prelude.{◌≡◌, refl, List, [], ◌∷◌, Option, some, find?, codes, text_eq, String}
use parly_relayer.Lifecycle.{
  PayoutStatus, payout_requested, quote_accepted, escrow_address_reserved, pool_withdrawal_pending,
  escrow_receipt_confirmed, payout_pending, payout_submitted, payout_completed, payout_expired,
  provider_failed, manual_review, refund_available, refunded,
}

-- `getPhase3PayoutStatusLabel`
pub status_label : PayoutStatus → String
status_label payout_requested = "Payout Requested"
status_label quote_accepted = "Quote Accepted"
status_label escrow_address_reserved = "Escrow Address Reserved"
status_label pool_withdrawal_pending = "Pool Withdrawal Pending"
status_label escrow_receipt_confirmed = "Escrow Receipt Confirmed"
status_label payout_pending = "Payout Pending"
status_label payout_submitted = "Payout Submitted"
status_label payout_completed = "Payout Completed"
status_label payout_expired = "Payout Expired"
status_label provider_failed = "Provider Failed"
status_label manual_review = "Manual Review"
status_label refund_available = "Refund Available"
status_label refunded = "Refunded"

-- `getPhase3PublicPayoutStatusLabel`
pub public_status_label : PayoutStatus → String
public_status_label payout_requested = "Payout Requested"
public_status_label quote_accepted = "Quote Accepted"
public_status_label escrow_address_reserved = "Payout Route Reserved"
public_status_label pool_withdrawal_pending = "Pool Withdrawal Pending"
public_status_label escrow_receipt_confirmed = "Withdrawal Received"
public_status_label payout_pending = "Payout Pending"
public_status_label payout_submitted = "Payout Submitted"
public_status_label payout_completed = "Payout Completed"
public_status_label payout_expired = "Payout Expired"
public_status_label provider_failed = "Payout Unavailable"
public_status_label manual_review = "Manual Review"
public_status_label refund_available = "Refund Available"
public_status_label refunded = "Refunded"

abbrev statuses : List PayoutStatus
statuses =
    payout_requested ∷ quote_accepted ∷ escrow_address_reserved ∷ pool_withdrawal_pending
    ∷ escrow_receipt_confirmed ∷ payout_pending ∷ payout_submitted ∷ payout_completed
    ∷ payout_expired ∷ provider_failed ∷ manual_review ∷ refund_available ∷ refunded ∷ []

-- The first status that has the label.
abbrev pub status_of : (PayoutStatus → String) → String → Option PayoutStatus
status_of label l = find? (λ s. text_eq (codes (label s)) (codes l)) statuses

-- Each of the two labels names one status: the first status with the label is the status itself.
pub labels_roundtrip :
    (s : PayoutStatus)
    → (status_of status_label (status_label s) ≡ some s)
      × (status_of public_status_label (public_status_label s) ≡ some s)
unfolding status_label public_status_label text_eq
labels_roundtrip payout_requested = (refl, refl)
labels_roundtrip quote_accepted = (refl, refl)
labels_roundtrip escrow_address_reserved = (refl, refl)
labels_roundtrip pool_withdrawal_pending = (refl, refl)
labels_roundtrip escrow_receipt_confirmed = (refl, refl)
labels_roundtrip payout_pending = (refl, refl)
labels_roundtrip payout_submitted = (refl, refl)
labels_roundtrip payout_completed = (refl, refl)
labels_roundtrip payout_expired = (refl, refl)
labels_roundtrip provider_failed = (refl, refl)
labels_roundtrip manual_review = (refl, refl)
labels_roundtrip refund_available = (refl, refl)
labels_roundtrip refunded = (refl, refl)
