-- ===== src/Lifecycle/Whole.antt =====
-- The public events of one adapter event are applied whole.
use parly_relayer.Prelude.{
  ◌≡◌, ◌≢◌, refl, subst, true, false, Bool, List, [], ◌∷◌, ◌++◌, none, Option, Result, ok, err,
  Text, String, codes, ◌>>◌, guard,
}
use parly_relayer.Lifecycle.{
  PayoutStatus, StatusAuthority, evidence_required, LifecycleEvent, PayoutRecord, LifecycleError,
  audit, allows, needs_reason, has_text, apply_events,
}
use parly_relayer.Lifecycle.Versions.{
  Input, event, V3EventType, V4EventType, V5EventType, map_v3, map_v4, map_v5, quote_accepted,
  pool_withdrawal_confirmed, escrow_receipt_confirmed, payout_submitted, payout_completed,
  escrow_refund_available, refund_available, refund_claimed, pre_submission_refund_available,
  relay_refund_proven, residual_refund_claimed,
}
use parly_relayer.Lifecycle.Chains.{
  IsChain, Starts, IsFresh, last_status, event_ids, apply_events-IsChain, IsUnused, fresh_one,
  fresh_two,
}

abbrev pub Ensures {ℓ} :
    (List LifecycleEvent → Type ℓ) → Result LifecycleError (List LifecycleEvent) → Type ℓ
Ensures P (ok es) = P es
Ensures P (err e) = Unit

-- Events that make a chain from any status that the first may follow, all of them unrecorded in an
-- audit trail in which the adapter event is.
pub record IsWhole (id : Text) (es : List LifecycleEvent) : Type 0 where
  pub chain : (s : PayoutStatus) → Starts s es → IsChain s es
  pub fresh : (ids : List Text) → IsUnused id ids → IsFresh ids es

one_IsWhole :
    (id : Text) (suffix : String) (e : LifecycleEvent)
    → (needs_reason e.status ≡ true → has_text e.reason_hash ≡ true)
    → e.event_id ≡ id ++ codes ":" ++ codes suffix
    → IsWhole id (e ∷ [])
one_IsWhole id suffix e h named = record {
  chain = λ s start. (start, h, tt);
  fresh = λ ids free. (rw named (fresh_one id suffix ids free), tt);
}

two_IsWhole :
    (id : Text) (first second : String) (e f : LifecycleEvent)
    → codes first ≢ codes second
    → allows e.status f.status ≡ true
    → needs_reason e.status ≡ false
    → needs_reason f.status ≡ false
    → e.event_id ≡ id ++ codes ":" ++ codes first
    → f.event_id ≡ id ++ codes ":" ++ codes second
    → IsWhole id (e ∷ f ∷ [])
two_IsWhole id first second e f differ step free free' named named' = record {
  chain = λ s start. (start, (λ h. cc), (step, (λ h. cc), tt));
  fresh = λ ids unused. (
    rw named (fresh_one id first ids unused),
    (rw (named, named') (fresh_two id first second ids differ unused), tt),
  );
}

abbrev EnsuresWhole : Input → Result LifecycleError (List LifecycleEvent) → Type 0
EnsuresWhole input = Ensures (IsWhole input.event_id)

guarded :
    (input : Input) (b : Bool) (es : List LifecycleEvent)
    → (b ≡ true → IsWhole input.event_id es)
    → EnsuresWhole input (do guard b evidence_required; ok es)
guarded input true es h = h refl
guarded input false es h = tt

quote_IsWhole : (input : Input) → EnsuresWhole input (map_v4 V4EventType.quote_accepted input)
unfolding map_v4 allows needs_reason
quote_IsWhole input =
    two_IsWhole input.event_id "quote" "escrow" _ _ (λ e. cc) refl refl refl refl refl

submit_IsWhole : (input : Input) → EnsuresWhole input (map_v4 V4EventType.payout_submitted input)
unfolding map_v4 allows needs_reason
submit_IsWhole input =
    two_IsWhole input.event_id "pending" "submitted" _ _ (λ e. cc) refl refl refl refl refl

expiry_IsWhole :
    (input : Input) (reason : Option Text)
    → IsWhole input.event_id (
        event input "expired" PayoutStatus.payout_expired StatusAuthority.public_expiry
          input.evidence_hash
        ∷ event input "available" PayoutStatus.refund_available StatusAuthority.public_expiry reason
        ∷ [])
unfolding event allows needs_reason
expiry_IsWhole input reason =
    two_IsWhole input.event_id "expired" "available" _ _ (λ e. cc) refl refl refl refl refl

claim_IsWhole : (input : Input) → EnsuresWhole input (map_v4 V4EventType.refund_claimed input)
unfolding map_v4
claim_IsWhole input =
    guarded input (has_text input.evidence_hash) _
      (λ h. one_IsWhole input.event_id "refunded" _ (λ _. h) refl)

map_v4-IsWhole : (t : V4EventType) (input : Input) → EnsuresWhole input (map_v4 t input)
unfolding map_v4 needs_reason
map_v4-IsWhole quote_accepted input = quote_IsWhole input
map_v4-IsWhole pool_withdrawal_confirmed input =
    one_IsWhole input.event_id "withdrawal" _ (λ e. cc) refl
map_v4-IsWhole escrow_receipt_confirmed input =
    one_IsWhole input.event_id "receipt" _ (λ e. cc) refl
map_v4-IsWhole payout_submitted input = submit_IsWhole input
map_v4-IsWhole payout_completed input = one_IsWhole input.event_id "completed" _ (λ e. cc) refl
map_v4-IsWhole escrow_refund_available input = expiry_IsWhole input none
map_v4-IsWhole refund_available input = expiry_IsWhole input none
map_v4-IsWhole refund_claimed input = claim_IsWhole input

map_v3-IsWhole : (t : V3EventType) (input : Input) → EnsuresWhole input (map_v3 t input)
unfolding map_v3 map_v4 needs_reason allows
map_v3-IsWhole quote_accepted input = quote_IsWhole input
map_v3-IsWhole escrow_receipt_confirmed input =
    two_IsWhole input.event_id "withdrawal-pending" "receipt" _ _ (λ e. cc) refl refl refl refl refl
map_v3-IsWhole payout_submitted input = submit_IsWhole input
map_v3-IsWhole payout_completed input = one_IsWhole input.event_id "completed" _ (λ e. cc) refl
map_v3-IsWhole escrow_refund_available input = expiry_IsWhole input none
map_v3-IsWhole refund_available input = expiry_IsWhole input none
map_v3-IsWhole refund_claimed input = claim_IsWhole input

map_v5-IsWhole : (t : V5EventType) (input : Input) → EnsuresWhole input (map_v5 t input)
unfolding map_v5 map_v4 needs_reason
map_v5-IsWhole quote_accepted input = quote_IsWhole input
map_v5-IsWhole pool_withdrawal_confirmed input =
    one_IsWhole input.event_id "withdrawal" _ (λ e. cc) refl
map_v5-IsWhole escrow_receipt_confirmed input =
    one_IsWhole input.event_id "receipt" _ (λ e. cc) refl
map_v5-IsWhole payout_submitted input = submit_IsWhole input
map_v5-IsWhole payout_completed input =
    guarded input _ _ (λ h. one_IsWhole input.event_id "completed" _ (λ _. h) refl)
map_v5-IsWhole pre_submission_refund_available input = expiry_IsWhole input input.evidence_hash
map_v5-IsWhole relay_refund_proven input =
    guarded input _ _ (λ h. one_IsWhole input.event_id "available" _ (λ _. h) refl)
map_v5-IsWhole refund_claimed input = claim_IsWhole input
map_v5-IsWhole residual_refund_claimed input =
    guarded input _ _ (λ h. record { chain = λ s start. tt; fresh = λ ids free. tt })

pub data AdapterEvent : Type 0 where
  v3 : V3EventType → AdapterEvent
  v4 : V4EventType → AdapterEvent
  v5 : V5EventType → AdapterEvent

-- The map of the version that an adapter event is of.
abbrev pub map_adapter : AdapterEvent → Input → Result LifecycleError (List LifecycleEvent)
map_adapter (v3 t) = map_v3 t
map_adapter (v4 t) = map_v4 t
map_adapter (v5 t) = map_v5 t

module _ {F : Type 0} (r : PayoutRecord F) (input : Input) (es : List LifecycleEvent) where
  -- The record that a whole adapter event leaves.
  abbrev pub AppliesWhole : Type 0
  AppliesWhole =
      (r' : PayoutRecord F) × (apply_events r es ≡ ok r')
      × (r'.status ≡ last_status r.status es)
      × (audit r'.audit_event_ids ≡ audit r.audit_event_ids ++ event_ids es)
      × (r'.fields ≡ r.fields)

  whole :
      (m : Result LifecycleError (List LifecycleEvent))
      → EnsuresWhole input m
      → m ≡ ok es
      → Starts r.status es
      → IsUnused input.event_id (audit r.audit_event_ids)
      → AppliesWhole
  whole m h e start free =
      let w : IsWhole input.event_id es = subst (EnsuresWhole input) e h in
      apply_events-IsChain r es (w.chain r.status start) (w.fresh _ free)

  -- If a V3 adapter event maps to public events, the first of them may follow the record's status,
  -- and its id was never used, then all of them are applied: the record ends at the last one's
  -- status, with all their ids appended to the audit trail and its other fields unchanged.
  pub map_v3-AppliesWhole :
      (t : V3EventType)
      → map_v3 t input ≡ ok es
      → Starts r.status es
      → IsUnused input.event_id (audit r.audit_event_ids)
      → AppliesWhole
  map_v3-AppliesWhole t = whole (map_v3 t input) (map_v3-IsWhole t input)

  -- If a V4 adapter event maps to public events, the first of them may follow the record's status,
  -- and its id was never used, then all of them are applied: the record ends at the last one's
  -- status, with all their ids appended to the audit trail and its other fields unchanged.
  pub map_v4-AppliesWhole :
      (t : V4EventType)
      → map_v4 t input ≡ ok es
      → Starts r.status es
      → IsUnused input.event_id (audit r.audit_event_ids)
      → AppliesWhole
  map_v4-AppliesWhole t = whole (map_v4 t input) (map_v4-IsWhole t input)

  -- If a V5 adapter event maps to public events, the first of them may follow the record's status,
  -- and its id was never used, then all of them are applied: the record ends at the last one's
  -- status, with all their ids appended to the audit trail and its other fields unchanged.
  pub map_v5-AppliesWhole :
      (t : V5EventType)
      → map_v5 t input ≡ ok es
      → Starts r.status es
      → IsUnused input.event_id (audit r.audit_event_ids)
      → AppliesWhole
  map_v5-AppliesWhole t = whole (map_v5 t input) (map_v5-IsWhole t input)

  -- If an adapter event of V3, V4 or V5 maps to public events, the first of them may follow the
  -- record's status, and its id was never used, then all of them are applied: the record ends at the
  -- last one's status, with all their ids appended to the audit trail and its other fields unchanged.
  pub map_adapter-AppliesWhole :
      (t : AdapterEvent)
      → map_adapter t input ≡ ok es
      → Starts r.status es
      → IsUnused input.event_id (audit r.audit_event_ids)
      → AppliesWhole
  map_adapter-AppliesWhole (v3 t) = map_v3-AppliesWhole t
  map_adapter-AppliesWhole (v4 t) = map_v4-AppliesWhole t
  map_adapter-AppliesWhole (v5 t) = map_v5-AppliesWhole t
