-- ===== src/Lifecycle/Chains.antt =====
-- Chains of public events: when a record takes all of them.
use mathlib.Core.List.{append_cancel_left, append_assoc, append-nil}
use parly_relayer.Prelude.{
  ◌≡◌, ◌≢◌, refl, sym, ◌∙◌, true, false, List, [], ◌∷◌, ◌++◌, ok, arith, Text, String, codes, All,
  All-append, text_eq_iff, Bool-cases, inl, inr,
}
use parly_relayer.Lifecycle.{
  PayoutStatus, LifecycleEvent, PayoutRecord, audit, includes, allows, needs_reason, has_text,
  moved, apply_event, apply_events,
}

-- Each status follows the one before it, and each status that needs a reason has one.
abbrev pub IsChain : PayoutStatus → List LifecycleEvent → Type 0
IsChain s [] = Unit
IsChain s (e ∷ es) =
    (allows s e.status ≡ true)
    × (needs_reason e.status ≡ true → has_text e.reason_hash ≡ true)
    × IsChain e.status es

-- The first event may follow the status.
abbrev pub Starts : PayoutStatus → List LifecycleEvent → Type 0
Starts s [] = Unit
Starts s (e ∷ es) = allows s e.status ≡ true

-- No event is in the audit trail when its turn comes.
abbrev pub IsFresh : List Text → List LifecycleEvent → Type 0
IsFresh ids [] = Unit
IsFresh ids (e ∷ es) = (includes ids e.event_id ≡ false) × IsFresh (ids ++ e.event_id ∷ []) es

abbrev pub last_status : PayoutStatus → List LifecycleEvent → PayoutStatus
last_status s [] = s
last_status s (e ∷ es) = last_status e.status es

abbrev pub event_ids : List LifecycleEvent → List Text
event_ids [] = []
event_ids (e ∷ es) = e.event_id ∷ event_ids es

module _ {F : Type 0} where
  apply_event-fresh :
      (r : PayoutRecord F) (e : LifecycleEvent)
      → includes (audit r.audit_event_ids) e.event_id ≡ false
      → allows r.status e.status ≡ true
      → (needs_reason e.status ≡ true → has_text e.reason_hash ≡ true)
      → apply_event r e ≡ ok (moved r e)
  unfolding apply_event
  apply_event-fresh r e new allowed reasoned = elim (Bool-cases (needs_reason e.status)) [
    | inl needs ↦ ground (arith, reasoned needs)
    | inr free ↦ ground arith
  ]

  pub apply_events-IsChain :
      (r : PayoutRecord F) (es : List LifecycleEvent)
      → IsChain r.status es
      → IsFresh (audit r.audit_event_ids) es
      → (r' : PayoutRecord F) × (apply_events r es ≡ ok r')
        × (r'.status ≡ last_status r.status es)
        × (audit r'.audit_event_ids ≡ audit r.audit_event_ids ++ event_ids es)
        × (r'.fields ≡ r.fields)
  unfolding apply_events moved
  apply_events-IsChain r [] c f = (r, refl, refl, sym (append-nil _), refl)
  apply_events-IsChain r (e ∷ es) (allowed, reasoned, c) (new, f) =
      let (r', done, status, trail, fields) = apply_events-IsChain (moved r e) es c f in
      (
        r',
        rw (apply_event-fresh r e new allowed reasoned) done,
        status,
        trail ∙ append_assoc (audit r.audit_event_ids) (e.event_id ∷ []) (event_ids es),
        fields,
      )

-- No event of the adapter event is in the audit trail.
abbrev pub IsUnused : Text → List Text → Type 0
IsUnused id ids = All (λ t. (suffix : String) → t ≢ id ++ codes ":" ++ codes suffix) ids

not_includes : (ids : List Text) (id : Text) → All (λ t. t ≢ id) ids → includes ids id ≡ false
unfolding includes
not_includes [] id h = refl
not_includes (t ∷ ids) id (n, h) = ground (arith, text_eq_iff t id, not_includes ids id h)

unused_at :
    (id : Text) (suffix : String) (ids : List Text)
    → IsUnused id ids
    → All (λ t. t ≢ id ++ codes ":" ++ codes suffix) ids
unused_at id suffix [] h = tt
unused_at id suffix (t ∷ ids) (n, h) = (n suffix, unused_at id suffix ids h)

pub fresh_one :
    (id : Text) (suffix : String) (ids : List Text)
    → IsUnused id ids
    → includes ids (id ++ codes ":" ++ codes suffix) ≡ false
fresh_one id suffix ids h = not_includes ids _ (unused_at id suffix ids h)

pub fresh_two :
    (id : Text) (first second : String) (ids : List Text)
    → codes first ≢ codes second
    → IsUnused id ids
    → includes (ids ++ (id ++ codes ":" ++ codes first) ∷ []) (id ++ codes ":" ++ codes second)
      ≡ false
fresh_two id first second ids differ h = not_includes _ _ (
    All-append _ ids _ (unused_at id second ids h)
      ((λ same. differ (append_cancel_left (id ++ codes ":") _ _ same)), tt))
