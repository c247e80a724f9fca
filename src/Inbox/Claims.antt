-- ===== src/Inbox/Claims.antt =====
-- Who gets a bundle: no row is handed to two claims, unless it is reset in between.
use parly_relayer.Prelude.{
  ℕ, ◌≡◌, ◌≢◌, ◌<◌, ◌==◌, ==_iff, refl, ap, sym, subst, ◌∙◌, Bool, true, false, ◌&&◌, if◌then◌else◌,
  List, [], ◌∷◌, ◌++◌, map, Option, ok, err, arith, Text, to_lower, filter, filter-All, any, All,
  All-append, All-map, Bool-cases, inl, inr, ◌>>◌, guard, Result, leb,
}
use parly_relayer.Inbox.{
  Inbox, InboxRow, RelayInboxRecord, InboxError, is_pending, is_due, pick, has_id, is_picked,
  claimed, update_rows, as_record, claim_relay_inbox_batch, mark_relay_inbox_processed,
  reset_relay_inbox_claim, bad_retry_delay, received, enqueue_relay_inbox_bundle,
}
use parly_relayer.Inbox.Kept.{IsTaken, All-if, update_rows-All, pick-due, pick-All, not_picked}

-- A call of one of the functions.
pub data Act (B : Type 0) : Type 0 where
  claim : ℕ → (ℕ → Bool) → Text → ℕ → Act B
  mark : ℕ → ℕ → Option Text → Act B
  reset : ℕ → ℕ → Text → ℕ → Act B
  enqueue : ℕ → Text → B → Option Text → Act B

module _ {B : Type 0} where
  -- The act does not reset the row.
  abbrev pub Spares : ℕ → Act B → Type 0
  Spares id (claim now locked relayer limit) = Unit
  Spares id (mark now other error) = Unit
  Spares id (reset now other message delay) = other ≢ id
  Spares id (enqueue now relayer bundle source) = Unit

  unfoldable pub or_same : Inbox B → Result InboxError (Inbox B) → Inbox B
  or_same inbox (ok inbox') = inbox'
  or_same inbox (err e) = inbox

  module _ (bundle_key : B → Text) where
    unfoldable pub after_act : Act B → Inbox B → Inbox B
    after_act (claim now locked relayer limit) inbox =
        (claim_relay_inbox_batch now locked relayer limit inbox).0
    after_act (mark now id error) inbox = mark_relay_inbox_processed now id error inbox
    after_act (reset now id message delay) inbox =
        or_same inbox (reset_relay_inbox_claim now id message delay inbox)
    after_act (enqueue now relayer bundle source) inbox =
        (enqueue_relay_inbox_bundle bundle_key now relayer bundle source inbox).0

    unfoldable pub handed_by : Act B → Inbox B → List (RelayInboxRecord B)
    handed_by (claim now locked relayer limit) inbox =
        (claim_relay_inbox_batch now locked relayer limit inbox).1
    handed_by _ inbox = []

    -- All records that the claims among the acts hand out.
    unfoldable pub handed : List (Act B) → Inbox B → List (RelayInboxRecord B)
    unfolding after_act handed_by
    handed [] inbox = []
    handed (act ∷ acts) inbox = handed_by act inbox ++ handed acts (after_act act inbox)

  -- No claim can hand out the row `id`, as the table stands.
  pub record IsGone (id : ℕ) (inbox : Inbox B) : Type 0 where
    pub taken : All (IsTaken id) inbox.rows
    pub used : id < inbox.next_id

  abbrev pub IsNumbered : Inbox B → Type 0
  IsNumbered inbox = All (λ r. r.id < inbox.next_id) inbox.rows

  All-as_record :
      (id : ℕ) (rows : List (InboxRow B))
      → All (λ r. r.id ≢ id) rows
      → All (λ r. r.id ≢ id) (map as_record rows)
  unfolding as_record
  All-as_record id [] h = tt
  All-as_record id (r ∷ rows) h = (h.0, All-as_record id rows h.1)

  pending_of_due :
      (now : ℕ) (relayer : Text) (locked : ℕ → Bool) (r : InboxRow B)
      → is_due now relayer locked r ≡ true
      → is_pending r.status ≡ true
  unfolding is_due
  pending_of_due now relayer locked r h = ground arith

  claim-avoids :
      (id now : ℕ) (locked : ℕ → Bool) (relayer : Text) (limit : ℕ) (inbox : Inbox B)
      → All (IsTaken id) inbox.rows
      → All (λ r. r.id ≢ id) (claim_relay_inbox_batch now locked relayer limit inbox).1
  unfolding claim_relay_inbox_batch
  claim-avoids id now locked relayer limit inbox h =
      let picked = pick now (to_lower relayer) limit locked inbox.rows in
      let due =
        All-map _ _ picked (pending_of_due now (to_lower relayer) locked)
          (pick-due now (to_lower relayer) limit locked inbox.rows) in
      let taken = pick-All (IsTaken id) now (to_lower relayer) limit locked inbox.rows h in
      All-as_record id (filter (is_picked picked) inbox.rows) (
        All-map _ _ (filter (is_picked picked) inbox.rows)
          (λ r hit. not_picked id picked r due taken hit)
          (filter-All (is_picked picked) inbox.rows))

  pub or_same-guard :
      (b : Bool) (inbox x : Inbox B)
      → or_same inbox (guard b bad_retry_delay >> ok x) ≡ (if b then x else inbox)
  unfolding or_same
  or_same-guard true inbox x = refl
  or_same-guard false inbox x = refl

  IsGone-if :
      (id : ℕ) (b : Bool) (x y : Inbox B)
      → IsGone id x
      → IsGone id y
      → IsGone id (if b then x else y)
  IsGone-if id true x y g h = g
  IsGone-if id false x y g h = h

  id_of_hit : (id : ℕ) (r : InboxRow B) → has_id id r ≡ true → r.id ≡ id
  unfolding has_id
  id_of_hit id r h = ground arith

  act-IsGone :
      (bundle_key : B → Text) (id : ℕ) (act : Act B) (inbox : Inbox B)
      → Spares id act
      → IsGone id inbox
      → IsGone id (after_act bundle_key act inbox)
  unfolding after_act claim_relay_inbox_batch mark_relay_inbox_processed enqueue_relay_inbox_bundle
      reset_relay_inbox_claim claimed is_pending received
  act-IsGone bundle_key id (claim now locked relayer limit) inbox s g = record {
    taken = update_rows-All (IsTaken id) _ _ inbox.rows (λ r hit old e. refl) g.taken;
    used = g.used;
  }
  act-IsGone bundle_key id (mark now other error) inbox s g = record {
    taken = update_rows-All (IsTaken id) _ _ inbox.rows (λ r hit old e. refl) g.taken;
    used = g.used;
  }
  act-IsGone bundle_key id (reset now other message delay) inbox s g =
      rw (or_same-guard (leb 1 delay && leb delay 3600) inbox _) (
        IsGone-if id (leb 1 delay && leb delay 3600) _ inbox
          (record {
            taken =
                update_rows-All (IsTaken id) _ _ inbox.rows
                  (λ r hit old e. absurd (s (sym (id_of_hit other r hit) ∙ e))) g.taken;
            used = g.used;
          })
          g)
  act-IsGone bundle_key id (enqueue now relayer bundle source) inbox s g = record {
    taken = All-if (IsTaken id) _ inbox.rows _ g.taken (
        All-append (IsTaken id) inbox.rows _ g.taken
          ((λ e. absurd (omega (arith, e, g.used))), tt));
    used = omega (arith, g.used);
  }

  act-avoids :
      (bundle_key : B → Text) (id : ℕ) (act : Act B) (inbox : Inbox B)
      → IsGone id inbox
      → All (λ r. r.id ≢ id) (handed_by bundle_key act inbox)
  unfolding handed_by
  act-avoids bundle_key id (claim now locked relayer limit) inbox g =
      claim-avoids id now locked relayer limit inbox g.taken
  act-avoids bundle_key id _ inbox g = tt

  handed-avoids :
      (bundle_key : B → Text) (id : ℕ) (acts : List (Act B)) (inbox : Inbox B)
      → All (Spares id) acts
      → IsGone id inbox
      → All (λ r. r.id ≢ id) (handed bundle_key acts inbox)
  unfolding handed
  handed-avoids bundle_key id [] inbox s g = tt
  handed-avoids bundle_key id (act ∷ acts) inbox s g =
      All-append _ (handed_by bundle_key act inbox)
        (handed bundle_key acts (after_act bundle_key act inbox))
        (act-avoids bundle_key id act inbox g)
        (handed-avoids bundle_key id acts (after_act bundle_key act inbox) s.1
          (act-IsGone bundle_key id act inbox s.0 g))

  picked_of_handed :
      (id : ℕ) (picked rows : List (InboxRow B)) (bound : ℕ)
      → All (λ r. r.id < bound) rows
      → any (λ r. r.id == id) (map as_record (filter (is_picked picked) rows)) ≡ true
      → (any (has_id id) picked ≡ true) × (id < bound)
  unfolding is_picked as_record
  picked_of_handed id picked [] bound n h = absurd (ground arith)
  picked_of_handed id picked (r ∷ rows) bound n h = elim (Bool-cases (any (has_id r.id) picked)) [
    | inl hit ↦ elim (Bool-cases (r.id == id)) [
      | inl same ↦ (
        subst (λ i. any (has_id i) picked ≡ true) ((==_iff r.id id).0 same) hit,
        subst (λ i. i < bound) ((==_iff r.id id).0 same) n.0,
      )
      | inr other ↦ picked_of_handed id picked rows bound n.1 (ground arith)
    ]
    | inr miss ↦ picked_of_handed id picked rows bound n.1 (ground arith)
  ]

  claimed-IsTaken :
      (id now : ℕ) (relayer : Text) (picked rows : List (InboxRow B))
      → any (has_id id) picked ≡ true
      → All (IsTaken id) (update_rows (is_picked picked) (claimed now relayer) rows)
  unfolding update_rows is_picked claimed is_pending
  claimed-IsTaken id now relayer picked [] h = tt
  claimed-IsTaken id now relayer picked (r ∷ rows) h =
      (one (any (has_id r.id) picked) refl, claimed-IsTaken id now relayer picked rows h)
    where
      one :
          (b : Bool)
          → any (has_id r.id) picked ≡ b
          → IsTaken id (if b then claimed now relayer r else r)
      one true e = λ same. refl
      one false e =
          λ same. absurd (ground (arith, sym h ∙ ap (λ i. any (has_id i) picked) (sym same) ∙ e))

  claim-IsGone :
      (id now : ℕ) (locked : ℕ → Bool) (relayer : Text) (limit : ℕ) (inbox : Inbox B)
      → IsNumbered inbox
      → any (λ r. r.id == id) (claim_relay_inbox_batch now locked relayer limit inbox).1 ≡ true
      → IsGone id (claim_relay_inbox_batch now locked relayer limit inbox).0
  unfolding claim_relay_inbox_batch
  claim-IsGone id now locked relayer limit inbox n h =
      let picked = pick now (to_lower relayer) limit locked inbox.rows in
      let (hit, used) = picked_of_handed id picked inbox.rows inbox.next_id n h in
      record {
        taken = claimed-IsTaken id now (to_lower relayer) picked inbox.rows hit;
        used = used;
      }

  -- Once a claim handed out a row, no later claim hands it out, whoever claims and whatever is marked,
  -- enqueued or reset in between, as long as the row itself is not reset. The ids of the table must lie
  -- below its next id.
  pub claims_exclusive :
      (bundle_key : B → Text) (id now : ℕ) (locked : ℕ → Bool) (relayer : Text) (limit : ℕ)
      (inbox : Inbox B) (acts : List (Act B))
      → IsNumbered inbox
      → any (λ r. r.id == id) (claim_relay_inbox_batch now locked relayer limit inbox).1 ≡ true
      → All (Spares id) acts
      → All
          (λ r. r.id ≢ id)
          (handed bundle_key acts (claim_relay_inbox_batch now locked relayer limit inbox).0)
  claims_exclusive bundle_key id now locked relayer limit inbox acts n h s =
      handed-avoids bundle_key id acts (claim_relay_inbox_batch now locked relayer limit inbox).0 s
        (claim-IsGone id now locked relayer limit inbox n h)
