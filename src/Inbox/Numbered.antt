-- ===== src/Inbox/Numbered.antt =====
-- The ids of the table stay below its next id.
use parly_relayer.Prelude.{
  ◌<◌, ◌+◌, Bool, true, false, ◌&&◌, if◌then◌else◌, List, [], ◌∷◌, arith, Text, All-append, All-map,
  leb,
}
use parly_relayer.Inbox.{
  Inbox, claimed, received, claim_relay_inbox_batch, mark_relay_inbox_processed,
  reset_relay_inbox_claim, enqueue_relay_inbox_bundle,
}
use parly_relayer.Inbox.Kept.{All-if, update_rows-All}
use parly_relayer.Inbox.Claims.{
  Act, claim, mark, reset, enqueue, after_act, or_same-guard, IsNumbered,
}

module _ {B : Type 0} (bundle_key : B → Text) where
  IsNumbered-if :
      (b : Bool) (x y : Inbox B) → IsNumbered x → IsNumbered y → IsNumbered (if b then x else y)
  IsNumbered-if true x y h k = h
  IsNumbered-if false x y h k = k

  act-IsNumbered :
      (act : Act B) (inbox : Inbox B)
      → IsNumbered inbox
      → IsNumbered (after_act bundle_key act inbox)
  unfolding after_act claim_relay_inbox_batch mark_relay_inbox_processed enqueue_relay_inbox_bundle
      reset_relay_inbox_claim claimed received
  act-IsNumbered (claim now locked relayer limit) inbox n =
      update_rows-All (λ r. r.id < inbox.next_id) _ _ inbox.rows (λ r hit old. old) n
  act-IsNumbered (mark now id error) inbox n =
      update_rows-All (λ r. r.id < inbox.next_id) _ _ inbox.rows (λ r hit old. old) n
  act-IsNumbered (reset now id message delay) inbox n =
      rw (or_same-guard (leb 1 delay && leb delay 3600) inbox _) (
        IsNumbered-if (leb 1 delay && leb delay 3600) _ inbox
          (update_rows-All (λ r. r.id < inbox.next_id) _ _ inbox.rows (λ r hit old. old) n) n)
  act-IsNumbered (enqueue now relayer bundle source) inbox n =
      let grown =
        All-map (λ r. r.id < inbox.next_id) (λ r. r.id < inbox.next_id + 1) inbox.rows
          (λ r h. omega (arith, h)) n in
      All-if (λ r. r.id < inbox.next_id + 1) _ inbox.rows _ grown
        (All-append (λ r. r.id < inbox.next_id + 1) inbox.rows _ grown (omega arith, tt))

  unfoldable pub after_acts : List (Act B) → Inbox B → Inbox B
  after_acts [] inbox = inbox
  after_acts (act ∷ acts) inbox = after_acts acts (after_act bundle_key act inbox)

  -- After any acts, the ids of the table lie below its next id, if they did before.
  pub after_acts-IsNumbered :
      (acts : List (Act B)) (inbox : Inbox B)
      → IsNumbered inbox
      → IsNumbered (after_acts acts inbox)
  unfolding after_acts
  after_acts-IsNumbered [] inbox n = n
  after_acts-IsNumbered (act ∷ acts) inbox n =
      after_acts-IsNumbered acts (after_act bundle_key act inbox) (act-IsNumbered act inbox n)
