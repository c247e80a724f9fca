-- ===== src/Inbox/Tests.antt =====
-- Two bundles and two claims, and the theorems on the inbox there.
use parly_relayer.Prelude.{
  ℕ, ◌≡◌, ◌≢◌, refl, subst, Bool, true, false, List, [], ◌∷◌, map, none, Text, codes, text_eq,
  to_lower, arith, any, All, ◌==◌,
}
use parly_relayer.Inbox.{
  Inbox, is_pending, is_due, earlier, insert_received, by_received, pick, has_id, is_picked,
  claimed, update_rows, as_record, claim_relay_inbox_batch, clipped, mark_relay_inbox_processed,
  reset_relay_inbox_claim, received, enqueue_relay_inbox_bundle,
}
use parly_relayer.Inbox.Claims.{
  Act, claim, mark, reset, enqueue, after_act, handed_by, handed, or_same, IsNumbered,
  claims_exclusive,
}
use parly_relayer.Inbox.Numbered.{after_acts, after_acts-IsNumbered}

inbox : Unit {0}
unfolding is_pending is_due earlier insert_received by_received pick has_id is_picked claimed
    update_rows as_record claim_relay_inbox_batch clipped mark_relay_inbox_processed
    reset_relay_inbox_claim received enqueue_relay_inbox_bundle after_act handed_by handed or_same
    after_acts text_eq to_lower
inbox = tt

-- A bundle is its own key.
abbrev key : Text → Text
key t = t

abbrev free : ℕ → Bool
free id = false

abbrev empty : Inbox Text
empty = record { rows = []; next_id = 1 }

-- The second bundle comes twice.
abbrev arrivals : List (Act Text)
arrivals =
    enqueue 5 (codes "0xA") (codes "one") none
    ∷ enqueue 6 (codes "0xa") (codes "two") none
    ∷ enqueue 7 (codes "0xa") (codes "two") none
    ∷ []

abbrev two : Inbox Text
two = record {
  rows =
      received key 5 1 (codes "0xa") (codes "one") none
      ∷ received key 6 2 (codes "0xa") (codes "two") none
      ∷ [];
  next_id = 4;
}

arrived : after_acts key arrivals empty ≡ two
unfolding inbox
arrived = refl

arrivals-IsNumbered : IsNumbered (after_acts key arrivals empty)
arrivals-IsNumbered = after_acts-IsNumbered key arrivals empty tt

two-IsNumbered : IsNumbered two
two-IsNumbered = subst IsNumbered arrived arrivals-IsNumbered

first_handed : any (λ r. r.id == 1) (claim_relay_inbox_batch 8 free (codes "0xA") 1 two).1 ≡ true
unfolding inbox
first_handed = refl

abbrev later : List (Act Text)
later =
    claim 9 free (codes "0xa") 10
    ∷ mark 10 1 none
    ∷ reset 11 2 (codes "busy") 10
    ∷ claim 20000000 free (codes "0xa") 10
    ∷ []

second_handed_twice :
    map (λ r. r.id) (handed key later (claim_relay_inbox_batch 8 free (codes "0xA") 1 two).0)
    ≡ 2 ∷ 2 ∷ []
unfolding inbox
second_handed_twice = refl

claims_exclusive_example :
    All (λ r. r.id ≢ 1) (handed key later (claim_relay_inbox_batch 8 free (codes "0xA") 1 two).0)
claims_exclusive_example =
    claims_exclusive key 1 8 free (codes "0xA") 1 two later two-IsNumbered first_handed
      (tt, (tt, ((λ e. ground (arith, e)), (tt, tt))))
