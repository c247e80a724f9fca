-- ===== src/Preparations/Promoted.antt =====
-- What a promotion leaves: a second one of the same payout, and a payout that cannot be read.
use parly_relayer.Prelude.{
  ℕ, ◌≡◌, refl, sym, ap, ◌∙◌, Bool, true, if◌then◌else◌, none, some, any, find?, ok, err, Text,
  codes, text_eq_iff, to_lower, is_lower_bytes32, arith,
}
use parly_relayer.Payloads.{Host, is_identifier, has_job}
use parly_relayer.Payouts.{PayoutSubmitJob}
use parly_relayer.Preparations.{
  PreparationRow, invalid_preparation, queued, already_queued, nothing, Tables, Reader,
  list_payout_v3_preparation_candidates, update_preparations, is_promotable, confirm_receipt,
}
use parly_relayer.Preparations.Promote.{
  with_transaction, preparation_of, given_up, promote_row, promote_found,
  promote_payout_v3_preparation_to_execution,
}
use parly_relayer.Preparations.Queued.{IsPromoted, with_transaction-ok, found-IsPromoted}

module _ {Sealed : Type 0} (host : Host Sealed PayoutSubmitJob) (reader : Reader Sealed) where
  -- The answer to a call whose arguments are well-formed.
  well_formed :
      (now : ℕ) (id intent status : Text) (tables : Tables Sealed)
      → is_identifier id ≡ true
      → is_lower_bytes32 (to_lower intent) ≡ true
      → status ≡ codes "escrow_receipt_confirmed"
      → promote_payout_v3_preparation_to_execution host reader now id intent status tables
        ≡ with_transaction tables (
            promote_found host reader now id
              (to_lower intent)
              tables
              (find? (is_promotable id (to_lower intent)) tables.preparations))
  unfolding promote_payout_v3_preparation_to_execution
  well_formed now id intent status tables h k e =
      ground (arith, h, k, (text_eq_iff status (codes "escrow_receipt_confirmed")).1 e)

  repeated :
      (later : ℕ) (id intent : Text) (tables : Tables Sealed)
      → find? (is_promotable id intent) tables.preparations ≡ none
      → any (has_job id) tables.executions.payloads ≡ true
      → with_transaction tables (
          promote_found host reader later id intent tables
            (find? (is_promotable id intent) tables.preparations))
        ≡ (tables, ok already_queued)
  unfolding with_transaction promote_found
  repeated later id intent tables none_left inside =
      ap (λ o. with_transaction tables (promote_found host reader later id intent tables o))
        none_left
      ∙ ap (λ b. (tables, ok (if b then already_queued else nothing))) inside

  rolled_back :
      (now : ℕ) (id intent : Text) (tables : Tables Sealed) (row : PreparationRow Sealed)
      → find? (is_promotable id intent) tables.preparations ≡ some row
      → preparation_of host reader (confirm_receipt now row) ≡ none
      → with_transaction tables (
          promote_found host reader now id intent tables
            (find? (is_promotable id intent) tables.preparations))
        ≡ (tables, err invalid_preparation)
  unfolding with_transaction promote_found promote_row given_up
  rolled_back now id intent tables row found unread =
      ap (λ o. with_transaction tables (promote_found host reader now id intent tables o)) found
      ∙ ap
          (λ o. with_transaction tables (
            promote_row host reader now (confirm_receipt now row)
              (record tables {
                preparations =
                    update_preparations (is_promotable id intent) (confirm_receipt now)
                      tables.preparations;
              })
              o))
          unread

  -- A payout that was promoted is not promoted twice: after a promotion that answered `queued`, a later one
  -- of the same payout and intent answers `already_queued` and leaves both tables as they are, for a valid
  -- payout id, a bytes32 intent hash and the confirmed status.
  pub promote_payout_v3_preparation_to_execution-again :
      (now later : ℕ) (id intent status : Text) (tables tables' : Tables Sealed)
      → is_identifier id ≡ true
      → is_lower_bytes32 (to_lower intent) ≡ true
      → status ≡ codes "escrow_receipt_confirmed"
      → promote_payout_v3_preparation_to_execution host reader now id intent status tables
        ≡ (tables', ok queued)
      → promote_payout_v3_preparation_to_execution host reader later id intent status tables'
        ≡ (tables', ok already_queued)
  unfolding IsPromoted
  promote_payout_v3_preparation_to_execution-again now later id intent status tables tables' h k e
        first =
      let found : PreparationRow Sealed → Bool = is_promotable id (to_lower intent) in
      let done : IsPromoted id (to_lower intent) tables' =
        found-IsPromoted host reader now id (to_lower intent) tables tables'
          (find? found tables.preparations) refl
          (with_transaction-ok tables tables' _ queued
            (sym (well_formed now id intent status tables h k e) ∙ first)) in
      well_formed later id intent status tables' h k e
      ∙ repeated later id (to_lower intent) tables' done.0 done.1

  -- A preparation that can be promoted but not read is not put under review, though the catch block says so:
  -- the promotion throws, both tables are as before, and so every listing of candidates is as before. The
  -- arguments are a valid payout id, a bytes32 intent hash and the confirmed status.
  pub unreadable_stays :
      (now limit : ℕ) (id intent status : Text) (tables : Tables Sealed)
      (row : PreparationRow Sealed)
      → is_identifier id ≡ true
      → is_lower_bytes32 (to_lower intent) ≡ true
      → status ≡ codes "escrow_receipt_confirmed"
      → find? (is_promotable id (to_lower intent)) tables.preparations ≡ some row
      → preparation_of host reader (confirm_receipt now row) ≡ none
      → (promote_payout_v3_preparation_to_execution host reader now id intent status tables
          ≡ (tables, err invalid_preparation))
        × (list_payout_v3_preparation_candidates limit
              (promote_payout_v3_preparation_to_execution host reader now id intent status tables).0
            ≡ list_payout_v3_preparation_candidates limit tables)
  unreadable_stays now limit id intent status tables row h k e found unread =
      let answer : promote_payout_v3_preparation_to_execution host reader now id intent status
            tables
          ≡ (tables, err invalid_preparation) =
        well_formed now id intent status tables h k e
        ∙ rolled_back now id (to_lower intent) tables row found unread in
      (answer, ap (λ pair. list_payout_v3_preparation_candidates limit pair.0) answer)
