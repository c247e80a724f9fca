-- ===== src/Preparations/Queued.antt =====
-- What a promotion that answered leaves: no row to promote, and the payout in the queue.
use parly_relayer.Prelude.{
  ℕ, ◌≡◌, refl, sym, ap, subst, Bool, true, false, if◌then◌else◌, Option, none, some, List, [], ◌∷◌,
  ◌++◌, any, find?, find?-sound, Result, ok, err, Text, text_eq_iff, text_eq_refl, arith,
}
use parly_relayer.Payloads.{EventType, PayloadRow, PayloadStore, Host, event, has_job, log}
use parly_relayer.Payloads.Enqueue.{queued_row}
use parly_relayer.Payouts.{PayoutSubmitJob}
use parly_relayer.Preparations.{
  PreparationRow, Preparation, PreparationError, Promotion, queued, already_queued, nothing, Tables,
  Reader, is_open, has_payout, update_preparations, is_promotable, confirm_receipt,
  is_receipt_confirmed, is_confirmed_payout, submit,
}
use parly_relayer.Preparations.Promote.{
  with_transaction, preparation_of, execution_row, insert_execution, given_up, enqueue_execution,
  promote_row, promote_found,
}

module _ {Sealed : Type 0} (now : ℕ) (id intent : Text) where
  -- After the two statements of a promotion, no row can be promoted.
  row_done :
      (row : PreparationRow Sealed)
      → (let moved : PreparationRow Sealed =
            if is_promotable id intent row then confirm_receipt now row else row in
          is_promotable id intent (if is_confirmed_payout id moved then submit now moved else moved)
          ≡ false)
  unfolding is_promotable is_confirmed_payout confirm_receipt submit is_open is_receipt_confirmed
      has_payout
  row_done row = ground arith

  none_promotable :
      (rows : List (PreparationRow Sealed))
      → find? (is_promotable id intent) (
          update_preparations
            (is_confirmed_payout id)
            (submit now)
            (update_preparations (is_promotable id intent) (confirm_receipt now) rows))
        ≡ none
  unfolding update_preparations
  none_promotable [] = refl
  none_promotable (row ∷ rows) = ground (arith, row_done row, none_promotable rows)

-- The two other answers are not `queued`.
not_queued :
    {P : Type 0} (b : Bool)
    → ◌≡◌ {A = Result PreparationError Promotion}
        (ok (if b then already_queued else nothing))
        (ok queued)
    → P
not_queued true h = cc
not_queued false h = cc

some_inj : {A : Type 0} (a b : A) → some a ≡ some b → a ≡ b
some_inj a b h = cc

promotable_id :
    {Sealed : Type 0} (id intent : Text) (row : PreparationRow Sealed)
    → is_promotable id intent row ≡ true
    → row.payout_id ≡ id
unfolding is_promotable has_payout
promotable_id id intent row h = (text_eq_iff row.payout_id id).0 (ground (arith, h))

-- Nothing is left to promote, and the payout is in the queue.
unfoldable pub IsPromoted : {Sealed : Type 0} → Text → Text → Tables Sealed → Type 0
IsPromoted id intent tables =
    (find? (is_promotable id intent) tables.preparations ≡ none)
    × (any (has_job id) tables.executions.payloads ≡ true)

any-snoc :
    {A : Type 0} (p : A → Bool) (xs : List A) (x : A) → p x ≡ true → any p (xs ++ x ∷ []) ≡ true
any-snoc p [] x h = ground (arith, h)
any-snoc p (y ∷ xs) x h = ground (arith, any-snoc p xs x h)

pub with_transaction-ok :
    {A Sealed : Type 0} (before after : Tables Sealed)
    (r : Tables Sealed × Result PreparationError A) (a : A)
    → with_transaction before r ≡ (after, ok a)
    → r ≡ (after, ok a)
unfolding with_transaction
with_transaction-ok before after (tables, ok answer) a h = h
with_transaction-ok before after (tables, err thrown) a h = cc

module _ {Sealed : Type 0} (host : Host Sealed PayoutSubmitJob) (reader : Reader Sealed) where
  insert_execution-any :
      (row : PayloadRow Sealed) (store store' : PayloadStore Sealed)
      → insert_execution host reader row store ≡ some store'
      → any (has_job row.job_id) store'.payloads ≡ true
  unfolding insert_execution has_job
  insert_execution-any row store store' h =
      go (any (has_job row.job_id) store.payloads) (host.admits_payload row store.payloads) refl h
    where
      grown : PayloadStore Sealed
      grown = record store { payloads = store.payloads ++ row ∷ [] }

      go :
          (a b : Bool)
          → any (has_job row.job_id) store.payloads ≡ a
          → (if a then some store else if b then some grown else none) ≡ some store'
          → any (has_job row.job_id) store'.payloads ≡ true
      go true b e f =
          subst (λ s. any (has_job row.job_id) s.payloads ≡ true) (some_inj store store' f) e
      go false true e f =
          subst (λ s. any (has_job row.job_id) s.payloads ≡ true) (some_inj grown store' f)
            (any-snoc (has_job row.job_id) store.payloads row (text_eq_refl row.job_id))
      go false false e f = cc

  enqueued-IsPromoted :
      (now : ℕ) (id intent : Text) (row : PreparationRow Sealed) (execution : PayloadRow Sealed)
      (tables tables' : Tables Sealed) (found : Option (PayloadStore Sealed))
      → row.payout_id ≡ id
      → ((store : PayloadStore Sealed)
          → found ≡ some store
          → any (has_job id) store.payloads ≡ true)
      → enqueue_execution host reader now row execution
          (record tables {
            preparations =
                update_preparations
                  (is_promotable id intent)
                  (confirm_receipt now)
                  tables.preparations;
          })
          found
        ≡ (tables', ok queued)
      → IsPromoted id intent tables'
  unfolding enqueue_execution given_up IsPromoted log
  enqueued-IsPromoted now id intent row execution tables tables' none same inside h = cc
  enqueued-IsPromoted now id intent row execution tables tables' (some store) same inside h =
      let before : List (PreparationRow Sealed) =
        update_preparations (is_promotable id intent) (confirm_receipt now) tables.preparations in
      let left : Tables Sealed = record tables {
        preparations = update_preparations (is_confirmed_payout row.payout_id) (submit now) before;
        executions =
            log
              (record (event row.payout_id EventType.queued) {
                evidence_hash = some execution.payload_hash;
              })
              store;
      } in
      subst
        (λ t.
          (find? (is_promotable id intent) t.preparations ≡ none)
          × (any (has_job id) t.executions.payloads ≡ true))
        (ap (λ pair. pair.0) h)
        (
          subst
              (λ i.
                find? (is_promotable id intent)
                  (update_preparations (is_confirmed_payout i) (submit now) before)
                ≡ none)
              (sym same) (none_promotable now id intent tables.preparations),
          inside store refl,
        )

  promote_row-IsPromoted :
      (now : ℕ) (id intent : Text) (row : PreparationRow Sealed) (tables tables' : Tables Sealed)
      (found : Option Preparation)
      → row.payout_id ≡ id
      → promote_row host reader now row
          (record tables {
            preparations =
                update_preparations
                  (is_promotable id intent)
                  (confirm_receipt now)
                  tables.preparations;
          })
          found
        ≡ (tables', ok queued)
      → IsPromoted id intent tables'
  unfolding promote_row given_up execution_row queued_row
  promote_row-IsPromoted now id intent row tables tables' none same h = cc
  promote_row-IsPromoted now id intent row tables tables' (some p) same h =
      enqueued-IsPromoted now id intent row (execution_row host reader now row p) tables tables'
        (insert_execution host reader (execution_row host reader now row p) tables.executions) same
        (λ store e.
          subst (λ i. any (has_job i) store.payloads ≡ true) same
            (insert_execution-any (execution_row host reader now row p) tables.executions store e))
        h

  pub found-IsPromoted :
      (now : ℕ) (id intent : Text) (tables tables' : Tables Sealed)
      (found : Option (PreparationRow Sealed))
      → find? (is_promotable id intent) tables.preparations ≡ found
      → promote_found host reader now id intent tables found ≡ (tables', ok queued)
      → IsPromoted id intent tables'
  unfolding promote_found confirm_receipt
  found-IsPromoted now id intent tables tables' none e h =
      not_queued (any (has_job id) tables.executions.payloads) (ap (λ pair. pair.1) h)
  found-IsPromoted now id intent tables tables' (some row) e h =
      promote_row-IsPromoted now id intent (confirm_receipt now row) tables tables'
        (preparation_of host reader (confirm_receipt now row))
        (promotable_id id intent row
          (find?-sound (is_promotable id intent) tables.preparations row e))
        h
