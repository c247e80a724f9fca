-- ===== src/Locks/Excluded.antt =====
-- A reservation of nullifiers, against another call and against the same call.
use parly_relayer.Prelude.{
  leb, length, ◌≡◌, ◌≢◌, refl, ap, sym, subst, ◌∙◌, Bool, true, false, ◌&&◌, List, [], ◌∷◌, ◌++◌,
  none, ok, err, arith, Text, text_eq, text_eq_iff, text_eq_refl, to_lower, filter, any, Bool-cases,
  inl, inr, >>=-eq-ok, guard, guard-eq-ok,
}
use parly_relayer.Locks.{
  Call, Execution, Retained, is_released, overlaps, is_call, is_prior, reserved, insert_row, answer,
  retain_pool_v4_relay_execution, valid_identity, bad_identity, inputs_taken,
}
use parly_relayer.Locks.Steps.{IsInserted, retain_cases, insert_row-IsInserted}

filter-append_none :
    (p : Execution → Bool) (rows : List Execution) (new : Execution)
    → filter p rows ≡ []
    → p new ≡ true
    → filter p (rows ++ new ∷ []) ≡ new ∷ []
filter-append_none p [] new e h = ground arith
filter-append_none p (r ∷ rows) new e h = ground (arith, filter-append_none p rows new)

in_filter :
    (p : Execution → Bool) (rows : List Execution) (new : Execution)
    → p new ≡ true
    → any (is_call new.call_hash) (filter p (rows ++ new ∷ [])) ≡ true
unfolding is_call
in_filter p [] new h = ground (arith, text_eq_refl new.call_hash)
in_filter p (r ∷ rows) new h = ground (arith, in_filter p rows new)

answer-refused :
    (a b : Call) (reserve : Bool) (prior rows : List Execution)
    → any (is_call a.call_hash) prior ≡ true
    → b.call_hash ≢ a.call_hash
    → answer b reserve prior rows ≡ err inputs_taken
unfolding answer is_call
answer-refused a b reserve [] rows h differ = cc
answer-refused a b reserve (row ∷ []) rows h differ =
    elim (Bool-cases (text_eq row.call_hash b.call_hash)) [
      | inl same ↦ absurd (
          differ (
            sym ((text_eq_iff _ _).0 same)
            ∙ (text_eq_iff row.call_hash a.call_hash).0 (ground (arith, h))))
      | inr other ↦ ground arith
    ]
answer-refused a b reserve (row ∷ other ∷ more) rows h differ = refl

answer-fresh :
    (c : Call) (prior rows rows' : List Execution) (a : Retained)
    → answer c true prior rows ≡ ok (rows', a)
    → a.fresh ≡ true
    → (prior ≡ []) × (a.transaction_hash ≡ none) × IsInserted (reserved c) rows rows'
unfolding answer
answer-fresh c [] rows rows' a h fresh =
    let (rows'', inserted, h') = >>=-eq-ok (insert_row (reserved c) rows) _ h in
    (refl, ground arith, insert_row-IsInserted (reserved c) rows rows' (ground (arith, inserted)))
answer-fresh c (row ∷ []) rows rows' a h fresh = absurd (ground (arith, fresh))
answer-fresh c (row ∷ other ∷ more) rows rows' a h fresh = cc

reserved-prior :
    (a b : Call)
    → to_lower a.pool ≡ to_lower b.pool
    → overlaps a.nullifiers b.nullifiers ≡ true
    → is_prior b (reserved a) ≡ true
unfolding is_prior reserved is_released
reserved-prior a b pool shared = ground (arith, (text_eq_iff _ _).1 pool)

retain-answer :
    (c : Call) (reserve : Bool) (rows : List Execution)
    → valid_identity c ≡ true
    → any (λ row. is_call c.call_hash row && is_released row) rows ≡ false
    → retain_pool_v4_relay_execution c reserve rows
      ≡ answer c reserve (filter (is_prior c) rows) rows
unfolding retain_pool_v4_relay_execution
retain-answer c reserve rows valid live = ground arith

-- While a call has just reserved nullifiers of a pool, another call of that pool that shares one of
-- them, is valid and was not retired, is refused because the inputs are taken, reserving or not.
pub retain_excludes :
    (a b : Call) (reserve : Bool) (x : Retained) (rows rows' : List Execution)
    → retain_pool_v4_relay_execution a true rows ≡ ok (rows', x)
    → x.fresh ≡ true
    → to_lower a.pool ≡ to_lower b.pool
    → overlaps a.nullifiers b.nullifiers ≡ true
    → b.call_hash ≢ a.call_hash
    → valid_identity b ≡ true
    → any (λ row. is_call b.call_hash row && is_released row) rows' ≡ false
    → retain_pool_v4_relay_execution b reserve rows' ≡ err inputs_taken
unfolding reserved
retain_excludes a b reserve x rows rows' e fresh pool shared differ valid live =
    let (_, _, i) =
      answer-fresh a (filter (is_prior a) rows) rows rows' x (retain_cases a true rows rows' x e).0
        fresh in
    retain-answer b reserve rows' valid live
    ∙ answer-refused a b reserve (filter (is_prior b) rows') rows'
        (subst (λ xs. any (is_call a.call_hash) (filter (is_prior b) xs) ≡ true) (sym i.grown)
          (in_filter (is_prior b) rows (reserved a) (reserved-prior a b pool shared)))
        differ

overlaps_self : (ns : List Text) → leb 1 (length ns) ≡ true → overlaps ns ns ≡ true
unfolding overlaps
overlaps_self [] h = ground arith
overlaps_self (n ∷ ns) h = ground (arith, text_eq_refl n)

valid-inputs : (c : Call) → valid_identity c ≡ true → leb 1 (length c.nullifiers) ≡ true
unfolding valid_identity
valid-inputs c h = ground arith

any-append_false :
    (p : Execution → Bool) (rows : List Execution) (new : Execution)
    → any p rows ≡ false
    → p new ≡ false
    → any p (rows ++ new ∷ []) ≡ false
any-append_false p [] new h k = ground arith
any-append_false p (r ∷ rows) new h k = ground (arith, any-append_false p rows new)

retain-valid :
    (c : Call) (reserve : Bool) (rows rows' : List Execution) (a : Retained)
    → retain_pool_v4_relay_execution c reserve rows ≡ ok (rows', a)
    → valid_identity c ≡ true
unfolding retain_pool_v4_relay_execution
retain-valid c reserve rows rows' a h =
    let (_, valid, _) = >>=-eq-ok (guard (valid_identity c) bad_identity) _ h in
    guard-eq-ok _ _ valid

reserved-live : (c : Call) → (is_call c.call_hash (reserved c) && is_released (reserved c)) ≡ false
unfolding reserved is_released is_call
reserved-live c = ground arith

answer_self :
    (c : Call) (reserve : Bool) (rows : List Execution)
    → answer c reserve (reserved c ∷ []) rows
      ≡ ok (rows, record { fresh = false; transaction_hash = none })
unfolding answer reserved
answer_self c reserve rows =
    ground (arith, text_eq_refl c.call_hash, text_eq_refl (to_lower c.relayer))

-- A call that has just reserved its nullifiers finds its reservation when it comes again: it is
-- accepted, is told that it is not fresh and has no transaction yet, and the table is unchanged.
pub retain-again :
    (c : Call) (reserve : Bool) (x : Retained) (rows rows' : List Execution)
    → retain_pool_v4_relay_execution c true rows ≡ ok (rows', x)
    → x.fresh ≡ true
    → retain_pool_v4_relay_execution c reserve rows'
      ≡ ok (rows', record { fresh = false; transaction_hash = none })
unfolding reserved
retain-again c reserve x rows rows' e fresh =
    let valid = retain-valid c true rows rows' x e in
    let cases = retain_cases c true rows rows' x e in
    let (no_prior, _, i) = answer-fresh c (filter (is_prior c) rows) rows rows' x cases.0 fresh in
    retain-answer c reserve rows' valid (
      subst (λ xs. any (λ row. is_call c.call_hash row && is_released row) xs ≡ false) (sym i.grown)
        (any-append_false (λ row. is_call c.call_hash row && is_released row) rows (reserved c)
          cases.1 (reserved-live c)))
    ∙ ap (λ prior. answer c reserve prior rows')
        (ap (filter (is_prior c)) i.grown
          ∙ filter-append_none (is_prior c) rows (reserved c) no_prior
              (reserved-prior c c refl (overlaps_self c.nullifiers (valid-inputs c valid))))
    ∙ answer_self c reserve rows'
