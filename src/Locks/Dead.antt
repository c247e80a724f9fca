-- ===== src/Locks/Dead.antt =====
-- A retired row stays in the table, and stays retired.
use parly_relayer.Prelude.{
  ℕ, length, ◌==◌, ◌≡◌, sym, subst, Bool, true, ◌&&◌, List, [], ◌∷◌, ◌++◌, Option, some, none, ok,
  arith, Text, text_eq_refl, filter, any, find?, inl, inr, >>=-eq-ok, guard,
}
use parly_relayer.Locks.{
  Call, Execution, RetirementProof, is_released, is_call, is_prior, reserved, insert_row, release,
  update_where, verified, valid_identity, distinct, bad_identity, binding_changed,
  execution_changed, is_same_binding, retire_bound, retire_row, retire_payout_v7_source_lock,
  is_submitted, record_submission,
}
use parly_relayer.Locks.Fence.{Step, retained, retired, submitted, Reaches, here, onward}
use parly_relayer.Locks.Steps.{IsInserted, retain_cases, answer_cases, insert_row-IsInserted}

-- The table has a retired row of the call.
abbrev pub is_dead : Text → Execution → Bool
is_dead hash row = is_call hash row && is_released row

any-append :
    (p : Execution → Bool) (rows more : List Execution)
    → any p rows ≡ true
    → any p (rows ++ more) ≡ true
any-append p [] more h = cc
any-append p (r ∷ rows) more h = ground (arith, any-append p rows more)

any-map_if :
    (p q : Execution → Bool) (f : Execution → Execution) (rows : List Execution)
    → ((r : Execution) → p r ≡ true → p (f r) ≡ true)
    → any p rows ≡ true
    → any p (update_where q f rows) ≡ true
unfolding update_where
any-map_if p q f [] k h = cc
any-map_if p q f (r ∷ rows) k h = ground (arith, k r, any-map_if p q f rows k)

pub any-append_one :
    (p : Execution → Bool) (rows : List Execution) (new : Execution)
    → p new ≡ true
    → any p (rows ++ new ∷ []) ≡ true
any-append_one p [] new h = ground arith
any-append_one p (r ∷ rows) new h = ground (arith, any-append_one p rows new h)

inserted-dead :
    (hash : Text) (new : Execution) (rows rows' : List Execution)
    → IsInserted new rows rows'
    → any (is_dead hash) rows ≡ true
    → any (is_dead hash) rows' ≡ true
inserted-dead hash new rows rows' i h =
    subst (λ xs. any (is_dead hash) xs ≡ true) (sym i.grown)
      (any-append (is_dead hash) rows (new ∷ []) h)

release-dead :
    (hash : Text) (now : ℕ) (proof : RetirementProof) (r : Execution)
    → is_dead hash r ≡ true
    → is_dead hash (release now proof r) ≡ true
unfolding release is_released is_call
release-dead hash now proof r h = ground arith

pub release-is_dead :
    (now : ℕ) (proof : RetirementProof) (r : Execution)
    → is_dead r.call_hash (release now proof r) ≡ true
unfolding release is_released is_call
release-is_dead now proof r = ground (arith, text_eq_refl r.call_hash)

retire_bound-dead :
    (hash : Text) (now : ℕ) (c : Call) (verify : Option RetirementProof)
    (rows rows' : List Execution) (at : Option (ℕ × RetirementProof)) (proof : RetirementProof)
    → retire_bound now c verify rows at ≡ ok (rows', proof)
    → any (is_dead hash) rows ≡ true
    → any (is_dead hash) rows' ≡ true
unfolding retire_bound
retire_bound-dead hash now c verify rows rows' (some (at, old)) proof e h =
    subst (λ xs. any (is_dead hash) xs ≡ true) (ground arith) h
retire_bound-dead hash now c verify rows rows' none proof e h =
    let (p, _, e') = >>=-eq-ok (verified c verify) _ e in
    subst (λ xs. any (is_dead hash) xs ≡ true) (ground (arith, e'))
      (any-map_if (is_dead hash) (is_call c.call_hash) (release now p) rows
        (release-dead hash now p) h)

pub retire_row-IsInserted :
    (now : ℕ) (c : Call) (verify : Option RetirementProof) (rows rows' : List Execution)
    (proof : RetirementProof)
    → retire_row now c verify rows none ≡ ok (rows', proof)
    → IsInserted (release now proof (reserved c)) rows rows'
unfolding retire_row
retire_row-IsInserted now c verify rows rows' proof e =
    let (p, _, e') = >>=-eq-ok (verified c verify) _ e in
    let (rows'', inserted, e'') = >>=-eq-ok (insert_row (release now p (reserved c)) rows) _ e' in
    insert_row-IsInserted (release now proof (reserved c)) rows rows'
      (ground (arith, inserted, e''))

pub retire_row-bound :
    (now : ℕ) (c : Call) (verify : Option RetirementProof) (rows rows' : List Execution)
    (row : Execution) (proof : RetirementProof)
    → retire_row now c verify rows (some row) ≡ ok (rows', proof)
    → retire_bound now c verify rows row.retired ≡ ok (rows', proof)
unfolding retire_row
retire_row-bound now c verify rows rows' row proof e =
    let (_, _, e') = >>=-eq-ok (guard (is_same_binding c row) binding_changed) _ e in e'

pub retire_row-of :
    (now : ℕ) (c : Call) (verify : Option RetirementProof) (rows rows' : List Execution)
    (proof : RetirementProof)
    → retire_payout_v7_source_lock now c verify rows ≡ ok (rows', proof)
    → retire_row now c verify rows (find? (is_call c.call_hash) rows) ≡ ok (rows', proof)
unfolding retire_payout_v7_source_lock
retire_row-of now c verify rows rows' proof e =
    let (_, _, e') =
      >>=-eq-ok (guard (valid_identity c && distinct c.nullifiers) bad_identity) _ e in
    e'

retire_row-dead :
    (hash : Text) (now : ℕ) (c : Call) (verify : Option RetirementProof)
    (rows rows' : List Execution) (found : Option Execution) (proof : RetirementProof)
    → retire_row now c verify rows found ≡ ok (rows', proof)
    → any (is_dead hash) rows ≡ true
    → any (is_dead hash) rows' ≡ true
retire_row-dead hash now c verify rows rows' none proof e h =
    inserted-dead hash (release now proof (reserved c)) rows rows'
      (retire_row-IsInserted now c verify rows rows' proof e) h
retire_row-dead hash now c verify rows rows' (some row) proof e h =
    retire_bound-dead hash now c verify rows rows' row.retired proof
      (retire_row-bound now c verify rows rows' row proof e) h

Step-dead :
    (hash : Text) {rows rows' : List Execution}
    → Step rows rows'
    → any (is_dead hash) rows ≡ true
    → any (is_dead hash) rows' ≡ true
unfolding record_submission is_released is_call
Step-dead hash (retained {rows} {rows'} c reserve a e) h =
    elim (answer_cases c reserve (filter (is_prior c) rows) rows rows' a
      (retain_cases c reserve rows rows' a e).0) [
        | inl same ↦ subst (λ xs. any (is_dead hash) xs ≡ true) (sym same) h
        | inr (_, i) ↦ inserted-dead hash (reserved c) rows rows' i h
      ]
Step-dead hash (retired {rows} {rows'} now c verify proof e) h =
    retire_row-dead hash now c verify rows rows' (find? (is_call c.call_hash) rows) proof
      (retire_row-of now c verify rows rows' proof e) h
Step-dead hash (submitted {rows} {rows'} call relayer tx e) h =
    let (_, _, e') =
      >>=-eq-ok (guard (length (filter (is_submitted call relayer tx) rows) == 1) execution_changed)
        _ e in
    subst (λ xs. any (is_dead hash) xs ≡ true) (ground (arith, e'))
      (any-map_if (is_dead hash) (is_submitted call relayer tx)
        (λ row. record row { transaction_hash = some tx }) rows (λ r k. k) h)

pub Reaches-dead :
    (hash : Text) {rows rows' : List Execution}
    → Reaches rows rows'
    → any (is_dead hash) rows ≡ true
    → any (is_dead hash) rows' ≡ true
Reaches-dead hash here h = h
Reaches-dead hash (onward s later) h = Reaches-dead hash later (Step-dead hash s h)
