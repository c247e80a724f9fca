-- ===== src/Locks/Retired.antt =====
-- What a retirement and a reservation promise against later calls.
use parly_relayer.Prelude.{
  ℕ, ◌≡◌, refl, ap, sym, subst, Bool, true, List, [], ◌∷◌, Option, some, none, ok, err, arith, Text,
  any, find?, Bool-cases, inl, inr, >>=-eq-ok,
}
use parly_relayer.Locks.{
  Call, Execution, RetirementProof, is_released, is_call, reserved, retain_pool_v4_relay_execution,
  release, update_where, verified, valid_identity, permanently_retired, retire_bound, retire_row,
  retire_payout_v7_source_lock,
}
use parly_relayer.Locks.Fence.{Reaches}
use parly_relayer.Locks.Dead.{
  is_dead, any-append_one, release-is_dead, retire_row-IsInserted, retire_row-bound, retire_row-of,
  Reaches-dead,
}

dead_of_found :
    (hash : Text) (rows : List Execution) (row : Execution)
    → find? (is_call hash) rows ≡ some row
    → is_released row ≡ true
    → any (is_dead hash) rows ≡ true
dead_of_found hash [] row e h = cc
dead_of_found hash (r ∷ rows) row e h = elim (Bool-cases (is_call hash r)) [
  | inl hit ↦ ground (arith, ap is_released (found_first r row hit e))
  | inr miss ↦ ground (arith, dead_of_found hash rows row)
]
  where
    found_first :
        (r row : Execution)
        → is_call hash r ≡ true
        → find? (is_call hash) (r ∷ rows) ≡ some row
        → r ≡ row
    found_first r row hit e = ground arith

release-found :
    (hash : Text) (now : ℕ) (proof : RetirementProof) (rows : List Execution) (row : Execution)
    → find? (is_call hash) rows ≡ some row
    → any (is_dead hash) (update_where (is_call hash) (release now proof) rows) ≡ true
unfolding update_where release is_released is_call
release-found hash now proof [] row e = cc
release-found hash now proof (r ∷ rows) row e =
    ground (arith, release-found hash now proof rows row)

retire_bound-is_dead :
    (now : ℕ) (c : Call) (verify : Option RetirementProof) (rows rows' : List Execution)
    (row : Execution) (at : Option (ℕ × RetirementProof)) (proof : RetirementProof)
    → find? (is_call c.call_hash) rows ≡ some row
    → row.retired ≡ at
    → retire_bound now c verify rows at ≡ ok (rows', proof)
    → any (is_dead c.call_hash) rows' ≡ true
unfolding retire_bound is_released
retire_bound-is_dead now c verify rows rows' row (some (at, old)) proof found was e =
    subst (λ xs. any (is_dead c.call_hash) xs ≡ true) (ground arith)
      (dead_of_found c.call_hash rows row found (rw was refl))
retire_bound-is_dead now c verify rows rows' row none proof found was e =
    let (p, _, e') = >>=-eq-ok (verified c verify) _ e in
    subst (λ xs. any (is_dead c.call_hash) xs ≡ true) (ground (arith, e'))
      (release-found c.call_hash now p rows row found)

retire_row-is_dead :
    (now : ℕ) (c : Call) (verify : Option RetirementProof) (rows rows' : List Execution)
    (found : Option Execution) (proof : RetirementProof)
    → find? (is_call c.call_hash) rows ≡ found
    → retire_row now c verify rows found ≡ ok (rows', proof)
    → any (is_dead c.call_hash) rows' ≡ true
unfolding reserved
retire_row-is_dead now c verify rows rows' none proof found e =
    let i = retire_row-IsInserted now c verify rows rows' proof e in
    subst (λ xs. any (is_dead c.call_hash) xs ≡ true) (sym i.grown)
      (any-append_one (is_dead c.call_hash) rows (release now proof (reserved c))
        (release-is_dead now proof (reserved c)))
retire_row-is_dead now c verify rows rows' (some row) proof found e =
    retire_bound-is_dead now c verify rows rows' row row.retired proof found refl
      (retire_row-bound now c verify rows rows' row proof e)

retire-dead :
    (now : ℕ) (c : Call) (verify : Option RetirementProof) (rows rows' : List Execution)
    (proof : RetirementProof)
    → retire_payout_v7_source_lock now c verify rows ≡ ok (rows', proof)
    → any (is_dead c.call_hash) rows' ≡ true
retire-dead now c verify rows rows' proof e =
    retire_row-is_dead now c verify rows rows' (find? (is_call c.call_hash) rows) proof refl
      (retire_row-of now c verify rows rows' proof e)

-- A call that was retired is fenced for ever: after any later calls of the three functions, a valid
-- attempt to retain it again, reserving or not, is refused as permanently retired.
pub retired_forever :
    (now : ℕ) (c d : Call) (verify : Option RetirementProof) (proof : RetirementProof)
    (reserve : Bool) (rows rows' rows'' : List Execution)
    → retire_payout_v7_source_lock now c verify rows ≡ ok (rows', proof)
    → Reaches rows' rows''
    → d.call_hash ≡ c.call_hash
    → valid_identity d ≡ true
    → retain_pool_v4_relay_execution d reserve rows'' ≡ err permanently_retired
unfolding retain_pool_v4_relay_execution
retired_forever now c d verify proof reserve rows rows' rows'' e later same valid =
    let dead =
      Reaches-dead d.call_hash later (rw same (retire-dead now c verify rows rows' proof e)) in
    ground arith
