-- ===== src/Locks/Fence.antt =====
-- No two live executions of a pool share a nullifier.
use parly_relayer.Prelude.{
  ℕ, ◌≡◌, ◌≢◌, refl, sym, ◌∙◌, Bool, false, if◌then◌else◌, List, [], ◌∷◌, ◌++◌, map, Option, ok,
  arith, Text, text_eq_iff, to_lower, filter, any, All, All-append, Bool-cases, inl, inr,
}
use parly_relayer.Locks.{
  Call, Execution, RetirementProof, Retained, is_released, overlaps, is_call, is_prior,
  retain_pool_v4_relay_execution, release, update_where, retire_payout_v7_source_lock,
  record_submission,
}

-- Two rows are of different calls, and if both are live in one pool, they share no nullifier.
abbrev pub Apart : Execution → Execution → Type 0
Apart r s =
    (r.call_hash ≢ s.call_hash)
    × (is_released r ≡ false
        → is_released s ≡ false
        → r.pool_address ≡ s.pool_address
        → overlaps r.nullifiers s.nullifiers ≡ false)

abbrev pub IsFenced : List Execution → Type 0
IsFenced [] = Unit
IsFenced (r ∷ rows) = All (Apart r) rows × IsFenced rows

-- A step of the table: a call of one of the functions that returns.
pub data Step : List Execution → List Execution → Type 0 where
  retained :
      {rows rows' : List Execution} (c : Call) (reserve : Bool) (a : Retained)
      → retain_pool_v4_relay_execution c reserve rows ≡ ok (rows', a)
      → Step rows rows'
  retired :
      {rows rows' : List Execution} (now : ℕ) (c : Call) (verify : Option RetirementProof)
      (proof : RetirementProof)
      → retire_payout_v7_source_lock now c verify rows ≡ ok (rows', proof)
      → Step rows rows'
  submitted :
      {rows rows' : List Execution} (call relayer hash : Text)
      → record_submission call relayer hash rows ≡ ok rows'
      → Step rows rows'

pub data Reaches : List Execution → List Execution → Type 0 where
  here : {rows : List Execution} → Reaches rows rows
  onward :
      {rows rows' rows'' : List Execution}
      → Step rows rows'
      → Reaches rows' rows''
      → Reaches rows rows''

pub IsFenced-append :
    (rows : List Execution) (new : Execution)
    → IsFenced rows
    → All (λ r. Apart r new) rows
    → IsFenced (rows ++ new ∷ [])
IsFenced-append [] new h d = (tt, tt)
IsFenced-append (r ∷ rows) new h d =
    (All-append (Apart r) rows (new ∷ []) h.0 (d.0, tt), IsFenced-append rows new h.1 d.1)

-- What an update of a row keeps.
pub record Keeps (f : Execution → Execution) (r : Execution) : Type 0 where
  pub call : (f r).call_hash ≡ r.call_hash
  pub pool : (f r).pool_address ≡ r.pool_address
  pub inputs : (f r).nullifiers ≡ r.nullifiers
  pub live : is_released (f r) ≡ false → is_released r ≡ false

Apart-Keeps :
    (f : Execution → Execution) (r s : Execution)
    → Keeps f r
    → Keeps f s
    → Apart r s
    → Apart (f r) (f s)
Apart-Keeps f r s k l a = (
  (λ e. a.0 (sym k.call ∙ e ∙ l.call)),
  λ free free' pool.
      rw k.inputs (rw l.inputs (a.1 (k.live free) (l.live free') (sym k.pool ∙ pool ∙ l.pool))),
)

All-map-Apart :
    (f : Execution → Execution) (r : Execution) (rows : List Execution)
    → Keeps f r
    → ((s : Execution) → Keeps f s)
    → All (Apart r) rows
    → All (Apart (f r)) (map f rows)
All-map-Apart f r [] k ks h = tt
All-map-Apart f r (s ∷ rows) k ks h =
    (Apart-Keeps f r s k (ks s) h.0, All-map-Apart f r rows k ks h.1)

IsFenced-map :
    (f : Execution → Execution) (rows : List Execution)
    → ((s : Execution) → Keeps f s)
    → IsFenced rows
    → IsFenced (map f rows)
IsFenced-map f [] ks h = tt
IsFenced-map f (r ∷ rows) ks h = (All-map-Apart f r rows (ks r) ks h.0, IsFenced-map f rows ks h.1)

Keeps-if :
    (p : Execution → Bool) (f : Execution → Execution) (r : Execution)
    → Keeps f r
    → Keeps (λ row. if p row then f row else row) r
Keeps-if p f r k = record {
  call = ground (arith, k.call);
  pool = ground (arith, k.pool);
  inputs = ground (arith, k.inputs);
  live = λ h. ground (arith, k.live);
}

pub update_where-IsFenced :
    (p : Execution → Bool) (f : Execution → Execution) (rows : List Execution)
    → ((s : Execution) → Keeps f s)
    → IsFenced rows
    → IsFenced (update_where p f rows)
unfolding update_where
update_where-IsFenced p f rows ks h =
    IsFenced-map (λ row. if p row then f row else row) rows (λ s. Keeps-if p f s (ks s)) h

pub release-Keeps :
    (now : ℕ) (proof : RetirementProof) (r : Execution) → Keeps (release now proof) r
unfolding release is_released
release-Keeps now proof r = record { call = refl; pool = refl; inputs = refl; live = λ h. cc }

pub unused :
    (hash : Text) (rows : List Execution)
    → any (is_call hash) rows ≡ false
    → All (λ r. r.call_hash ≢ hash) rows
unfolding is_call
unused hash [] h = tt
unused hash (r ∷ rows) h =
    (λ e. ground (arith, (text_eq_iff r.call_hash hash).1 e), unused hash rows (ground arith))

pub overlaps_of_prior :
    (c : Call) (rows : List Execution)
    → filter (is_prior c) rows ≡ []
    → All
        (λ r.
          is_released r ≡ false
          → r.pool_address ≡ to_lower c.pool
          → overlaps r.nullifiers c.nullifiers ≡ false)
        rows
unfolding is_prior
overlaps_of_prior c [] h = tt
overlaps_of_prior c (r ∷ rows) h = elim (Bool-cases (is_prior c r)) [
  | inl prior ↦ absurd (ground arith)
  | inr free ↦ (
    λ live pool. ground (arith, (text_eq_iff _ _).1 pool),
    overlaps_of_prior c rows (ground arith),
  )
]
