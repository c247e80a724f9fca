-- ===== src/Journal/Table.antt =====
-- The constraints of a checkpoint table, and searches in a table that grows at its end.
use parly_relayer.Prelude.{
  ℕ, ◌≡◌, ◌≢◌, ◌↔◌, refl, subst, Bool, true, false, List, [], ◌∷◌, ◌++◌, some, none, arith, Text,
  text_eq, text_eq_iff, to_lower, to_lower_idem, find?, any, All, All-append, Bool-cases, inl, inr,
}
use parly_relayer.Journal.{
  Step, Checkpoint, Row, step_eq, step_index, has_key, lowered, accept_quote,
}

step_index-injective : (s t : Step) → step_index s ≡ step_index t → s ≡ t
unfolding step_index
step_index-injective accept_quote t h = ground arith
step_index-injective _ t h = ground arith

pub step_eq_iff : (s t : Step) → (step_eq s t ≡ true) ↔ (s ≡ t)
unfolding step_eq
step_eq_iff s t = ground (arith, step_index-injective s t)

pub has_key_iff :
    (intent : Text) (step : Step) (row : Row)
    → (has_key intent step row ≡ true) ↔ ((row.intent_hash ≡ intent) × (row.step ≡ step))
unfolding has_key
has_key_iff intent step row =
    ground (arith, text_eq_iff row.intent_hash intent, step_eq_iff row.step step)

-- Two rows differ in intent or step, which is the primary key, and in their transactions.
abbrev pub Distinct : Row → Row → Type 0
Distinct r s =
    ((r.intent_hash ≡ s.intent_hash) × (r.step ≡ s.step) → ⊥)
    × (r.transaction_hash ≢ s.transaction_hash)

abbrev pub IsKeyed : List Row → Type 0
IsKeyed [] = Unit
IsKeyed (r ∷ rows) = All (Distinct r) rows × IsKeyed rows

abbrev pub IsLowered : Row → Type 0
IsLowered r =
    (to_lower r.intent_hash ≡ r.intent_hash)
    × (to_lower r.transaction_hash ≡ r.transaction_hash)
    × (to_lower r.relayer_address ≡ r.relayer_address)

-- The table keeps its constraints, and all its texts are in lower case.
pub record IsTable (rows : List Row) : Type 0 where
  pub keyed : IsKeyed rows
  pub lower : All IsLowered rows

pub IsKeyed-append :
    (rows : List Row) (new : Row)
    → IsKeyed rows
    → All (λ r. Distinct r new) rows
    → IsKeyed (rows ++ new ∷ [])
IsKeyed-append [] new h d = (tt, tt)
IsKeyed-append (r ∷ rows) new h d =
    (All-append (Distinct r) rows (new ∷ []) h.0 (d.0, tt), IsKeyed-append rows new h.1 d.1)

pub lowered-IsLowered :
    (c : Checkpoint) (now : ℕ) → IsLowered (record { entry = lowered c; created_at = now })
unfolding lowered
lowered-IsLowered c now =
    (to_lower_idem c.intent_hash, to_lower_idem c.transaction_hash, to_lower_idem c.relayer_address)

-- A row under a free key and with a free transaction is distinct from all rows.
pub Distinct-of_free :
    (rows : List Row) (new : Row)
    → find? (has_key new.intent_hash new.step) rows ≡ none
    → any (λ row. text_eq row.transaction_hash new.transaction_hash) rows ≡ false
    → All (λ r. Distinct r new) rows
Distinct-of_free [] new free unused = tt
Distinct-of_free (r ∷ rows) new free unused = (
  (
    (λ same. ground (arith, has_key_iff new.intent_hash new.step r, same)),
    λ same. ground (arith, text_eq_iff r.transaction_hash new.transaction_hash, same),
  ),
  Distinct-of_free rows new (ground arith) (ground arith),
)

module _ (p : Row → Bool) where
  pub find?-append :
      (rows more : List Row) (row : Row)
      → find? p rows ≡ some row
      → find? p (rows ++ more) ≡ some row
  find?-append [] more row e = cc
  find?-append (r ∷ rows) more row e = ground (arith, find?-append rows more row)

  pub find?-new :
      (rows : List Row) (new : Row)
      → find? p rows ≡ none
      → p new ≡ true
      → find? p (rows ++ new ∷ []) ≡ some new
  find?-new [] new e h = ground arith
  find?-new (r ∷ rows) new e h = ground (arith, find?-new rows new)

  -- A narrower test finds the same row, if the row passes it.
  pub find?-narrow :
      (q : Row → Bool)
      → ((r : Row) → q r ≡ true → p r ≡ true)
      → (rows : List Row) (row : Row) → find? p rows ≡ some row
      → q row ≡ true
      → find? q rows ≡ some row
  find?-narrow q h [] row e k = cc
  find?-narrow q h (r ∷ rows) row e k = ground (arith, h r, find?-narrow q h rows row)

  pub find?-narrow_none :
      (q : Row → Bool)
      → ((r : Row) → q r ≡ true → p r ≡ true)
      → (rows : List Row) → find? p rows ≡ none
      → find? q rows ≡ none
  find?-narrow_none q h [] e = refl
  find?-narrow_none q h (r ∷ rows) e = ground (arith, h r, find?-narrow_none q h rows)

  pub any-append_new :
      (rows : List Row) (new : Row) → p new ≡ true → any p (rows ++ new ∷ []) ≡ true
  any-append_new [] new h = ground arith
  any-append_new (r ∷ rows) new h = ground (arith, any-append_new rows new h)

  pub any_of_find? :
      (rows : List Row) (row : Row) (q : Row → Bool)
      → find? q rows ≡ some row
      → p row ≡ true
      → any p rows ≡ true
  any_of_find? [] row q e h = cc
  any_of_find? (r ∷ rows) row q e h = ground (arith, any_of_find? rows row q)

  pub find?-All {ℓ} :
      (P : Row → Type ℓ) (rows : List Row) (row : Row)
      → All P rows
      → find? p rows ≡ some row
      → P row
  find?-All P [] row h e = cc
  find?-All P (r ∷ rows) row h e = elim (Bool-cases (p r)) [
    | inl hit ↦ subst P (ground arith) h.0
    | inr miss ↦ find?-All P rows row h.1 (ground arith)
  ]
