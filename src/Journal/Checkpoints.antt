-- ===== src/Journal/Checkpoints.antt =====
-- What a recorded checkpoint promises: it is read back, it stays, and it is recorded once.
use parly_relayer.Prelude.{
  ℕ, ◌≡◌, refl, Bool, true, false, [], ◌∷◌, ◌++◌, Option, some, none, ok, arith, text_eq,
  text_eq_iff, to_lower, find?, any, Bool-cases, inl, inr, ◌⊎◌, &&_iff, >>=-eq-ok, guard,
  guard-eq-ok,
}
use parly_relayer.Journal.{
  Version, Checkpoint, Row, Journal, check_violation, has_key, lowered, agree, allows_step,
  assert_checkpoint, insert_checkpoint, record_local_checkpoint,
}

abbrev pub new_row : Checkpoint → ℕ → Row
new_row c now = record { entry = lowered c; created_at = now }

-- The two ways in which a checkpoint is taken: its row was there and agrees, or it is added.
pub record IsReplayed (c : Checkpoint) (j j' : Journal) (added : Bool) : Type 0 where
  pub row : Row
  pub found : find? (has_key (to_lower c.intent_hash) c.step) j.checkpoints ≡ some row
  pub transaction : to_lower row.transaction_hash ≡ to_lower c.transaction_hash
  pub relayer : to_lower row.relayer_address ≡ to_lower c.relayer_address
  pub same : j' ≡ j
  pub not_added : added ≡ false

pub record IsAdded (c : Checkpoint) (now : ℕ) (j j' : Journal) (added : Bool) : Type 0 where
  pub free : find? (has_key (to_lower c.intent_hash) c.step) j.checkpoints ≡ none
  pub unused :
      any (λ row. text_eq row.transaction_hash (to_lower c.transaction_hash)) j.checkpoints ≡ false
  pub grown : j' ≡ record j { checkpoints = j.checkpoints ++ new_row c now ∷ [] }
  pub is_added : added ≡ true

agree_transaction :
    (row : Row) (c : Checkpoint)
    → agree row c ≡ true
    → to_lower row.transaction_hash ≡ to_lower c.transaction_hash
unfolding agree
agree_transaction row c h = (text_eq_iff _ _).0 ((&&_iff _ _).0 h).0

agree_relayer :
    (row : Row) (c : Checkpoint)
    → agree row c ≡ true
    → to_lower row.relayer_address ≡ to_lower c.relayer_address
unfolding agree
agree_relayer row c h = (text_eq_iff _ _).0 ((&&_iff _ _).0 h).1

insert_checkpoint_cases :
    (now : ℕ) (c : Checkpoint) (j j' : Journal) (added : Bool) (found : Option Row)
    → find? (has_key (to_lower c.intent_hash) c.step) j.checkpoints ≡ found
    → insert_checkpoint now c j found ≡ ok (j', added)
    → IsReplayed c j j' added ⊎ IsAdded c now j j' added
unfolding insert_checkpoint
insert_checkpoint_cases now c j j' added (some row) e h = elim (Bool-cases (agree row c)) [
  | inl yes_ ↦ inl (record {
    row = row;
    found = e;
    transaction = agree_transaction row c yes_;
    relayer = agree_relayer row c yes_;
    same = ground arith;
    not_added = ground arith;
  })
  | inr no_ ↦ absurd (ground arith)
]
insert_checkpoint_cases now c j j' added none e h =
    elim (Bool-cases
      (any (λ row. text_eq row.transaction_hash (to_lower c.transaction_hash)) j.checkpoints)) [
        | inl used ↦ absurd (ground arith)
        | inr unused ↦
            inr
              (record { free = e; unused = unused; grown = ground arith; is_added = ground arith })
      ]

pub record_cases :
    (v : Version) (now : ℕ) (c : Checkpoint) (j j' : Journal) (added : Bool)
    → record_local_checkpoint v now c j ≡ ok (j', added)
    → (assert_checkpoint c ≡ ok tt)
      × (allows_step v c.step ≡ true)
      × (IsReplayed c j j' added ⊎ IsAdded c now j j' added)
unfolding record_local_checkpoint
record_cases v now c j j' added h =
    let (_, valid, h') = >>=-eq-ok (assert_checkpoint c) _ h in
    let (_, allowed, h'') = >>=-eq-ok (guard (allows_step v c.step) check_violation) _ h' in
    (
      valid,
      guard-eq-ok _ _ allowed,
      insert_checkpoint_cases now c j j' added
          (find? (has_key (to_lower c.intent_hash) c.step) j.checkpoints) refl h'',
    )
