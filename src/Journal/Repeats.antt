-- ===== src/Journal/Repeats.antt =====
-- A checkpoint that was recorded, under the checkpoints that are recorded after it.
use parly_relayer.Prelude.{
  ℕ, ◌≡◌, ◌≢◌, if◌then◌else◌, refl, ap, sym, subst, ◌∙◌, Bool, true, false, [], ◌∷◌, ◌++◌, Option,
  some, none, ok, err, arith, text_eq, text_eq_iff, to_lower, to_lower_idem, find?, Bool-cases, inl,
  inr, &&_iff,
}
use parly_relayer.Journal.{
  Version, Checkpoint, Row, Journal, unique_violation, different_transaction, has_key, lowered,
  agree, allows_step, assert_checkpoint, insert_checkpoint, record_local_checkpoint,
}
use parly_relayer.Journal.Table.{
  has_key_iff, IsLowered, IsTable, find?-append, find?-new, any_of_find?, find?-All,
}
use parly_relayer.Journal.Checkpoints.{new_row, IsAdded, record_cases}
use parly_relayer.Journal.Recorded.{record_local_checkpoint-IsTable}

-- The journal after any number of checkpoints that were taken.
pub data Later (v : Version) : Journal → Journal → Type 0 where
  at_once : {j : Journal} → Later v j j
  after :
      {j j' j'' : Journal} (now : ℕ) (c : Checkpoint) (added : Bool)
      → record_local_checkpoint v now c j ≡ ok (j', added)
      → Later v j' j''
      → Later v j j''

-- The row of a checkpoint.
record IsRecorded (c : Checkpoint) (j : Journal) : Type 0 where
  row : Row
  found : find? (has_key (to_lower c.intent_hash) c.step) j.checkpoints ≡ some row
  transaction : to_lower row.transaction_hash ≡ to_lower c.transaction_hash
  relayer : to_lower row.relayer_address ≡ to_lower c.relayer_address

added-IsRecorded :
    (c : Checkpoint) (now : ℕ) (j j' : Journal) (added : Bool)
    → IsAdded c now j j' added
    → IsRecorded c j'
unfolding lowered
added-IsRecorded c now j j' added a = subst (IsRecorded c) (sym a.grown) (record {
  row = new_row c now;
  found =
      find?-new (has_key (to_lower c.intent_hash) c.step) j.checkpoints (new_row c now) a.free
        ((has_key_iff (to_lower c.intent_hash) c.step (new_row c now)).1 (refl, refl));
  transaction = to_lower_idem c.transaction_hash;
  relayer = to_lower_idem c.relayer_address;
})

record-IsRecorded :
    (v : Version) (now : ℕ) (c : Checkpoint) (j j' : Journal) (added : Bool)
    → record_local_checkpoint v now c j ≡ ok (j', added)
    → IsRecorded c j'
record-IsRecorded v now c j j' added h = elim (record_cases v now c j j' added h).2 [
  | inl r ↦
      subst (IsRecorded c) (sym r.same)
        (record { row = r.row; found = r.found; transaction = r.transaction; relayer = r.relayer })
  | inr a ↦ added-IsRecorded c now j j' added a
]

find?-record :
    (p : Row → Bool) (row : Row) (v : Version) (now : ℕ) (c : Checkpoint) (j j' : Journal)
    (added : Bool)
    → record_local_checkpoint v now c j ≡ ok (j', added)
    → find? p j.checkpoints ≡ some row
    → find? p j'.checkpoints ≡ some row
find?-record p row v now c j j' added h e = elim (record_cases v now c j j' added h).2 [
  | inl r ↦ subst (λ k. find? p k.checkpoints ≡ some row) (sym r.same) e
  | inr a ↦
      subst (λ k. find? p k.checkpoints ≡ some row) (sym a.grown)
        (find?-append p j.checkpoints (new_row c now ∷ []) row e)
]

-- What is found in a journal is found in it later.
pub find?-Later :
    (v : Version) (p : Row → Bool) (row : Row) {j j' : Journal}
    → Later v j j'
    → find? p j.checkpoints ≡ some row
    → find? p j'.checkpoints ≡ some row
find?-Later v p row at_once e = e
find?-Later v p row (after {j} {j'} now c added h later) e =
    find?-Later v p row later (find?-record p row v now c j j' added h e)

IsTable-Later :
    (v : Version) {j j' : Journal} → Later v j j' → IsTable j.checkpoints → IsTable j'.checkpoints
IsTable-Later v at_once t = t
IsTable-Later v (after {j} {j'} now c added h later) t =
    IsTable-Later v later (record_local_checkpoint-IsTable v now c j j' added t h)

IsRecorded-Later :
    (v : Version) (c : Checkpoint) {j j' : Journal}
    → Later v j j'
    → IsRecorded c j
    → IsRecorded c j'
IsRecorded-Later v c later r = record {
  row = r.row;
  found = find?-Later v (has_key (to_lower c.intent_hash) c.step) r.row later r.found;
  transaction = r.transaction;
  relayer = r.relayer;
}

-- How a valid checkpoint is answered where its key has a row.
record_under_key :
    (v : Version) (now : ℕ) (c : Checkpoint) (j : Journal) (found : Option Row)
    → assert_checkpoint c ≡ ok tt
    → allows_step v c.step ≡ true
    → find? (has_key (to_lower c.intent_hash) c.step) j.checkpoints ≡ found
    → record_local_checkpoint v now c j ≡ insert_checkpoint now c j found
unfolding record_local_checkpoint
record_under_key v now c j found valid allowed e = ground arith

agree-IsRecorded : (c : Checkpoint) (j : Journal) (r : IsRecorded c j) → agree r.row c ≡ true
unfolding agree
agree-IsRecorded c j r =
    (&&_iff _ _).1 ((text_eq_iff _ _).1 r.transaction, (text_eq_iff _ _).1 r.relayer)

agree-different :
    (row : Row) (c : Checkpoint)
    → to_lower row.transaction_hash ≢ to_lower c.transaction_hash
    → agree row c ≡ false
unfolding agree
agree-different row c differ = elim (Bool-cases (agree row c)) [
  | inl same ↦ absurd (differ ((text_eq_iff _ _).0 ((&&_iff _ _).0 same).0))
  | inr other ↦ other
]

-- A checkpoint that was taken is taken again at any later time, and then changes nothing: the answer
-- says that no row was added.
pub record_local_checkpoint-again :
    (v : Version) (now again : ℕ) (c : Checkpoint) (j j' j'' : Journal) (added : Bool)
    → record_local_checkpoint v now c j ≡ ok (j', added)
    → Later v j' j''
    → record_local_checkpoint v again c j'' ≡ ok (j'', false)
unfolding insert_checkpoint
record_local_checkpoint-again v now again c j j' j'' added h later =
    let cases = record_cases v now c j j' added h in
    let r = IsRecorded-Later v c later (record-IsRecorded v now c j j' added h) in
    record_under_key v again c j'' (some r.row) cases.0 cases.1 r.found
    ∙ ap (λ b. if b then ok (j'', false) else err different_transaction) (agree-IsRecorded c j'' r)

-- A journal never changes the transaction of an intent and a step: once a checkpoint was taken, a valid
-- one with that intent and step and another transaction hash is refused as a different transaction.
pub record_local_checkpoint-different :
    (v : Version) (now again : ℕ) (c d : Checkpoint) (j j' j'' : Journal) (added : Bool)
    → record_local_checkpoint v now c j ≡ ok (j', added)
    → Later v j' j''
    → assert_checkpoint d ≡ ok tt
    → to_lower d.intent_hash ≡ to_lower c.intent_hash
    → d.step ≡ c.step
    → to_lower c.transaction_hash ≢ to_lower d.transaction_hash
    → record_local_checkpoint v again d j'' ≡ err different_transaction
unfolding insert_checkpoint
record_local_checkpoint-different v now again c d j j' j'' added h later valid intent step differ =
    let cases = record_cases v now c j j' added h in
    let r = IsRecorded-Later v c later (record-IsRecorded v now c j j' added h) in
    record_under_key v again d j'' (some r.row) valid (ap (allows_step v) step ∙ cases.1) (
      ap (λ i. find? (has_key i d.step) j''.checkpoints) intent
      ∙ ap (λ s. find? (has_key (to_lower c.intent_hash) s) j''.checkpoints) step
      ∙ r.found)
    ∙ ap (λ b. if b then ok (j'', false) else err different_transaction)
        (agree-different r.row d (λ same. differ (sym r.transaction ∙ same)))

-- One transaction stands for one intent only: once a checkpoint was taken, a valid one with the same
-- transaction hash under a key that is free is refused as a violation of uniqueness, in a table that
-- keeps its constraints.
pub record_local_checkpoint-shared :
    (v : Version) (now again : ℕ) (c d : Checkpoint) (j j' j'' : Journal) (added : Bool)
    → IsTable j.checkpoints
    → record_local_checkpoint v now c j ≡ ok (j', added)
    → Later v j' j''
    → assert_checkpoint d ≡ ok tt
    → allows_step v d.step ≡ true
    → find? (has_key (to_lower d.intent_hash) d.step) j''.checkpoints ≡ none
    → to_lower d.transaction_hash ≡ to_lower c.transaction_hash
    → record_local_checkpoint v again d j'' ≡ err unique_violation
unfolding insert_checkpoint
record_local_checkpoint-shared v now again c d j j' j'' added t h later valid allowed free same =
    let r = IsRecorded-Later v c later (record-IsRecorded v now c j j' added h) in
    let t'' = IsTable-Later v later (record_local_checkpoint-IsTable v now c j j' added t h) in
    let low =
      find?-All (has_key (to_lower c.intent_hash) c.step) IsLowered j''.checkpoints r.row t''.lower
        r.found in
    let used =
      any_of_find? (λ row. text_eq row.transaction_hash (to_lower d.transaction_hash))
        j''.checkpoints r.row (has_key (to_lower c.intent_hash) c.step) r.found
        ((text_eq_iff _ _).1 (sym low.1 ∙ r.transaction ∙ sym same)) in
    record_under_key v again d j'' none valid allowed free
    ∙ ap
        (λ b.
          if b
          then err unique_violation
          else ok (record j'' { checkpoints = j''.checkpoints ++ new_row d again ∷ [] }, true))
        used
