-- ===== src/Journal/Recorded.antt =====
-- What a recorded checkpoint promises afterwards: the constraints of its table, and what a lookup reads.
use parly_relayer.Prelude.{
  ℕ, ◌≡◌, refl, ap, sym, subst, ◌∙◌, Bool, true, [], ◌∷◌, some, ok, arith, Text, text_eq_iff,
  text_eq_refl, to_lower, to_lower_idem, is_bytes32, is_address, find?, find?-sound, All-append,
  inl, inr, &&_iff, >>=-eq-ok, guard, guard-eq-ok,
}
use parly_relayer.Journal.{
  Version, v4, v5, v6, Step, Checkpoint, Row, Journal, bad_intent_hash, bad_transaction_hash,
  has_key, matches, lowered, assert_checkpoint, assert_lookup, record_local_checkpoint,
  get_local_checkpoint,
}
use parly_relayer.Journal.Table.{
  has_key_iff, IsLowered, IsTable, IsKeyed-append, lowered-IsLowered, Distinct-of_free, find?-new,
  find?-narrow, find?-narrow_none, find?-All,
}
use parly_relayer.Journal.Checkpoints.{new_row, IsReplayed, IsAdded, record_cases}

added-IsTable :
    (c : Checkpoint) (now : ℕ) (j j' : Journal) (added : Bool)
    → IsTable j.checkpoints
    → IsAdded c now j j' added
    → IsTable j'.checkpoints
unfolding lowered
added-IsTable c now j j' added t a =
    subst (λ k. IsTable k.checkpoints) (sym a.grown)
      (record {
        keyed =
            IsKeyed-append j.checkpoints (new_row c now) t.keyed
              (Distinct-of_free j.checkpoints (new_row c now) a.free a.unused);
        lower =
            All-append IsLowered j.checkpoints (new_row c now ∷ []) t.lower
              (lowered-IsLowered c now, tt);
      })

-- A table whose texts are in lower case and in which no two rows share intent and step, or a transaction
-- hash, is such a table after a checkpoint is recorded.
pub record_local_checkpoint-IsTable :
    (v : Version) (now : ℕ) (c : Checkpoint) (j j' : Journal) (added : Bool)
    → IsTable j.checkpoints
    → record_local_checkpoint v now c j ≡ ok (j', added)
    → IsTable j'.checkpoints
record_local_checkpoint-IsTable v now c j j' added t h =
    elim (record_cases v now c j j' added h).2 [
      | inl r ↦ subst (λ k. IsTable k.checkpoints) (sym r.same) t
      | inr a ↦ added-IsTable c now j j' added t a
    ]

hex_of_assert_checkpoint :
    (c : Checkpoint)
    → assert_checkpoint c ≡ ok tt
    → (is_bytes32 c.intent_hash ≡ true) × (is_address c.relayer_address ≡ true)
unfolding assert_checkpoint
hex_of_assert_checkpoint c h =
    let (_, intent, h') = >>=-eq-ok (guard (is_bytes32 c.intent_hash) bad_intent_hash) _ h in
    let (_, transaction, h'') =
      >>=-eq-ok (guard (is_bytes32 c.transaction_hash) bad_transaction_hash) _ h' in
    (guard-eq-ok _ _ intent, guard-eq-ok _ _ h'')

assert_lookup_of_hex :
    (v : Version) (intent relayer : Text)
    → is_bytes32 intent ≡ true
    → is_address relayer ≡ true
    → assert_lookup v intent relayer ≡ ok tt
unfolding assert_lookup
assert_lookup_of_hex v4 intent relayer h k = ground arith
assert_lookup_of_hex v5 intent relayer h k = ground arith
assert_lookup_of_hex v6 intent relayer h k = ground arith

get_of_find :
    (v : Version) (intent : Text) (step : Step) (relayer : Text) (j : Journal) (row : Row)
    → assert_lookup v intent relayer ≡ ok tt
    → find? (matches intent step relayer) j.checkpoints ≡ some row
    → get_local_checkpoint v intent step relayer j ≡ ok (some (to_lower row.transaction_hash))
unfolding get_local_checkpoint
get_of_find v intent step relayer j row valid found = ground arith

matches-narrow :
    (intent : Text) (step : Step) (relayer : Text) (row : Row)
    → matches intent step relayer row ≡ true
    → has_key (to_lower intent) step row ≡ true
unfolding matches
matches-narrow intent step relayer row h = ((&&_iff _ _).0 h).0

new_row-matches :
    (c : Checkpoint) (now : ℕ)
    → matches c.intent_hash c.step c.relayer_address (new_row c now) ≡ true
unfolding lowered matches
new_row-matches c now = (&&_iff _ _).1 (
  (has_key_iff (to_lower c.intent_hash) c.step (new_row c now)).1 (refl, refl),
  text_eq_refl (to_lower c.relayer_address),
)

replayed-found :
    (c : Checkpoint) (j j' : Journal) (added : Bool)
    → IsTable j.checkpoints
    → (r : IsReplayed c j j' added)
    → find? (matches c.intent_hash c.step c.relayer_address) j.checkpoints ≡ some r.row
unfolding matches
replayed-found c j j' added t r =
    let key = find?-sound (has_key (to_lower c.intent_hash) c.step) j.checkpoints r.row r.found in
    let low =
      find?-All (has_key (to_lower c.intent_hash) c.step) IsLowered j.checkpoints r.row t.lower
        r.found in
    find?-narrow (has_key (to_lower c.intent_hash) c.step)
      (matches c.intent_hash c.step c.relayer_address)
      (matches-narrow c.intent_hash c.step c.relayer_address) j.checkpoints r.row r.found
      ((&&_iff _ _).1 (key, (text_eq_iff _ _).1 (sym low.2 ∙ r.relayer)))

added-found :
    (c : Checkpoint) (now : ℕ) (j j' : Journal) (added : Bool)
    → IsAdded c now j j' added
    → find? (matches c.intent_hash c.step c.relayer_address) j'.checkpoints ≡ some (new_row c now)
added-found c now j j' added a =
    subst
      (λ k.
        find? (matches c.intent_hash c.step c.relayer_address) k.checkpoints ≡ some (new_row c now))
      (sym a.grown)
      (find?-new (matches c.intent_hash c.step c.relayer_address) j.checkpoints (new_row c now)
        (find?-narrow_none (has_key (to_lower c.intent_hash) c.step)
          (matches c.intent_hash c.step c.relayer_address)
          (matches-narrow c.intent_hash c.step c.relayer_address) j.checkpoints a.free)
        (new_row-matches c now))

lookup_is_valid :
    (v w : Version) (now : ℕ) (c : Checkpoint) (j j' : Journal) (added : Bool)
    → record_local_checkpoint v now c j ≡ ok (j', added)
    → assert_lookup w c.intent_hash c.relayer_address ≡ ok tt
lookup_is_valid v w now c j j' added h =
    let hex = hex_of_assert_checkpoint c (record_cases v now c j j' added h).0 in
    assert_lookup_of_hex w c.intent_hash c.relayer_address hex.0 hex.1

-- A checkpoint that was recorded, now or before, is read back by its intent, step and relayer: the lookup
-- gives its transaction hash in lower case, in a table that keeps its constraints.
pub get_local_checkpoint-record_local_checkpoint :
    (v : Version) (now : ℕ) (c : Checkpoint) (j j' : Journal) (added : Bool)
    → IsTable j.checkpoints
    → record_local_checkpoint v now c j ≡ ok (j', added)
    → get_local_checkpoint v c.intent_hash c.step c.relayer_address j'
      ≡ ok (some (to_lower c.transaction_hash))
unfolding lowered
get_local_checkpoint-record_local_checkpoint v now c j j' added t h =
    let valid = lookup_is_valid v v now c j j' added h in
    elim (record_cases v now c j j' added h).2 [
      | inl r ↦
          get_of_find v c.intent_hash c.step c.relayer_address j' r.row valid (
            subst
              (λ k.
                find? (matches c.intent_hash c.step c.relayer_address) k.checkpoints ≡ some r.row)
              (sym r.same) (replayed-found c j j' added t r))
          ∙ ap (λ x. ok (some x)) r.transaction
      | inr a ↦
          get_of_find v c.intent_hash c.step c.relayer_address j' (new_row c now) valid
            (added-found c now j j' added a)
          ∙ ap (λ x. ok (some x)) (to_lower_idem c.transaction_hash)
    ]
