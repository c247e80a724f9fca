-- ===== src/Pending/Upsert.antt =====
-- What a lookup finds after an execution was persisted.
use parly_relayer.Prelude.{
  ◌≡◌, ◌≢◌, refl, sym, subst, ◌∙◌, Bool, true, false, if◌then◌else◌, List, [], ◌∷◌, ◌++◌, Option,
  some, arith, Text, text_eq, text_eq_iff, text_eq_refl, find?, any, Bool-cases, inl, inr,
}
use parly_relayer.Pending.{
  Pending, PendingRelayerRecord, StoredPendingRelayerRecord, build_persistence_key, has_key,
  overwrite, persist_pending_execution,
}

module _ {B : Type 0} where
  -- The first row of a key.
  abbrev pub find_key :
      Text → List (StoredPendingRelayerRecord B) → Option (StoredPendingRelayerRecord B)
  find_key key = find? (has_key key)

  has_key_of :
      (key : Text) (row : StoredPendingRelayerRecord B)
      → has_key key row ≡ true
      → row.persistence_key ≡ key
  unfolding has_key
  has_key_of key row h = (text_eq_iff row.persistence_key key).0 h

  has_key_refl : (row : StoredPendingRelayerRecord B) → has_key row.persistence_key row ≡ true
  unfolding has_key
  has_key_refl row = text_eq_refl row.persistence_key

  has_key-differs :
      (key other : Text) (row : StoredPendingRelayerRecord B)
      → row.persistence_key ≡ key
      → key ≢ other
      → has_key other row ≡ false
  unfolding has_key
  has_key-differs key other row e differ = elim (Bool-cases (text_eq row.persistence_key other)) [
    | inl same ↦ absurd (differ (sym e ∙ (text_eq_iff _ _).0 same))
    | inr no_match ↦ no_match
  ]

  -- What is found for a key after its entry was replaced.
  pub record IsEntry (key : Text) (r : PendingRelayerRecord B)
      (rows : List (StoredPendingRelayerRecord B)) : Type 0 where
    pub row : StoredPendingRelayerRecord B
    pub found : find_key key rows ≡ some row
    pub key_is : row.persistence_key ≡ key
    pub entry_is : row.entry ≡ r

  has_key-entry :
      (key : Text) (r : PendingRelayerRecord B) (row : StoredPendingRelayerRecord B)
      → has_key key row ≡ true
      → has_key key (record row { entry = r }) ≡ true
  unfolding has_key
  has_key-entry key r row h = h

  overwrite-IsEntry :
      (key : Text) (r : PendingRelayerRecord B) (rows : List (StoredPendingRelayerRecord B))
      → any (has_key key) rows ≡ true
      → IsEntry key r (overwrite key r rows)
  unfolding overwrite
  overwrite-IsEntry key r [] h = absurd (ground arith)
  overwrite-IsEntry key r (row ∷ rows) h = elim (Bool-cases (has_key key row)) [
    | inl hit ↦ record {
      row = record row { entry = r };
      found = ground (arith, has_key-entry key r row hit);
      key_is = has_key_of key row hit;
      entry_is = refl;
    }
    | inr miss ↦
        let e = overwrite-IsEntry key r rows (ground arith) in
        record {
          row = e.row;
          found = ground (arith, e.found);
          key_is = e.key_is;
          entry_is = e.entry_is;
        }
  ]

  append-IsEntry :
      (key : Text) (rows : List (StoredPendingRelayerRecord B)) (new : StoredPendingRelayerRecord B)
      → any (has_key key) rows ≡ false
      → new.persistence_key ≡ key
      → IsEntry key new.entry (rows ++ new ∷ [])
  append-IsEntry key [] new h e = record {
    row = new;
    found = ground (arith, subst (λ k. has_key k new ≡ true) e (has_key_refl new));
    key_is = e;
    entry_is = refl;
  }
  append-IsEntry key (row ∷ rows) new h e =
      let later = append-IsEntry key rows new (ground arith) e in
      record {
        row = later.row;
        found = ground (arith, later.found);
        key_is = later.key_is;
        entry_is = later.entry_is;
      }

  IsEntry-if :
      (key : Text) (r : PendingRelayerRecord B) (b : Bool)
      (xs ys : List (StoredPendingRelayerRecord B))
      → (b ≡ true → IsEntry key r xs)
      → (b ≡ false → IsEntry key r ys)
      → IsEntry key r (if b then xs else ys)
  IsEntry-if key r true xs ys h k = h refl
  IsEntry-if key r false xs ys h k = k refl

  -- After an execution is persisted, the row that is found for its key carries it, whether the key was
  -- there before or not.
  pub persist_pending_execution-IsEntry :
      (sha256 : B → Text) (r : PendingRelayerRecord B) (store : Pending B)
      → IsEntry (build_persistence_key sha256 r) r (persist_pending_execution sha256 r store).rows
  unfolding persist_pending_execution
  persist_pending_execution-IsEntry sha256 r store =
      let key = build_persistence_key sha256 r in
      IsEntry-if key r (any (has_key key) store.rows) _ _
        (λ there. overwrite-IsEntry key r store.rows there)
        (λ new.
          append-IsEntry key store.rows
            (record { id = store.next_id; persistence_key = key; entry = r }) new refl)

  overwrite-other :
      (key other : Text) (r : PendingRelayerRecord B) (rows : List (StoredPendingRelayerRecord B))
      → key ≢ other
      → find_key other (overwrite key r rows) ≡ find_key other rows
  unfolding overwrite
  overwrite-other key other r [] differ = refl
  overwrite-other key other r (row ∷ rows) differ = elim (Bool-cases (has_key key row)) [
    | inl hit ↦ ground (
      arith,
      has_key-differs key other row (has_key_of key row hit) differ,
      has_key-differs key other (record row { entry = r }) (has_key_of key row hit) differ,
      overwrite-other key other r rows differ,
    )
    | inr miss ↦ ground (arith, overwrite-other key other r rows differ)
  ]

  append-other :
      (other : Text) (rows : List (StoredPendingRelayerRecord B))
      (new : StoredPendingRelayerRecord B)
      → has_key other new ≡ false
      → find_key other (rows ++ new ∷ []) ≡ find_key other rows
  append-other other [] new h = ground arith
  append-other other (row ∷ rows) new h = ground (arith, append-other other rows new h)

  -- Persisting an execution changes nothing of what is found for another key.
  pub persist_pending_execution-other :
      (sha256 : B → Text) (r : PendingRelayerRecord B) (store : Pending B) (other : Text)
      → build_persistence_key sha256 r ≢ other
      → find_key other (persist_pending_execution sha256 r store).rows ≡ find_key other store.rows
  unfolding persist_pending_execution
  persist_pending_execution-other sha256 r store other differ =
      let key = build_persistence_key sha256 r in
      elim (Bool-cases (any (has_key key) store.rows)) [
        | inl there ↦ rw there (overwrite-other key other r store.rows differ)
        | inr new ↦ rw new (
            append-other other store.rows
              (record { id = store.next_id; persistence_key = key; entry = r })
              (has_key-differs key other _ refl differ))
      ]
