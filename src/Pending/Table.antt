-- ===== src/Pending/Table.antt =====
-- The table of pending executions: its ids and keys are distinct, and what a deletion leaves of it.
use parly_relayer.Prelude.{
  ℕ, ◌+◌, ◌<◌, ◌≡◌, ◌≢◌, refl, sym, ap, subst, ◌∙◌, false, ◌==◌, ==_iff, some, none, List, [], ◌∷◌,
  ◌++◌, arith, Text, text_eq, text_eq_iff, text_eq-differs, any, All, All-map, All-append,
  Bool-cases, inl, inr,
}
use parly_relayer.Pending.{
  Pending, PendingRelayerRecord, PendingRelayerResolution, StoredPendingRelayerRecord,
  build_persistence_key, has_key, overwrite, persist_pending_execution, delete_id,
  archive_resolved_pending_execution,
}
use parly_relayer.Pending.Upsert.{find_key}

module _ {B : Type 0} where
  -- No two rows share their id or their key.
  abbrev pub AreDistinct : List (StoredPendingRelayerRecord B) → Type 0
  AreDistinct [] = Unit
  AreDistinct (row ∷ rows) =
      All (λ other. (other.id ≢ row.id) × (other.persistence_key ≢ row.persistence_key)) rows
      × AreDistinct rows

  -- The primary key and the unique key, with the ids below the next one.
  abbrev pub IsTable : Pending B → Type 0
  IsTable store = All (λ row. row.id < store.next_id) store.rows × AreDistinct store.rows

  overwrite-All :
      (P : ℕ → Text → Type 0) (key : Text) (r : PendingRelayerRecord B)
      (rows : List (StoredPendingRelayerRecord B))
      → All (λ row. P row.id row.persistence_key) rows
      → All (λ row. P row.id row.persistence_key) (overwrite key r rows)
  unfolding overwrite
  overwrite-All P key r [] h = tt
  overwrite-All P key r (row ∷ rows) h = elim (Bool-cases (has_key key row)) [
    | inl hit ↦ rw hit (h.0, overwrite-All P key r rows h.1)
    | inr miss ↦ rw miss (h.0, overwrite-All P key r rows h.1)
  ]

  overwrite-AreDistinct :
      (key : Text) (r : PendingRelayerRecord B) (rows : List (StoredPendingRelayerRecord B))
      → AreDistinct rows
      → AreDistinct (overwrite key r rows)
  unfolding overwrite
  overwrite-AreDistinct key r [] h = tt
  overwrite-AreDistinct key r (row ∷ rows) h =
      let others =
        overwrite-All (λ id k. (id ≢ row.id) × (k ≢ row.persistence_key)) key r rows h.0 in
      elim (Bool-cases (has_key key row)) [
        | inl hit ↦ rw hit (others, overwrite-AreDistinct key r rows h.1)
        | inr miss ↦ rw miss (others, overwrite-AreDistinct key r rows h.1)
      ]

  append-AreDistinct :
      (rows : List (StoredPendingRelayerRecord B)) (new : StoredPendingRelayerRecord B)
      → All (λ row. row.id < new.id) rows
      → any (has_key new.persistence_key) rows ≡ false
      → AreDistinct rows
      → AreDistinct (rows ++ new ∷ [])
  unfolding has_key
  append-AreDistinct [] new below free h = (tt, tt)
  append-AreDistinct (row ∷ rows) new below free h =
      let differ : new.persistence_key ≢ row.persistence_key = λ e.
        ground (arith, free, (text_eq_iff row.persistence_key new.persistence_key).1 (sym e)) in
      (
        All-append _ rows (new ∷ []) h.0 (((λ e. omega (arith, e, below.0)), differ), tt),
        append-AreDistinct rows new below.1 (ground (arith, free)) h.1,
      )

  pub persist_pending_execution-IsTable :
      (sha256 : B → Text) (r : PendingRelayerRecord B) (s : Pending B)
      → IsTable s
      → IsTable (persist_pending_execution sha256 r s)
  unfolding persist_pending_execution
  persist_pending_execution-IsTable sha256 r s h =
      let key = build_persistence_key sha256 r in
      let below : All (λ row. row.id < s.next_id + 1) s.rows =
        All-map _ _ s.rows (λ row lt. omega (arith, lt)) h.0 in
      let new : StoredPendingRelayerRecord B = record {
        id = s.next_id;
        persistence_key = key;
        entry = r;
      } in
      elim (Bool-cases (any (has_key key) s.rows)) [
        | inl there ↦ rw there (
          overwrite-All (λ id k. id < s.next_id + 1) key r s.rows below,
          overwrite-AreDistinct key r s.rows h.1,
        )
        | inr free ↦ rw free (
          All-append _ s.rows (new ∷ []) below (omega arith),
          append-AreDistinct s.rows new h.0 free h.1,
        )
      ]

  delete-All :
      (P : StoredPendingRelayerRecord B → Type 0) (id : ℕ)
      (rows : List (StoredPendingRelayerRecord B))
      → All P rows
      → All P (delete_id id rows)
  unfolding delete_id
  delete-All P id [] h = tt
  delete-All P id (row ∷ rows) h = elim (Bool-cases (row.id == id)) [
    | inl gone ↦ rw gone (delete-All P id rows h.1)
    | inr stays ↦ rw stays (h.0, delete-All P id rows h.1)
  ]

  delete-AreDistinct :
      (id : ℕ) (rows : List (StoredPendingRelayerRecord B))
      → AreDistinct rows
      → AreDistinct (delete_id id rows)
  unfolding delete_id
  delete-AreDistinct id [] h = tt
  delete-AreDistinct id (row ∷ rows) h = elim (Bool-cases (row.id == id)) [
    | inl gone ↦ rw gone (delete-AreDistinct id rows h.1)
    | inr stays ↦ rw stays (delete-All _ id rows h.0, delete-AreDistinct id rows h.1)
  ]

  pub archive_resolved_pending_execution-IsTable :
      (r : StoredPendingRelayerRecord B) (outcome : PendingRelayerResolution) (s : Pending B)
      → IsTable s
      → IsTable (archive_resolved_pending_execution r outcome s)
  unfolding archive_resolved_pending_execution
  archive_resolved_pending_execution-IsTable r outcome s h =
      (delete-All _ r.id s.rows h.0, delete-AreDistinct r.id s.rows h.1)

  found-All :
      (P : StoredPendingRelayerRecord B → Type 0) (key : Text)
      (rows : List (StoredPendingRelayerRecord B)) (r : StoredPendingRelayerRecord B)
      → All P rows
      → find_key key rows ≡ some r
      → P r
  found-All P key [] r h e = cc
  found-All P key (row ∷ rows) r h e = elim (Bool-cases (has_key key row)) [
    | inl hit ↦ subst P (ground arith) h.0
    | inr miss ↦ found-All P key rows r h.1 (ground arith)
  ]

  find_key-none :
      (key : Text) (rows : List (StoredPendingRelayerRecord B))
      → All (λ row. row.persistence_key ≢ key) rows
      → find_key key rows ≡ none
  unfolding has_key
  find_key-none key [] h = refl
  find_key-none key (row ∷ rows) h =
      ground (arith, text_eq-differs row.persistence_key key h.0, find_key-none key rows h.1)

  -- A row of the id of what is found for a key is of that key.
  id_of_found :
      (key : Text) (r : StoredPendingRelayerRecord B) (rows : List (StoredPendingRelayerRecord B))
      → AreDistinct rows
      → find_key key rows ≡ some r
      → All (λ row. row.id ≡ r.id → row.persistence_key ≡ key) rows
  unfolding has_key
  id_of_found key r [] h e = tt
  id_of_found key r (row ∷ rows) h e = elim (Bool-cases (text_eq row.persistence_key key)) [
    | inl hit ↦
        let same : row.id ≡ r.id =
          ap (λ (x : StoredPendingRelayerRecord B). x.id) (let it : row ≡ r = ground arith in it) in
        (
          (λ x. (text_eq_iff row.persistence_key key).0 hit),
          All-map _ _ rows (λ other n x. absurd (n.0 (x ∙ sym same))) h.0,
        )
    | inr miss ↦
        let later : find_key key rows ≡ some r = ground arith in
        (
          (λ x. absurd (
              found-All (λ o. o.id ≢ row.id) key rows r (All-map _ _ rows (λ other n. n.0) h.0)
                later (sym x))),
          id_of_found key r rows h.1 later,
        )
  ]

  delete_id-others :
      (key own : Text) (id : ℕ) (rows : List (StoredPendingRelayerRecord B))
      → All (λ row. row.id ≡ id → row.persistence_key ≡ own) rows
      → own ≢ key
      → find_key key (delete_id id rows) ≡ find_key key rows
  unfolding delete_id has_key
  delete_id-others key own id [] l differ = refl
  delete_id-others key own id (row ∷ rows) l differ = elim (Bool-cases (row.id == id)) [
    | inl gone ↦
        let other =
          text_eq-differs row.persistence_key key
            (λ e. differ (sym (l.0 ((==_iff row.id id).0 gone)) ∙ e)) in
        ground (arith, delete_id-others key own id rows l.1 differ)
    | inr stays ↦ ground (arith, delete_id-others key own id rows l.1 differ)
  ]

  -- What is found for another key than that of the deleted row is still found.
  pub delete_id-other :
      (key own : Text) (r : StoredPendingRelayerRecord B)
      (rows : List (StoredPendingRelayerRecord B))
      → AreDistinct rows
      → find_key own rows ≡ some r
      → own ≢ key
      → find_key key (delete_id r.id rows) ≡ find_key key rows
  delete_id-other key own r rows h e differ =
      delete_id-others key own r.id rows (id_of_found own r rows h e) differ

  -- What has the key of the deleted row is gone.
  pub delete_id-own :
      (key : Text) (r : StoredPendingRelayerRecord B) (rows : List (StoredPendingRelayerRecord B))
      → AreDistinct rows
      → find_key key rows ≡ some r
      → find_key key (delete_id r.id rows) ≡ none
  unfolding delete_id has_key
  delete_id-own key r [] h e = cc
  delete_id-own key r (row ∷ rows) h e = elim (Bool-cases (text_eq row.persistence_key key)) [
    | inl hit ↦
        let same : row ≡ r = ground arith in
        let gone = (==_iff row.id r.id).1 (ap (λ (x : StoredPendingRelayerRecord B). x.id) same) in
        let mine = (text_eq_iff row.persistence_key key).0 hit in
        rw gone (
          find_key-none key (delete_id r.id rows) (
            delete-All (λ o. o.persistence_key ≢ key) r.id rows
              (All-map _ _ rows (λ o n x. n.1 (x ∙ sym mine)) h.0)))
    | inr miss ↦ elim (Bool-cases (row.id == r.id)) [
      | inl gone ↦ rw gone (delete_id-own key r rows h.1 (ground arith))
      | inr stays ↦ rw stays (ground (arith, delete_id-own key r rows h.1))
    ]
  ]
