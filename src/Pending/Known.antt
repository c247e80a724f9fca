-- ===== src/Pending/Known.antt =====
-- What becomes of an execution that was persisted: calls of `persistPendingExecution` and of
-- `archiveResolvedPendingExecution`.
use parly_relayer.Prelude.{
  ◌≡◌, ◌≢◌, refl, ap, subst, ◌∙◌, Bool, true, false, find?, Option, some, none, List, [], ◌∷◌, ◌++◌,
  arith, Text, text_eq, text_eq_iff, text_eq-differs, text_eq_refl, any, Bool-cases, inl, inr, ◌⊎◌,
}
use parly_relayer.Pending.{
  Pending, PendingRelayerRecord, PendingRelayerResolution, StoredPendingRelayerRecord,
  ArchivedRecord, build_persistence_key, persist_pending_execution, is_archived,
  archive_resolved_pending_execution,
}
use parly_relayer.Pending.Upsert.{
  find_key, IsEntry, persist_pending_execution-IsEntry, persist_pending_execution-other,
}
use parly_relayer.Pending.Table.{
  IsTable, persist_pending_execution-IsTable, archive_resolved_pending_execution-IsTable,
  delete_id-other, delete_id-own,
}

module _ {κ} {A : Type κ} (p : A → Bool) where
  any_of_none : (xs : List A) → find? p xs ≡ none → any p xs ≡ false
  any_of_none [] e = refl
  any_of_none (x ∷ xs) e = ground (arith, any_of_none xs)

  find?-append_some : (xs ys : List A) (a : A) → find? p xs ≡ some a → find? p (xs ++ ys) ≡ some a
  find?-append_some [] ys a e = cc
  find?-append_some (x ∷ xs) ys a e = ground (arith, find?-append_some xs ys a)

  find?-append_none : (xs ys : List A) → find? p xs ≡ none → find? p (xs ++ ys) ≡ find? p ys
  find?-append_none [] ys e = refl
  find?-append_none (x ∷ xs) ys e = ground (arith, find?-append_none xs ys)

module _ {B : Type 0} where
  -- The first archived row of a key.
  abbrev pub find_archived : Text → List (ArchivedRecord B) → Option (ArchivedRecord B)
  find_archived key = find? (is_archived key)

  -- The record is the row of its key as it is now.
  abbrev pub IsListed : StoredPendingRelayerRecord B → Pending B → Type 0
  IsListed r store = find_key r.persistence_key store.rows ≡ some r

  -- What later calls make of a store: executions of other keys than `key` are persisted, and listed
  -- records of any key are archived.
  pub data Reaches (sha256 : B → Text) (key : Text) : Pending B → Pending B → Type 0 where
    here : {s : Pending B} → Reaches sha256 key s s
    persisted :
        {s s' : Pending B} (r : PendingRelayerRecord B)
        → build_persistence_key sha256 r ≢ key
        → Reaches sha256 key (persist_pending_execution sha256 r s) s'
        → Reaches sha256 key s s'
    archived :
        {s s' : Pending B} (r : StoredPendingRelayerRecord B) (outcome : PendingRelayerResolution)
        → IsListed r s
        → Reaches sha256 key (archive_resolved_pending_execution r outcome s) s'
        → Reaches sha256 key s s'

  -- The archive has the execution under the key.
  pub record IsArchived (key : Text) (r : PendingRelayerRecord B)
      (archive : List (ArchivedRecord B)) : Type 0 where
    pub row : ArchivedRecord B
    pub found : find_archived key archive ≡ some row
    pub entry_is : row.entry ≡ r

  -- The execution is pending under the key and not archived, or it is archived and not pending.
  abbrev pub IsKept : Text → PendingRelayerRecord B → Pending B → Type 0
  IsKept key r store =
      (IsEntry key r store.rows × (find_archived key store.archive ≡ none))
      ⊎ (IsArchived key r store.archive × (find_key key store.rows ≡ none))

  module _ (key : Text) (r : StoredPendingRelayerRecord B) (outcome : PendingRelayerResolution)
      (s : Pending B) where
    -- The row that an archiving adds.
    abbrev added : ArchivedRecord B
    added = record {
      pending_execution_id = r.id;
      persistence_key = r.persistence_key;
      entry = r.entry;
      outcome = outcome;
    }

    archive-IsArchived_old :
        (e : PendingRelayerRecord B)
        → IsArchived key e s.archive
        → IsArchived key e (archive_resolved_pending_execution r outcome s).archive
    unfolding archive_resolved_pending_execution
    archive-IsArchived_old e h = elim (Bool-cases (any (is_archived r.persistence_key) s.archive)) [
      | inl there ↦ rw there h
      | inr new ↦ rw new (record {
        row = h.row;
        found = find?-append_some (is_archived key) s.archive (added ∷ []) h.row h.found;
        entry_is = h.entry_is;
      })
    ]

    archive-IsArchived :
        r.persistence_key ≡ key
        → find_archived key s.archive ≡ none
        → IsArchived key r.entry (archive_resolved_pending_execution r outcome s).archive
    unfolding archive_resolved_pending_execution
    archive-IsArchived same free =
        let free' : any (is_archived r.persistence_key) s.archive ≡ false =
          any_of_none (is_archived r.persistence_key) s.archive
            (ap (λ k. find_archived k s.archive) same ∙ free) in
        let mine : is_archived key added ≡ true =
          subst (λ k. is_archived k added ≡ true) same
            (unfold is_archived in text_eq_refl r.persistence_key) in
        rw free' (record {
          row = added;
          found =
              find?-append_none (is_archived key) s.archive (added ∷ []) free
              ∙ ground (arith, mine);
          entry_is = refl;
        })

    archive-other :
        r.persistence_key ≢ key
        → find_archived key s.archive ≡ none
        → find_archived key (archive_resolved_pending_execution r outcome s).archive ≡ none
    unfolding archive_resolved_pending_execution
    archive-other differ free = elim (Bool-cases (any (is_archived r.persistence_key) s.archive)) [
      | inl there ↦ rw there free
      | inr new ↦
          let other : is_archived key added ≡ false =
            unfold is_archived in text_eq-differs r.persistence_key key differ in
          rw new (
            find?-append_none (is_archived key) s.archive (added ∷ []) free ∙ ground (arith, other))
    ]

    archive-find_key :
        IsTable s
        → IsListed r s
        → r.persistence_key ≢ key
        → find_key key (archive_resolved_pending_execution r outcome s).rows ≡ find_key key s.rows
    unfolding archive_resolved_pending_execution
    archive-find_key h l differ = delete_id-other key r.persistence_key r s.rows h.1 l differ

    archive-gone :
        IsTable s
        → find_key key s.rows ≡ some r
        → find_key key (archive_resolved_pending_execution r outcome s).rows ≡ none
    unfolding archive_resolved_pending_execution
    archive-gone h l = delete_id-own key r s.rows h.1 l

    archive-IsKept :
        (e : PendingRelayerRecord B)
        → IsTable s
        → IsListed r s
        → IsKept key e s
        → IsKept key e (archive_resolved_pending_execution r outcome s)
    archive-IsKept e h l kept = elim (Bool-cases (text_eq r.persistence_key key)) [
      | inl same ↦
          let k = (text_eq_iff r.persistence_key key).0 same in
          let mine = subst (λ t. find_key t s.rows ≡ some r) k l in
          elim kept [
            | inl (pending, free) ↦
                let entry : r.entry ≡ e = cc (pending.found, pending.entry_is, mine) in
                inr (
                  subst
                      (λ x.
                        IsArchived key x (archive_resolved_pending_execution r outcome s).archive)
                      entry (archive-IsArchived k free),
                  archive-gone h mine,
                )
            | inr (done, gone) ↦ cc (mine, gone)
          ]
      | inr other ↦
          let differ : r.persistence_key ≢ key =
            λ k. cc (other, (text_eq_iff r.persistence_key key).1 k) in
          let same = archive-find_key h l differ in
          elim kept [
            | inl (pending, free) ↦ inl (
              record {
                row = pending.row;
                found = same ∙ pending.found;
                key_is = pending.key_is;
                entry_is = pending.entry_is;
              },
              archive-other differ free,
            )
            | inr (done, gone) ↦ inr (archive-IsArchived_old e done, same ∙ gone)
          ]
    ]

  module _ (sha256 : B → Text) (key : Text) where
    persist-IsKept :
        (e r : PendingRelayerRecord B) (s : Pending B)
        → build_persistence_key sha256 r ≢ key
        → IsKept key e s
        → IsKept key e (persist_pending_execution sha256 r s)
    unfolding persist_pending_execution
    persist-IsKept e r s differ (inr (done, gone)) =
        inr (done, persist_pending_execution-other sha256 r s key differ ∙ gone)
    persist-IsKept e r s differ (inl (h, free)) = inl (
      record {
        row = h.row;
        found = persist_pending_execution-other sha256 r s key differ ∙ h.found;
        key_is = h.key_is;
        entry_is = h.entry_is;
      },
      free,
    )

    Reaches-IsKept :
        (e : PendingRelayerRecord B) {s s' : Pending B}
        → Reaches sha256 key s s'
        → IsTable s
        → IsKept key e s
        → IsKept key e s'
    Reaches-IsKept e here h kept = kept
    Reaches-IsKept e (persisted {s} {s'} r differ later) h kept =
        Reaches-IsKept e later (persist_pending_execution-IsTable sha256 r s h)
          (persist-IsKept e r s differ kept)
    Reaches-IsKept e (archived {s} {s'} r outcome l later) h kept =
        Reaches-IsKept e later (archive_resolved_pending_execution-IsTable r outcome s h)
          (archive-IsKept key r outcome s e h l kept)

  -- An execution is persisted, in a table whose ids and keys are distinct and whose ids are below the
  -- next one, under a key that the archive does not have. Whatever is persisted under other keys and
  -- archived afterwards, the execution is in one place: either the row of its key is pending with all
  -- its columns and the archive has no row of the key, or the archived row of its key has all its
  -- columns and no pending row has the key. What is archived must be the row of its key as it is at
  -- that time.
  pub persist_pending_execution-IsKept :
      (sha256 : B → Text) (r : PendingRelayerRecord B) (s s' : Pending B)
      → IsTable s
      → find_archived (build_persistence_key sha256 r) s.archive ≡ none
      → Reaches sha256 (build_persistence_key sha256 r) (persist_pending_execution sha256 r s) s'
      → IsKept (build_persistence_key sha256 r) r s'
  unfolding persist_pending_execution
  persist_pending_execution-IsKept sha256 r s s' h free later =
      Reaches-IsKept sha256 (build_persistence_key sha256 r) r later
        (persist_pending_execution-IsTable sha256 r s h)
        (inl (persist_pending_execution-IsEntry sha256 r s, free))
