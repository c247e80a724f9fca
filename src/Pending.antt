-- ===== src/Pending.antt =====
-- apps/relayer/src/pending-store.ts, the tables `relay_pending_executions` and
-- `relay_pending_execution_archive`: executions that the relayer could not finish, and how they were
-- resolved. Each function is one transaction and one step. A bundle is a value of any type; the
-- SHA-256 of its JSON text is a parameter. The column `version` is always 1 and is left out; the
-- columns of times that no query reads are left out too.
pub mod Upsert
pub mod Table
pub mod Known
mod Tests
use parly_relayer.Prelude.{
  ℕ, ◌+◌, Bool, true, false, ◌&&◌, ◌||◌, not, ltb, ◌==◌, if◌then◌else◌, Option, none, some, List,
  [], ◌∷◌, ◌++◌, Text, codes, text_eq, to_lower, is_nonempty, any,
}

pub data Phase : Type 0 where
  pre_submit_exhausted submitted_receipt_unknown : Phase

pub data Resolution : Type 0 where
  confirmed_success confirmed_failure external_success_without_receipt : Resolution
  pre_submit_terminal_failure : Resolution

pub record PendingRelayerRecord (B : Type 0) : Type 0 where
  pub recorded_at : ℕ
  pub phase : Phase
  pub attempt : ℕ
  pub relayer_address : Text
  pub pool : Option Text
  pub nullifier_hash : Option Text
  pub submitted_hash : Option Text
  pub approval_token : Option Text
  pub approval_spender : Option Text
  pub reason : Text
  pub raw_bundle : B

pub record PendingRelayerResolution : Type 0 where
  pub resolved_at : ℕ
  pub resolution : Resolution
  pub cleanup_attempted : Bool
  pub cleanup_succeeded : Bool

pub record StoredPendingRelayerRecord (B : Type 0) : Type 0 where
  pub id : ℕ
  pub persistence_key : Text
  pub entry : PendingRelayerRecord B

pub record ArchivedRecord (B : Type 0) : Type 0 where
  pub pending_execution_id : ℕ
  pub persistence_key : Text
  pub entry : PendingRelayerRecord B
  pub outcome : PendingRelayerResolution

-- The two tables, and the sequence of ids of the first one.
pub record Pending (B : Type 0) : Type 0 where
  pub rows : List (StoredPendingRelayerRecord B)
  pub next_id : ℕ
  pub archive : List (ArchivedRecord B)

-- `value ? … : …` for a string or null: an empty string is false.
pub truthy : Option Text → Option Text
truthy none = none
truthy (some t) = if is_nonempty t then some t else none

key_by_bundle : Text → Text
key_by_bundle digest = codes "bundle:" ++ digest

key_by_nullifier : Option Text → Text → Text
unfolding key_by_bundle
key_by_nullifier none digest = key_by_bundle digest
key_by_nullifier (some nullifier) digest = codes "nullifier:" ++ to_lower nullifier

key_by_submission : Option Text → Option Text → Text → Text
unfolding key_by_nullifier
key_by_submission none nullifier digest = key_by_nullifier nullifier digest
key_by_submission (some hash) nullifier digest = codes "submitted:" ++ to_lower hash

module _ {B : Type 0} where
  -- `buildPersistenceKey`
  pub build_persistence_key : (sha256 : B → Text) → PendingRelayerRecord B → Text
  unfolding key_by_submission
  build_persistence_key sha256 r =
      key_by_submission (truthy r.submitted_hash) (truthy r.nullifier_hash) (sha256 r.raw_bundle)

  pub has_key : Text → StoredPendingRelayerRecord B → Bool
  has_key key row = text_eq row.persistence_key key

  -- ON CONFLICT (persistence_key) DO UPDATE: the row keeps its id.
  pub overwrite :
      Text
      → PendingRelayerRecord B
      → List (StoredPendingRelayerRecord B)
      → List (StoredPendingRelayerRecord B)
  overwrite key r [] = []
  overwrite key r (row ∷ rows) =
      (if has_key key row then record row { entry = r } else row) ∷ overwrite key r rows

  pub persist_pending_execution : (B → Text) → PendingRelayerRecord B → Pending B → Pending B
  persist_pending_execution sha256 r store =
      let key = build_persistence_key sha256 r in
      record store {
        rows =
            if any (has_key key) store.rows
            then overwrite key r store.rows
            else store.rows
              ++ (record { id = store.next_id; persistence_key = key; entry = r }) ∷ [];
        next_id = store.next_id + 1;
      }

  -- ORDER BY recorded_at ASC, id ASC
  earlier : StoredPendingRelayerRecord B → StoredPendingRelayerRecord B → Bool
  earlier a b =
      ltb a.entry.recorded_at b.entry.recorded_at
      || (a.entry.recorded_at == b.entry.recorded_at && ltb a.id b.id)

  insert_recorded :
      StoredPendingRelayerRecord B
      → List (StoredPendingRelayerRecord B)
      → List (StoredPendingRelayerRecord B)
  insert_recorded row [] = row ∷ []
  insert_recorded row (other ∷ rows) =
      if earlier other row then other ∷ insert_recorded row rows else row ∷ other ∷ rows

  by_recorded : List (StoredPendingRelayerRecord B) → List (StoredPendingRelayerRecord B)
  by_recorded [] = []
  by_recorded (row ∷ rows) = insert_recorded row (by_recorded rows)

  pub list_pending_executions : Pending B → List (StoredPendingRelayerRecord B)
  unfolding by_recorded insert_recorded earlier
  list_pending_executions store = by_recorded store.rows

  pub is_archived : Text → ArchivedRecord B → Bool
  is_archived key row = text_eq row.persistence_key key

  -- `DELETE FROM relay_pending_executions WHERE id = $1`
  pub delete_id : ℕ → List (StoredPendingRelayerRecord B) → List (StoredPendingRelayerRecord B)
  delete_id id [] = []
  delete_id id (row ∷ rows) = if row.id == id then delete_id id rows else row ∷ delete_id id rows

  -- ON CONFLICT (persistence_key) DO NOTHING, and the deletion.
  pub archive_resolved_pending_execution :
      StoredPendingRelayerRecord B → PendingRelayerResolution → Pending B → Pending B
  archive_resolved_pending_execution r outcome store = record store {
    archive =
        if any (is_archived r.persistence_key) store.archive
        then store.archive
        else store.archive
          ++ (record {
            pending_execution_id = r.id;
            persistence_key = r.persistence_key;
            entry = r.entry;
            outcome = outcome;
          })
            ∷ [];
    rows = delete_id r.id store.rows;
  }
