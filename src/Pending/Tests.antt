-- ===== src/Pending/Tests.antt =====
-- An execution that fails before and after its submission, and the theorems on pending executions there.
use parly_relayer.Prelude.{
  ℕ, ◌≡◌, ◌≢◌, refl, true, [], ◌∷◌, map, Option, some, none, Text, codes, text_eq, text_eq_iff,
  to_lower, arith,
}
use parly_relayer.Pending.{
  Pending, PendingRelayerRecord, PendingRelayerResolution, StoredPendingRelayerRecord,
  submitted_receipt_unknown, confirmed_success, truthy, key_by_bundle, key_by_nullifier,
  key_by_submission, build_persistence_key, has_key, overwrite, persist_pending_execution, earlier,
  insert_recorded, by_recorded, list_pending_executions, is_archived, delete_id,
  archive_resolved_pending_execution,
}
use parly_relayer.Pending.Upsert.{IsEntry, persist_pending_execution-IsEntry}
use parly_relayer.Pending.Known.{
  Reaches, here, persisted, archived, IsKept, persist_pending_execution-IsKept,
}

pending : Unit {0}
unfolding truthy key_by_bundle key_by_nullifier key_by_submission build_persistence_key has_key
    overwrite persist_pending_execution earlier insert_recorded by_recorded list_pending_executions
    is_archived delete_id archive_resolved_pending_execution text_eq to_lower
pending = tt

abbrev sha256 : Text → Text
sha256 t = t

abbrev empty : Pending Text
empty = record { rows = []; next_id = 1; archive = [] }

abbrev attempt_of : ℕ → Option Text → PendingRelayerRecord Text
attempt_of n submitted = record {
  recorded_at = n;
  phase = submitted_receipt_unknown;
  attempt = n;
  relayer_address = codes "0xa";
  pool = none;
  nullifier_hash = some (codes "0xN");
  submitted_hash = submitted;
  approval_token = none;
  approval_spender = none;
  reason = codes "timeout";
  raw_bundle = codes "bundle";
}

abbrev first : PendingRelayerRecord Text
first = attempt_of 1 none

abbrev second : PendingRelayerRecord Text
second = attempt_of 2 (some (codes "0xT"))

abbrev both : Pending Text
both = persist_pending_execution sha256 second (persist_pending_execution sha256 first empty)

listed :
    map (λ r. r.persistence_key) (list_pending_executions both)
    ≡ codes "nullifier:0xn" ∷ codes "submitted:0xt" ∷ []
unfolding pending
listed = refl

keys_differ : build_persistence_key sha256 second ≢ codes "nullifier:0xn"
unfolding pending
keys_differ e = ground (arith, (text_eq_iff _ _).1 e)

persist_pending_execution-IsEntry_example :
    IsEntry (build_persistence_key sha256 second) second both.rows
persist_pending_execution-IsEntry_example =
    persist_pending_execution-IsEntry sha256 second (persist_pending_execution sha256 first empty)

abbrev stored_first : StoredPendingRelayerRecord Text
stored_first = record { id = 1; persistence_key = codes "nullifier:0xn"; entry = first }

abbrev success : PendingRelayerResolution
success = record {
  resolved_at = 9;
  resolution = confirmed_success;
  cleanup_attempted = true;
  cleanup_succeeded = true;
}

abbrev settled : Pending Text
settled = archive_resolved_pending_execution stored_first success both

history :
    Reaches sha256
      (build_persistence_key sha256 first)
      (persist_pending_execution sha256 first empty)
      settled
unfolding pending
history =
    persisted second (λ e. ground (arith, (text_eq_iff _ _).1 e))
      (archived stored_first success refl here)

persist_pending_execution-IsKept_example : IsKept (build_persistence_key sha256 first) first settled
unfolding pending
persist_pending_execution-IsKept_example =
    persist_pending_execution-IsKept sha256 first empty settled (tt, tt) refl history
