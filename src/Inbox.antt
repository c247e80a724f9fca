-- ===== src/Inbox.antt =====
-- apps/relayer/src/pending-store.ts, the table `relay_private_inbox`: the bundles that wait for a
-- relayer, and `recordPoolV4RelaySubmission`, which writes the executions too. Each function is one
-- transaction and one step. `locked` tells which rows another transaction holds just then, which
-- SKIP LOCKED passes over. A bundle is a value of any type; its key, the SHA-256 of its JSON text,
-- is a parameter. Times are in microseconds, and CURRENT_TIMESTAMP is an argument.
pub mod Kept
pub mod Claims
pub mod Numbered
mod Tests
use parly_relayer.Prelude.{
  ℕ, ◌+◌, ◌*◌, Bool, true, false, ◌&&◌, ◌||◌, not, ltb, leb, ◌==◌, if◌then◌else◌, Option, none,
  some, List, [], ◌∷◌, ◌++◌, map, Result, ok, err, ◌>>=◌, ◌>>◌, guard, Text, codes, text_eq,
  to_lower, is_lower_bytes32, is_prefixed, is_lower_hex_digit, length, filter, any, all, take,
}
use parly_relayer.Locks.{Execution, LockError, bad_identity, record_submission, takes_hash}

pub data InboxStatus : Type 0 where
  pending processing processed : InboxStatus

pub record InboxRow (B : Type 0) : Type 0 where
  pub id : ℕ
  pub bundle_key : Text
  pub relayer_address : Text
  pub raw_bundle : B
  pub source : Text
  pub status : InboxStatus
  pub claimed_at : Option ℕ
  pub claimed_by : Option Text
  pub processed_at : Option ℕ
  pub processing_error : Option Text
  pub next_attempt_at : ℕ
  pub attempt_count : ℕ
  pub received_at : ℕ
  pub transaction_hash : Option Text

-- The table and its sequence of ids.
pub record Inbox (B : Type 0) : Type 0 where
  pub rows : List (InboxRow B)
  pub next_id : ℕ

pub record RelayInboxRecord (B : Type 0) : Type 0 where
  pub id : ℕ
  pub bundle_key : Text
  pub relayer_address : Text
  pub raw_bundle : B
  pub source : Text

pub data InboxError : Type 0 where
  bad_retry_delay : InboxError

pub is_pending : InboxStatus → Bool
is_pending pending = true
is_pending _ = false

-- `?.slice(0, 512) ?? null`
clipped : Option Text → Option Text
clipped none = none
clipped (some t) = some (take 512 t)

-- `/^[a-f0-9]{64}$/`
is_digest : Text → Bool
is_digest t = (length t == 64) && all is_lower_hex_digit t

module _ {B : Type 0} where
  -- The WHERE clause of `picked`, for rows that are not locked.
  pub is_due : ℕ → Text → (ℕ → Bool) → InboxRow B → Bool
  is_due now relayer locked row =
      text_eq row.relayer_address relayer
      && is_pending row.status
      && leb row.next_attempt_at now
      && not (locked row.id)

  -- ORDER BY received_at ASC, id ASC
  earlier : InboxRow B → InboxRow B → Bool
  earlier a b = ltb a.received_at b.received_at || (a.received_at == b.received_at && ltb a.id b.id)

  insert_received : InboxRow B → List (InboxRow B) → List (InboxRow B)
  insert_received row [] = row ∷ []
  insert_received row (other ∷ rows) =
      if earlier other row then other ∷ insert_received row rows else row ∷ other ∷ rows

  by_received : List (InboxRow B) → List (InboxRow B)
  by_received [] = []
  by_received (row ∷ rows) = insert_received row (by_received rows)

  pub pick : ℕ → Text → ℕ → (ℕ → Bool) → List (InboxRow B) → List (InboxRow B)
  unfolding insert_received by_received earlier
  pick now relayer limit locked rows =
      take limit (by_received (filter (is_due now relayer locked) rows))

  pub has_id : ℕ → InboxRow B → Bool
  has_id id row = row.id == id

  pub is_picked : List (InboxRow B) → InboxRow B → Bool
  is_picked picked row = any (has_id row.id) picked

  pub claimed : ℕ → Text → InboxRow B → InboxRow B
  claimed now relayer row = record row {
    status = processing;
    claimed_at = some now;
    claimed_by = some relayer;
    processing_error = none;
  }

  pub update_rows :
      (InboxRow B → Bool) → (InboxRow B → InboxRow B) → List (InboxRow B) → List (InboxRow B)
  update_rows p f [] = []
  update_rows p f (row ∷ rows) = (if p row then f row else row) ∷ update_rows p f rows

  pub as_record : InboxRow B → RelayInboxRecord B
  as_record row = record {
    id = row.id;
    bundle_key = row.bundle_key;
    relayer_address = row.relayer_address;
    raw_bundle = row.raw_bundle;
    source = row.source;
  }

  -- The rows that RETURNING gives, here in the order of the table.
  pub claim_relay_inbox_batch :
      ℕ → (ℕ → Bool) → Text → ℕ → Inbox B → Inbox B × List (RelayInboxRecord B)
  claim_relay_inbox_batch now locked relayer limit inbox =
      let picked = pick now (to_lower relayer) limit locked inbox.rows in
      (
        record inbox {
          rows = update_rows (is_picked picked) (claimed now (to_lower relayer)) inbox.rows;
        },
        map as_record (filter (is_picked picked) inbox.rows),
      )

  pub mark_relay_inbox_processed : ℕ → ℕ → Option Text → Inbox B → Inbox B
  unfolding clipped
  mark_relay_inbox_processed now id error inbox = record inbox {
    rows =
        update_rows (has_id id)
          (λ row. record row {
            status = processed;
            processed_at = some now;
            processing_error = clipped error;
          })
          inbox.rows;
  }

  -- A delay that is no integer is refused by the source, like one out of bounds.
  pub reset_relay_inbox_claim : ℕ → ℕ → Text → ℕ → Inbox B → Result InboxError (Inbox B)
  reset_relay_inbox_claim now id message delay inbox = do
    guard (leb 1 delay && leb delay 3600) bad_retry_delay
    ok (record inbox {
      rows =
          update_rows (has_id id)
            (λ row. record row {
              status = pending;
              processing_error = some (take 512 message);
              next_attempt_at = now + delay * 1000000;
              attempt_count = row.attempt_count + 1;
            })
            inbox.rows;
    })

  module _ (bundle_key : B → Text) where
    -- The row of the INSERT, with the defaults of the table.
    pub received : ℕ → ℕ → Text → B → Option Text → InboxRow B
    received now id relayer bundle source = record {
      id = id;
      bundle_key = bundle_key bundle;
      relayer_address = to_lower relayer;
      raw_bundle = bundle;
      source = elim source [ none ↦ codes "web_api" | some s ↦ s ];
      status = pending;
      claimed_at = none;
      claimed_by = none;
      processed_at = none;
      processing_error = none;
      next_attempt_at = now;
      attempt_count = 0;
      received_at = now;
      transaction_hash = none;
    }

    -- A bundle whose key is there is not inserted, though its id is used up.
    pub enqueue_relay_inbox_bundle : ℕ → Text → B → Option Text → Inbox B → Inbox B × Text
    enqueue_relay_inbox_bundle now relayer bundle source inbox = (
      record inbox {
        rows =
            if any (λ row. text_eq row.bundle_key (bundle_key bundle)) inbox.rows
            then inbox.rows
            else inbox.rows ++ received now inbox.next_id relayer bundle source ∷ [];
        next_id = inbox.next_id + 1;
      },
      bundle_key bundle,
    )

  -- The second UPDATE.
  pub attach_hash : Text → Text → Text → Inbox B → Inbox B
  attach_hash key relayer hash inbox = record inbox {
    rows =
        update_rows
          (λ row.
            text_eq row.bundle_key key
            && text_eq row.relayer_address (to_lower relayer)
            && takes_hash hash row.transaction_hash)
          (λ row. record row { transaction_hash = some hash }) inbox.rows;
  }

  -- The arguments are the call hash, the relayer, the hash and the bundle key.
  pub record_pool_v4_relay_submission :
      Text
      → Text
      → Text
      → Text
      → List Execution
      → Inbox B
      → Result LockError (List Execution × Inbox B)
  unfolding is_digest
  record_pool_v4_relay_submission call relayer hash key rows inbox = do
    guard (is_lower_bytes32 hash && is_lower_bytes32 call && is_digest key) bad_identity
    rows' ← record_submission call relayer hash rows
    ok (rows', attach_hash key relayer hash inbox)
