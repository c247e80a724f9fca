-- ===== src/Payouts/Loads.antt =====
-- What the statements keep of a recorded transaction, and what an acquisition hands out then.
use parly_relayer.Prelude.{
  ◌≤◌, ℕ, ◌+◌, ◌≡◌, refl, sym, ◌∙◌, subst, Bool, true, false, ◌&&◌, ◌||◌, not, Bool-cases, inl, inr,
  if◌then◌else◌, leb, ◌==◌, Option, none, some, List, [], ◌∷◌, ◌++◌, filter, any, head?, sort_by,
  length, length-sort_by, Result, ok, err, ◌>>=◌, ◌>>◌, guard, Text, text_eq, text_eq_iff, to_lower,
  trim, is_nonempty, arith,
}
use parly_relayer.Payloads.{
  PayloadError, PayloadRow, CheckpointRow, PayloadStore, Host, bad_identifier, bad_lease,
  bad_lease_token, stale_lease, hashes_differ, rejected, is_identifier, holds, row_count,
  lease_token_hash_of, open_row,
}
use parly_relayer.Payloads.Acquire.{
  created_before, candidate, retire_exhausted, lease, loaded, lease_candidate, acquire_with,
}
use parly_relayer.Payloads.Report.{is_leased_under}
use parly_relayer.Payloads.Leases.{is_set}
use parly_relayer.Payouts.{
  PayoutSubmitJob, PayoutCheckpoint, PayoutTables, PayoutJob, of_payout, recorded_before, hash_of,
  is_hash_of_payout, on_queue, load_payout, acquire_payout_v3_execution_job,
  record_payout_v3_execution_transaction_confirmed, record_payout_v3_execution_submitted,
}

unfoldable pub has_checkpoint : {Sealed : Type 0} → Text → PayoutTables Sealed → Bool
has_checkpoint p tables = any (of_payout p) tables.checkpoints

-- A leased job that may be broadcast is of another payout, or carries the recorded transaction.
unfoldable pub is_safe_job : Text → PayoutJob → Bool
is_safe_job p job = not (text_eq job.submit_job.payout_id p) || is_set job.confirmed_transaction

length-filter-any :
    {A : Type 0} (p : A → Bool) (xs : List A) → any p xs ≡ true → 1 ≤ length (filter p xs)
length-filter-any p [] h = cc
length-filter-any p (x ∷ xs) h = ground (arith, h, length-filter-any p xs)

head_is_set :
    (rows : List PayoutCheckpoint) → 1 ≤ length rows → is_set (hash_of (head? rows)) ≡ true
unfolding is_set hash_of
head_is_set [] h = absurd (omega (arith, h))
head_is_set (row ∷ rows) h = refl

first_is_set :
    (cps : List PayoutCheckpoint) (p : Text)
    → any (of_payout p) cps ≡ true
    → is_set (hash_of (head? (sort_by recorded_before (filter (of_payout p) cps)))) ≡ true
first_is_set cps p h = head_is_set (sort_by recorded_before (filter (of_payout p) cps)) (
    omega (
      arith,
      length-sort_by recorded_before (filter (of_payout p) cps),
      length-filter-any (of_payout p) cps h,
    ))

-- A job that was read from the tables, or none.
abbrev pub IsSafeLoad : Text → Option PayoutJob → Type 0
IsSafeLoad p none = Unit
IsSafeLoad p (some job) = is_safe_job p job ≡ true

abbrev pub IsSafeAnswer : Text → Option (Option PayoutJob) → Type 0
IsSafeAnswer p none = Unit
IsSafeAnswer p (some load) = IsSafeLoad p load

abbrev pub IsSafeResult :
    {Sealed : Type 0}
    → Text
    → Result PayloadError (PayoutTables Sealed × Option (Option PayoutJob))
    → Type 0
IsSafeResult p (err e) = Unit
IsSafeResult p (ok answer) = (has_checkpoint p answer.0 ≡ true) × IsSafeAnswer p answer.1

any-append :
    {A : Type 0} (p : A → Bool) (xs ys : List A) → any p xs ≡ true → any p (xs ++ ys) ≡ true
any-append p [] ys h = cc
any-append p (x ∷ xs) ys h = ground (arith, h, any-append p xs ys)

module _ {Sealed : Type 0} (p : Text) where
  unfoldable pub Kept : Result PayloadError (PayoutTables Sealed) → Type 0
  Kept (ok tables) = has_checkpoint p tables ≡ true
  Kept (err e) = Unit

  pub guard-Kept :
      (b : Bool) (e : PayloadError) (rest : Result PayloadError (PayoutTables Sealed))
      → Kept rest
      → Kept (guard b e >> rest)
  unfolding Kept
  guard-Kept true e rest h = h
  guard-Kept false e rest h = tt

  pub on_queue-Kept :
      (tables : PayoutTables Sealed) (r : Result PayloadError (PayloadStore Sealed))
      → has_checkpoint p tables ≡ true
      → Kept (on_queue tables r)
  unfolding Kept on_queue has_checkpoint
  on_queue-Kept tables (ok queue) h = h
  on_queue-Kept tables (err e) h = tt

  checked-IsSafeLoad :
      (payload : PayoutSubmitJob) (row : PayloadRow Sealed) (token : Text)
      (cps : List PayoutCheckpoint) (b : Bool)
      → text_eq payload.payout_id row.job_id ≡ b
      → any (of_payout p) cps ≡ true
      → IsSafeLoad p (
          if b
          then some (record {
            lease_token = token;
            submit_job = payload;
            confirmed_transaction =
                hash_of (head? (sort_by recorded_before (filter (of_payout row.job_id) cps)));
          })
          else none)
  unfolding is_safe_job
  checked-IsSafeLoad payload row token cps false e h = tt
  checked-IsSafeLoad payload row token cps true e h =
      elim (Bool-cases (text_eq payload.payout_id p)) [
        | inl same ↦
            let here : row.job_id ≡ p =
              sym ((text_eq_iff payload.payout_id row.job_id).0 e)
              ∙ (text_eq_iff payload.payout_id p).0 same in
            ground (
              arith,
              same,
              subst
                  (λ i.
                    is_set (hash_of (head? (sort_by recorded_before (filter (of_payout i) cps))))
                    ≡ true)
                  (sym here) (first_is_set cps p h),
            )
        | inr other ↦ ground (arith, other)
      ]

  module _ (host : Host Sealed PayoutSubmitJob)
      (admits : PayoutCheckpoint → List PayoutCheckpoint → Bool)
      (first : List PayoutCheckpoint → Option PayoutCheckpoint) where
    load-IsSafeLoad :
        (cps : List PayoutCheckpoint) (token : Text) (row : PayloadRow Sealed)
        → any (of_payout p) cps ≡ true
        → IsSafeLoad p (load_payout host admits first cps token row)
    unfolding load_payout
    load-IsSafeLoad cps token row h = opened (open_row host row)
      where
        opened :
            (o : Option PayoutSubmitJob)
            → IsSafeLoad p (elim o [
              | none ↦ none
              | some payload ↦
                  if text_eq payload.payout_id row.job_id
                  then some (record {
                    lease_token = token;
                    submit_job = payload;
                    confirmed_transaction =
                        hash_of
                          (head? (sort_by recorded_before (filter (of_payout row.job_id) cps)));
                  })
                  else none
            ])
        opened none = tt
        opened (some payload) =
            checked-IsSafeLoad payload row token cps (text_eq payload.payout_id row.job_id) refl h

    loaded-IsSafeAnswer :
        (now : ℕ) (job hash : Text) (store : PayloadStore Sealed) (load : Option PayoutJob)
        → IsSafeLoad p load
        → IsSafeAnswer p (loaded host now job hash store load).1
    unfolding loaded
    loaded-IsSafeAnswer now job hash store none h = tt
    loaded-IsSafeAnswer now job hash store (some found) h = h

    candidate-IsSafeAnswer :
        (load : List CheckpointRow → Text → PayloadRow Sealed → Option PayoutJob)
        (now until duration : ℕ) (worker token hash : Text) (found : Option (PayloadRow Sealed))
        (store : PayloadStore Sealed)
        → ((steps : List CheckpointRow) (row : PayloadRow Sealed)
            → IsSafeLoad p (load steps token row))
        → IsSafeAnswer p
            (lease_candidate host load now until duration worker token hash found store).1
    unfolding lease_candidate
    candidate-IsSafeAnswer load now until duration worker token hash none store h = tt
    candidate-IsSafeAnswer load now until duration worker token hash (some row) store h =
        loaded-IsSafeAnswer now row.job_id hash _
          (load store.checkpoints token (lease now until duration worker hash row))
          (h store.checkpoints (lease now until duration worker hash row))

    -- The guards of an acquisition.
    guarded-IsSafeResult :
        (a b c : Bool) (e f g : PayloadError) (hash : Text)
        (next : Text → PayloadStore Sealed × Option (Option PayoutJob))
        (tables : PayoutTables Sealed)
        → has_checkpoint p tables ≡ true
        → IsSafeAnswer p (next hash).1
        → IsSafeResult p (
            (guard a e >> (guard b f >> ((guard c g >> ok hash) >>= (λ hash. ok (next hash)))))
            >>= (λ pair. ok (record tables { queue = pair.0 }, pair.1)))
    unfolding has_checkpoint
    guarded-IsSafeResult true true true e f g hash next tables k h = (k, h)
    guarded-IsSafeResult true true false e f g hash next tables k h = tt
    guarded-IsSafeResult true false c e f g hash next tables k h = tt
    guarded-IsSafeResult false b c e f g hash next tables k h = tt

    pub acquire-IsSafeResult :
        (now clock : ℕ) (locked : Text → Bool) (worker : Text) (lease_ms : ℕ) (token : Text)
        (tables : PayoutTables Sealed)
        → has_checkpoint p tables ≡ true
        → IsSafeResult p (
            acquire_payout_v3_execution_job host admits first now clock locked worker lease_ms token
              tables)
    unfolding acquire_payout_v3_execution_job acquire_with lease_token_hash_of has_checkpoint
    acquire-IsSafeResult now clock locked worker lease_ms token tables h =
        let cleared : PayloadStore Sealed = retire_exhausted now locked tables.queue in
        guarded-IsSafeResult (is_identifier worker) (leb 1000 lease_ms && leb lease_ms 900000)
          (is_nonempty (trim token)) bad_identifier bad_lease bad_lease_token (host.sha256 token)
          (λ hash.
            lease_candidate host
              (λ steps token row. load_payout host admits first tables.checkpoints token row) now
              (clock + lease_ms) lease_ms worker token hash
              (candidate created_before now locked cleared.payloads) cleared)
          tables h
          (candidate-IsSafeAnswer
            (λ steps token row. load_payout host admits first tables.checkpoints token row) now
            (clock + lease_ms) lease_ms worker token (host.sha256 token)
            (candidate created_before now locked cleared.payloads) cleared
            (λ steps row. load-IsSafeLoad tables.checkpoints token row h))

    token-Kept :
        (token : Text) (rest : Text → Result PayloadError (PayoutTables Sealed))
        → ((hash : Text) → Kept (rest hash))
        → Kept (lease_token_hash_of host token >>= rest)
    unfolding lease_token_hash_of Kept
    token-Kept token rest h = go (is_nonempty (trim token))
      where
        go : (b : Bool) → Kept ((guard b bad_lease_token >> ok (host.sha256 token)) >>= rest)
        go true = h (host.sha256 token)
        go false = tt

    pub confirmed-Kept :
        (now : ℕ) (id token hash : Text) (tables : PayoutTables Sealed)
        → has_checkpoint p tables ≡ true
        → Kept (
            record_payout_v3_execution_transaction_confirmed host admits first now id token hash
              tables)
    unfolding record_payout_v3_execution_transaction_confirmed Kept has_checkpoint
    confirmed-Kept now id token hash tables h =
        let row : PayoutCheckpoint = record {
          payout_id = id;
          transaction_hash = to_lower hash;
          created_at = now;
        } in
        token-Kept token _ (λ digest.
          guard-Kept (row_count (holds now id digest) tables.queue.payloads == 1) stale_lease _ (
            guard-Kept (admits row tables.checkpoints) rejected _
              (any-append (of_payout p) tables.checkpoints (row ∷ []) h)))

    pub submitted-Kept :
        (now : ℕ) (id token hash : Text) (tables : PayoutTables Sealed)
        → has_checkpoint p tables ≡ true
        → Kept (record_payout_v3_execution_submitted host admits first now id token hash tables)
    unfolding record_payout_v3_execution_submitted Kept has_checkpoint
    submitted-Kept now id token hash tables h = token-Kept token _ (λ digest.
        guard-Kept (row_count (holds now id digest) tables.queue.payloads == 1) stale_lease _ (
          guard-Kept (is_hash_of_payout (first (filter (of_payout id) tables.checkpoints)) hash)
            hashes_differ _
            (guard-Kept (row_count (is_leased_under id digest) tables.queue.payloads == 1)
              stale_lease _ h)))
