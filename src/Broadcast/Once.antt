-- ===== src/Broadcast/Once.antt =====
-- No interleaving of runs broadcasts a transaction of one id twice.
use parly_relayer.Prelude.{
  ℕ, zero, suc, ◌+◌, ◌≤◌, ◌≡◌, refl, if◌then◌else◌, Option, none, some, List, [], ◌∷◌, ◌++◌, Text,
  text_eq, text_eq_iff, to_lower, arith, Option-cases, Bool-cases, inl, inr,
}
use parly_relayer.Broadcast.{
  SignedCall, World, Stage, reading, missing, prepared, claimed, lost, retained, done, stopped,
  call_changed, Run, Reply, proceed, crash, dropped, signed, submitted, observed, Event, empty,
  launch, resume, System, find_call, retain_call, read_call, advance, resume_at, step, run_events,
}

-- How many calls of a list have the id.
unfoldable pub count : Text → List SignedCall → ℕ
count id [] = 0
count id (row ∷ rows) = (if text_eq row.id id then 1 else 0) + count id rows

-- Runs that hold the claim to broadcast a call of the id.
pub claim : Text → Stage → ℕ
claim id (claimed row) = if text_eq row.id id then 1 else 0
claim id _ = 0

pub claims : Text → List Run → ℕ
claims id [] = 0
claims id (run ∷ runs) = claim id run.stage + claims id runs

count-append :
    (id : Text) (xs ys : List SignedCall) → count id (xs ++ ys) ≡ count id xs + count id ys
unfolding count
count-append id [] ys = omega arith
count-append id (x ∷ xs) ys = omega (arith, count-append id xs ys)

count-find_none :
    (id : Text) (rows : List SignedCall) → find_call id rows ≡ none → count id rows ≡ 0
unfolding count find_call
count-find_none id [] e = refl
count-find_none id (row ∷ rows) e = ground (arith, count-find_none id rows)

-- What one step may add: a broadcast or a claim only with a new row, and a row only for a free id.
record Grows (id : Text) (w w' : World) (s s' : Stage) : Type 0 where
  pub rows : count id w.calls ≤ count id w'.calls
  pub covered :
      count id w'.sent + claim id s' + count id w.calls
      ≤ count id w.sent + claim id s + count id w'.calls
  pub unique : count id w.calls ≤ 1 → count id w'.calls ≤ 1

module _ (keccak256 : Text → Text) (id : Text) where
  read_call-claim :
      (missed : Stage) (found : Option SignedCall)
      → claim id missed ≡ 0
      → claim id (read_call keccak256 missed found) ≡ 0
  unfolding read_call claim
  read_call-claim missed none h = h
  read_call-claim missed (some row) h = ground arith

  still : (w : World) (s s' : Stage) → claim id s' ≤ claim id s → Grows id w w s s'
  still w s s' h = omega arith

  sent-Grows :
      (row : SignedCall) (w : World) (s' : Stage)
      → claim id s' ≡ 0
      → Grows id w (record w { sent = w.sent ++ row ∷ [] }) (claimed row) s'
  unfolding claim count
  sent-Grows row w s' h = omega (arith, count-append id w.sent (row ∷ []))

  inserted-Grows :
      (row : SignedCall) (w : World)
      → find_call row.id w.calls ≡ none
      → Grows id w
          (record w { calls = w.calls ++ (record row { to = to_lower row.to }) ∷ [] })
          (prepared row)
          (claimed row)
  unfolding claim count
  inserted-Grows row w free = ground (
    arith,
    count-append id w.calls ((record row { to = to_lower row.to }) ∷ []),
    count-find_none id w.calls,
    text_eq_iff row.id id,
  )

  retain_call-Grows :
      (row : SignedCall) (w : World)
      → Grows id w (retain_call keccak256 row w).0 (prepared row) (retain_call keccak256 row w).1
  unfolding retain_call claim
  retain_call-Grows row w =
      elim (Bool-cases (text_eq (keccak256 row.serialized_transaction) row.transaction_hash)) [
        | inr bad ↦ rw bad (still w _ _ (omega arith))
        | inl good ↦ elim (Option-cases (find_call row.id w.calls)) [
          | inl free ↦ rw (good, free, retain_call) (inserted-Grows row w free)
          | inr (taken, e) ↦ rw (good, e, retain_call) (still w _ _ (omega arith))
        ]
      ]

  advance-Grows :
      (s : Stage) (reply : Reply) (run : Run) (w : World)
      → Grows id w (advance keccak256 s reply run w).0 s (advance keccak256 s reply run w).1
  unfolding advance claim
  advance-Grows reading proceed run w =
      still w _ _ (omega (arith, read_call-claim missing (find_call run.id w.calls) refl))
  advance-Grows missing (signed t h) run w = still w _ _ (omega arith)
  advance-Grows (done h) crash run w = still w _ _ (omega arith)
  advance-Grows (stopped e) crash run w = still w _ _ (omega arith)
  advance-Grows (prepared row) proceed run w = retain_call-Grows row w
  advance-Grows (claimed row) (submitted hash) run w = sent-Grows row w _ (ground arith)
  advance-Grows (claimed row) dropped run w = sent-Grows row w _ refl
  advance-Grows lost proceed run w =
      still w _ _
        (omega (arith, read_call-claim (stopped call_changed) (find_call run.id w.calls) refl))
  advance-Grows (retained row) (observed outcome) run w = still w _ _ (ground arith)
  advance-Grows _ _ run w = still w _ _ (omega arith)

  -- At most one row has the id, and what was broadcast or is about to be has its row.
  record Inv (s : System) : Type 0 where
    pub covered : count id s.world.sent + claims id s.runs ≤ count id s.world.calls
    pub unique : count id s.world.calls ≤ 1

  resume_at-Inv :
      (i : ℕ) (reply : Reply) (w : World) (runs : List Run)
      → (extra : ℕ) → count id w.sent + claims id runs + extra ≤ count id w.calls
      → count id w.calls ≤ 1
      → (count id (resume_at keccak256 i reply w runs).0.sent
            + claims id (resume_at keccak256 i reply w runs).1
            + extra
          ≤ count id (resume_at keccak256 i reply w runs).0.calls)
        × (count id (resume_at keccak256 i reply w runs).0.calls ≤ 1)
  unfolding resume_at claims
  resume_at-Inv zero reply w [] extra h u = (h, u)
  resume_at-Inv (suc i) reply w [] extra h u = (h, u)
  resume_at-Inv zero reply w (run ∷ runs) extra h u =
      let g = advance-Grows run.stage reply run w in (omega (arith, g.covered, g.rows), g.unique u)
  resume_at-Inv (suc i) reply w (run ∷ runs) extra h u =
      let ih = resume_at-Inv i reply w runs (claim id run.stage + extra) (omega arith) u in
      (omega (arith, ih.0), ih.1)

  step-Inv : (e : Event) (s : System) → Inv s → Inv (step keccak256 e s)
  unfolding step claims claim
  step-Inv (launch id' to calldata) s v = record {
    covered = omega (arith, v.covered);
    unique = v.unique;
  }
  step-Inv (resume i reply) s v =
      let k = resume_at-Inv i reply s.world s.runs 0 (omega (arith, v.covered)) v.unique in
      record { covered = omega (arith, k.0); unique = k.1 }

  run_events-Inv : (es : List Event) (s : System) → Inv s → Inv (run_events keccak256 es s)
  unfolding run_events
  run_events-Inv [] s v = v
  run_events-Inv (e ∷ es) s v = run_events-Inv es (step keccak256 e s) (step-Inv e s v)

-- From an empty table and no runs, after any events (launches, interleaved steps, crashes and
-- restarts), at most one transaction of each id was handed to the network, and at most one row of
-- the table has the id.
pub broadcast_once :
    (keccak256 : Text → Text) (id : Text) (es : List Event)
    → let s = run_events keccak256 es empty in
      (count id s.world.sent ≤ 1) × (count id s.world.calls ≤ 1)
unfolding count claims
broadcast_once keccak256 id es =
    let v =
      run_events-Inv keccak256 id es empty
        (record { covered = omega arith; unique = omega arith }) in
    (omega (arith, v.covered, v.unique), v.unique)
