-- ===== src/Broadcast/Retained.antt =====
-- What is broadcast was retained first, and what a run reports was retained for its own request.
use parly_relayer.Prelude.{
  ◌≡◌, none, some, List, [], ◌∷◌, ◌++◌, Text, text_eq_iff, to_lower, arith, All,
}
use parly_relayer.Broadcast.{
  SignedCall, World, Stage, prepared, claimed, retained, done, Run, find_call,
}

find_call-append :
    (id : Text) (rows more : List SignedCall) (row : SignedCall)
    → find_call id rows ≡ some row
    → find_call id (rows ++ more) ≡ some row
unfolding find_call
find_call-append id [] more row e = cc
find_call-append id (r ∷ rows) more row e = ground (arith, find_call-append id rows more row)

pub find_call-new :
    (id : Text) (rows : List SignedCall) (row : SignedCall)
    → find_call id rows ≡ none
    → row.id ≡ id
    → find_call id (rows ++ row ∷ []) ≡ some row
unfolding find_call
find_call-new id [] row e h = ground (arith, text_eq_iff row.id id)
find_call-new id (r ∷ rows) row e h = ground (arith, find_call-new id rows row)

pub find_call-id :
    (id : Text) (rows : List SignedCall) (row : SignedCall)
    → find_call id rows ≡ some row
    → row.id ≡ id
unfolding find_call
find_call-id id [] row e = cc
find_call-id id (r ∷ rows) row e = ground (arith, find_call-id id rows row, text_eq_iff r.id id)

-- The row that the table holds for a call: the call, its target in lower case.
pub record IsRetained (calls : List SignedCall) (row : SignedCall) : Type 0 where
  pub stored : SignedCall
  pub found : find_call row.id calls ≡ some stored
  pub target : to_lower stored.to ≡ to_lower row.to
  pub calldata : stored.calldata ≡ row.calldata
  pub transaction : stored.serialized_transaction ≡ row.serialized_transaction
  pub hash : stored.transaction_hash ≡ row.transaction_hash

-- The request of a run that is done has a row with the hash that the run reports.
pub record IsAnswered (calls : List SignedCall) (run : Run) (reported : Text) : Type 0 where
  pub stored : SignedCall
  pub found : find_call run.id calls ≡ some stored
  pub target : to_lower stored.to ≡ to_lower run.to
  pub calldata : stored.calldata ≡ run.calldata
  pub hash : stored.transaction_hash ≡ reported

abbrev pub Holds : List SignedCall → Run → Stage → Type 0
Holds calls run (prepared row) = row.id ≡ run.id
Holds calls run (claimed row) = IsRetained calls row × (row.id ≡ run.id)
Holds calls run (retained row) = IsRetained calls row × (row.id ≡ run.id)
Holds calls run (done hash) = IsAnswered calls run hash
Holds calls run _ = Unit

pub IsRetained-append :
    (calls more : List SignedCall) (row : SignedCall)
    → IsRetained calls row
    → IsRetained (calls ++ more) row
IsRetained-append calls more row k = record {
  stored = k.stored;
  found = find_call-append row.id calls more k.stored k.found;
  target = k.target;
  calldata = k.calldata;
  transaction = k.transaction;
  hash = k.hash;
}

pub Holds-append :
    (calls more : List SignedCall) (run : Run) (s : Stage)
    → Holds calls run s
    → Holds (calls ++ more) run s
Holds-append calls more run (prepared row) h = h
Holds-append calls more run (claimed row) h = (IsRetained-append calls more row h.0, h.1)
Holds-append calls more run (retained row) h = (IsRetained-append calls more row h.0, h.1)
Holds-append calls more run (done hash) h = record {
  stored = h.stored;
  found = find_call-append run.id calls more h.stored h.found;
  target = h.target;
  calldata = h.calldata;
  hash = h.hash;
}
Holds-append calls more run _ h = tt

-- A step keeps the table but for new rows at its end, broadcasts only what is retained, and leaves
-- its run in a stage that the table supports.
pub record Keeps (w w' : World) (run : Run) (s' : Stage) : Type 0 where
  pub more : List SignedCall
  pub grown : w'.calls ≡ w.calls ++ more
  pub sent : All (IsRetained w.calls) w.sent → All (IsRetained w'.calls) w'.sent
  pub holds : Holds w'.calls run s'
