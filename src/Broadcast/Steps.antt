-- ===== src/Broadcast/Steps.antt =====
-- One step of a run broadcasts only what is retained, and keeps what its stage stands for.
use parly_relayer.Prelude.{
  ◌≡◌, refl, ap, sym, ◌∙◌, none, some, [], ◌∷◌, ◌++◌, Text, text_eq, text_eq_iff, to_lower,
  to_lower_idem, Option-cases, Bool-cases, inl, inr, All-append, All-map, &&_iff, ◌&&◌,
}
use mathlib.Core.List.{append-nil}
use parly_relayer.Broadcast.{
  SignedCall, World, Stage, reading, missing, prepared, claimed, lost, retained, done, stopped,
  call_changed, submitted_hash_mismatch, crashed, Run, Reply, proceed, crash, dropped, signed,
  submitted, observed, Outcome, success, find_call, retain_call, read_call, settle, advance,
}
use parly_relayer.Broadcast.Retained.{
  find_call-new, find_call-id, IsRetained, Holds, IsRetained-append, Keeps,
}

module _ (keccak256 : Text → Text) where
  -- The table is as it was.
  same : (w : World) (run : Run) (s' : Stage) → Holds w.calls run s' → Keeps w w run s'
  same w run s' h = record { more = []; grown = sym (append-nil w.calls); sent = λ k. k; holds = h }

  read_call-Holds :
      (run : Run) (w : World) (missed : Stage)
      → Holds w.calls run missed
      → Holds w.calls run (read_call keccak256 missed (find_call run.id w.calls))
  unfolding read_call
  read_call-Holds run w missed h = elim (Option-cases (find_call run.id w.calls)) [
    | inl e ↦ rw e h
    | inr (row, e) ↦ rw e (found row e)
  ]
    where
      found :
          (row : SignedCall)
          → find_call run.id w.calls ≡ some row
          → Holds w.calls run (read_call keccak256 missed (some row))
      found row e =
          let named = find_call-id run.id w.calls row e in
          elim (Bool-cases (text_eq (keccak256 row.serialized_transaction) row.transaction_hash)) [
            | inl good ↦ rw good (
              record {
                stored = row;
                found = ap (λ i. find_call i w.calls) named ∙ e;
                target = refl;
                calldata = refl;
                transaction = refl;
                hash = refl;
              },
              named,
            )
            | inr bad ↦ rw bad tt
          ]

  inserted-Keeps :
      (run : Run) (w : World) (row : SignedCall)
      → row.id ≡ run.id
      → find_call row.id w.calls ≡ none
      → Keeps w
          (record w { calls = w.calls ++ (record row { to = to_lower row.to }) ∷ [] })
          run
          (claimed row)
  inserted-Keeps run w row named free = record {
    more = (record row { to = to_lower row.to }) ∷ [];
    grown = refl;
    sent = λ k. All-map _ _ w.sent (IsRetained-append w.calls _) k;
    holds = (
      record {
        stored = record row { to = to_lower row.to };
        found = find_call-new row.id w.calls (record row { to = to_lower row.to }) free refl;
        target = to_lower_idem row.to;
        calldata = refl;
        transaction = refl;
        hash = refl;
      },
      named,
    );
  }

  retain_call-Keeps :
      (run : Run) (w : World) (row : SignedCall)
      → row.id ≡ run.id
      → Keeps w (retain_call keccak256 row w).0 run (retain_call keccak256 row w).1
  unfolding retain_call
  retain_call-Keeps run w row named =
      elim (Bool-cases (text_eq (keccak256 row.serialized_transaction) row.transaction_hash)) [
        | inr bad ↦ rw bad (same w run _ tt)
        | inl good ↦ elim (Option-cases (find_call row.id w.calls)) [
          | inl free ↦ rw (good, free, retain_call) (inserted-Keeps run w row named free)
          | inr (taken, e) ↦ rw (good, e, retain_call) (same w run _ tt)
        ]
      ]

  sent-Keeps :
      (run : Run) (w : World) (row : SignedCall) (s' : Stage)
      → IsRetained w.calls row
      → Holds w.calls run s'
      → Keeps w (record w { sent = w.sent ++ row ∷ [] }) run s'
  sent-Keeps run w row s' k h = record {
    more = [];
    grown = sym (append-nil w.calls);
    sent = λ all. All-append (IsRetained w.calls) w.sent (row ∷ []) all (k, tt);
    holds = h;
  }

  settle-Holds :
      (run : Run) (w : World) (row : SignedCall) (outcome : Outcome)
      → IsRetained w.calls row
      → row.id ≡ run.id
      → Holds w.calls run (settle keccak256 run row outcome)
  unfolding settle
  settle-Holds run w row success k named =
      elim (Bool-cases
        (text_eq (to_lower row.to) (to_lower run.to) && text_eq row.calldata run.calldata)) [
          | inl match ↦
              let (to, calldata) = (&&_iff _ _).0 match in
              rw match (record {
                stored = k.stored;
                found = ap (λ i. find_call i w.calls) (sym named) ∙ k.found;
                target = k.target ∙ (text_eq_iff _ _).0 to;
                calldata = k.calldata ∙ (text_eq_iff _ _).0 calldata;
                hash = k.hash;
              })
          | inr other ↦ rw other tt
        ]
  settle-Holds run w row _ k named =
      elim (Bool-cases
        (text_eq (to_lower row.to) (to_lower run.to) && text_eq row.calldata run.calldata)) [
          | inl match ↦ rw match tt
          | inr other ↦ rw other tt
        ]

  pub advance-Keeps :
      (s : Stage) (reply : Reply) (run : Run) (w : World)
      → Holds w.calls run s
      → Keeps w (advance keccak256 s reply run w).0 run (advance keccak256 s reply run w).1
  unfolding advance
  advance-Keeps reading proceed run w h = same w run _ (read_call-Holds run w missing tt)
  advance-Keeps missing (signed t hash) run w h = same w run _ refl
  advance-Keeps (prepared row) proceed run w h = retain_call-Keeps run w row h
  advance-Keeps (claimed row) (submitted hash) run w h =
      elim (Bool-cases (text_eq hash row.transaction_hash)) [
        | inl good ↦ rw good (sent-Keeps run w row (retained row) h.0 h)
        | inr bad ↦ rw bad (sent-Keeps run w row (stopped submitted_hash_mismatch) h.0 tt)
      ]
  advance-Keeps (claimed row) dropped run w h = sent-Keeps run w row (stopped crashed) h.0 tt
  advance-Keeps lost proceed run w h =
      same w run _ (read_call-Holds run w (stopped call_changed) tt)
  advance-Keeps (retained row) (observed outcome) run w h =
      same w run _ (settle-Holds run w row outcome h.0 h.1)
  advance-Keeps (done hash) crash run w h = same w run _ h
  advance-Keeps (stopped e) crash run w h = same w run _ tt
  advance-Keeps (prepared row) crash run w h = same w run _ tt
  advance-Keeps (claimed row) crash run w h = same w run _ tt
  advance-Keeps (retained row) crash run w h = same w run _ tt
  advance-Keeps _ _ run w h = same w run _ h
