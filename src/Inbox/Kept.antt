-- ===== src/Inbox/Kept.antt =====
-- What an update of rows keeps, and what a claim does to a row.
use parly_relayer.Prelude.{
  ℕ, ◌≡◌, ◌≢◌, ◌==◌, refl, Bool, true, false, if◌then◌else◌, List, [], ◌∷◌, arith, Text, filter,
  filter-All, take-All, All, Bool-cases, inl, inr,
}
use parly_relayer.Inbox.{
  InboxRow, is_pending, is_due, earlier, insert_received, by_received, pick, has_id, is_picked,
  update_rows,
}

module _ {B : Type 0} where
  -- Every row is of another id than `id`, or is not pending.
  abbrev pub IsTaken : ℕ → InboxRow B → Type 0
  IsTaken id r = r.id ≡ id → is_pending r.status ≡ false

  pub update_rows-All {κ} :
      (P : InboxRow B → Type κ) (p : InboxRow B → Bool) (f : InboxRow B → InboxRow B)
      (rows : List (InboxRow B))
      → ((r : InboxRow B) → p r ≡ true → P r → P (f r))
      → All P rows
      → All P (update_rows p f rows)
  unfolding update_rows
  update_rows-All P p f [] k h = tt
  update_rows-All P p f (r ∷ rows) k (here, later) =
      (one (p r) refl, update_rows-All P p f rows k later)
    where
      one : (b : Bool) → p r ≡ b → P (if b then f r else r)
      one true e = k r e here
      one false e = here

  pub All-if {κ} :
      (P : InboxRow B → Type κ) (b : Bool) (xs ys : List (InboxRow B))
      → All P xs
      → All P ys
      → All P (if b then xs else ys)
  All-if P true xs ys h k = h
  All-if P false xs ys h k = k

  insert_received-All {κ} :
      (P : InboxRow B → Type κ) (row : InboxRow B) (rows : List (InboxRow B))
      → P row
      → All P rows
      → All P (insert_received row rows)
  unfolding insert_received
  insert_received-All P row [] h k = (h, tt)
  insert_received-All P row (other ∷ rows) h (here, later) =
      All-if P (earlier other row) (other ∷ insert_received row rows) (row ∷ other ∷ rows)
        (here, insert_received-All P row rows h later) (h, (here, later))

  by_received-All {κ} :
      (P : InboxRow B → Type κ) (rows : List (InboxRow B)) → All P rows → All P (by_received rows)
  unfolding by_received
  by_received-All P [] h = tt
  by_received-All P (row ∷ rows) (here, later) =
      insert_received-All P row (by_received rows) here (by_received-All P rows later)

  pub pick-due :
      (now : ℕ) (relayer : Text) (limit : ℕ) (locked : ℕ → Bool) (rows : List (InboxRow B))
      → All (λ r. is_due now relayer locked r ≡ true) (pick now relayer limit locked rows)
  unfolding pick
  pick-due now relayer limit locked rows =
      take-All _ limit (by_received (filter (is_due now relayer locked) rows)) (
        by_received-All _ (filter (is_due now relayer locked) rows)
          (filter-All (is_due now relayer locked) rows))

  pub filter-All_of {κ} :
      (P : InboxRow B → Type κ) (p : InboxRow B → Bool) (rows : List (InboxRow B))
      → All P rows
      → All P (filter p rows)
  filter-All_of P p [] h = tt
  filter-All_of P p (r ∷ rows) (here, later) =
      let rest = filter-All_of P p rows later in
      All-if P (p r) (r ∷ filter p rows) (filter p rows) (here, rest) rest

  -- A picked row that no pick could take is another row.
  pub not_picked :
      (id : ℕ) (picked : List (InboxRow B)) (row : InboxRow B)
      → All (λ r. is_pending r.status ≡ true) picked
      → All (IsTaken id) picked
      → is_picked picked row ≡ true
      → row.id ≢ id
  unfolding is_picked has_id
  not_picked id [] row due taken h e = absurd (ground arith)
  not_picked id (r ∷ picked) row due taken h e = elim (Bool-cases (r.id == row.id)) [
    | inl hit ↦ absurd (ground (arith, due.0, taken.0))
    | inr miss ↦ not_picked id picked row due.1 taken.1 (ground arith) e
  ]

  pub pick-All {κ} :
      (P : InboxRow B → Type κ) (now : ℕ) (relayer : Text) (limit : ℕ) (locked : ℕ → Bool)
      (rows : List (InboxRow B))
      → All P rows
      → All P (pick now relayer limit locked rows)
  unfolding pick
  pick-All P now relayer limit locked rows h =
      take-All P limit (by_received (filter (is_due now relayer locked) rows)) (
        by_received-All P (filter (is_due now relayer locked) rows)
          (filter-All_of P (is_due now relayer locked) rows h))
