-- ===== src/Broadcast/Execution.antt =====
-- apps/relayer/src/phase3/payout-v7-worker.ts: runPayoutV7Execution, the order of the calls that take a
-- group of payouts from its quotes to its completion. The chain and the stores behind the callbacks are
-- outside: what they answer is any function of the calls that were made before, the newest first.
use parly_relayer.Prelude.{
  ℕ, Bool, true, false, ◌&&◌, ◌||◌, not, ltb, ◌==◌, any, all, if◌then◌else◌, Option, none, some,
  List, [], ◌∷◌, Text, is_nonempty,
}

pub data Call (Child : Type 0) : Type 0 where
  preflight source : Call Child
  accept registration provenance confirm submit downstream : Child → Call Child

-- `status` and `escrowFundedAt` of a child.
pub record ChildState : Type 0 where
  pub status : ℕ
  pub escrow_funded_at : ℕ

-- The callbacks; a query that throws answers `none`, and a call that throws does not succeed.
pub record Callbacks (Child : Type 0) : Type 0 where
  pub read_state : List (Call Child) → Child → Option ChildState
  pub succeeds : List (Call Child) → Call Child → Bool
  pub source_hash : List (Call Child) → Option (Option Text)
  pub sent_source_hash : List (Call Child) → Text
  pub submission_hash : List (Call Child) → Child → Option (Option Text)
  pub sent_submission_hash : List (Call Child) → Child → Text

-- A part of the function: the calls that it leaves, and its answer unless it throws.
abbrev pub Part : Type 0 → Type 0 → Type 0
Part Child A = List (Call Child) → List (Call Child) × Option A

unfoldable pub is_funded : ChildState → Bool
is_funded s = ltb 0 s.escrow_funded_at

-- `states.some(s => s.status < 3)`
unfoldable pub has_early : List ChildState → Bool
has_early states = any (λ s. ltb s.status 3) states

unfoldable pub is_mixed : List ChildState → Bool
unfolding is_funded
is_mixed states = any is_funded states && any (λ s. not (is_funded s)) states

-- `!hash`
unfoldable pub is_missing : Option Text → Bool
is_missing none = true
is_missing (some hash) = not (is_nonempty hash)

module _ {Child : Type 0} where
  unfoldable pub continue :
      {A B : Type 0}
      → (A → Part Child B)
      → List (Call Child) × Option A
      → List (Call Child) × Option B
  continue next (calls, none) = (calls, none)
  continue next (calls, some a) = next a calls

  infixl 5 ◌>>=◌ ◌>>◌
  unfoldable pub ◌>>=◌ :
      {A B : Type 0} (first : Part Child A) (next : A → Part Child B) → Part Child B
  unfolding continue
  first >>= next = λ calls. continue next (first calls)

  unfoldable pub ◌>>◌ :
      {B : Type 0} (first : Part Child (Unit {0})) (next : Part Child B) → Part Child B
  first >> next = first >>= (λ (done : Unit {0}). next)

  unfoldable pub answers : {A : Type 0} → A → Part Child A
  answers a = λ calls. (calls, some a)

  unfoldable pub throws_if : Bool → Part Child (Unit {0})
  throws_if b = λ calls. (calls, if b then none else some tt)

module _ {Child : Type 0} (callbacks : Callbacks Child) where
  unfoldable pub states_at : List (Call Child) → List Child → Option (List ChildState)
  states_at calls [] = some []
  states_at calls (child ∷ children) = elim (callbacks.read_state calls child) [
    | none ↦ none
    | some state ↦ elim (states_at calls children) [
      | none ↦ none
      | some states ↦ some (state ∷ states)
    ]
  ]

  unfoldable pub read_states : List Child → Part Child (List ChildState)
  unfolding states_at
  read_states children = λ calls. (calls, states_at calls children)

  unfoldable pub read_state_of : Child → Part Child ChildState
  read_state_of child = λ calls. (calls, callbacks.read_state calls child)

  unfoldable pub query : {A : Type 0} → (List (Call Child) → Option A) → Part Child A
  query f = λ calls. (calls, f calls)

  unfoldable pub perform : Call Child → Part Child (Unit {0})
  perform call = λ calls. (call ∷ calls, if callbacks.succeeds calls call then some tt else none)

  unfoldable pub perform_if : Bool → Call Child → Part Child (Unit {0})
  unfolding perform answers
  perform_if b call = if b then perform call else answers tt

  -- The loop over the children whose first state has the status 0.
  unfoldable pub accept_each : List ChildState → List Child → Part Child (Unit {0})
  accept_each (state ∷ states) (child ∷ children) = do
    perform_if (state.status == 0) (accept child)
    accept_each states children
  accept_each _ _ = answers tt

  -- The retained source transaction, or one that is sent now.
  unfoldable pub source_of : List ChildState → Option Text → Part Child (Option Text)
  source_of states hash =
      if not (any is_funded states) && has_early states
      then (do perform source; query (λ calls. some (some (callbacks.sent_source_hash calls))))
      else answers hash

  unfoldable pub confirm_child : Bool → Child → ChildState → Option Text → Part Child ChildState
  confirm_child true child state hash = do
    throws_if (not (is_funded state) || is_missing hash)
    perform (provenance child)
    perform (confirm child)
    read_state_of child
  confirm_child false child state hash = answers state

  unfoldable pub submit_child :
      Bool → Child → ChildState → Option Text → Part Child (ChildState × Option Text)
  submit_child true child state hash = do
    perform (submit child)
    sent ← query (λ calls. some (some (callbacks.sent_submission_hash calls child)))
    next ← read_state_of child
    answers (next, sent)
  submit_child false child state hash = answers (state, hash)

  unfoldable pub finish_child : Child → ChildState × Option Text → Part Child (Unit {0})
  finish_child child (state, hash) = do
    throws_if (state.status == 3 && is_missing hash)
    perform_if (state.status == 3) (downstream child)

  unfoldable pub register_child : Bool → Child → ChildState → Part Child (Unit {0})
  register_child true child state = do
    throws_if (not (is_funded state))
    perform (registration child)
  register_child false child state = answers tt

  -- The body of the last loop, after the child's state was read.
  unfoldable pub advance_child : Option Text → Child → ChildState → Part Child (Unit {0})
  advance_child source_hash child state = do
    register_child (state.status == 1 || state.status == 2) child state
    confirmed ← confirm_child (state.status == 1) child state source_hash
    hash ← query (λ calls. callbacks.submission_hash calls child)
    submitted ← submit_child (confirmed.status == 2) child confirmed hash
    finish_child child submitted

  unfoldable pub advance_each : Option Text → List Child → Part Child (Unit {0})
  advance_each source_hash [] = answers tt
  advance_each source_hash (child ∷ children) = do
    state ← read_state_of child
    advance_child source_hash child state
    advance_each source_hash children

  -- From the second reading of the states to the source transaction.
  unfoldable pub fund : List Child → List ChildState → Part Child (Option Text)
  fund children states = do
    throws_if (any (λ s. ltb s.status 1 || ltb 6 s.status) states || is_mixed states)
    hash ← query callbacks.source_hash
    source_of states hash

  unfoldable pub run_payout_v7_execution : List Child → Part Child (Unit {0})
  run_payout_v7_execution children = do
    states ← read_states children
    throws_if (is_mixed states)
    perform_if (all (λ s. not (is_funded s)) states && has_early states) preflight
    accept_each states children
    accepted ← read_states children
    hash ← fund children accepted
    throws_if (is_missing hash && has_early accepted)
    advance_each hash children
