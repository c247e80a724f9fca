-- ===== src/Broadcast/Guarded.antt =====
-- When a group's source is paid, and when a child is registered.
use parly_relayer.Prelude.{
  ◌≡◌, refl, sym, subst, Bool, true, false, ◌&&◌, ◌||◌, not, ◌==◌, any, all, if◌then◌else◌, Option,
  none, some, List, [], ◌∷◌, Text, All, arith,
}
use parly_relayer.Broadcast.Execution.{
  Call, ChildState, Callbacks, Part, is_funded, has_early, is_mixed, is_missing, continue, ◌>>=◌,
  ◌>>◌, answers, throws_if, states_at, read_states, read_state_of, query, perform, perform_if,
  accept_each, source_of, register_child, advance_child, advance_each, fund,
  run_payout_v7_execution,
}
use parly_relayer.Broadcast.Keeps.{
  IsAllowed, IsGuarded, Keeps, settle_child, bind_at, bind-Keeps, then-Keeps, answers-Keeps,
  throws_if-Keeps, query-Keeps, read_states-Keeps, perform_if-Keeps, accept_each-Keeps,
  settle_child-Keeps,
}

some_inj : {A : Type 0} (a b : A) → some a ≡ some b → a ≡ b
some_inj a b h = cc

module _ {Child : Type 0} (callbacks : Callbacks Child) (group : List Child) where
  registered :
      (b : Bool) (child : Child) (s : ChildState) (calls : List (Call Child))
      → (s.status == 1 || s.status == 2) ≡ b
      → callbacks.read_state calls child ≡ some s
      → IsGuarded callbacks group calls
      → IsGuarded callbacks group (register_child callbacks b child s calls).0
  unfolding register_child ◌>>◌ ◌>>=◌ throws_if continue perform answers
  registered false child s calls e f g = g
  registered true child s calls e f g = funded (is_funded s) refl
    where
      funded :
          (b : Bool)
          → is_funded s ≡ b
          → IsGuarded callbacks group
              (continue
                (λ (done : Unit {0}). perform callbacks (Call.registration child))
                (calls, if not b then none else some tt)).0
      funded true k = ((s, f, k, e), g)
      funded false k = g

  advance_child_at :
      (hash : Option Text) (child : Child) (s : ChildState) (calls : List (Call Child))
      → callbacks.read_state calls child ≡ some s
      → IsGuarded callbacks group calls
      → IsGuarded callbacks group (advance_child callbacks hash child s calls).0
  unfolding advance_child ◌>>◌ ◌>>=◌ settle_child
  advance_child_at hash child s calls e g =
      bind_at callbacks group
        (register_child callbacks (s.status == 1 || s.status == 2) child s calls)
        (λ done. settle_child callbacks group hash child s)
        (registered (s.status == 1 || s.status == 2) child s calls refl e g)
        (λ done. settle_child-Keeps callbacks group hash child s)

  -- A state that was just read.
  read_at :
      {B : Type 0} (child : Child) (f : ChildState → Part Child B) (calls : List (Call Child))
      (o : Option ChildState)
      → callbacks.read_state calls child ≡ o
      → ((s : ChildState)
          → callbacks.read_state calls child ≡ some s
          → IsGuarded callbacks group (f s calls).0)
      → IsGuarded callbacks group calls
      → IsGuarded callbacks group (continue f (calls, o)).0
  unfolding continue
  read_at child f calls none e k g = g
  read_at child f calls (some s) e k g = k s e

  advance_each-Keeps :
      (hash : Option Text) (children : List Child)
      → Keeps callbacks group (advance_each callbacks hash children)
  unfolding advance_each ◌>>=◌ ◌>>◌ read_state_of Keeps answers
  advance_each-Keeps hash [] calls g = g
  advance_each-Keeps hash (child ∷ children) calls g =
      read_at child
        (λ s. advance_child callbacks hash child s >> advance_each callbacks hash children) calls
        (callbacks.read_state calls child) refl
        (λ s e.
          bind_at callbacks group (advance_child callbacks hash child s calls)
            (λ done. advance_each callbacks hash children) (advance_child_at hash child s calls e g)
            (λ done. advance_each-Keeps hash children))
        g

  unfunded_read :
      (calls : List (Call Child)) (child : Child) (children : List Child) (states : List ChildState)
      (o : Option ChildState) (rest : Option (List ChildState))
      → callbacks.read_state calls child ≡ o
      → (elim o [
        | none ↦ none
        | some state ↦ elim rest [ none ↦ none | some states ↦ some (state ∷ states) ]
      ])
        ≡ some states
      → any is_funded states ≡ false
      → ((found : List ChildState)
          → rest ≡ some found
          → any is_funded found ≡ false
          → All
              (λ child.
                (s : ChildState) × (callbacks.read_state calls child ≡ some s)
                × (is_funded s ≡ false))
              children)
      → All
          (λ child.
            (s : ChildState) × (callbacks.read_state calls child ≡ some s) × (is_funded s ≡ false))
          (child ∷ children)
  unfunded_read calls child children states none rest r e f k = cc
  unfunded_read calls child children states (some s) none r e f k = cc
  unfunded_read calls child children states (some s) (some found) r e f k =
      let unfunded : any is_funded (s ∷ found) ≡ false =
        subst (λ l. any is_funded l ≡ false) (sym (some_inj (s ∷ found) states e)) f in
      ((s, r, ground (arith, unfunded)), k found refl (ground (arith, unfunded)))

  unfunded_at :
      (calls : List (Call Child)) (children : List Child) (states : List ChildState)
      → states_at callbacks calls children ≡ some states
      → any is_funded states ≡ false
      → All
          (λ child.
            (s : ChildState) × (callbacks.read_state calls child ≡ some s) × (is_funded s ≡ false))
          children
  unfolding states_at
  unfunded_at calls [] states e f = tt
  unfunded_at calls (child ∷ children) states e f =
      unfunded_read calls child children states (callbacks.read_state calls child)
        (states_at callbacks calls children) refl e f
        (λ rest e' f'. unfunded_at calls children rest e' f')

  -- What was read does not change the calls.
  continue_same :
      {A B : Type 0} (o : Option A) (f : A → Part Child B) (calls : List (Call Child))
      → IsGuarded callbacks group calls
      → ((a : A) → o ≡ some a → IsGuarded callbacks group (f a calls).0)
      → IsGuarded callbacks group (continue f (calls, o)).0
  unfolding continue
  continue_same none f calls g k = g
  continue_same (some a) f calls g k = k a refl

  sent_at :
      (calls : List (Call Child))
      → IsGuarded callbacks group calls
      → IsAllowed callbacks group calls Call.source
      → IsGuarded callbacks group
          ((perform callbacks Call.source
              >> query callbacks (λ calls. some (some (callbacks.sent_source_hash calls))))
            calls).0
  unfolding ◌>>=◌ ◌>>◌ perform
  sent_at calls g allowed =
      bind_at callbacks group (perform callbacks Call.source calls)
        (λ done. query callbacks (λ calls. some (some (callbacks.sent_source_hash calls))))
        (allowed, g)
        (λ done.
          query-Keeps callbacks group (λ calls. some (some (callbacks.sent_source_hash calls))))

  source_at :
      (states : List ChildState) (hash : Option Text) (calls : List (Call Child))
      → states_at callbacks calls group ≡ some states
      → IsGuarded callbacks group calls
      → IsGuarded callbacks group (source_of callbacks states hash calls).0
  unfolding source_of Keeps
  source_at states hash calls e g = go (any is_funded states) (has_early states) refl
    where
      send : Part Child (Option Text)
      send =
          perform callbacks Call.source
          >> query callbacks (λ calls. some (some (callbacks.sent_source_hash calls)))

      go :
          (b c : Bool)
          → any is_funded states ≡ b
          → IsGuarded callbacks group ((if not b && c then send else answers hash) calls).0
      go true c f = answers-Keeps callbacks group hash calls g
      go false false f = answers-Keeps callbacks group hash calls g
      go false true f = sent_at calls g (unfunded_at calls group states e f)

  fund_at :
      (states : List ChildState) (calls : List (Call Child))
      → states_at callbacks calls group ≡ some states
      → IsGuarded callbacks group calls
      → IsGuarded callbacks group (fund callbacks group states calls).0
  unfolding fund ◌>>=◌ ◌>>◌ throws_if query
  fund_at states calls e g =
      continue_same _ (λ done. query callbacks callbacks.source_hash >>= source_of callbacks states)
        calls g
        (λ done d.
          continue_same (callbacks.source_hash calls) (source_of callbacks states) calls g
            (λ hash h. source_at states hash calls e g))

  -- What follows the acceptance of the quotes.
  pay_and_advance : Part Child (Unit {0})
  pay_and_advance = read_states callbacks group >>= (λ accepted.
      fund callbacks group accepted >>= (λ hash.
        throws_if (is_missing hash && has_early accepted) >> advance_each callbacks hash group))

  pay_and_advance-Keeps : Keeps callbacks group pay_and_advance
  unfolding Keeps pay_and_advance ◌>>=◌ read_states
  pay_and_advance-Keeps calls g =
      continue_same (states_at callbacks calls group)
        (λ accepted. fund callbacks group accepted >>= (λ hash.
          throws_if (is_missing hash && has_early accepted) >> advance_each callbacks hash group))
        calls g
        (λ accepted e.
          bind_at callbacks group (fund callbacks group accepted calls)
            (λ hash.
              throws_if (is_missing hash && has_early accepted)
              >> advance_each callbacks hash group)
            (fund_at accepted calls e g)
            (λ hash.
              then-Keeps callbacks group _ _
                (throws_if-Keeps callbacks group (is_missing hash && has_early accepted))
                (advance_each-Keeps hash group)))

  run-Keeps : Keeps callbacks group (run_payout_v7_execution callbacks group)
  unfolding run_payout_v7_execution pay_and_advance
  run-Keeps =
      bind-Keeps callbacks group (read_states callbacks group) _
        (read_states-Keeps callbacks group group)
        (λ states.
          then-Keeps callbacks group (throws_if (is_mixed states)) _
            (throws_if-Keeps callbacks group (is_mixed states))
            (then-Keeps callbacks group
              (perform_if callbacks (all (λ s. not (is_funded s)) states && has_early states)
                Call.preflight)
              _
              (perform_if-Keeps callbacks group
                (all (λ s. not (is_funded s)) states && has_early states) Call.preflight
                (λ calls. tt))
              (then-Keeps callbacks group (accept_each callbacks states group) pay_and_advance
                (accept_each-Keeps callbacks group states group) pay_and_advance-Keeps)))

  -- Whatever the chain and the stores answer, and wherever a callback throws: a run of a group pays the source
  -- only where every child reads as not funded, and registers a child only where it reads as funded with the
  -- status 1 or 2.
  pub run_payout_v7_execution-IsGuarded :
      IsGuarded callbacks group (run_payout_v7_execution callbacks group []).0
  unfolding Keeps
  run_payout_v7_execution-IsGuarded = run-Keeps [] tt
