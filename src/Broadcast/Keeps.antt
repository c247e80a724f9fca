-- ===== src/Broadcast/Keeps.antt =====
-- Parts of a run that make guarded calls only.
use parly_relayer.Prelude.{
  ◌≡◌, Bool, true, false, ◌&&◌, ◌||◌, not, ◌==◌, Option, none, some, List, [], ◌∷◌, Text, All,
}
use parly_relayer.Broadcast.Execution.{
  Call, ChildState, Callbacks, Part, is_funded, is_missing, continue, ◌>>=◌, ◌>>◌, answers,
  throws_if, read_states, read_state_of, query, perform, perform_if, accept_each, confirm_child,
  submit_child, finish_child,
}

module _ {Child : Type 0} (callbacks : Callbacks Child) (group : List Child) where
  -- What the chain says of the children where a call is made, for the calls that are guarded.
  abbrev pub IsAllowed : List (Call Child) → Call Child → Type 0
  IsAllowed calls Call.source =
      All
        (λ child.
          (s : ChildState) × (callbacks.read_state calls child ≡ some s) × (is_funded s ≡ false))
        group
  IsAllowed calls (Call.registration child) =
      (s : ChildState) × (callbacks.read_state calls child ≡ some s)
      × (is_funded s ≡ true)
      × ((s.status == 1 || s.status == 2) ≡ true)
  IsAllowed calls _ = Unit

  abbrev pub IsGuarded : List (Call Child) → Type 0
  IsGuarded [] = Unit
  IsGuarded (call ∷ calls) = IsAllowed calls call × IsGuarded calls

  unfoldable pub Keeps : {A : Type 0} → Part Child A → Type 0
  Keeps part = (calls : List (Call Child)) → IsGuarded calls → IsGuarded (part calls).0

  pub bind_at :
      {A B : Type 0} (r : List (Call Child) × Option A) (f : A → Part Child B)
      → IsGuarded r.0
      → ((a : A) → Keeps (f a))
      → IsGuarded (continue f r).0
  unfolding continue Keeps
  bind_at (calls, none) f h k = h
  bind_at (calls, some a) f h k = k a calls h

  pub bind-Keeps :
      {A B : Type 0} (m : Part Child A) (f : A → Part Child B)
      → Keeps m
      → ((a : A) → Keeps (f a))
      → Keeps (m >>= f)
  unfolding ◌>>=◌ Keeps
  bind-Keeps m f h k calls g = bind_at (m calls) f (h calls g) k

  pub then-Keeps :
      {B : Type 0} (m : Part Child (Unit {0})) (next : Part Child B)
      → Keeps m
      → Keeps next
      → Keeps (m >> next)
  unfolding ◌>>◌
  then-Keeps m next h k = bind-Keeps m (λ done. next) h (λ done. k)

  pub answers-Keeps : {A : Type 0} (a : A) → Keeps {A = A} (answers a)
  unfolding Keeps answers
  answers-Keeps a calls g = g

  pub throws_if-Keeps : (b : Bool) → Keeps (throws_if b)
  unfolding Keeps throws_if
  throws_if-Keeps b calls g = g

  pub query-Keeps : {A : Type 0} (f : List (Call Child) → Option A) → Keeps (query callbacks f)
  unfolding Keeps query
  query-Keeps f calls g = g

  pub read_state_of-Keeps : (child : Child) → Keeps (read_state_of callbacks child)
  unfolding Keeps read_state_of
  read_state_of-Keeps child calls g = g

  pub read_states-Keeps : (children : List Child) → Keeps (read_states callbacks children)
  unfolding Keeps read_states
  read_states-Keeps children calls g = g

  perform-Keeps :
      (call : Call Child)
      → ((calls : List (Call Child)) → IsAllowed calls call)
      → Keeps (perform callbacks call)
  unfolding Keeps perform
  perform-Keeps call allowed calls g = (allowed calls, g)

  pub perform_if-Keeps :
      (b : Bool) (call : Call Child)
      → ((calls : List (Call Child)) → IsAllowed calls call)
      → Keeps (perform_if callbacks b call)
  unfolding perform_if
  perform_if-Keeps true call allowed = perform-Keeps call allowed
  perform_if-Keeps false call allowed = answers-Keeps tt

  pub accept_each-Keeps :
      (states : List ChildState) (children : List Child)
      → Keeps (accept_each callbacks states children)
  unfolding accept_each
  accept_each-Keeps [] children = answers-Keeps tt
  accept_each-Keeps (s ∷ states) [] = answers-Keeps tt
  accept_each-Keeps (s ∷ states) (child ∷ children) =
      then-Keeps _ _ (perform_if-Keeps (s.status == 0) (Call.accept child) (λ calls. tt))
        (accept_each-Keeps states children)

  confirm_child-Keeps :
      (b : Bool) (child : Child) (s : ChildState) (hash : Option Text)
      → Keeps (confirm_child callbacks b child s hash)
  unfolding confirm_child
  confirm_child-Keeps true child s hash =
      then-Keeps _ _ (throws_if-Keeps (not (is_funded s) || is_missing hash)) (
        then-Keeps _ _ (perform-Keeps (Call.provenance child) (λ calls. tt)) (
          then-Keeps _ _ (perform-Keeps (Call.confirm child) (λ calls. tt))
            (read_state_of-Keeps child)))
  confirm_child-Keeps false child s hash = answers-Keeps s

  submit_child-Keeps :
      (b : Bool) (child : Child) (s : ChildState) (hash : Option Text)
      → Keeps (submit_child callbacks b child s hash)
  unfolding submit_child
  submit_child-Keeps true child s hash =
      then-Keeps _ _ (perform-Keeps (Call.submit child) (λ calls. tt)) (
        bind-Keeps _ _ (query-Keeps _)
          (λ sent. bind-Keeps _ _ (read_state_of-Keeps child) (λ next. answers-Keeps (next, sent))))
  submit_child-Keeps false child s hash = answers-Keeps (s, hash)

  finish_child-Keeps :
      (child : Child) (pair : ChildState × Option Text) → Keeps (finish_child callbacks child pair)
  unfolding finish_child
  finish_child-Keeps child (s, hash) =
      then-Keeps _ _ (throws_if-Keeps (s.status == 3 && is_missing hash))
        (perform_if-Keeps (s.status == 3) (Call.downstream child) (λ calls. tt))

  -- What follows the registration of a child.
  unfoldable pub settle_child : Option Text → Child → ChildState → Part Child (Unit {0})
  settle_child hash child s = confirm_child callbacks (s.status == 1) child s hash >>= (λ confirmed.
      query callbacks (λ calls. callbacks.submission_hash calls child) >>= (λ retained.
        submit_child callbacks (confirmed.status == 2) child confirmed retained
        >>= (λ submitted. finish_child callbacks child submitted)))

  pub settle_child-Keeps :
      (hash : Option Text) (child : Child) (s : ChildState) → Keeps (settle_child hash child s)
  unfolding settle_child
  settle_child-Keeps hash child s =
      bind-Keeps (confirm_child callbacks (s.status == 1) child s hash) _
        (confirm_child-Keeps (s.status == 1) child s hash)
        (λ confirmed.
          bind-Keeps (query callbacks (λ calls. callbacks.submission_hash calls child)) _
            (query-Keeps (λ calls. callbacks.submission_hash calls child))
            (λ retained.
              bind-Keeps (submit_child callbacks (confirmed.status == 2) child confirmed retained) _
                (submit_child-Keeps (confirmed.status == 2) child confirmed retained)
                (finish_child-Keeps child)))
