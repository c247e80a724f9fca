-- ===== src/Broadcast/Tests.antt =====
-- Two runs race for one transaction, and the broadcast theorems at that race.
use parly_relayer.Prelude.{
  ℕ, Bool, true, false, any, some, none, if◌then◌else◌, ◌==◌, ltb, ◌≤◌, ◌≡◌, refl, List, [], ◌∷◌,
  Text, codes, text_eq, to_lower, All, map,
}
use parly_relayer.Broadcast.{
  done, Run, proceed, signed, submitted, dropped, observed, success, Event, launch, resume, empty,
  advance, resume_at, step, run_events,
}
use parly_relayer.Broadcast.Once.{count, broadcast_once}
use parly_relayer.Broadcast.Retained.{IsRetained, IsAnswered}
use parly_relayer.Broadcast.Execution.{
  Call, Callbacks, is_funded, has_early, is_mixed, is_missing, continue, ◌>>=◌, ◌>>◌, answers,
  throws_if, states_at, read_states, read_state_of, query, perform, perform_if, accept_each,
  source_of, confirm_child, submit_child, finish_child, register_child, advance_child, advance_each,
  fund, run_payout_v7_execution,
}
use parly_relayer.Broadcast.Keeps.{IsGuarded}
use parly_relayer.Broadcast.Guarded.{run_payout_v7_execution-IsGuarded}
use parly_relayer.Broadcast.Answers.{sent-IsRetained, done-IsAnswered}

broadcast : Unit {0}
unfolding advance resume_at step run_events count text_eq to_lower
broadcast = tt

-- A hash function for the tests.
abbrev hash : Text → Text
hash t = t

abbrev tx : Text
tx = codes "0x76aa"

-- Both runs miss the row and sign; the second one retains and broadcasts first.
abbrev race : List Event
race =
    launch (codes "id") (codes "0xA") (codes "d")
    ∷ launch (codes "id") (codes "0xa") (codes "d")
    ∷ resume 0 proceed
    ∷ resume 1 proceed
    ∷ resume 0 (signed tx tx)
    ∷ resume 1 (signed tx tx)
    ∷ resume 1 proceed
    ∷ resume 0 proceed
    ∷ resume 1 (submitted tx)
    ∷ resume 0 proceed
    ∷ resume 0 (observed success)
    ∷ resume 1 (observed success)
    ∷ []

race_result :
    (count (codes "id") (run_events hash race empty).world.sent ≡ 1)
    × (map (λ (run : Run). run.stage) (run_events hash race empty).runs ≡ done tx ∷ done tx ∷ [])
unfolding broadcast
race_result = (refl, refl)

-- The process stops after the request left; the next run settles on the retained hash.
abbrev restart : List Event
restart =
    launch (codes "id") (codes "0xA") (codes "d")
    ∷ resume 0 proceed
    ∷ resume 0 (signed tx tx)
    ∷ resume 0 proceed
    ∷ resume 0 dropped
    ∷ launch (codes "id") (codes "0xA") (codes "d")
    ∷ resume 0 proceed
    ∷ resume 0 (observed success)
    ∷ []

restart_result : count (codes "id") (run_events hash restart empty).world.sent ≡ 1
unfolding broadcast
restart_result = refl

broadcast_once_example :
    (count (codes "id") (run_events hash race empty).world.sent ≤ 1)
    × (count (codes "id") (run_events hash race empty).world.calls ≤ 1)
broadcast_once_example = broadcast_once hash (codes "id") race

sent-IsRetained_example :
    All
      (IsRetained (run_events hash race empty).world.calls)
      (run_events hash race empty).world.sent
sent-IsRetained_example = sent-IsRetained hash race

done-IsAnswered_example :
    All
      (λ run.
        (h : Text) → run.stage ≡ done h → IsAnswered (run_events hash race empty).world.calls run h)
      (run_events hash race empty).runs
done-IsAnswered_example = done-IsAnswered hash race

group : Unit {0}
unfolding is_funded has_early is_mixed is_missing continue ◌>>=◌ ◌>>◌ answers throws_if states_at
    read_states read_state_of query perform perform_if accept_each source_of confirm_child
    submit_child finish_child register_child advance_child advance_each fund run_payout_v7_execution
group = tt

-- The status that a call takes a child to.
abbrev reached : ℕ → Call ℕ → ℕ
reached child (Call.accept other) = if child == other then 1 else 0
reached child (Call.confirm other) = if child == other then 2 else 0
reached child (Call.submit other) = if child == other then 3 else 0
reached child (Call.downstream other) = if child == other then 6 else 0
reached child call = 0

abbrev status_of : ℕ → List (Call ℕ) → ℕ
status_of child [] = 0
status_of child (call ∷ calls) =
    let before = status_of child calls in
    if ltb before (reached child call) then reached child call else before

abbrev is_source : Call ℕ → Bool
is_source Call.source = true
is_source call = false

-- A chain on which every call succeeds.
abbrev chain : Callbacks ℕ
chain = record {
  read_state = λ calls child. some (record {
    status = status_of child calls;
    escrow_funded_at = if any is_source calls then 9 else 0;
  });
  succeeds = λ calls call. true;
  source_hash = λ calls. some none;
  sent_source_hash = λ calls. codes "0xs";
  submission_hash = λ calls child. some none;
  sent_submission_hash = λ calls child. codes "0xh";
}

runs_to_the_end :
    (run_payout_v7_execution chain (7 ∷ 8 ∷ []) []).0
    ≡ Call.downstream 8
      ∷ Call.submit 8
      ∷ Call.confirm 8
      ∷ Call.provenance 8
      ∷ Call.registration 8
      ∷ Call.downstream 7
      ∷ Call.submit 7
      ∷ Call.confirm 7
      ∷ Call.provenance 7
      ∷ Call.registration 7
      ∷ Call.source
      ∷ Call.accept 8
      ∷ Call.accept 7
      ∷ Call.preflight
      ∷ []
unfolding group
runs_to_the_end = refl

run_payout_v7_execution-IsGuarded_example :
    IsGuarded chain (7 ∷ 8 ∷ []) (run_payout_v7_execution chain (7 ∷ 8 ∷ []) []).0
run_payout_v7_execution-IsGuarded_example = run_payout_v7_execution-IsGuarded chain (7 ∷ 8 ∷ [])
