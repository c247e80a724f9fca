-- ===== src/Broadcast/Answers.antt =====
-- What is broadcast was retained first, and what a run reports was retained for its own request.
use parly_relayer.Prelude.{ℕ, zero, suc, ◌≡◌, sym, subst, List, [], ◌∷◌, ◌++◌, Text, All, All-map}
use mathlib.Core.List.{append-nil}
use parly_relayer.Broadcast.{
  Stage, prepared, claimed, retained, done, SignedCall, World, Run, Reply, Event, launch, resume,
  System, empty, resume_at, step, run_events,
}
use parly_relayer.Broadcast.Retained.{IsRetained, IsAnswered, Holds, Holds-append}
use parly_relayer.Broadcast.Steps.{advance-Keeps}

abbrev pub Supported : List SignedCall → List Run → Type 0
Supported calls = All (λ run. Holds calls run run.stage)

-- The state after events: the broadcasts are retained, and the table supports every run.
pub record IsSound (w : World) (runs : List Run) : Type 0 where
  pub sent : All (IsRetained w.calls) w.sent
  pub runs_supported : Supported w.calls runs

record Resumed (w : World) (w' : World) (runs' : List Run) : Type 0 where
  pub more : List SignedCall
  pub grown : w'.calls ≡ w.calls ++ more
  pub sound : IsSound w' runs'

Supported-append :
    (calls more : List SignedCall) (runs : List Run)
    → Supported calls runs
    → Supported (calls ++ more) runs
Supported-append calls more runs = All-map _ _ runs (λ run. Holds-append calls more run run.stage)

-- What a stage stands for does not depend on the stage that the run had.
Holds-stage :
    (calls : List SignedCall) (run : Run) (s : Stage)
    → Holds calls run s
    → Holds calls (record run { stage = s }) s
Holds-stage calls run (prepared row) h = h
Holds-stage calls run (claimed row) h = h
Holds-stage calls run (retained row) h = h
Holds-stage calls run (done hash) h = record {
  stored = h.stored;
  found = h.found;
  target = h.target;
  calldata = h.calldata;
  hash = h.hash;
}
Holds-stage calls run _ h = tt

module _ (keccak256 : Text → Text) where
  resume_at-Resumed :
      (i : ℕ) (reply : Reply) (w : World) (runs : List Run)
      → IsSound w runs
      → Resumed w (resume_at keccak256 i reply w runs).0 (resume_at keccak256 i reply w runs).1
  unfolding resume_at
  resume_at-Resumed zero reply w [] v = record {
    more = [];
    grown = sym (append-nil w.calls);
    sound = v;
  }
  resume_at-Resumed (suc i) reply w [] v = record {
    more = [];
    grown = sym (append-nil w.calls);
    sound = v;
  }
  resume_at-Resumed zero reply w (run ∷ runs) v =
      let k = advance-Keeps keccak256 run.stage reply run w v.runs_supported.0 in
      record {
        more = k.more;
        grown = k.grown;
        sound = record {
          sent = k.sent v.sent;
          runs_supported = (
            Holds-stage _ run _ k.holds,
            subst (λ calls. Supported calls runs) (sym k.grown)
                (Supported-append w.calls k.more runs v.runs_supported.1),
          );
        };
      }
  resume_at-Resumed (suc i) reply w (run ∷ runs) v =
      let ih =
        resume_at-Resumed i reply w runs
          (record { sent = v.sent; runs_supported = v.runs_supported.1 }) in
      record {
        more = ih.more;
        grown = ih.grown;
        sound = record {
          sent = ih.sound.sent;
          runs_supported = (
            subst (λ calls. Holds calls run run.stage) (sym ih.grown)
                (Holds-append w.calls ih.more run run.stage v.runs_supported.0),
            ih.sound.runs_supported,
          );
        };
      }

  step-IsSound :
      (e : Event) (s : System)
      → IsSound s.world s.runs
      → IsSound (step keccak256 e s).world (step keccak256 e s).runs
  unfolding step
  step-IsSound (launch id to calldata) s v = record {
    sent = v.sent;
    runs_supported = (tt, v.runs_supported);
  }
  step-IsSound (resume i reply) s v = (resume_at-Resumed i reply s.world s.runs v).sound

  run_events-IsSound :
      (es : List Event) (s : System)
      → IsSound s.world s.runs
      → IsSound (run_events keccak256 es s).world (run_events keccak256 es s).runs
  unfolding run_events
  run_events-IsSound [] s v = v
  run_events-IsSound (e ∷ es) s v = run_events-IsSound es (step keccak256 e s) (step-IsSound e s v)

  -- After any events from an empty table, everything that was handed to the network has its row in
  -- the table: the same data, transaction and hash, and the same target but for the case of letters.
  pub sent-IsRetained :
      (es : List Event)
      → let s = run_events keccak256 es empty in All (IsRetained s.world.calls) s.world.sent
  sent-IsRetained es =
      (run_events-IsSound es empty (record { sent = tt; runs_supported = tt })).sent

  -- After any events from an empty table, a run that reports a hash has a row of its own id, target
  -- and data in the table, and the hash is the one of that row.
  pub done-IsAnswered :
      (es : List Event)
      → let s = run_events keccak256 es empty in
        All
          (λ run. (hash : Text) → run.stage ≡ done hash → IsAnswered s.world.calls run hash)
          s.runs
  done-IsAnswered es =
      All-map _ _ (run_events keccak256 es empty).runs
        (λ run h hash e. subst (Holds (run_events keccak256 es empty).world.calls run) e h)
        (run_events-IsSound es empty (record { sent = tt; runs_supported = tt })).runs_supported
