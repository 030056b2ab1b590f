-- ===== src/Chaos/Invariants/Events.antt =====
-- The event log of the model of tools/chaos_lab/model.py after any calls, and what
-- `_check_event_sequence` finds in it.
use helix_grid.Prelude.{
  ℕ, suc, ◌+◌, ◌≤◌, String, ◌≡◌, refl, List, [], ◌∷◌, ◌++◌, none, some, arith, length,
  length-append,
}
use helix_grid.Prelude.Exec.{◌>>=◌}
use helix_grid.Chaos.Types.{Event}
use helix_grid.Chaos.State.{Model, emit, set_task, set_workflow, set_worker, set_lease}
use helix_grid.Chaos.Leases.{retire}
use helix_grid.Chaos.Admin.{store_workflow, store_worker, tick}
use helix_grid.Chaos.Dispatch.{store_lease}
use helix_grid.Chaos.Checks.{check_events, check_event_sequence}
use helix_grid.Chaos.Moves.{AllSteps}
use helix_grid.Chaos.Session.{Call, replay, replay-at}
use helix_grid.Chaos.Invariants.{Keeps}

-- Events numbered from `index` on, at times that never fall, from `before` up to `now`
abbrev pub IsLog : ℕ → ℕ → List Event → ℕ → Type 0
IsLog index before [] now = before ≤ now
IsLog index before (e ∷ events) now =
    (e.sequence ≡ index) × (before ≤ e.at_ms) × IsLog (suc index) e.at_ms events now

IsLog-append :
    (index before : ℕ) (events : List Event) (now : ℕ) (e : Event)
    → IsLog index before events now
    → e.sequence ≡ index + length events
    → e.at_ms ≡ now
    → IsLog index before (events ++ e ∷ []) now
IsLog-append index before [] now e h s t = (omega arith, omega arith, omega arith)
IsLog-append index before (d ∷ events) now e h s t =
    (h.0, h.1, IsLog-append (suc index) d.at_ms events now e h.2 (omega arith) t)

IsLog-later :
    (index before : ℕ) (events : List Event) (now n : ℕ)
    → IsLog index before events now
    → IsLog index before events (now + n)
IsLog-later index before [] now n h = omega arith
IsLog-later index before (d ∷ events) now n h =
    (h.0, h.1, IsLog-later (suc index) d.at_ms events now n h.2)

IsLog-check :
    (index before : ℕ) (events : List Event) (now : ℕ)
    → IsLog index before events now
    → check_events index (some before) events ≡ none
unfolding check_events
IsLog-check index before [] now h = refl
IsLog-check index before (d ∷ events) now h =
    ground (arith, IsLog-check (suc index) d.at_ms events now h.2)

-- The whole log, and the counter of the last event
pub record IsLogged (m : Model) : Type 0 where
  pub log : IsLog 1 0 m.events m.now_ms
  pub counted : m.sequence ≡ length m.events

emit-IsLogged :
    (kind w t p : String) (payload : List (String × String)) (m : Model)
    → Keeps IsLogged m (emit kind w t p payload m).1
unfolding emit
emit-IsLogged kind w t p payload m h = record {
  log = IsLog-append 1 0 m.events m.now_ms _ h.log (omega (arith, h.counted)) refl;
  counted = omega (arith, length-append {0} m.events, h.counted);
}

tick-IsLogged : (n : ℕ) (m : Model) → Keeps IsLogged m (tick n m).1
unfolding tick ◌>>=◌
tick-IsLogged n m h = record {
  log = IsLog-later 1 0 m.events m.now_ms n h.log;
  counted = h.counted;
}

IsLogged-steps : AllSteps (Keeps IsLogged)
unfolding set_task set_workflow set_worker set_lease store_worker store_workflow store_lease retire
    ◌>>=◌
IsLogged-steps = record {
  steps = record {
    flow = record {
      tasks = record {
        pre = record { same = λ m h. h; compose = λ m n o p q h. q (p h) };
        emitted = emit-IsLogged;
        task_moved = λ w t f m move h. record { log = h.log; counted = h.counted };
      };
      workflow_moved = λ w f m move h. record { log = h.log; counted = h.counted };
    };
    rejected = λ code m h. record { log = h.log; counted = h.counted };
    numbered = λ m h. record { log = h.log; counted = h.counted };
    ticked = tick-IsLogged;
    worker_moved = λ id f m move h. record { log = h.log; counted = h.counted };
    worker_stored = λ id name capacity labels m new h. record { log = h.log; counted = h.counted };
    workflow_stored =
        λ id name tasks order metadata m new valid h. record { log = h.log; counted = h.counted };
    lease_moved = λ token f m move h. record { log = h.log; counted = h.counted };
    retired = λ lease m active h. record { log = h.log; counted = h.counted };
  };
  lease_stored = λ lease m active acquired expires h. record { log = h.log; counted = h.counted };
}

-- Whatever calls are made from a state whose log is in order, the log stays in order: the events
-- are numbered from 1 without a gap, their times never fall and never pass the clock, the counter
-- is the number of events, and `_check_event_sequence` finds no violation.
pub replay-IsLogged :
    (digest : String → String) (calls : List Call) (m : Model)
    → IsLogged m
    → let n = replay digest calls m in IsLogged n × (check_event_sequence n ≡ none)
unfolding check_event_sequence
replay-IsLogged digest calls m h =
    let after = replay-at IsLogged-steps digest calls m h in
    (after, start (replay digest calls m).events (replay digest calls m).now_ms after.log)
  where
    start :
        (events : List Event) (now : ℕ) → IsLog 1 0 events now → check_events 1 none events ≡ none
    start [] now h = unfold check_events in refl
    start (d ∷ events) now h =
        unfold check_events in ground (arith, IsLog-check 2 d.at_ms events now h.2)
