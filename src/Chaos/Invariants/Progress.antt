-- ===== src/Chaos/Invariants/Progress.antt =====
-- What no call of the model of tools/chaos_lab/model.py takes back: the clock, the event log, the
-- end of a task or workflow, and the end of a lease.
pub mod Calls
use helix_grid.Prelude.{
  ℕ, suc, ◌+◌, ◌≤◌, String, text_eq, text_eq_iff, ◌≡◌, refl, sym, ◌∙◌, ap, Bool, true, false, List,
  [], ◌∷◌, ◌++◌, Option, none, some, arith, ◌⊎◌, inl, inr, Option-cases, Bool-cases,
}
use mathlib.Core.List.{append_assoc, append-nil}
use helix_grid.Prelude.Dict.{
  Dict, lookup, insert, update, contains, lookup-insert, lookup-update, lookup-update_self,
}
use helix_grid.Prelude.Exec.{◌>>=◌}
use helix_grid.Chaos.Types.{
  TaskState, Task, Workflow, Lease, Event, terminal, workflow_terminal, allowed, one_of,
}
use helix_grid.Chaos.State.{
  Model, emit, find_task, in_workflow, set_task, set_workflow, set_worker, set_lease,
}
use helix_grid.Chaos.Leases.{retire}
use helix_grid.Chaos.Admin.{store_workflow, store_worker, tick}
use helix_grid.Chaos.Dispatch.{store_lease}
use helix_grid.Chaos.Moves.{
  TaskMove, entered, attempted, logged, noted, WorkflowMove, resettled, TaskSteps, Steps,
}
use helix_grid.Chaos.Session.{Call, replay, replay-at}

-- A later version of a task: its history goes on, and one that is over stays as it ended.
pub record TaskLater (x y : Task) : Type 0 where
  pub grown : (rest : List TaskState) × (y.history ≡ x.history ++ rest)
  pub more_attempts : x.attempt ≤ y.attempt
  pub more_output : x.output_bytes ≤ y.output_bytes
  pub over : terminal x.state ≡ true → y.state ≡ x.state

pub TaskLater-refl : (x : Task) → TaskLater x x
TaskLater-refl x = record {
  grown = ([], sym (append-nil x.history));
  more_attempts = omega arith;
  more_output = omega arith;
  over = λ h. refl;
}

TaskLater-trans : (x y z : Task) → TaskLater x y → TaskLater y z → TaskLater x z
TaskLater-trans x y z p q = record {
  grown = (
    p.grown.0 ++ q.grown.0,
    q.grown.1 ∙ ap (λ h. h ++ q.grown.0) p.grown.1 ∙ append_assoc x.history p.grown.0 q.grown.0,
  );
  more_attempts = omega (arith, p.more_attempts, q.more_attempts);
  more_output = omega (arith, p.more_output, q.more_output);
  over = λ h. q.over (rw (p.over h) h) ∙ p.over h;
}

terminal_stuck :
    (s next : TaskState) → one_of next (allowed s) ≡ true → terminal s ≡ true → next ≡ s
terminal_stuck s next fits over = ground arith

pub TaskLater-move : (w : String) (m : Model) (x y : Task) → TaskMove w m x y → TaskLater x y
TaskLater-move w m x y (entered next fits leased cleared e) = rw e (record {
  grown = (next ∷ [], refl);
  more_attempts = omega arith;
  more_output = omega arith;
  over = terminal_stuck x.state next fits;
})
TaskLater-move w m x y (attempted e) = rw e (record {
  grown = ([], sym (append-nil x.history));
  more_attempts = omega arith;
  more_output = omega arith;
  over = λ h. refl;
})
TaskLater-move w m x y (logged size room e) = rw e (record {
  grown = ([], sym (append-nil x.history));
  more_attempts = omega arith;
  more_output = omega arith;
  over = λ h. refl;
})
TaskLater-move w m x y (noted token owner until retry started finished code error s f e) =
    rw e (record {
      grown = ([], sym (append-nil x.history));
      more_attempts = omega arith;
      more_output = omega arith;
      over = λ h. refl;
    })

-- A later version of a workflow: one that is over stays as it ended.
pub record WorkflowLater (x y : Workflow) : Type 0 where
  pub stopped : workflow_terminal x.state ≡ true → y.state ≡ x.state
  pub tasks_later :
      (t : String) (u : Task)
      → lookup t x.tasks ≡ some u
      → (v : Task) × (lookup t y.tasks ≡ some v) × TaskLater u v

pub WorkflowLater-refl : (x : Workflow) → WorkflowLater x x
WorkflowLater-refl x = record {
  stopped = λ h. refl;
  tasks_later = λ t u h. (u, h, TaskLater-refl u);
}

WorkflowLater-trans : (x y z : Workflow) → WorkflowLater x y → WorkflowLater y z → WorkflowLater x z
WorkflowLater-trans x y z p q = record {
  stopped = λ h. q.stopped (rw (p.stopped h) h) ∙ p.stopped h;
  tasks_later = λ t u h.
      let (v, hv, l) = p.tasks_later t u h in
      let (w, hw, k) = q.tasks_later t v hv in (w, hw, TaskLater-trans u v w l k);
}

-- The store `n` is reached from `m`: the clock has not gone back, the log has only grown, every
-- workflow is still there, later, and a closed token has stayed closed.
pub record Later (m n : Model) : Type 0 where
  pub clock : m.now_ms ≤ n.now_ms
  pub log : (rest : List Event) × (n.events ≡ m.events ++ rest)
  pub flows :
      (w : String) (x : Workflow)
      → lookup w m.workflows ≡ some x
      → (y : Workflow) × (lookup w n.workflows ≡ some y) × WorkflowLater x y
  pub closed :
      (token : String)
      → contains token m.closed_leases ≡ true
      → contains token n.closed_leases ≡ true

-- A step that leaves all of this alone
abbrev pub Alike : Model → Model → Type 0
Alike m n =
    (n.now_ms ≡ m.now_ms)
    × (n.events ≡ m.events)
    × (n.workflows ≡ m.workflows)
    × (n.closed_leases ≡ m.closed_leases)

pub Later-Alike : (m n : Model) → Alike m n → Later m n
Later-Alike m n (now, events, flows, closed) = record {
  clock = omega arith;
  log = ([], events ∙ sym (append-nil m.events));
  flows = λ w x h. (x, rw flows h, WorkflowLater-refl x);
  closed = λ token h. rw closed h;
}

pub Later-trans : (m n o : Model) → Later m n → Later n o → Later m o
Later-trans m n o p q = record {
  clock = omega (arith, p.clock, q.clock);
  log = (
    p.log.0 ++ q.log.0,
    q.log.1 ∙ ap (λ h. h ++ q.log.0) p.log.1 ∙ append_assoc m.events p.log.0 q.log.0,
  );
  flows = λ w x h.
      let (y, hy, l) = p.flows w x h in
      let (z, hz, k) = q.flows w y hy in (z, hz, WorkflowLater-trans x y z l k);
  closed = λ token h. q.closed token (p.closed token h);
}
