-- ===== src/Chaos/Invariants/Tasks.antt =====
-- What holds of every task of the model of tools/chaos_lab/model.py after any calls.
use helix_grid.Prelude.{
  ℕ, ◌+◌, ◌≤◌, String, ◌≡◌, refl, true, List, [], ◌∷◌, ◌++◌, Option, none, some, arith, ◌⊎◌, inl,
  inr,
}
use helix_grid.Chaos.Types.{TaskState, Task, allowed, one_of}
use helix_grid.Chaos.State.{Model}
use helix_grid.Chaos.Leases.{is_held}
use helix_grid.Chaos.Moves.{
  Stamp, kept, taken, set_now, TaskMove, entered, attempted, logged, noted,
}
use helix_grid.Chaos.Session.{Call, replay, replay-at}
use helix_grid.Chaos.Invariants.{TaskFact, Holds, TaskFact-steps}

-- A path of allowed transitions from the state `s` to the state `end`
abbrev pub Walk : TaskState → List TaskState → TaskState → Type 0
Walk s [] end = s ≡ end
Walk s (next ∷ history) end = (one_of next (allowed s) ≡ true) × Walk next history end

Walk-append :
    (s : TaskState) (history : List TaskState) (middle next : TaskState)
    → Walk s history middle
    → one_of next (allowed middle) ≡ true
    → Walk s (history ++ next ∷ []) next
Walk-append s [] middle next w fits = (rw w fits, refl)
Walk-append s (n ∷ history) middle next w fits = (w.0, Walk-append n history middle next w.1 fits)

abbrev pub Before : Option ℕ → ℕ → Type 0
Before none now = Unit
Before (some at) now = at ≤ now

Before-later : (o : Option ℕ) (now n : ℕ) → Before o now → Before o (now + n)
Before-later none now n h = tt
Before-later (some at) now n h = omega arith

Before-Stamp : (now : ℕ) (old new : Option ℕ) → Stamp now old new → Before old now → Before new now
Before-Stamp now old new (kept e) h = rw e h
Before-Stamp now old new (taken e) h = rw e tt
Before-Stamp now old new (set_now e) h = rw e (omega arith)

-- The history is a legal path from PENDING to the present state, the output is within the limit, a
-- task that a worker holds has been attempted, and no time stamp lies in the future.
pub record IsSound (limit now : ℕ) (x : Task) : Type 0 where
  pub history_legal : Walk TaskState.pending x.history x.state
  pub output_bounded : x.output_bytes ≤ limit
  pub held_attempted : is_held x.state ≡ true → 1 ≤ x.attempt
  pub started_past : Before x.started_ms now
  pub finished_past : Before x.finished_ms now

-- A state that a worker holds is entered from one that a worker holds, or is LEASED.
held_from :
    (s next : TaskState)
    → one_of next (allowed s) ≡ true
    → is_held next ≡ true
    → (next ≡ TaskState.leased) ⊎ (is_held s ≡ true)
held_from TaskState.pending next = ground arith
held_from TaskState.ready next = ground arith
held_from TaskState.leased next = ground arith
held_from TaskState.running next = ground arith
held_from TaskState.retry_wait next = ground arith
held_from TaskState.succeeded next = ground arith
held_from TaskState.failed next = ground arith
held_from TaskState.cancelled next = ground arith

IsSound-moved :
    (w : String) (m : Model) (x y : Task)
    → TaskMove w m x y
    → IsSound m.output_limit_bytes m.now_ms x
    → IsSound m.output_limit_bytes m.now_ms y
IsSound-moved w m x y (entered next fits leased cleared e) h = rw e (record {
  history_legal = Walk-append TaskState.pending x.history x.state next h.history_legal fits;
  output_bounded = h.output_bounded;
  held_attempted = λ held. elim (held_from x.state next fits held) [
    | inl now_leased ↦ leased now_leased
    | inr before ↦ h.held_attempted before
  ];
  started_past = h.started_past;
  finished_past = h.finished_past;
})
IsSound-moved w m x y (attempted e) h = rw e (record {
  history_legal = h.history_legal;
  output_bounded = h.output_bounded;
  held_attempted = λ held. omega arith;
  started_past = h.started_past;
  finished_past = h.finished_past;
})
IsSound-moved w m x y (logged size room e) h = rw e (record {
  history_legal = h.history_legal;
  output_bounded = room;
  held_attempted = h.held_attempted;
  started_past = h.started_past;
  finished_past = h.finished_past;
})
IsSound-moved w m x y (noted token owner until retry started finished code error s f e) h =
    rw e (record {
      history_legal = h.history_legal;
      output_bounded = h.output_bounded;
      held_attempted = h.held_attempted;
      started_past = Before-Stamp m.now_ms x.started_ms started s h.started_past;
      finished_past = Before-Stamp m.now_ms x.finished_ms finished f h.finished_past;
    })

pub IsSound-fact : TaskFact IsSound
IsSound-fact = record {
  fresh = λ limit now t. record {
    history_legal = refl;
    output_bounded = omega arith;
    held_attempted = λ held. cc;
    started_past = tt;
    finished_past = tt;
  };
  moved = IsSound-moved;
  later = λ limit now n x h. record {
    history_legal = h.history_legal;
    output_bounded = h.output_bounded;
    held_attempted = h.held_attempted;
    started_past = Before-later x.started_ms now n h.started_past;
    finished_past = Before-later x.finished_ms now n h.finished_past;
  };
}

-- Whatever calls are made, refused ones included, every task stays sound if all were: its recorded
-- history is a legal path of transitions from PENDING to its state, its output is within the
-- limit, a LEASED or RUNNING task has been attempted, and its time stamps are not in the future.
pub replay-IsSound :
    (digest : String → String) (calls : List Call) (m : Model)
    → Holds IsSound m
    → Holds IsSound (replay digest calls m)
replay-IsSound digest calls m = replay-at (TaskFact-steps IsSound-fact) digest calls m
