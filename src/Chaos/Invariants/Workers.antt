-- ===== src/Chaos/Invariants/Workers.antt =====
-- What the workers list as active, and the tables of leases, in the model of tools/chaos_lab/model.py
-- after any calls.
use helix_grid.Prelude.{
  ℕ, ◌+◌, ◌≤◌, ◌<◌, String, ◌≡◌, ◌≢◌, some, refl, true, false, List, arith, length, length-keep-le,
  mem_text, Bool-cases, inl, inr, text_eq, not,
}
use helix_grid.Prelude.Dict.{Every, Every-map, insert-Every, update-Every, erase-Every}
use helix_grid.Prelude.Exec.{◌>>=◌}
use helix_grid.Chaos.Types.{Worker, Lease}
use helix_grid.Chaos.State.{Model, emit, set_task, set_workflow, set_worker, set_lease}
use helix_grid.Chaos.Leases.{retire}
use helix_grid.Chaos.Admin.{store_workflow, store_worker, tick}
use helix_grid.Chaos.Dispatch.{store_lease}
use helix_grid.Chaos.Checks.{check_worker_capacity, check_lease_bijection}
use helix_grid.Chaos.Checks.Reports.{check_worker-Spares, check_lease_bijection-Spares}
use helix_grid.Chaos.Moves.{
  WorkerMove, beat, gone, freed, loaded, LeaseMove, begun, renewed, AllSteps,
}
use helix_grid.Chaos.Session.{Call, replay, replay-at}
use helix_grid.Chaos.Invariants.{Keeps}

-- The tokens that the worker lists in `active_tokens`. A worker that is registered anew under the
-- id of a dropped one lists none, while the leases of the dropped one stay active: so this bounds
-- what a worker lists, not the leases that name it.
abbrev pub WithinCapacity : Worker → Type 0
WithinCapacity w = length w.active_tokens ≤ w.capacity

-- An active lease: open, begun in the past, and with an end after its beginning
pub record IsOpen (now : ℕ) (l : Lease) : Type 0 where
  pub still_open : l.closed ≡ false
  pub begun_past : l.acquired_ms ≤ now
  pub positive : l.acquired_ms < l.expires_ms

pub record IsStaffed (m : Model) : Type 0 where
  pub duration_positive : 1 ≤ m.lease_duration_ms
  pub capacities : Every WithinCapacity m.workers
  pub active : Every (IsOpen m.now_ms) m.leases
  pub ended : Every (λ l. l.closed ≡ true) m.closed_leases

WithinCapacity-moved :
    (m : Model) (x y : Worker) → WorkerMove m x y → WithinCapacity x → WithinCapacity y
WithinCapacity-moved m x y (beat e) h = rw e h
WithinCapacity-moved m x y (gone e) h = rw e h
WithinCapacity-moved m x y (freed token e) h =
    rw e (omega (arith, length-keep-le {0} (λ t. not (text_eq t token)) x.active_tokens))
WithinCapacity-moved m x y (loaded token room e) h =
    rw e (elim (Bool-cases (mem_text token x.active_tokens)) [
      | inl old ↦ rw old h
      | inr new ↦ rw new room
    ])

IsOpen-moved :
    (m : Model) (x y : Lease)
    → 1 ≤ m.lease_duration_ms
    → LeaseMove m x y
    → IsOpen m.now_ms x
    → IsOpen m.now_ms y
IsOpen-moved m x y d (begun e) h =
    rw e (record { still_open = h.still_open; begun_past = h.begun_past; positive = h.positive })
IsOpen-moved m x y d (renewed e) h =
    let past = h.begun_past in
    rw e (record { still_open = h.still_open; begun_past = past; positive = omega arith })

IsOpen-later : (now n : ℕ) (l : Lease) → IsOpen now l → IsOpen (now + n) l
IsOpen-later now n l h = record {
  still_open = h.still_open;
  begun_past = omega (arith, h.begun_past);
  positive = h.positive;
}

IsStaffed-steps : AllSteps (Keeps IsStaffed)
unfolding emit set_task set_workflow set_worker set_lease store_worker store_workflow store_lease
    retire tick ◌>>=◌
IsStaffed-steps = record {
  steps = record {
    flow = record {
      tasks = record {
        pre = record { same = λ m h. h; compose = λ m n o p q h. q (p h) };
        emitted = λ kind w t p payload m h. record {
          duration_positive = h.duration_positive;
          capacities = h.capacities;
          active = h.active;
          ended = h.ended;
        };
        task_moved = λ w t f m move h. record {
          duration_positive = h.duration_positive;
          capacities = h.capacities;
          active = h.active;
          ended = h.ended;
        };
      };
      workflow_moved = λ w f m move h. record {
        duration_positive = h.duration_positive;
        capacities = h.capacities;
        active = h.active;
        ended = h.ended;
      };
    };
    rejected = λ code m h. record {
      duration_positive = h.duration_positive;
      capacities = h.capacities;
      active = h.active;
      ended = h.ended;
    };
    numbered = λ m h. record {
      duration_positive = h.duration_positive;
      capacities = h.capacities;
      active = h.active;
      ended = h.ended;
    };
    ticked = λ n m h. record {
      duration_positive = h.duration_positive;
      capacities = h.capacities;
      active = Every-map m.leases (IsOpen-later m.now_ms n) h.active;
      ended = h.ended;
    };
    worker_moved = λ id f m move h. record {
      duration_positive = h.duration_positive;
      capacities =
          update-Every _ id f m.workers (λ v found. WithinCapacity-moved m v (f v) (move v found))
            h.capacities;
      active = h.active;
      ended = h.ended;
    };
    worker_stored = λ id name capacity labels m new h. record {
      duration_positive = h.duration_positive;
      capacities = insert-Every _ id _ m.workers (omega arith) h.capacities;
      active = h.active;
      ended = h.ended;
    };
    workflow_stored = λ id name tasks order metadata m new valid h. record {
      duration_positive = h.duration_positive;
      capacities = h.capacities;
      active = h.active;
      ended = h.ended;
    };
    lease_moved = λ token f m move h. record {
      duration_positive = h.duration_positive;
      capacities = h.capacities;
      active =
          update-Every _ token f m.leases
            (λ v found. IsOpen-moved m v (f v) h.duration_positive (move v found)) h.active;
      ended = h.ended;
    };
    retired = λ lease m active h. record {
      duration_positive = h.duration_positive;
      capacities = h.capacities;
      active = erase-Every _ lease.token m.leases h.active;
      ended = insert-Every _ lease.token _ m.closed_leases refl h.ended;
    };
  };
  lease_stored = λ lease m active acquired expires h. record {
    duration_positive = h.duration_positive;
    capacities = h.capacities;
    active =
        insert-Every _ lease.token lease m.leases
          (record {
            still_open = active;
            begun_past = omega (arith, acquired);
            positive = omega (arith, acquired, expires, h.duration_positive);
          })
          h.active;
    ended = h.ended;
  };
}

-- Whatever calls are made, no worker lists more active tokens than its capacity, every active lease
-- is open, was acquired in the past and ends after that, and every lease in the closed table is marked
-- closed, if so it was before and the lease duration is positive; and the model's own checks then
-- report no worker over its capacity, no closed lease among the active ones and no lease without a
-- duration.
pub replay-IsStaffed :
    (digest : String → String) (calls : List Call) (m : Model)
    → IsStaffed m
    → let n = replay digest calls m in
      IsStaffed n
      × (check_worker_capacity n ≢ some "WORKER_CAPACITY")
      × (check_lease_bijection n ≢ some "ACTIVE_CLOSED_LEASE")
      × (check_lease_bijection n ≢ some "LEASE_DURATION")
unfolding check_worker_capacity check_lease_bijection
replay-IsStaffed digest calls m h =
    let n = replay digest calls m in
    let staffed = replay-at IsStaffed-steps digest calls m h in
    let proper = Every-map n.leases (λ l o. (o.still_open, o.positive)) staffed.active in
    let (no_closed, lasting) = check_lease_bijection-Spares n.workers n.leases proper in
    (staffed, check_worker-Spares n.leases n.workers staffed.capacities, no_closed, lasting)
