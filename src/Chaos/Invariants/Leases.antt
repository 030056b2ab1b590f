-- ===== src/Chaos/Invariants/Leases.antt =====
-- The active leases in the model of tools/chaos_lab/model.py after any calls: each stands under its
-- own token.
pub mod Granting
pub mod Past
pub mod Gone
pub mod Once
use helix_grid.Prelude.{
  ℕ, suc, ◌≤◌, ◌<◌, String, ◌&◌, text_eq, text_eq_iff, decimal, ◌≡◌, ◌≢◌, refl, ◌∙◌, sym, true,
  false, List, none, some, arith, not, inl, inr, Bool-cases, Option-cases,
}
use helix_grid.Prelude.Dict.{
  lookup, insert, update, erase, contains, lookup-insert, lookup-erase, lookup-update,
  lookup-update-none,
}
use helix_grid.Prelude.Exec.{ok, gets, ◌>>=◌}
use helix_grid.Prelude.Exec.Respects.{
  Preorder, Respects, bind_at, Respects-pure, Respects-raise, Respects-gets, Respects-bind,
  Respects-if,
}
use helix_grid.Chaos.Types.{TaskState, Task, Worker, Lease, same_state, allowed, one_of}
use helix_grid.Chaos.State.{Model, emit, next_id, set_task, set_workflow, set_worker, set_lease}
use helix_grid.Chaos.Tasks.{transition_task}
use helix_grid.Chaos.Leases.{retire}
use helix_grid.Chaos.Admin.{store_workflow, store_worker, tick}
use helix_grid.Chaos.Dispatch.{Candidate, store_lease, issue, grant}
use helix_grid.Chaos.Moves.{LeaseMove, begun, renewed, Steps, AllSteps}
use helix_grid.Chaos.Moves.Grants.{Grants, HasRoom}
use helix_grid.Chaos.Moves.Recompute.{emit-Respects, require_task-Respects}
use helix_grid.Chaos.Session.{Call, replay, replay-at, replay-Grants}
use helix_grid.Chaos.Invariants.{Keeps}

-- Every active lease stands under its own token and is open.
abbrev pub IsFiled : Model → Type 0
IsFiled m =
    (token : String) (l : Lease)
    → lookup token m.leases ≡ some l
    → (l.token ≡ token) × (l.closed ≡ false)

LeaseMove-same :
    (m : Model) (x y : Lease) → LeaseMove m x y → (y.token ≡ x.token) × (y.closed ≡ x.closed)
LeaseMove-same m x y (begun e) = rw e (refl, refl)
LeaseMove-same m x y (renewed e) = rw e (refl, refl)

moved-IsFiled :
    (k : String) (f : Lease → Lease) (m : Model)
    → ((x : Lease) → lookup k m.leases ≡ some x → LeaseMove m x (f x))
    → Keeps IsFiled m (set_lease k f m).1
unfolding set_lease ◌>>=◌
moved-IsFiled k f m move h token l found = elim (Option-cases (lookup token m.leases)) [
  | inl e ↦ absurd (cc (lookup-update-none k token f m.leases e))
  | inr (x, e) ↦ elim (lookup-update k token f m.leases e) [
    | inl same ↦ h token l (cc)
    | inr (here, changed) ↦
        let (keeps_token, keeps_open) = LeaseMove-same m x (f x) (move x (rw here e)) in
        let is_l : some (f x) ≡ some l = sym changed ∙ found in
        let old = h token x e in ground (arith, keeps_token, keeps_open, old.0, old.1, is_l)
  ]
]

stored-IsFiled :
    (lease : Lease) (m : Model) → lease.closed ≡ false → Keeps IsFiled m (store_lease lease m).1
unfolding store_lease ◌>>=◌
stored-IsFiled lease m active h token l found = ground (
  arith,
  lookup-insert lease.token token lease m.leases,
  text_eq_iff lease.token token,
  h token l,
  active,
)

retired-IsFiled : (lease : Lease) (m : Model) → Keeps IsFiled m (retire lease m)
unfolding retire
retired-IsFiled lease m h token l found =
    ground (arith, lookup-erase lease.token token m.leases, h token l)

IsFiled-steps : AllSteps (Keeps IsFiled)
unfolding emit set_task set_workflow set_worker store_worker store_workflow tick ◌>>=◌
IsFiled-steps = record {
  steps = record {
    flow = record {
      tasks = record {
        pre = record { same = λ m h. h; compose = λ m n o p q h. q (p h) };
        emitted = λ kind w t p payload m h. h;
        task_moved = λ w t f m move h. h;
      };
      workflow_moved = λ w f m move h. h;
    };
    rejected = λ code m h. h;
    numbered = λ m h. h;
    ticked = λ n m h. h;
    worker_moved = λ id f m move h. h;
    worker_stored = λ id name capacity labels m new h. h;
    workflow_stored = λ id name tasks order metadata m new valid h. h;
    lease_moved = moved-IsFiled;
    retired = λ lease m active. retired-IsFiled lease m;
  };
  lease_stored = λ lease m active acquired expires. stored-IsFiled lease m active;
}

pub replay-IsFiled :
    (digest : String → String) (calls : List Call) (m : Model)
    → IsFiled m
    → IsFiled (replay digest calls m)
replay-IsFiled digest calls m = replay-at IsFiled-steps digest calls m
