-- ===== src/Chaos/Invariants/Leases/Gone.antt =====
-- A lease token that is closed and not active, in the model of tools/chaos_lab/model.py after any
-- calls.
use helix_grid.Prelude.{
  ℕ, suc, ◌≤◌, ◌<◌, String, text_eq, text_eq_iff, ◌≡◌, ◌≢◌, ◌∙◌, sym, true, List, none, arith, inl,
  inr, Bool-cases, ◌⊎◌, leb, ◌&&◌,
}
use helix_grid.Prelude.Dict.{lookup, contains, lookup-insert, lookup-erase, lookup-update-none}
use helix_grid.Prelude.Exec.{◌>>=◌}
use helix_grid.Prelude.Exec.Respects.{Respects}
use helix_grid.Chaos.Types.{Task, Worker, Lease}
use helix_grid.Chaos.State.{Model, emit, set_task, set_workflow, set_worker, set_lease}
use helix_grid.Chaos.Leases.{retire}
use helix_grid.Chaos.Admin.{store_workflow, store_worker, tick}
use helix_grid.Chaos.Dispatch.{Candidate, store_lease, grant}
use helix_grid.Chaos.Moves.{Steps}
use helix_grid.Chaos.Moves.Grants.{Grants}
use helix_grid.Chaos.Session.{Call, replay, replay-Grants}
use helix_grid.Chaos.Invariants.{Keeps}
use helix_grid.Chaos.Invariants.Leases.Granting.{issued, grant-Keeps}
use helix_grid.Chaos.Invariants.Leases.Past.{IsPast, IsPast-steps, grant-IsPast, Either-steps}

-- No id of a lease that is made after `m`, up to `n`, is the token.
abbrev pub IsUsedUp : (String → String) → Model → Model → String → Type 0
IsUsedUp digest m n token =
    (count now : ℕ)
    → m.id_counter < count
    → count ≤ n.id_counter
    → now ≤ n.now_ms
    → issued digest "lease" count now ≢ token

module _ (token : String) (counter : ℕ) where
  -- The token is closed and not active, and the counter of the ids has come so far.
  abbrev pub IsGone : Model → Type 0
  IsGone m =
      (lookup token m.leases ≡ none)
      × (contains token m.closed_leases ≡ true)
      × (counter ≤ m.id_counter)

  lease_moved-IsGone :
      (k : String) (f : Lease → Lease) (m : Model) → Keeps IsGone m (set_lease k f m).1
  unfolding set_lease ◌>>=◌
  lease_moved-IsGone k f m h = (lookup-update-none k token f m.leases h.0, h.1, h.2)

  retired-IsGone : (lease : Lease) (m : Model) → Keeps IsGone m (retire lease m)
  unfolding retire
  retired-IsGone lease m h = (
    rw (lookup-erase lease.token token m.leases) (ground (arith, h.0)),
    rw (lookup-insert lease.token token _ m.closed_leases) (ground (arith, h.1)),
    h.2,
  )

  pub IsGone-steps : Steps (Keeps IsGone)
  unfolding emit set_task set_workflow set_worker store_worker store_workflow tick ◌>>=◌
  IsGone-steps = record {
    flow = record {
      tasks = record {
        pre = record { same = λ m h. h; compose = λ m n o p q h. q (p h) };
        emitted = λ kind w t p payload m h. h;
        task_moved = λ w t f m move h. h;
      };
      workflow_moved = λ w f m move h. h;
    };
    rejected = λ code m h. h;
    numbered = λ m h. (h.0, h.1, omega (arith, h.2));
    ticked = λ n m h. h;
    worker_moved = λ id f m move h. h;
    worker_stored = λ id name capacity labels m new h. h;
    workflow_stored = λ id name tasks order metadata m new valid h. h;
    lease_moved = λ k f m move. lease_moved-IsGone k f m;
    retired = λ lease m active. retired-IsGone lease m;
  }

  open IsGone-steps use {flow}
  open flow use {tasks}
  open tasks use {pre}

  set_task-IsGone : (w t : String) (f : Task → Task) → Respects (Keeps IsGone) (set_task w t f)
  unfolding set_task ◌>>=◌
  set_task-IsGone w t f = record { at = λ m h. h }

  set_worker-IsGone :
      (id : String) (f : Worker → Worker) → Respects (Keeps IsGone) (set_worker id f)
  unfolding set_worker ◌>>=◌
  set_worker-IsGone id f = record { at = λ m h. h }

  store_lease-IsGone :
      (lease : Lease) → lease.token ≢ token → Respects (Keeps IsGone) (store_lease lease)
  unfolding store_lease ◌>>=◌
  store_lease-IsGone lease other = record {
    at = λ m h. (
      rw (lookup-insert lease.token token lease m.leases)
          (elim (Bool-cases (text_eq lease.token token)) [
            | inl e ↦ absurd (other ((text_eq_iff lease.token token).0 e))
            | inr e ↦ rw e h.0
          ]),
      h.1,
      h.2,
    );
  }

  grant-IsGone :
      (digest : String → String) (id : String) (w : Worker) (c : Candidate) (m : Model)
      → issued digest "lease" (suc m.id_counter) m.now_ms ≢ token
      → Keeps IsGone m (grant digest id w c m).1
  grant-IsGone digest id w c m other h =
      grant-Keeps IsGone tasks set_task-IsGone set_worker-IsGone digest id w c m
        (λ lease e. store_lease-IsGone lease (λ same. other (sym e ∙ same)))
        (h.0, h.1, omega (arith, h.2))

module _ (digest : String → String) (token : String) (m n : Model)
    (used : IsUsedUp digest m n token) where
  -- The token is gone, or what follows is later than `n`.
  granted-Either :
      (id : String) (w : Worker) (c : Candidate) (k : Model)
      → IsPast n.id_counter n.now_ms k ⊎ IsGone token m.id_counter k
      → IsPast n.id_counter n.now_ms (grant digest id w c k).1
        ⊎ IsGone token m.id_counter (grant digest id w c k).1
  granted-Either id w c k (inl past) =
      inl (grant-IsPast n.id_counter n.now_ms digest id w c k (ground (arith, past)))
  granted-Either id w c k (inr gone) =
      elim (Bool-cases (leb (suc k.id_counter) n.id_counter && leb k.now_ms n.now_ms)) [
        | inl within ↦ inr (
            grant-IsGone token m.id_counter digest id w c k
              (used (suc k.id_counter) k.now_ms (omega (arith, gone.2)) (ground (arith, within))
                (ground (arith, within)))
              gone)
        | inr beyond ↦
            inl (grant-IsPast n.id_counter n.now_ms digest id w c k (ground (arith, beyond)))
      ]

  Either-grants :
      Grants digest (Keeps (λ k. IsPast n.id_counter n.now_ms k ⊎ IsGone token m.id_counter k))
  Either-grants = record {
    steps = Either-steps (IsPast-steps n.id_counter n.now_ms) (IsGone-steps token m.id_counter);
    granted = λ id w c k room. granted-Either id w c k;
  }

-- A token that is gone stays gone if no later id is the same.
pub replay-IsGone :
    (digest : String → String) (calls : List Call) (token : String) (m : Model)
    → IsUsedUp digest m (replay digest calls m) token
    → IsGone token m.id_counter m
    → IsGone token m.id_counter (replay digest calls m)
replay-IsGone digest calls token m used h =
    elim (replay-Grants (Either-grants digest token m (replay digest calls m) used) calls m
      (inr h)) [ inl past ↦ absurd (ground (arith, past)) | inr gone ↦ gone ]
