-- ===== src/Chaos/Invariants/Leases/Once.antt =====
-- `Model.complete` of tools/chaos_lab/model.py on one lease token: a second report of the outcome, or
-- any other late call, after further calls of any kind.
use helix_grid.Prelude.{String, text_eq, text_eq_iff, ◌≡◌, refl, subst, false, not, List, arith}
use helix_grid.Prelude.Int.{ℤ}
use helix_grid.Prelude.Dict.{lookup-insert, lookup-erase}
use helix_grid.Prelude.Exec.{ok, modify}
use helix_grid.Prelude.Exec.Respects.{bind-eq-ok, Respects-bind}
use helix_grid.Prelude.Exec.Leaves.{Leaves, Leaves-if, Leaves-rest, Leaves-kept}
use helix_grid.Chaos.Types.{TaskState, Task, Workflow, Lease, same_state}
use helix_grid.Chaos.State.{Model, reject}
use helix_grid.Chaos.Leases.{retire, close_lease}
use helix_grid.Chaos.Handlers.{
  live_lease, start, renew, append_log, complete_running, complete, stale_complete, stale_renew,
  duplicate_complete,
}
use helix_grid.Chaos.Handlers.Late.{refused, closed_lease_refused}
use helix_grid.Chaos.Moves.Recompute.{recompute-Respects, require_workflow-Respects}
use helix_grid.Chaos.Moves.Handlers.{live_lease-IsLive, conclude-Respects}
use helix_grid.Chaos.Session.{Call, replay}
use helix_grid.Chaos.Invariants.Leases.{IsFiled}
use helix_grid.Chaos.Invariants.Leases.Gone.{IsGone, IsUsedUp, IsGone-steps, replay-IsGone}

retire-IsGone : (lease : Lease) (m : Model) → IsGone lease.token 0 (retire lease m)
unfolding retire
retire-IsGone lease m =
    let same = (text_eq_iff lease.token lease.token).1 refl in
    (
      rw (lookup-erase lease.token lease.token m.leases) (rw same refl),
      rw (lookup-insert lease.token lease.token _ m.closed_leases) (rw same refl),
      omega arith,
    )

close_lease-Leaves :
    (lease : Lease) → lease.closed ≡ false → Leaves (IsGone lease.token 0) (close_lease lease)
unfolding close_lease modify
close_lease-Leaves lease active =
    Leaves-if lease.closed _ _ (λ closed. absurd (cc))
      (λ _. Leaves-rest _ _ (λ _.
        Leaves-rest _ _
          (λ _. Leaves-rest _ _ (λ _. record { after = λ s a e. retire-IsGone lease s }))))

complete_running-Leaves :
    (lease : Lease) (task : Task) (code : ℤ) (error : String) {token : String}
    → (lease.token ≡ token) × (lease.closed ≡ false)
    → Leaves (IsGone token 0) (complete_running lease task code error)
unfolding complete_running
complete_running-Leaves lease task code error (here, active) =
    let steps = IsGone-steps lease.token 0 in
    let pre = steps.flow.tasks.pre in
    subst (λ t. Leaves (IsGone t 0) (complete_running lease task code error)) here
      (Leaves-rest _ _ (λ _. Leaves-rest _ _ (λ _.
        Leaves-kept _ _ (close_lease-Leaves lease active) (λ _.
          Respects-bind pre _ _ (conclude-Respects steps lease task code error) (λ _.
            Respects-bind pre _ _ (recompute-Respects steps.flow _)
              (λ _. require_workflow-Respects steps.flow.tasks _))))))

reject-Leaves :
    {A : Type 0} {P : Model → Type 0} (code message : String)
    → Leaves P (reject {A = A} code message)
unfolding reject
reject-Leaves code message = record { after = λ s a e. absurd (cc) }

-- A completion that is accepted ends the lease.
complete-IsGone :
    (token : String) (code : ℤ) (error : String) (m : Model) {w : Workflow}
    → IsFiled m
    → (complete token code error m).0 ≡ ok w
    → IsGone token 0 (complete token code error m).1
unfolding complete
complete-IsGone token code error m filed done =
    let ((lease, task), found, rest, same) = bind-eq-ok (live_lease token) _ m done in
    let here = filed token lease (live_lease-IsLive token m found).active in
    let ends : Leaves (IsGone token 0) _ =
      Leaves-if (not (text_eq task.lease_token token)) _ _ (λ _. reject-Leaves _ _)
        (λ _.
          Leaves-if (same_state task.state TaskState.leased) _ _
            (λ _. Leaves-rest _ _ (λ _. complete_running-Leaves _ task code error here))
            (λ _.
              Leaves-if (not (same_state task.state TaskState.running)) _ _ (λ _. reject-Leaves _ _)
                (λ _. complete_running-Leaves lease task code error here))) in
    rw same (ends.after _ _ rest)

-- A completion that is accepted is the last word on its lease: after it, whatever calls follow,
-- every further `start`, `renew`, `append_log`, `complete`, `stale_complete`, `stale_renew` and
-- `duplicate_complete` with the token is refused under its code and changes nothing but the count of
-- rejections, if each active lease stood open under its own token before and no id that is made in
-- those calls is the token again.
pub complete_once :
    (digest : String → String) (calls : List Call) (token : String) (code again : ℤ)
    (error reason text stream : String) (m : Model) {w : Workflow}
    → IsFiled m
    → (complete token code error m).0 ≡ ok w
    → IsUsedUp digest
        (complete token code error m).1
        (replay digest calls (complete token code error m).1)
        token
    → let n = replay digest calls (complete token code error m).1 in
      (start token n ≡ refused "stale_lease" "lease is already closed" n)
      × (renew token n ≡ refused "stale_lease" "lease is already closed" n)
      × (append_log token text stream n ≡ refused "stale_lease" "lease is already closed" n)
      × (complete token again reason n ≡ refused "stale_lease" "lease is already closed" n)
      × (stale_complete token n ≡ refused "stale_lease" "completion for closed lease rejected" n)
      × (stale_renew token n ≡ refused "stale_lease" "renewal for closed lease rejected" n)
      × (duplicate_complete token n ≡ refused "duplicate_completion" "completion already applied" n)
complete_once digest calls token code again error reason text stream m filed done used =
    let ended = complete-IsGone token code error m filed done in
    let later = replay-IsGone digest calls token _ used (ended.0, ended.1, omega arith) in
    closed_lease_refused token _ again reason text stream later.0 later.1
