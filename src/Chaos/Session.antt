-- ===== src/Chaos/Session.antt =====
-- The calls that `ScenarioRunner.bootstrap` and `ScenarioRunner.replay` of
-- tools/chaos_lab/runner.py make on the model: a call that raises leaves its changes behind, and
-- the next call goes on from there.
use helix_grid.Prelude.{String, List, [], ◌∷◌}
use helix_grid.Prelude.Int.{ℤ}
use helix_grid.Prelude.Dict.{Dict}
use helix_grid.Prelude.Exec.Respects.{Respects}
use helix_grid.Chaos.Types.{Action, Task}
use helix_grid.Chaos.State.{Model, Act}
use helix_grid.Chaos.Admin.{add_workflow, register_worker}
use helix_grid.Chaos.Dispatch.{apply, ignore}
use helix_grid.Chaos.Moves.{AllSteps}
use helix_grid.Chaos.Moves.Grants.{Grants, AllSteps-Grants}
use helix_grid.Chaos.Moves.Admin.{add_workflow-Respects, register_worker-Respects}
use helix_grid.Chaos.Moves.Dispatch.{apply-Respects, ignore-Respects}

pub data Call : Type 0 where
  load : (name : String) (tasks : List Task) (workflow_id : String) (metadata : Dict String) → Call
  enlist : (name : String) (capacity : ℤ) (labels : Dict String) (worker_id : String) → Call
  act : Action → Call

unfoldable pub call : (String → String) → Call → Act Unit
call digest (load name tasks given metadata) =
    ignore (add_workflow digest name tasks given metadata)
call digest (enlist name capacity labels given) =
    ignore (register_worker digest name capacity labels given)
call digest (act a) = apply digest a

unfoldable pub replay : (String → String) → List Call → Model → Model
replay digest [] m = m
replay digest (c ∷ calls) m = replay digest calls (call digest c m).1

module _ {digest : String → String} {R : Model → Model → Type 0} (grants : Grants digest R) where
  open grants use {steps}
  open steps use {pre}

  call-Respects : (c : Call) → Respects R (call digest c)
  unfolding call
  call-Respects (load name tasks given metadata) =
      ignore-Respects pre _ (add_workflow-Respects steps digest name tasks given metadata)
  call-Respects (enlist name capacity labels given) =
      ignore-Respects pre _ (register_worker-Respects steps digest name capacity labels given)
  call-Respects (act a) = apply-Respects grants a

  -- What all small steps and all grants respect, a replay respects.
  pub replay-Grants : (calls : List Call) (m : Model) → R m (replay digest calls m)
  unfolding replay
  replay-Grants [] m = pre.same m
  replay-Grants (c ∷ calls) m =
      pre.compose _ _ _ ((call-Respects c).at m) (replay-Grants calls (call digest c m).1)

-- What all small steps respect, a replay respects.
pub replay-at :
    {R : Model → Model → Type 0}
    → AllSteps R
    → (digest : String → String) (calls : List Call) (m : Model) → R m (replay digest calls m)
replay-at all digest calls m = replay-Grants (AllSteps-Grants all digest) calls m
