-- ===== src/Lab/Generator/Replays.antt =====
-- The runner of tools/chaos_lab/runner.py on what tools/chaos_lab/generator.py generates.
use helix_grid.Prelude.{
  ℕ, zero, suc, ◌≤◌, ◌<◌, ◌≡◌, ◌⊎◌, inl, inr, refl, sym, subst, String, Bool, true, false, List,
  Option, none, some, if◌then◌else◌, length, arith,
}
use helix_grid.Prelude.Int.{ℤ, max_ℕ}
use helix_grid.Prelude.Exec.{Result, ok, err, pure, raise}
use helix_grid.Prelude.Exec.Returns.{>>=-ok, pure-ok}
use helix_grid.Chaos.Types.{Action, Error}
use helix_grid.Chaos.State.{Model}
use helix_grid.Chaos.Dispatch.{apply}
use helix_grid.Chaos.Checks.{check_invariants}
use helix_grid.Lab.Types.{GeneratedScenario, GeneratedWorkflow, WorkerSpec}
use helix_grid.Lab.Runner.{
  Host, stopped, run_steps, bootstrap, set_up, new_model, replay_with, replay, rejected, accepted,
}
use helix_grid.Lab.Runner.Refines.{booted-ok}
use helix_grid.Lab.Generator.Tasks.{workflow}
use helix_grid.Lab.Generator.Workers.{workers}
use helix_grid.Lab.Generator.Draws.{Random, GeneratorConfig}
use helix_grid.Lab.Generator.Agrees.{Excused, Agrees, step-Agrees}
use helix_grid.Lab.Generator.Scenario.{
  Trace, outer, no_trace, extended, is_over, note, verified, choosing, next_action, trace,
  make_scenario, generated, ready, assembled, unplayed,
}

module _ (r : Random) (config : GeneratorConfig) (host : Host) where
  verified-ok :
      (c : Option String) (g : r.Rng) (u : Unit) → (verified r config host c g).0 ≡ ok u → c ≡ none
  unfolding raise
  verified-ok none g u h = refl
  verified-ok (some code) g u h = absurd (ground (arith, h))

  -- What follows a step of a trace
  abbrev Follows : ℕ → Model → Trace → Type 0
  Follows steps n rest =
      (is_over n ≡ true) × (rest ≡ no_trace)
      ⊎ (g : r.Rng) × ((trace r config host steps n g).0 ≡ ok rest)

  follows :
      (over : Bool) (steps : ℕ) (n : Model) (g : r.Rng) (rest : Trace)
      → is_over n ≡ over
      → ((if over then pure no_trace else trace r config host steps n) g).0 ≡ ok rest
      → Follows steps n rest
  follows true steps n g rest e h = inl (e, pure-ok no_trace rest g h)
  follows false steps n g rest e h = inr (g, h)

  trace-suc :
      (steps : ℕ) (m : Model) (g : r.Rng) (t : Trace)
      → (trace r config host (suc steps) m g).0 ≡ ok t
      → (a : Action) × (rest : Trace) × (t
          ≡ extended a (note host a (apply host.blake2s a m).0) rest)
        × (check_invariants (apply host.blake2s a m).1 ≡ none)
        × Follows steps (apply host.blake2s a m).1 rest
  unfolding trace
  trace-suc steps m g t h =
      let chosen = >>=-ok (choosing r config host (next_action r config m)) _ g h in
      let a = chosen.0 in
      let n = (apply host.blake2s a m).1 in
      let checked = >>=-ok (verified r config host (check_invariants n)) _ _ chosen.2 in
      let done =
        >>=-ok (if is_over n then pure no_trace else trace r config host steps n) _ _ checked.2 in
      (
        a,
        done.0,
        pure-ok _ t _ done.2,
        verified-ok (check_invariants n) _ checked.0 checked.1,
        follows (is_over n) steps n _ done.0 refl done.1,
      )

  ended-Agrees :
      (steps : ℕ) (n : Model)
      → (steps ≡ 0) ⊎ (is_over n ≡ true)
      → Agrees steps no_trace (stopped n none)
  ended-Agrees steps n ended = record {
    excused = tt;
    short = omega arith;
    noted = λ e. refl;
    over = λ e lt. elim ended [
      | inl none_left ↦ absurd (omega (arith, lt, none_left))
      | inr over ↦ over
    ];
  }

  Follows-Agrees :
      (strict : Bool) (index steps : ℕ) (n : Model) (rest : Trace)
      → Follows steps n rest
      → ((g : r.Rng)
          → (trace r config host steps n g).0 ≡ ok rest
          → Agrees steps rest (run_steps host strict true index rest.actions none n))
      → Agrees steps rest (run_steps host strict true index rest.actions none n)
  unfolding run_steps
  Follows-Agrees strict index steps n rest (inl (over, e)) later =
      subst (λ u. Agrees steps u (run_steps host strict true index u.actions none n)) (sym e)
        (ended-Agrees steps n (inr over))
  Follows-Agrees strict index steps n rest (inr (g, h)) later = later g h

  trace-Agrees :
      (strict : Bool) (index steps : ℕ) (m : Model) (g : r.Rng) (t : Trace)
      → (trace r config host steps m g).0 ≡ ok t
      → Agrees steps t (run_steps host strict true index t.actions none m)
  unfolding trace run_steps
  trace-Agrees strict index zero m g t h =
      subst (λ u. Agrees 0 u (run_steps host strict true index u.actions none m))
        (sym (pure-ok no_trace t g h)) (ended-Agrees 0 m (inl refl))
  trace-Agrees strict index (suc steps) m g t h =
      let (a, rest, e, valid, next) = trace-suc steps m g t h in
      let n = (apply host.blake2s a m).1 in
      subst (λ u. Agrees (suc steps) u (run_steps host strict true index u.actions none m)) (sym e)
        (step-Agrees host strict index a (apply host.blake2s a m).0 n steps rest
          (λ f. run_steps host strict true (suc index) rest.actions f n) valid
          (Follows-Agrees strict (suc index) steps n rest next
            (λ k. trace-Agrees strict (suc index) steps n k rest)))

  ready-ok :
      (p : Result Error Unit × Model) (m : Model) (g : r.Rng)
      → (ready r config host p g).0 ≡ ok m
      → m ≡ p.1
  unfolding raise
  ready-ok (ok done, n) m g h = pure-ok n m g h
  ready-ok (err e, n) m g h = absurd (ground (arith, h))

  trace_from :
      {m n : Model}
      → m ≡ n
      → (steps : ℕ) (g : r.Rng) (t : Trace) → (trace r config host steps m g).0 ≡ ok t
      → (trace r config host steps n g).0 ≡ ok t
  trace_from e steps g t h = subst (λ k. (trace r config host steps k g).0 ≡ ok t) e h

  outer-ok : {A : Type 0} (p : Result Error A × r.Rng) (a : A) → (outer p).0 ≡ ok a → p.0 ≡ ok a
  outer-ok (ok b, g) a h = ground (arith, h)
  outer-ok (err e, g) a h = absurd (ground (arith, h))

  -- What a generated scenario is made of
  pub record Made (seed : ℤ) (steps : ℕ) (s : GeneratedScenario) : Type 0 where
    pub w : GeneratedWorkflow
    pub specs : List WorkerSpec
    pub first : r.Rng
    pub drawn : (workflow r config seed "" first).0 ≡ ok w
    pub rng : r.Rng
    pub t : Trace
    pub made : s ≡ assembled r config host seed w specs t
    pub traced :
        (trace r config host steps
          (set_up host (unplayed r config host seed w specs) new_model).1
          rng).0
        ≡ ok t

  pub make_scenario-Made :
      (seed steps : ℤ) (g : r.Rng) (s : GeneratedScenario)
      → (make_scenario r config host seed steps g).0 ≡ ok s
      → Made seed (max_ℕ 1 steps) s
  unfolding make_scenario
  make_scenario-Made seed steps g s h =
      let with_tasks = >>=-ok (choosing r config host (workflow r config seed "")) _ g h in
      let w = with_tasks.0 in
      let staffed = >>=-ok (choosing r config host (workers r config w)) _ _ with_tasks.2 in
      let specs = staffed.0 in
      let begun =
        >>=-ok (ready r config host (set_up host (unplayed r config host seed w specs) new_model)) _
          _ staffed.2 in
      let traced = >>=-ok (trace r config host (max_ℕ 1 steps) begun.0) _ _ begun.2 in
      record {
        w = w;
        specs = specs;
        first = g;
        drawn = outer-ok (workflow r config seed "" g) w with_tasks.1;
        rng = _;
        t = traced.0;
        made = pure-ok _ s _ traced.2;
        traced = trace_from (ready-ok _ begun.0 _ begun.1) (max_ℕ 1 steps) _ traced.0 traced.1;
      }

  abbrev Replayed : Bool → ℕ → GeneratedScenario → Model → Type 0
  Replayed strict steps s m =
      Agrees steps (record { actions = s.actions; notes = s.notes })
        (run_steps host strict true 0 s.actions none m)

  Made-Replayed :
      (strict : Bool) (seed : ℤ) (steps : ℕ) (s : GeneratedScenario) (m : Model)
      → Made seed steps s
      → bootstrap host s ≡ ok m
      → Replayed strict steps s m
  unfolding bootstrap set_up
  Made-Replayed strict seed steps s m made booted =
      let same = booted-ok host _ _ m (subst (λ u. bootstrap host u ≡ ok m) made.made booted) in
      subst (λ u. Replayed strict steps u m) (sym made.made)
        (trace-Agrees strict 0 steps m made.rng made.t
          (trace_from (sym same.1) steps made.rng made.t made.traced))

-- What a replay of a generated scenario reports
pub record Replays (host : Host) (strict : Bool) (steps : ℕ) (s : GeneratedScenario) (m : Model)
    : Type 0 where
  pub excused : Excused (replay host strict s).failure
  pub short : length s.actions ≤ steps
  pub noted :
      (replay host strict s).failure ≡ none → rejected (replay host strict s) ≡ length s.notes
  pub over :
      (replay host strict s).failure ≡ none
      → length s.actions < steps
      → is_over (run_steps host strict true 0 s.actions none m).model ≡ true

-- A scenario that was generated with a bound of `steps`, and whose set-up passes the checks, has at
-- most that many actions, or one; no replay of it reports an invariant that fails; and a replay
-- without a failure rejects as many actions as the scenario has notes, and ends with every workflow
-- terminal and no lease active if there are fewer actions than the bound.
pub generated-Replays :
    (r : Random) (config : GeneratorConfig) (host : Host) (strict : Bool) (seed steps : ℤ)
    (s : GeneratedScenario) (m : Model)
    → generated r config host seed steps ≡ ok s
    → bootstrap host s ≡ ok m
    → Replays host strict (max_ℕ 1 steps) s m
unfolding generated replay replay_with rejected accepted
generated-Replays r config host strict seed steps s m h booted =
    let agrees =
      Made-Replayed r config host strict seed (max_ℕ 1 steps) s m
        (make_scenario-Made r config host seed steps (r.seeded seed) s h) booted in
    record {
      excused = rw booted agrees.excused;
      short = agrees.short;
      noted = rw booted (λ e. omega (arith, agrees.noted e));
      over = rw booted agrees.over;
    }
