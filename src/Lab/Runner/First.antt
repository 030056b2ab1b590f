-- ===== src/Lab/Runner/First.antt =====
-- What `replay` of tools/chaos_lab/runner.py reports of a scenario: nothing exactly if every step of
-- it passes, and else the first step that does not.
use helix_grid.Prelude.{
  ℕ, suc, String, ◌+◌, ◌≡◌, ◌↔◌, inl, inr, refl, sym, subst, ap, ◌∙◌, Bool, true, false, List, [],
  ◌∷◌, ◌++◌, Option, none, some, length, is_some, not, arith, Option-cases,
}
use helix_grid.Prelude.Int.{pos}
use helix_grid.Prelude.Exec.{Result, ok, err}
use helix_grid.Chaos.Types.{Action, Error, model_error, value_error, key_error}
use helix_grid.Chaos.State.{Model}
use helix_grid.Chaos.Dispatch.{apply}
use helix_grid.Chaos.Checks.{check_invariants}
use helix_grid.Lab.Types.{GeneratedScenario}
use helix_grid.Lab.Runner.{
  Host, ReplayFailure, ReplayReport, Run, report_ok, after_apply, after_check, found_violation,
  run_steps, bootstrap, replay_from, replay_with, replay,
}

-- An error of the model's own is tolerated, unless the runner is strict.
abbrev pub IsTolerated : Bool → Result Error Unit → Type 0
IsTolerated strict (ok done) = Unit
IsTolerated strict (err (model_error s)) = strict ≡ false
IsTolerated strict (err (value_error s)) = ⊥
IsTolerated strict (err (key_error s)) = ⊥

module _ (host : Host) (strict : Bool) where
  -- A step that passes: the action is tolerated, and the invariants hold after it.
  abbrev pub Step : Action → Model → Type 0
  Step a m =
      IsTolerated strict (apply host.blake2s a m).0
      × (check_invariants (apply host.blake2s a m).1 ≡ none)

  pub data Passes : Model → List Action → Model → Type 0 where
    here : {m : Model} → Passes m [] m
    next :
        {a : Action} {m n : Model} {actions : List Action}
        → Step a m
        → Passes (apply host.blake2s a m).1 actions n
        → Passes m (a ∷ actions) n

  abbrev verdict : ℕ → Action → Model → Option ReplayFailure
  verdict index a m =
      let (result, n) = apply host.blake2s a m in
      after_check index a n (after_apply host strict index a result n none)

  after_apply-none :
      (index : ℕ) (a : Action) (r : Result Error Unit) (n : Model)
      → IsTolerated strict r
      → after_apply host strict index a r n none ≡ none
  after_apply-none index a (ok done) n h = refl
  after_apply-none index a (err (model_error s)) n h = rw h
  after_apply-none index a (err (value_error s)) n h = absurd h
  after_apply-none index a (err (key_error s)) n h = absurd h

  after_apply-some :
      (index : ℕ) (a : Action) (r : Result Error Unit) (n : Model)
      → after_apply host strict index a r n none ≡ none
      → IsTolerated strict r
  after_apply-some index a (ok done) n h = tt
  after_apply-some index a (err (model_error s)) n h = ground arith
  after_apply-some index a (err (value_error s)) n h = absurd (ground arith)
  after_apply-some index a (err (key_error s)) n h = absurd (ground arith)

  after_check-none :
      (index : ℕ) (a : Action) (n : Model) (o : Option ReplayFailure)
      → after_check index a n o ≡ none
      → (o ≡ none) × (check_invariants n ≡ none)
  after_check-none index a n none h = ground arith
  after_check-none index a n (some f) h = absurd (ground arith)

  verdict-none : (index : ℕ) (a : Action) (m : Model) → verdict index a m ≡ none → Step a m
  verdict-none index a m h =
      let both = after_check-none index a _ _ h in
      (after_apply-some index a _ (apply host.blake2s a m).1 both.0, both.1)

  Step-verdict : (index : ℕ) (a : Action) (m : Model) → Step a m → verdict index a m ≡ none
  Step-verdict index a m h =
      rw (after_apply-none index a (apply host.blake2s a m).0 (apply host.blake2s a m).1 h.0, h.1)

  abbrev Names : ℕ → Action → Option ReplayFailure → Type 0
  Names index a none = Unit
  Names index a (some f) = (f.index ≡ pos index) × (f.action ≡ some a)

  after_apply-Names :
      (index : ℕ) (a : Action) (r : Result Error Unit) (n : Model)
      → Names index a (after_apply host strict index a r n none)
  after_apply-Names index a (ok done) n = tt
  after_apply-Names index a (err (model_error s)) n = ground arith
  after_apply-Names index a (err (value_error s)) n = (refl, refl)
  after_apply-Names index a (err (key_error s)) n = (refl, refl)

  found_violation-Names :
      (index : ℕ) (a : Action) (n : Model) (c : Option String)
      → Names index a (found_violation index a n c)
  found_violation-Names index a n none = tt
  found_violation-Names index a n (some code) = (refl, refl)

  after_check-Names :
      (index : ℕ) (a : Action) (n : Model) (o : Option ReplayFailure)
      → Names index a o
      → Names index a (after_check index a n o)
  after_check-Names index a n none h = found_violation-Names index a n (check_invariants n)
  after_check-Names index a n (some f) h = h

  verdict-Names : (index : ℕ) (a : Action) (m : Model) → Names index a (verdict index a m)
  verdict-Names index a m = after_check-Names index a _ _ (after_apply-Names index a _ _)

  abbrev steps : ℕ → List Action → Model → Run
  steps index actions m = run_steps host strict true index actions none m

  steps-Passes :
      (index : ℕ) {actions : List Action} {m n : Model}
      → Passes m actions n
      → ((steps index actions m).failure ≡ none) × ((steps index actions m).model ≡ n)
  unfolding run_steps
  steps-Passes index here = (refl, refl)
  steps-Passes index {m = m} (next {a} h later) =
      rw (Step-verdict index a m h) (steps-Passes (suc index) later)

  steps-none :
      (index : ℕ) (actions : List Action) (m : Model)
      → (steps index actions m).failure ≡ none
      → Passes m actions (steps index actions m).model
  unfolding run_steps
  steps-none index [] m h = here
  steps-none index (a ∷ actions) m h = elim (Option-cases (verdict index a m)) [
    | inl e ↦ rw e (next (verdict-none index a m e) (steps-none (suc index) actions _ (rw e at h)))
    | inr f ↦ absurd (ground (arith, f.1))
  ]

  -- The run has stopped at the action `a`, after the actions `before`.
  pub record StopsAt (index : ℕ) (actions : List Action) (m : Model) (f : ReplayFailure)
      (records : ℕ) : Type 0 where
    pub before : List Action
    pub action : Action
    pub rest : List Action
    pub reached : Model
    pub split : actions ≡ before ++ action ∷ rest
    pub passed : Passes m before reached
    pub refused : Step action reached → ⊥
    pub named : (f.index ≡ pos (index + length before)) × (f.action ≡ some action)
    pub counted : records ≡ suc (length before)

  further :
      (index : ℕ) (a : Action) (actions : List Action) (m : Model) {f : ReplayFailure} {records : ℕ}
      → Step a m
      → StopsAt (suc index) actions (apply host.blake2s a m).1 f records
      → StopsAt index (a ∷ actions) m f (suc records)
  further index a actions m step t = record {
    before = a ∷ t.before;
    action = t.action;
    rest = t.rest;
    reached = t.reached;
    split = ap (λ xs. a ∷ xs) t.split;
    passed = next step t.passed;
    refused = t.refused;
    named = (t.named.0 ∙ ap pos (omega arith), t.named.1);
    counted = omega (arith, t.counted);
  }

  names :
      (index : ℕ) (a : Action) (m : Model) {f : ReplayFailure}
      → verdict index a m ≡ some f
      → (f.index ≡ pos (index + 0)) × (f.action ≡ some a)
  names index a m e =
      let both = subst (Names index a) e (verdict-Names index a m) in
      (both.0 ∙ ap pos (omega arith), both.1)

  steps-StopsAt :
      (index : ℕ) (actions : List Action) (m : Model) {f : ReplayFailure}
      → (steps index actions m).failure ≡ some f
      → StopsAt index actions m f (length (steps index actions m).records)
  unfolding run_steps
  steps-StopsAt index [] m h = absurd (ground arith)
  steps-StopsAt index (a ∷ actions) m {f} h = elim (Option-cases (verdict index a m)) [
    | inl e ↦ rw e (
        further index a actions m (verdict-none index a m e)
          (steps-StopsAt (suc index) actions _ (rw e at h)))
    | inr (g, e) ↦ rw e (record {
      before = [];
      action = a;
      rest = actions;
      reached = m;
      split = refl;
      passed = here;
      refused = λ step. absurd (ground (arith, Step-verdict index a m step));
      named = names index a m (e ∙ (rw e at h));
      counted = refl;
    })
  ]

module _ (host : Host) (strict : Bool) (s : GeneratedScenario) where
  from : Result ReplayFailure Model → ReplayReport
  from r = replay_from host strict true s s.actions r

  from-ok :
      (r : Result ReplayFailure Model)
      → report_ok (from r) ≡ true
      → (m : Model) × (n : Model) × (r ≡ ok m) × Passes host strict m s.actions n
  unfolding from
  from-ok (err f) h = absurd (ground arith)
  from-ok (ok m) h = (m, _, refl, steps-none host strict 0 s.actions m (not_some _ h))
    where
      not_some : (o : Option ReplayFailure) → not (is_some o) ≡ true → o ≡ none
      not_some none e = refl
      not_some (some f) e = absurd (ground arith)

-- A replay reports no failure exactly if the set-up succeeds and every action passes: the model
-- takes it, or refuses it with an error of its own in a runner that is not strict, and the
-- invariants hold after it.
pub replay-ok :
    (host : Host) (strict : Bool) (s : GeneratedScenario)
    → (report_ok (replay host strict s) ≡ true)
      ↔ ((m : Model) × (n : Model) × (bootstrap host s ≡ ok m) × Passes host strict m s.actions n)
unfolding replay replay_with from
replay-ok host strict s = (
  λ h. from-ok host strict s (bootstrap host s) h,
  λ p.
      subst (λ r. report_ok (from host strict s r) ≡ true) (sym p.2)
        (rw (steps-Passes host strict 0 p.3).0),
)

-- If a set-up succeeds and the replay reports a failure, this names the first action that does not
-- pass, by its index and itself: all actions before it pass, and none after it is recorded.
pub replay-StopsAt :
    (host : Host) (strict : Bool) (s : GeneratedScenario) (m : Model) (f : ReplayFailure)
    → bootstrap host s ≡ ok m
    → (replay host strict s).failure ≡ some f
    → StopsAt host strict 0 s.actions m f (length (replay host strict s).records)
unfolding replay replay_with
replay-StopsAt host strict s m f ready h =
    rw ready (steps-StopsAt host strict 0 s.actions m (rw ready at h))
