-- ===== src/Lab/Generator/Agrees.antt =====
-- One step of a trace of tools/chaos_lab/generator.py and of its replay by tools/chaos_lab/runner.py.
use helix_grid.Prelude.{
  ℕ, suc, ◌+◌, ◌≤◌, ◌<◌, ◌≡◌, inl, inr, refl, sym, subst, String, text_eq, Bool, true, false, ◌&&◌,
  List, [], Option, none, some, if◌then◌else◌, length, is_some, arith, Bool-cases,
}
use helix_grid.Prelude.Exec.{Result, ok, err}
use helix_grid.Chaos.Types.{Action, Error, model_error, value_error, key_error}
use helix_grid.Chaos.State.{Model}
use helix_grid.Chaos.Checks.{check_invariants}
use helix_grid.Lab.Runner.{
  Host, ReplayFailure, Run, after_apply, after_check, step_record, recorded, stopped,
  count_accepted,
}
use helix_grid.Lab.Generator.Scenario.{Trace, extended, is_over, note}

-- The failure, if there is one, is not of an invariant.
abbrev pub Excused : Option ReplayFailure → Type 0
Excused none = Unit
Excused (some f) = (f.invariant_code ≡ "") × (text_eq f.error_type "InvariantViolation" ≡ false)

-- A run of the actions of a trace that was generated with a bound on the steps
pub record Agrees (steps : ℕ) (t : Trace) (run : Run) : Type 0 where
  pub excused : Excused run.failure
  pub short : length t.actions ≤ steps
  pub noted : run.failure ≡ none → length run.records ≡ count_accepted run.records + length t.notes
  pub over : run.failure ≡ none → length t.actions < steps → is_over run.model ≡ true

module _ (host : Host) (strict : Bool) where
  abbrev stepped : ℕ → Action → Result Error Unit → Model → (Option ReplayFailure → Run) → Run
  stepped index a result n rest =
      let f = after_check index a n (after_apply host strict index a result n none) in
      recorded (step_record host index a result n)
        (if is_some f && true then stopped n f else rest f)

  accepted-Agrees :
      (index : ℕ) (a : Action) (n : Model) (steps : ℕ) (t : Trace)
      (rest : Option ReplayFailure → Run)
      → check_invariants n ≡ none
      → Agrees steps t (rest none)
      → Agrees (suc steps) (extended a [] t) (stepped index a (ok tt) n rest)
  accepted-Agrees index a n steps t rest valid h = rw valid (record {
    excused = h.excused;
    short = omega (arith, h.short);
    noted = λ e. omega (arith, h.noted e);
    over = λ e lt. h.over e (omega (arith, lt));
  })

  failed-Agrees :
      (a : Action) (n : Model) (steps : ℕ) (t : Trace) (notes : List String) (f : ReplayFailure)
      (run : Run)
      → run.failure ≡ some f
      → Excused (some f)
      → length t.actions ≤ steps
      → Agrees (suc steps) (extended a notes t) run
  failed-Agrees a n steps t notes f run e excuse short = record {
    excused = subst Excused (sym e) excuse;
    short = omega (arith, short);
    noted = λ none_left. absurd (ground (arith, e, none_left));
    over = λ none_left lt. absurd (ground (arith, e, none_left));
  }

  refused-Agrees :
      (index : ℕ) (a : Action) (e : Error) (n : Model) (steps : ℕ) (t : Trace)
      (rest : Option ReplayFailure → Run)
      → check_invariants n ≡ none
      → Agrees steps t (rest none)
      → Agrees (suc steps) (extended a (note host a (err e)) t) (stepped index a (err e) n rest)
  refused-Agrees index a (value_error s) n steps t rest valid h =
      failed-Agrees a n steps t (note host a (err (value_error s))) _ _ refl (refl, refl) h.short
  refused-Agrees index a (key_error s) n steps t rest valid h =
      failed-Agrees a n steps t (note host a (err (key_error s))) _ _ refl (refl, refl) h.short
  refused-Agrees index a (model_error s) n steps t rest valid h = elim (Bool-cases strict) [
    | inl e ↦ rw e (
        failed-Agrees a n steps t (note host a (err (model_error s))) _ _ refl (refl, refl) h.short)
    | inr e ↦
        rw (e, valid)
          (record {
            excused = h.excused;
            short = omega (arith, h.short);
            noted = λ none_left. omega (arith, h.noted none_left);
            over = λ none_left lt. h.over none_left (omega (arith, lt));
          })
  ]

  pub step-Agrees :
      (index : ℕ) (a : Action) (r : Result Error Unit) (n : Model) (steps : ℕ) (t : Trace)
      (rest : Option ReplayFailure → Run)
      → check_invariants n ≡ none
      → Agrees steps t (rest none)
      → Agrees (suc steps) (extended a (note host a r) t) (stepped index a r n rest)
  step-Agrees index a (ok tt) n steps t rest valid h =
      accepted-Agrees index a n steps t rest valid h
  step-Agrees index a (err e) n steps t rest valid h =
      refused-Agrees index a e n steps t rest valid h
