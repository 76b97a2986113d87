-- ===== src/Emu/Isolation/Run.antt =====
-- Isolation over any number of steps.
use mathlib.Core.Option.{some-injective, none-ne-some}
use acca.Prelude.{
  ℕ, zero, suc, ◌<◌, ◌≡◌, refl, sym, ap, ◌∙◌, arith, none, some, ◌⊎◌, inl, inr, Option-cases,
  if◌then◌else◌,
}
use acca.Emu.Platform.{Platform}
use acca.Emu.Util.Flags.{pl0, pl1, privilege_level}
use acca.Emu.State.{Vm}
use acca.Emu.Execute.{execute_one, run}
use acca.Emu.Isolation.System.{system}
use acca.Emu.Isolation.Step.{Traps, execute_one-isolated}

module _ ⦃platform : Platform⦄ where
  -- After fewer than `n` steps, which have left the system part alone, a handler is entered.
  pub record Trapped (n : ℕ) (vm : Vm) : Type 0 where
    pub steps : ℕ
    pub interrupted : Vm
    pub entered : Vm
    pub steps_lt : steps < n
    pub reached : run steps vm ≡ some interrupted
    pub untouched : system interrupted ≡ system vm
    pub trap : Traps interrupted entered
    pub step : execute_one interrupted ≡ some entered

  run-suc : (n : ℕ) (vm vm₁ : Vm) → execute_one vm ≡ some vm₁ → run (suc n) vm ≡ run n vm₁
  unfolding run
  run-suc n vm vm₁ e = rw (e, run) refl

  later :
      (n : ℕ) (vm vm₁ : Vm)
      → execute_one vm ≡ some vm₁
      → system vm₁ ≡ system vm
      → Trapped n vm₁
      → Trapped (suc n) vm
  later n vm vm₁ e same trapped = record {
    steps = suc trapped.steps;
    interrupted = trapped.interrupted;
    entered = trapped.entered;
    steps_lt = omega (arith, trapped.steps_lt);
    reached = run-suc trapped.steps vm vm₁ e ∙ trapped.reached;
    untouched = trapped.untouched ∙ same;
    trap = trapped.trap;
    step = trapped.step;
  }

  now : (n : ℕ) (vm vm₁ : Vm) → execute_one vm ≡ some vm₁ → Traps vm vm₁ → Trapped (suc n) vm
  unfolding run
  now n vm vm₁ e trap = record {
    steps = 0;
    interrupted = vm;
    entered = vm₁;
    steps_lt = omega arith;
    reached = refl;
    untouched = refl;
    trap = trap;
    step = e;
  }

  run_stuck : (n : ℕ) (vm : Vm) → execute_one vm ≡ none → run (suc n) vm ≡ none
  unfolding run
  run_stuck n vm e = rw (e, run) refl

  -- Over any number of steps from PL1 that end in a state, either the system part of that state
  -- is as it was at the start, or on the way a step has entered an exception handler, from a state
  -- whose system part was still as at the start.
  pub run-isolated :
      (n : ℕ) (vm vm' : Vm)
      → privilege_level vm.flags ≡ pl1
      → run n vm ≡ some vm'
      → (system vm' ≡ system vm) ⊎ Trapped n vm
  unfolding run
  run-isolated zero vm vm' user ran = inl (ap system (sym (some-injective _ _ ran)))
  run-isolated (suc n) vm vm' user ran = elim (Option-cases (execute_one vm)) [
    | inl e ↦ absurd (none-ne-some vm' (sym (run_stuck n vm e) ∙ ran))
    | inr (vm₁, e) ↦ elim (execute_one-isolated vm user e) [
      | inr trap ↦ inr (now n vm vm₁ e trap)
      | inl same ↦
          let still = ap (λ s. if s.in_pl1 then pl1 else pl0) same ∙ user in
          elim (run-isolated n vm₁ vm' still (sym (run-suc n vm vm₁ e) ∙ ran)) [
            | inl rest ↦ inl (rest ∙ same)
            | inr trapped ↦ inr (later n vm vm₁ e same trapped)
          ]
    ]
  ]
