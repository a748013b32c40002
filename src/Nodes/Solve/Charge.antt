-- ===== src/Nodes/Solve/Charge.antt =====
-- What it is for a way of solving to charge its attempt and to end on a route of the table.
use recertia.Prelude.{
  ℕ, ◌+◌, ◌≤◌, ◌≡◌, ◌∙◌, ◌⊎◌, inl, inr, String, Bool, true, false, Option, Outcome, ok, raised,
  if◌then◌else◌, refl, ap, is_some, is_none, ◌&&◌,
}
use recertia.Contracts.Budget.{Budget, Spend}
use recertia.Contracts.Failure.{FailureSignal}
use recertia.Contracts.Run.{RunState}
use recertia.Graph.Routes.{Route, solve, validate, classify_failure}
use recertia.Graph.Engine.{NodeOutcome, choose_route}
use recertia.Nodes.Attempt.{AttemptMeter, commit, failed, completed}
use recertia.Nodes.Attempt.Spending.{Closes}

-- An outcome that charges an attempt or more and leads on to one of the two nodes after solve.
abbrev pub IsCharged : RunState → NodeOutcome → Type 0
IsCharged s out = (n : ℕ) × ((1 ≤ n) × (Closes s n validate out ⊎ Closes s n classify_failure out))

abbrev pub Returns {ℓ} : (NodeOutcome → Type ℓ) → Outcome String NodeOutcome → Type ℓ
Returns P (ok out) = P out
Returns P (raised e) = Unit

pub Returns-if {ℓ} :
    (P : NodeOutcome → Type ℓ) (b : Bool) (x y : Outcome String NodeOutcome)
    → Returns P x
    → Returns P y
    → Returns P (if b then x else y)
Returns-if P true x y h k = h
Returns-if P false x y h k = k

abbrev pub failed_attempt : Route
failed_attempt = record {
  source = solve;
  target = classify_failure;
  predicate_name = "pre_validation_failure_signal";
  predicate = λ s. is_some s.failure_signal;
  description =
      "Environment, tool, or mid-attempt budget failures occur before or instead of validation (ADR-0008), including after a retry retains prior validation results.";
}

abbrev pub completed_attempt : Route
completed_attempt = record {
  source = solve;
  target = validate;
  predicate_name = "attempt_completed";
  predicate = λ s. is_some s.transcript_ref && is_none s.failure_signal;
  description = "A completed attempt (whether it will pass or fail) proceeds to validation.";
}

-- What a run has spent of its attempts, and its budget.
abbrev pub attempt_books : RunState → ℕ × Budget
attempt_books s = (s.spent.attempts, s.budget)

-- What closes an attempt by a meter that was opened on the run's spend, with updates that leave the
-- spend, the budget and the signal alone.
pub failing :
    (s : RunState) (m : AttemptMeter) (n : ℕ) (out : NodeOutcome) (signal : FailureSignal)
    (number : ℕ) (remark : Option String) (clock : ℕ)
    → m.committed ≡ s.spent
    → 1 ≤ n
    → choose_route solve out ≡ ok failed_attempt
    → attempt_books out.state
      ≡ attempt_books
          (failed s m signal number "pre_validation_failure_signal" remark n clock).state
    → IsCharged s out
unfolding failed commit
failing s m n out signal number remark clock opened some_n chose left = (
  n,
  (
    some_n,
    inr (record {
      charged = ap (λ (p : ℕ × Budget). p.0) left ∙ ap (λ (p : Spend). p.attempts + n) opened;
      same_budget = ap (λ (p : ℕ × Budget). p.1) left;
      chosen_route = failed_attempt;
      chose = chose;
      leads_on = refl;
    }),
  ),
)

pub completing :
    (s : RunState) (m : AttemptMeter) (n : ℕ) (out : NodeOutcome) (number : ℕ) (ref : String)
    (remark : Option String) (clock : ℕ)
    → m.committed ≡ s.spent
    → 1 ≤ n
    → choose_route solve out ≡ ok completed_attempt
    → attempt_books out.state ≡ attempt_books (completed s m number ref remark n clock).state
    → IsCharged s out
unfolding completed commit
completing s m n out number ref remark clock opened some_n chose left = (
  n,
  (
    some_n,
    inl (record {
      charged = ap (λ (p : ℕ × Budget). p.0) left ∙ ap (λ (p : Spend). p.attempts + n) opened;
      same_budget = ap (λ (p : ℕ × Budget). p.1) left;
      chosen_route = completed_attempt;
      chose = chose;
      leads_on = refl;
    }),
  ),
)
