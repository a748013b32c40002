-- ===== src/Nodes/Solve/Branches/Charges.antt =====
-- A fan-out with a dispatched branch charges an attempt for it.
use recertia.Prelude.{
  ℕ, ◌+◌, ◌≤◌, ◌≡◌, String, Bool, true, false, Option, none, some, List, [], ◌∷◌, any, length,
  Outcome, ok, raised, ◌>>=◌, if◌then◌else◌, refl, arith,
}
use recertia.Contracts.Budget.{Dimension}
use recertia.Contracts.Branch.{BranchState, BranchStatus, dispatched}
use recertia.Contracts.Criteria.{TaskCriterion, CriterionResult}
use recertia.Contracts.Run.{RunState}
use recertia.Graph.Routes.{legal_routes}
use recertia.Graph.Engine.{choose_route}
use recertia.Nodes.{Message}
use recertia.Nodes.Attempt.{AttemptMeter, open_meter, charge, failed, completed}
use recertia.Nodes.Solve.Env.{Solving}
use recertia.Nodes.Solve.Script.{no_usage, solver_signal}
use recertia.Nodes.Solve.Charge.{IsCharged, Returns, failing, completing}
use recertia.Nodes.Solve.Branches.{
  is_dispatched, dispatched_status, is_unsettled, branch_excess, projected, Settled, settle, worked,
  timed_out_branch, ended_branch, results_of, run_commands, script_or_true, Looped, add_settled,
  branch_loop, settled_as, solve_branches, no_reservation,
}

-- What holds of a result, if there is one.
abbrev pub Holds {κ} : {A : Type 0} → (A → Type κ) → Outcome String A → Type κ
Holds P (ok x) = P x
Holds P (raised e) = Unit

pub Holds-bind {μ ν} :
    {A : Type 0} {B : Type 0} (P : A → Type μ) (Q : B → Type ν) (x : Outcome String A)
    (f : A → Outcome String B)
    → Holds P x
    → ((a : A) → P a → Holds Q (f a))
    → Holds Q (x >>= f)
Holds-bind P Q (ok a) f h k = k a h
Holds-bind P Q (raised e) f h k = tt

dispatched-is_unsettled : (x : BranchStatus) → dispatched_status x ≡ true → is_unsettled x ≡ true
dispatched-is_unsettled dispatched h = refl
dispatched-is_unsettled x h = ground arith

module _ (render : Message → String) (env : Solving) where
  worked-charges :
      (b : BranchState) (criteria : List TaskCriterion) (d : Option Dimension)
      (script : List String)
      → Holds (λ c. 1 ≤ c.attempts) (worked render env b criteria d script)
  unfolding worked timed_out_branch ended_branch projected
  worked-charges b criteria (some d) script = omega arith
  worked-charges b criteria none script =
      Holds-bind (λ _. Unit {0}) (λ c. 1 ≤ c.attempts)
        (results_of render env b.kind b criteria (run_commands render env b 0 script).0) _
        (anything (results_of render env b.kind b criteria (run_commands render env b 0 script).0))
        (λ r _. omega arith)
    where
      anything : (x : Outcome String (Bool × List CriterionResult)) → Holds (λ _. Unit {0}) x
      anything (ok x) = tt
      anything (raised e) = tt

  settle-charges :
      (criteria : List TaskCriterion) (b : BranchState)
      → Holds
          (λ c. (if is_unsettled b.status then 1 else 0) ≤ c.attempts)
          (settle render env criteria b)
  unfolding settle
  settle-charges criteria b = pick (is_unsettled b.status)
    where
      pick :
          (u : Bool)
          → Holds
              (λ c. (if u then 1 else 0) ≤ c.attempts)
              (if u
                then worked render env b criteria
                    (branch_excess b (length (script_or_true env.script)))
                    (script_or_true env.script)
                else ok (record { branch = b; attempts = 0; usage = no_usage }))
      pick true = worked-charges b criteria _ _
      pick false = omega arith

  branch_loop-charges :
      (s : RunState) (criteria : List TaskCriterion) (branches : List BranchState)
      (m : AttemptMeter)
      → m.committed ≡ s.spent
      → Holds
          (λ l.
            ((if any is_dispatched branches then 1 else 0) ≤ l.attempts_charged)
            × (l.meter.committed ≡ s.spent))
          (branch_loop render env criteria branches m)
  unfolding branch_loop add_settled charge
  branch_loop-charges s criteria [] m opened = (omega arith, opened)
  branch_loop-charges s criteria (b ∷ branches) m opened =
      Holds-bind (λ c. (if is_unsettled b.status then 1 else 0) ≤ c.attempts) _
        (settle render env criteria b) _ (settle-charges criteria b)
        (λ c some_c.
          Holds-bind
            (λ l.
              ((if any is_dispatched branches then 1 else 0) ≤ l.attempts_charged)
              × (l.meter.committed ≡ s.spent))
            _ (branch_loop render env criteria branches (charge c.usage m)) _
            (branch_loop-charges s criteria branches (charge c.usage m) opened)
            (λ l h. (sum c l some_c h.0, h.1)))
    where
      sum :
          (c : Settled) (l : Looped render env)
          → (if is_unsettled b.status then 1 else 0) ≤ c.attempts
          → (if any is_dispatched branches then 1 else 0) ≤ l.attempts_charged
          → (if any is_dispatched (b ∷ branches) then 1 else 0) ≤ c.attempts + l.attempts_charged
      sum c l h k = ground (arith, dispatched-is_unsettled b.status)

  settled_as-IsCharged :
      (s : RunState) (attempt_no : ℕ) (l : Looped render env) (d : Option Dimension)
      → 1 ≤ l.attempts_charged
      → l.meter.committed ≡ s.spent
      → IsCharged s (settled_as render env s attempt_no l d)
  unfolding settled_as failed completed choose_route legal_routes
  settled_as-IsCharged s attempt_no l (some d) some_n opened =
      failing s l.meter l.attempts_charged _ (solver_signal render env "" none) attempt_no none
        env.clock_end opened some_n refl refl
  settled_as-IsCharged s attempt_no l none some_n opened =
      completing s l.meter l.attempts_charged _ attempt_no "" none env.clock_end opened some_n refl
        refl

  pub solve_branches-IsCharged :
      (s : RunState) (attempt_no : ℕ)
      → any is_dispatched s.branches ≡ true
      → Returns (IsCharged s) (solve_branches render env s attempt_no)
  unfolding solve_branches open_meter
  solve_branches-IsCharged s attempt_no some_dispatched =
      Holds-bind
        (λ l.
          ((if any is_dispatched s.branches then 1 else 0) ≤ l.attempts_charged)
          × (l.meter.committed ≡ s.spent))
        (IsCharged s)
        (branch_loop render env s.criteria s.branches
          (open_meter s (some no_reservation) env.clock_start))
        _ (branch_loop-charges s s.criteria s.branches _ refl)
        (λ l h. settled_as-IsCharged s attempt_no l _ (ground arith) h.1)
