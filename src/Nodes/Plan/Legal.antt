-- ===== src/Nodes/Plan/Legal.antt =====
-- `plan` always names a route that the table has for the strategy it set.
use recertia.Prelude.{
  ◌≡◌, String, Bool, Option, none, some, List, [], ◌∷◌, ok, All, All-first_case, refl,
}
use recertia.Contracts.Common.{Strategy}
use recertia.Contracts.Run.{RunState, SkillCandidateRef}
use recertia.Graph.Routes.{Route, plan, legal_routes, finalize, fan_out, solve, Node}
use recertia.Graph.Engine.{NodeOutcome, choose_route}
use recertia.Nodes.{Message}
use recertia.Nodes.Plan.{
  PlanContext, plan_node, plan_by_skills, asked_cases, skill_cases, ambiguous_case, planned,
}

-- Where each strategy leads.
abbrev pub destination : Option Strategy → Option Node
destination none = none
destination (some Strategy.abstain) = some finalize
destination (some Strategy.portfolio) = some fan_out
destination (some Strategy.decomposition) = some fan_out
destination (some Strategy.apply) = some solve
destination (some Strategy.adapt) = some solve
destination (some Strategy.scratch) = some solve

pub record Planned (out : NodeOutcome) : Type 0 where
  pub chosen_route : Route
  pub chose : choose_route plan out ≡ ok chosen_route
  pub leads_on : destination out.state.strategy ≡ some chosen_route.target

AllPlanned : List (Bool × NodeOutcome) → Type 0
AllPlanned = All (λ (c : Bool × NodeOutcome). Planned c.1)

module _ (render : Message → String) (ctx : PlanContext) (s : RunState) where
  asked-Planned : AllPlanned (asked_cases render ctx s)
  unfolding AllPlanned asked_cases planned choose_route legal_routes
  asked-Planned = (
    record { chosen_route = _; chose = refl; leads_on = refl },
    (
      record { chosen_route = _; chose = refl; leads_on = refl },
      (
        record { chosen_route = _; chose = refl; leads_on = refl },
        (record { chosen_route = _; chose = refl; leads_on = refl }, tt),
      ),
    ),
  )

  skills-Planned :
      (top : SkillCandidateRef) (others : List SkillCandidateRef)
      → AllPlanned (skill_cases render ctx s top others)
  unfolding AllPlanned skill_cases ambiguous_case planned choose_route legal_routes
  skills-Planned top [] = (
    record { chosen_route = _; chose = refl; leads_on = refl },
    (record { chosen_route = _; chose = refl; leads_on = refl }, tt),
  )
  skills-Planned top (second ∷ others) = (
    record { chosen_route = _; chose = refl; leads_on = refl },
    (
      record { chosen_route = _; chose = refl; leads_on = refl },
      (record { chosen_route = _; chose = refl; leads_on = refl }, tt),
    ),
  )

  plan_by_skills-Planned :
      (skills : List SkillCandidateRef) → Planned (plan_by_skills render ctx s skills)
  unfolding AllPlanned plan_by_skills planned choose_route legal_routes
  plan_by_skills-Planned [] = record { chosen_route = _; chose = refl; leads_on = refl }
  plan_by_skills-Planned (top ∷ others) =
      All-first_case Planned (skill_cases render ctx s top others) _ (skills-Planned top others)
        (record { chosen_route = _; chose = refl; leads_on = refl })

  -- Whatever the task asks for and whatever skills were retrieved, `plan` names a route that the table
  -- allows in the state it leaves, and that leads to where the strategy it chose belongs.
  pub plan_node-Planned : Planned (plan_node render ctx s)
  unfolding AllPlanned plan_node
  plan_node-Planned =
      All-first_case Planned (asked_cases render ctx s)
        (plan_by_skills render ctx s s.bundle.skills) asked-Planned
        (plan_by_skills-Planned s.bundle.skills)
