-- ===== src/Nodes/Plan/Books.antt =====
-- plan does not charge the run.
use recertia.Prelude.{Bool, String, List, [], ◌∷◌, ok, All, All-first_case, refl}
use recertia.Contracts.Run.{RunState, SkillCandidateRef}
use recertia.Graph.Engine.{NodeOutcome}
use recertia.Nodes.{Message}
use recertia.Nodes.Free.{IsFree}
use recertia.Nodes.Plan.{
  PlanContext, plan_node, plan_by_skills, asked_cases, skill_cases, ambiguous_case, planned,
}

AllFree : RunState → List (Bool × NodeOutcome) → Type 0
AllFree s = All (λ (c : Bool × NodeOutcome). IsFree s (ok c.1))

module _ (render : Message → String) (ctx : PlanContext) (s : RunState) where
  asked-AllFree : AllFree s (asked_cases render ctx s)
  unfolding AllFree asked_cases planned
  asked-AllFree = ((refl, refl), ((refl, refl), ((refl, refl), ((refl, refl), tt))))

  skill_cases-AllFree :
      (top : SkillCandidateRef) (others : List SkillCandidateRef)
      → AllFree s (skill_cases render ctx s top others)
  unfolding AllFree skill_cases ambiguous_case planned
  skill_cases-AllFree top [] = ((refl, refl), ((refl, refl), tt))
  skill_cases-AllFree top (second ∷ others) = ((refl, refl), ((refl, refl), ((refl, refl), tt)))

  plan_by_skills-IsFree :
      (skills : List SkillCandidateRef) → IsFree s (ok (plan_by_skills render ctx s skills))
  unfolding plan_by_skills planned AllFree
  plan_by_skills-IsFree [] = (refl, refl)
  plan_by_skills-IsFree (top ∷ others) =
      All-first_case (λ (o : NodeOutcome). IsFree s (ok o)) (skill_cases render ctx s top others) _
        (skill_cases-AllFree top others) (refl, refl)

  pub plan_node-IsFree : IsFree s (ok (plan_node render ctx s))
  unfolding plan_node AllFree
  plan_node-IsFree =
      All-first_case (λ (o : NodeOutcome). IsFree s (ok o)) (asked_cases render ctx s) _
        asked-AllFree (plan_by_skills-IsFree s.bundle.skills)
