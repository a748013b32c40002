-- ===== src/Nodes/Plan.antt =====
-- nodes/plan.py: the strategy of a run. Scores are whole millionths. The guide that the skills are
-- stitched into is an argument.
pub mod Legal
pub mod Books
mod Tests
use recertia.Prelude.{
  ℕ, ◌+◌, min, String, Bool, true, false, not, ◌&&◌, ◌||◌, Option, none, some, List, [], ◌∷◌, ◌++◌,
  leb, length, is_none, ltb, first_case, if◌then◌else◌, starts_with, has_text,
}
use recertia.Contracts.Common.{Strategy, apply, adapt, scratch, portfolio, decomposition, abstain}
use recertia.Contracts.Run.{
  RunState, SkillCandidateRef, StrategyHint, abstain_hint, portfolio_hint, decomposition_hint,
}
use recertia.Graph.Engine.{NodeOutcome}
use recertia.Nodes.{Message, ambiguous_skills, top_candidate, below_apply, below_adapt}
use recertia.Nodes.FanOut.Partition.{partition_criteria}

abbrev apply_threshold : ℕ
apply_threshold = 480_000

abbrev adapt_threshold : ℕ
adapt_threshold = 350_000

abbrev portfolio_gap : ℕ
portfolio_gap = 80_000

pub record PlanContext : Type 0 where
  pub deterministic_guide : Bool
  pub stitch_guide : List SkillCandidateRef → Option String

abbrev hint_of : Option (Option StrategyHint) → Option StrategyHint
hint_of none = none
hint_of (some hint) = hint

abbrev hints_abstain : Option StrategyHint → Bool
hints_abstain (some abstain_hint) = true
hints_abstain _ = false

abbrev hints_decomposition : Option StrategyHint → Bool
hints_decomposition (some decomposition_hint) = true
hints_decomposition _ = false

abbrev hints_portfolio : Option StrategyHint → Bool
hints_portfolio (some portfolio_hint) = true
hints_portfolio _ = false

-- `state.task.request or ""`
abbrev or_empty : Option String → String
or_empty none = ""
or_empty (some request) = request

-- `abs(a - b) <= PORTFOLIO_GAP`
abbrev within_gap : ℕ → ℕ → Bool
within_gap a b = leb a (b + portfolio_gap) && leb b (a + portfolio_gap)

abbrev outcome : RunState → String → NodeOutcome
outcome s route = record { state = s; route = some route; note = none }

unfoldable planned : RunState → Strategy → String → ℕ → RunState
planned s strategy reason success = record s {
  strategy = some strategy;
  strategy_reason = some reason;
  predicted_success = some success;
}

abbrev asks_abstention : Option StrategyHint → String → Bool
asks_abstention hint request = hints_abstain hint || starts_with request "ABSTAIN:"

abbrev asks_decomposition : Option StrategyHint → String → Bool
asks_decomposition hint request =
    hints_decomposition hint
    || (starts_with request "DECOMPOSE:"
        || (not (starts_with request "PORTFOLIO:") && has_text request "DECOMPOSE:"))

abbrev asks_portfolio : Option StrategyHint → String → Bool
asks_portfolio hint request =
    hints_portfolio hint || (starts_with request "PORTFOLIO:" || starts_with request "AMBIGUOUS:")

module _ (render : Message → String) (ctx : PlanContext) where
  -- What the caller asks for, by the goal's hint or by the request.
  unfoldable asked_cases : RunState → List (Bool × NodeOutcome)
  unfolding planned
  asked_cases s =
      let hint = hint_of s.task.goal in
      let request = or_empty s.task.request in
      (
        asks_abstention hint request,
        outcome (planned s abstain "caller requested abstention" 0) "abstain",
      )
      ∷ (
        asks_decomposition hint request && is_none (partition_criteria render none s),
        outcome (planned s scratch "decomposition refused: criteria cannot be partitioned" 400_000)
            "single_strategy",
      )
      ∷ (
        asks_decomposition hint request,
        outcome
            (planned s decomposition "caller requested decomposition with partitionable criteria"
              550_000)
            "fan_out_strategy",
      )
      ∷ (
        asks_portfolio hint request,
        outcome (planned s portfolio "caller marked task ambiguous; portfolio fan-out" 500_000)
            "fan_out_strategy",
      )
      ∷ []

  guide_of : List SkillCandidateRef → Option String
  guide_of skills =
      if ctx.deterministic_guide && ltb 1 (length skills) then ctx.stitch_guide skills else none

  -- The two best skills, close to each other.
  ambiguous_case : RunState → SkillCandidateRef → List SkillCandidateRef → List (Bool × NodeOutcome)
  unfolding planned
  ambiguous_case s top [] = []
  ambiguous_case s top (second ∷ others) =
      (
        within_gap top.score second.score && leb adapt_threshold top.score,
        outcome
            (record (planned s portfolio (render (ambiguous_skills top.skill_id second.skill_id))
              top.score) { chosen = some top })
            "fan_out_strategy",
      )
      ∷ []

  skill_cases : RunState → SkillCandidateRef → List SkillCandidateRef → List (Bool × NodeOutcome)
  unfolding planned guide_of ambiguous_case
  skill_cases s top others =
      ambiguous_case s top others
      ++ (
        leb apply_threshold top.score,
        outcome
            (record (planned s apply (render (top_candidate top)) (min 950_000 top.score)) {
              chosen = some top;
              execution_guide = none;
            })
            "single_strategy",
      )
        ∷ (
          leb adapt_threshold top.score,
          outcome
              (record (planned s adapt (render (below_apply top)) top.score) {
                chosen = some top;
                execution_guide = guide_of (top ∷ others);
              })
              "single_strategy",
        )
        ∷ []

  plan_by_skills : RunState → List SkillCandidateRef → NodeOutcome
  unfolding planned skill_cases
  plan_by_skills s [] =
      outcome
        (record (planned s scratch "empty memory bundle; solve from scratch" 400_000) {
          chosen = none;
        })
        "single_strategy"
  plan_by_skills s (top ∷ others) = first_case (skill_cases s top others) (
      outcome
        (record (planned s scratch (render (below_adapt top.score)) 400_000) { chosen = none })
        "single_strategy")

  pub plan_node : RunState → NodeOutcome
  unfolding asked_cases plan_by_skills
  plan_node s = first_case (asked_cases s) (plan_by_skills s s.bundle.skills)
