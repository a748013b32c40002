-- ===== src/Nodes/Join/Tests.antt =====
-- A portfolio of ten branches, and a decomposition with a branch that failed.
use recertia.Prelude.{
  ℕ, ◌≡◌, String, true, false, none, some, [], ◌∷◌, ok, raised, refl, ◌&&◌, all, if◌then◌else◌,
}
use recertia.Samples.{run_state, budget, spent, no_reservation, result, criterion}
use recertia.Contracts.Common.{portfolio, decomposition}
use recertia.Contracts.Branch.{BranchKind, BranchState, BranchStatus, is_complete}
use recertia.Contracts.Criteria.{command}
use recertia.Contracts.Run.{RunState}
use recertia.Graph.Routes.{join, classify_failure, required_criteria_pass}
use recertia.Graph.Engine.{NodeOutcome, illegal_route, choose_route}
use recertia.Nodes.{Message}
use recertia.Nodes.Join.{
  Joining, conflict, join_node, select_portfolio_winner, survivor_ids, deselect_others, ranked,
  portfolio_score,
}
use recertia.Nodes.Join.Winner.{reduced-winner}
use recertia.Nodes.Join.Unmergeable.{target_of, join_node-unmerged}

abbrev text : Message → String
text _ = "text"

abbrev env : Joining
env = record {
  scoring = record {
    evidence_hash = λ _ _. "hash";
    score = λ c. result true c;
    observations = λ _. [];
    now = "now";
  };
  materialize_decomposition = λ _ _. conflict "conflict";
  now = "now";
}

abbrev branch : String → BranchKind → BranchStatus → ℕ → BranchState
branch id kind status cost = record {
  branch_id = id;
  kind = kind;
  strategy = portfolio;
  subtask = none;
  candidate = none;
  workspace_ref = id;
  snapshot_ref = none;
  transcript_ref = none;
  status = status;
  budget = budget;
  spent = spent;
  reserved = no_reservation;
  results = result true (criterion "a" command) ∷ [];
  selected = false;
  cost_usd = some cost;
  owned_criteria = [];
}

abbrev attempted : String → ℕ → BranchState
attempted id cost = branch id BranchKind.portfolio BranchStatus.succeeded cost

abbrev wide : RunState
wide = record run_state {
  strategy = some portfolio;
  branches =
      attempted "0" 9
      ∷ attempted "1" 8
      ∷ attempted "2" 3
      ∷ attempted "3" 3
      ∷ attempted "4" 7
      ∷ attempted "5" 9
      ∷ attempted "6" 8
      ∷ attempted "7" 6
      ∷ attempted "8" 5
      ∷ attempted "9" 4
      ∷ [];
}

survivors : survivor_ids true wide ≡ some ("2" ∷ "3" ∷ "9" ∷ "8" ∷ "7" ∷ [])
unfolding survivor_ids ranked portfolio_score
survivors = refl

reduced-winner_example :
    select_portfolio_winner
      (survivor_ids true wide)
      (deselect_others (survivor_ids true wide) wide.branches)
    ≡ select_portfolio_winner none wide.branches
reduced-winner_example = reduced-winner wide true

abbrev halved : RunState
halved = record run_state {
  strategy = some decomposition;
  criteria = [];
  merge_audits = [];
  branches =
      branch "0" BranchKind.decomposition BranchStatus.succeeded 1
      ∷ branch "1" BranchKind.decomposition BranchStatus.failed 1
      ∷ [];
}

stops_the_run : (all is_complete halved.merge_audits && required_criteria_pass halved) ≡ true
unfolding required_criteria_pass
stops_the_run = refl

join_node-unmerged_example :
    (out : NodeOutcome) × ((join_node text env halved ≡ ok out)
      × (target_of (choose_route join out) ≡ (
          if all is_complete halved.merge_audits && required_criteria_pass halved
          then raised illegal_route
          else ok classify_failure)))
join_node-unmerged_example = join_node-unmerged text env halved refl refl refl
