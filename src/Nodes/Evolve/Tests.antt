-- ===== src/Nodes/Evolve/Tests.antt =====
-- A repair after a failed execution whose approach is a recorded dead end.
use recertia.Prelude.{◌≡◌, String, true, false, none, some, [], ◌∷◌, ok, refl, if◌then◌else◌}
use recertia.Samples.{run_state}
use recertia.Contracts.Common.{apply, scratch}
use recertia.Contracts.Run.{RunState}
use recertia.Graph.Engine.{NodeOutcome}
use recertia.Nodes.{Message}
use recertia.Nodes.Evolve.{
  Evolving, evolve_node, template_of, repair_move, chosen_move, current_approach,
}
use recertia.Nodes.Evolve.Moves.{evolve_node-avoids, is_dead_end}

abbrev text : Message → String
text _ = "text"

abbrev env : Evolving
env = record {
  restore = λ _. none;
  dead_ends = some ((record { approach = "text"; why_failed = "it looped" }) ∷ []);
  normalize = λ why _. why;
  patch_templates = none;
}

abbrev failed_run : RunState
failed_run = record run_state {
  strategy = some apply;
  failure = none;
  workspace_snapshots = (record { attempt_no = 0; snapshot_ref = "clean"; restored = false }) ∷ [];
}

abbrev from_scratch : NodeOutcome
from_scratch = record {
  state = record failed_run {
    workspace_snapshots = (record { attempt_no = 0; snapshot_ref = "clean"; restored = true }) ∷ [];
    failure_signal = none;
    transcript_ref = none;
    strategy = some scratch;
    strategy_reason = some "text";
    chosen = none;
  };
  route = some "always";
  note = some "text";
}

repaired_run : evolve_node text env failed_run ≡ ok from_scratch
unfolding evolve_node chosen_move repair_move current_approach template_of
repaired_run = refl

no_template : template_of text env failed_run ≡ none
unfolding template_of
no_template = refl

evolve_node-avoids_example :
    (from_scratch.state.strategy
      ≡ (if is_dead_end text env failed_run then some scratch else failed_run.strategy))
    × (from_scratch.state.chosen
        ≡ (if is_dead_end text env failed_run then none else failed_run.chosen))
evolve_node-avoids_example =
    evolve_node-avoids text env failed_run from_scratch refl no_template repaired_run
