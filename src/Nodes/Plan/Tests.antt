-- ===== src/Nodes/Plan/Tests.antt =====
-- `plan` on the sample run, whose task asks for abstention.
use recertia.Prelude.{String, false, none}
use recertia.Samples.{run_state}
use recertia.Nodes.{Message}
use recertia.Nodes.Plan.{PlanContext, plan_node}
use recertia.Nodes.Plan.Legal.{Planned, plan_node-Planned}

abbrev text : Message → String
text _ = "text"

abbrev context : PlanContext
context = record { deterministic_guide = false; stitch_guide = λ _. none }

plan_node-Planned_example : Planned (plan_node text context run_state)
plan_node-Planned_example = plan_node-Planned text context run_state
