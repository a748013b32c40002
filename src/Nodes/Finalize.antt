-- ===== src/Nodes/Finalize.antt =====
-- nodes/finalize.py: the terminal outcome, from the node that the last entry of the route log names.
pub mod Ending
mod Tests
use recertia.Prelude.{String, Bool, Option, none, some, List, [], ◌∷◌, str_eq, if◌then◌else◌}
use recertia.Contracts.Common.{Terminal, abstained, solved, unsolved, rejected, error}
use recertia.Contracts.Run.{RunState, RouteEntry}
use recertia.Graph.Engine.{NodeOutcome}

abbrev terminal_by_predecessor : List (String × Terminal)
terminal_by_predecessor =
    ("plan", abstained)
    ∷ ("distill", solved)
    ∷ ("store", solved)
    ∷ ("record_dead_end", unsolved)
    ∷ ("reject_draft", rejected)
    ∷ []

-- `dict.get(key, default)`
get_or : String → Terminal → List (String × Terminal) → Terminal
get_or key default [] = default
get_or key default ((k, terminal) ∷ rest) =
    let later = get_or key default rest in if str_eq k key then terminal else later

-- `state.route_log[-1].node if state.route_log else ""`
predecessor : List RouteEntry → String
predecessor [] = ""
predecessor (entry ∷ []) = entry.node
predecessor (entry ∷ next ∷ log) = predecessor (next ∷ log)

terminal_after : String → Terminal
unfolding get_or
terminal_after node = get_or node error terminal_by_predecessor

-- `finalize`
unfoldable pub finalize_node : RunState → NodeOutcome
unfolding terminal_after predecessor
finalize_node s = record {
  state = record s { terminal = some (terminal_after (predecessor s.route_log)) };
  route = none;
  note = none;
}
