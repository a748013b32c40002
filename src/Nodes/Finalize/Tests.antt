-- ===== src/Nodes/Finalize/Tests.antt =====
-- A run that was abandoned at a dead end.
use recertia.Prelude.{◌≡◌, some, [], ◌∷◌, refl}
use recertia.Samples.{run_state}
use recertia.Contracts.Run.{RunState, RouteEntry}
use recertia.Graph.Routes.{record_dead_end}
use recertia.Nodes.Finalize.{finalize_node}
use recertia.Nodes.Finalize.Ending.{
  ending_of, node_label, finalize_node-ending, dead_end_row, dead_end-IsRow,
}

abbrev last_entry : RouteEntry
last_entry = record {
  node = "record_dead_end";
  route = "always";
  reason = "";
  attempt_no = 1;
  at = "now";
}

abbrev abandoned : RunState
abandoned = record run_state { route_log = last_entry ∷ [] }

finalize_node-ending_example :
    (finalize_node abandoned).state.terminal ≡ some (ending_of record_dead_end)
unfolding node_label
finalize_node-ending_example =
    finalize_node-ending dead_end_row dead_end-IsRow refl abandoned [] last_entry refl refl
