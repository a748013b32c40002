-- ===== src/Nodes/Finalize/Ending.antt =====
-- What `finalize` makes of each row of the route table that leads to it.
use recertia.Prelude.{
  ◌≡◌, ◌∙◌, String, true, some, List, [], ◌∷◌, ◌++◌, All, inl, inr, refl, ap, sym, subst,
  if◌then◌else◌,
}
use recertia.Contracts.Common.{Terminal, abstained, solved, unsolved, rejected, error}
use recertia.Contracts.Run.{RunState, RouteEntry}
use recertia.Graph.Routes.{
  Node, intake, retrieve, plan, fan_out, solve, validate, join, classify_failure, evolve, distill,
  review, store, record_dead_end, reject_draft, finalize, Route, routes,
}
use recertia.Graph.Engine.{is_node}
use recertia.Graph.Engine.Legal.{IsRow}
use recertia.Nodes.Finalize.{finalize_node, terminal_after, predecessor}

-- The literals that the source calls the nodes by.
unfoldable pub node_label : Node → String
node_label intake = "intake"
node_label retrieve = "retrieve"
node_label plan = "plan"
node_label fan_out = "fan_out"
node_label solve = "solve"
node_label validate = "validate"
node_label join = "join"
node_label classify_failure = "classify_failure"
node_label evolve = "evolve"
node_label distill = "distill"
node_label review = "review"
node_label store = "store"
node_label record_dead_end = "record_dead_end"
node_label reject_draft = "reject_draft"
node_label finalize = "finalize"

-- The outcome that the table's descriptions give each way to the end.
abbrev pub ending_of : Node → Terminal
ending_of plan = abstained
ending_of distill = solved
ending_of store = solved
ending_of record_dead_end = unsolved
ending_of reject_draft = rejected
ending_of _ = error

Ends : Route → Type 0
Ends r =
    (if is_node r.target finalize then terminal_after (node_label r.source) else ending_of r.source)
    ≡ ending_of r.source

rows-Ends : All Ends routes
unfolding Ends routes terminal_after node_label
rows-Ends = (
  refl,
  (
    refl,
    (
      refl,
      (
        refl,
        (
          refl,
          (
            refl,
            (
              refl,
              (
                refl,
                (
                  refl,
                  (
                    refl,
                    (
                      refl,
                      (
                        refl,
                        (
                          refl,
                          (
                            refl,
                            (
                              refl,
                              (
                                refl,
                                (refl, (refl, (refl, (refl, (refl, (refl, (refl, (refl, tt)))))))),
                              ),
                            ),
                          ),
                        ),
                      ),
                    ),
                  ),
                ),
              ),
            ),
          ),
        ),
      ),
    ),
  ),
)

All-at : (P : Route → Type 0) (rows : List Route) (r : Route) → All P rows → IsRow r rows → P r
All-at P [] r h at = absurd at
All-at P (x ∷ rows) r h (inl e) = subst P (sym e) h.0
All-at P (x ∷ rows) r h (inr later) = All-at P rows r h.1 later

predecessor-append :
    (log : List RouteEntry) (entry : RouteEntry) → predecessor (log ++ entry ∷ []) ≡ entry.node
unfolding predecessor
predecessor-append [] entry = refl
predecessor-append (x ∷ []) entry = refl
predecessor-append (x ∷ y ∷ log) entry = predecessor-append (y ∷ log) entry

-- If the last entry of the route log is a hop along a row of the table that leads to `finalize`, the
-- run ends with the outcome that belongs to the row's source.
pub finalize_node-ending :
    (r : Route)
    → IsRow r routes
    → is_node r.target finalize ≡ true
    → (s : RunState) (log : List RouteEntry) (entry : RouteEntry) → entry.node ≡ node_label r.source
    → s.route_log ≡ log ++ entry ∷ []
    → (finalize_node s).state.terminal ≡ some (ending_of r.source)
unfolding finalize_node Ends
finalize_node-ending r row last s log entry named logged =
    let ends = rw last at (All-at Ends routes r rows-Ends row) in
    ap (λ t. some (terminal_after t)) (ap predecessor logged ∙ predecessor-append log entry ∙ named)
    ∙ ap some ends

-- The row of the table from a dead end.
abbrev pub dead_end_row : Route
dead_end_row = record {
  source = record_dead_end;
  target = finalize;
  predicate_name = "always";
  predicate = λ _. true;
  description = "record_dead_end always finalises.";
}

pub dead_end-IsRow : IsRow dead_end_row routes
unfolding routes
dead_end-IsRow = inr (
    inr (
      inr (
        inr (
          inr (
            inr (
              inr (
                inr (
                  inr (
                    inr (
                      inr (
                        inr (
                          inr (
                            inr (
                              inr (inr (inr (inr (inr (inr (inr (inr (inl refl))))))))))))))))))))))
