-- ===== src/Graph/Engine/Legal.antt =====
-- A round moves on along a row of the route table only.
use recertia.Prelude.{
  ℕ, ◌==◌, ◌≡◌, ◌⊎◌, inl, inr, Bool, true, false, List, [], ◌∷◌, All, keep, refl, arith, ap, ◌∙◌,
  ◌≤◌, sym, ok, if◌then◌else◌,
}
use recertia.Contracts.Run.{RunState}
use recertia.Graph.Routes.{
  Node, intake, retrieve, plan, fan_out, solve, validate, join, classify_failure, evolve, distill,
  review, store, record_dead_end, reject_draft, finalize, Route, node_no, routes, routes_from,
  legal_routes,
}
use recertia.Graph.Engine.{NodeOutcome, Engine, Host, Loop, moved, round, attempt_for}
use recertia.Graph.Engine.Choice.{choose_route-All}
use recertia.Graph.Engine.Rounds.{round-Moved}

-- A row of a table.
abbrev pub IsRow : Route → List Route → Type 0
IsRow r [] = ⊥
IsRow r (x ∷ xs) = (r ≡ x) ⊎ IsRow r xs

All-IsRow :
    (table rows : List Route)
    → ((r : Route) → IsRow r rows → IsRow r table)
    → All (λ r. IsRow r table) rows
All-IsRow table [] within = tt
All-IsRow table (x ∷ rows) within =
    (within x (inl refl), All-IsRow table rows (λ r h. within r (inr h)))

All-keep :
    (P : Route → Type 0) (p : Route → Bool) (rows : List Route)
    → All P rows
    → All (λ r. P r × (p r ≡ true)) (keep p rows)
All-keep P p [] h = tt
All-keep P p (x ∷ rows) h = split (p x) refl (All-keep P p rows h.1)
  where
    split :
        (b : Bool)
        → p x ≡ b
        → All (λ r. P r × (p r ≡ true)) (keep p rows)
        → All (λ r. P r × (p r ≡ true)) (if b then x ∷ keep p rows else keep p rows)
    split true e rest = ((h.0, e), rest)
    split false e rest = rest

node_at : ℕ → Node
node_at k =
    if k == 0
    then intake
    else if k == 1
    then retrieve
    else if k == 2
    then plan
    else if k == 3
    then fan_out
    else if k == 4
    then solve
    else if k == 5
    then validate
    else if k == 6
    then join
    else if k == 7
    then classify_failure
    else if k == 8
    then evolve
    else if k == 9
    then distill
    else if k == 10
    then review
    else if k == 11
    then store
    else if k == 12
    then record_dead_end
    else if k == 13
    then reject_draft
    else finalize

node_at-node_no : (n : Node) → node_at (node_no n) ≡ n
unfolding node_at
node_at-node_no intake = refl
node_at-node_no n = refl

same_node : (a b : Node) → (node_no a == node_no b) ≡ true → a ≡ b
same_node a b h =
    let numbers : node_no a ≡ node_no b = ground arith in
    sym (node_at-node_no a) ∙ (ap node_at numbers ∙ node_at-node_no b)

legal_routes-IsRow :
    (n : Node) (s : RunState)
    → All
        (λ r. (IsRow r routes × ((node_no r.source == node_no n) ≡ true)) × (r.predicate s ≡ true))
        (legal_routes n s)
unfolding legal_routes routes_from
legal_routes-IsRow n s =
    All-keep (λ r. IsRow r routes × ((node_no r.source == node_no n) ≡ true)) (λ r. r.predicate s)
      (keep (λ r. node_no r.source == node_no n) routes)
      (All-keep (λ r. IsRow r routes) (λ r. node_no r.source == node_no n) routes
        (All-IsRow routes routes (λ r h. h)))

-- A round that moves on commits a hop along a row of the route table: the row leads from the round's
-- node to the loop's next node, and its predicate holds in the state that the node returned, which
-- has not written more versions than its budget allows.
pub round-IsRow :
    (host : Host) (e : Engine) (l l' : Loop host)
    → round host e l ≡ moved l'
    → (out : NodeOutcome) × (r : Route) × ((w : host.World) × (w' : host.World) × (host.node_func
            l.node l.state
            (attempt_for l.node l.state)
            w
          ≡ (ok out, w')))
      × IsRow r routes
      × (r.source ≡ l.node)
      × (r.target ≡ l'.node)
      × (r.predicate out.state ≡ true)
      × (out.state.spent.versions_written ≤ out.state.budget.max_versions_written)
round-IsRow host e l l' h =
    let m = round-Moved host e l l' h in
    let row =
      choose_route-All
        (λ r.
          (IsRow r routes × ((node_no r.source == node_no l.node) ≡ true))
          × (r.predicate m.outcome.state ≡ true))
        l.node m.outcome m.chosen (legal_routes-IsRow l.node m.outcome.state) m.chose in
    (
      m.outcome,
      m.chosen,
      (m.node_world, m.ran_world, m.ran),
      (row.0).0,
      same_node m.chosen.source l.node (row.0).1,
      sym m.to,
      row.1,
      m.versions,
    )
