-- ===== src/Nodes/Join/Unmergeable.antt =====
-- A decomposition that cannot be merged, and the route that join then names.
use recertia.Prelude.{
  String, Bool, true, false, not, ◌&&◌, ◌||◌, List, [], ◌∷◌, ◌++◌, any, all, is_empty, length, leb,
  Outcome, ok, raised, Bool-cases, inl, inr, ◌∙◌, ◌≡◌, refl, ap, arith, if◌then◌else◌, count,
}
use recertia.Contracts.Branch.{BranchState, MergeAudit, MergeAction, is_complete}
use recertia.Contracts.Failure.{FailureSource}
use recertia.Contracts.Run.{RunState}
use recertia.Graph.Routes.{
  Route, Node, join, classify_failure, legal_routes, required_criteria_pass,
  join_complete_and_passing,
}
use recertia.Graph.Engine.{NodeOutcome, RunError, illegal_route, choose_route}
use recertia.Nodes.{Message}
use recertia.Nodes.Join.{
  Joining, is_received, is_succeeded, is_portfolio, is_portfolio_kind, missing_ids, audit_of,
  unmerged, join_decomposition, join_received, join_node, layer_threshold,
}

-- If no branch is missing, as many are received as are expected.
received_all :
    (branches : List BranchState)
    → missing_ids branches ≡ []
    → count (λ b. is_received b.status) branches ≡ length branches
received_all [] h = refl
received_all (b ∷ branches) h = ground (arith, received_all branches)

all_complete-append :
    (audits : List MergeAudit) (a : MergeAudit)
    → is_complete a ≡ true
    → all is_complete (audits ++ a ∷ []) ≡ all is_complete audits
all_complete-append [] a h = ground arith
all_complete-append (b ∷ audits) a h = ap (λ x. is_complete b && x) (all_complete-append audits a h)

is_empty-append : (audits : List MergeAudit) (a : MergeAudit) → is_empty (audits ++ a ∷ []) ≡ false
is_empty-append [] a = refl
is_empty-append (b ∷ audits) a = refl

abbrev pub target_of : Outcome RunError Route → Outcome RunError Node
target_of (ok r) = ok r.target
target_of (raised e) = raised e

module _ (render : Message → String) (env : Joining) (s : RunState) where
  audit_complete :
      (action : MergeAction) (layered : Bool)
      → missing_ids s.branches ≡ []
      → is_complete (audit_of render env s [] action layered) ≡ true
  unfolding is_complete audit_of
  audit_complete action layered h = ground (arith, received_all s.branches h)

  passing-unmerged :
      (layered : Bool) (source : FailureSource) (detail remark : String)
      → missing_ids s.branches ≡ []
      → join_complete_and_passing (unmerged render env s layered source detail remark).state
        ≡ (all is_complete s.merge_audits && required_criteria_pass s)
  unfolding join_complete_and_passing unmerged required_criteria_pass
  passing-unmerged layered source detail remark h =
      rw
        (
          is_empty-append s.merge_audits (audit_of render env s [] MergeAction.failed layered),
          all_complete-append s.merge_audits (audit_of render env s [] MergeAction.failed layered)
              (audit_complete MergeAction.failed layered h),
        )
        refl

  route-unmerged :
      (layered : Bool) (source : FailureSource) (detail remark : String)
      → missing_ids s.branches ≡ []
      → target_of (choose_route join (unmerged render env s layered source detail remark)) ≡ (
          if all is_complete s.merge_audits && required_criteria_pass s
          then raised illegal_route
          else ok classify_failure)
  unfolding choose_route legal_routes unmerged
  route-unmerged layered source detail remark h =
      elim (Bool-cases (all is_complete s.merge_audits && required_criteria_pass s)) [
        | inl e ↦ rw (passing-unmerged layered source detail remark h ∙ e, e) refl
        | inr e ↦ rw (passing-unmerged layered source detail remark h ∙ e, e) refl
      ]

  -- If every branch of a decomposition has ended and one of them did not succeed, join returns and
  -- names the route "otherwise". The engine then goes on to classify_failure, unless all earlier audits
  -- are complete and the results from before the merge pass every required criterion: then it
  -- stops the run with an illegal route.
  pub join_node-unmerged :
      missing_ids s.branches ≡ []
      → (is_portfolio s.strategy || any (λ b. is_portfolio_kind b.kind) s.branches) ≡ false
      → any (λ b. not (is_succeeded b.status)) s.branches ≡ true
      → (out : NodeOutcome) × ((join_node render env s ≡ ok out)
          × (target_of (choose_route join out) ≡ (
              if all is_complete s.merge_audits && required_criteria_pass s
              then raised illegal_route
              else ok classify_failure)))
  unfolding join_node join_received join_decomposition
  join_node-unmerged h single lost = (
    unmerged render env s (leb layer_threshold (length s.branches)) FailureSource.solver
        "decomposition branch failed" "decomposition incomplete",
    (
      rw (h, single, lost) refl,
      route-unmerged (leb layer_threshold (length s.branches)) FailureSource.solver _ _ h,
    ),
  )
