-- ===== src/Nodes/Validate/Legal.antt =====
-- The verdict of `validate`: when it signals a failure, and that the table has the route it names.
use recertia.Prelude.{
  ◌≡◌, ◌∙◌, String, Bool, true, false, not, ◌&&◌, List, [], ◌∷◌, any, all, contains, is_empty,
  is_some, Bool-cases, inl, inr, ok, if◌then◌else◌, refl, subst, arith, str_eq_refl, str_eq,
}
use recertia.Contracts.Criteria.{TaskCriterion, CriterionResult, is_required}
use recertia.Contracts.Run.{RunState}
use recertia.Graph.Routes.{
  Route, Node, validate, join, distill, classify_failure, legal_routes, required_ids, passed_ids,
  required_criteria_pass, has_branches, failure_signal_present,
}
use recertia.Graph.Engine.{NodeOutcome, choose_route}
use recertia.Nodes.{Message}
use recertia.Nodes.Validate.{
  Scoring, Scored, effectively_required, add_score, score_all, score_criteria, validated,
  validate_node, signal_of, route_of, advisory_result,
}

-- A result carries the id of the criterion that it scores.
unfoldable pub Labelled : Scoring → Type 0
Labelled env = (c : TaskCriterion) → (env.score c).criterion_id ≡ c.id

within : List String → List CriterionResult → Bool
within ids results = all (λ i. contains i (passed_ids results)) ids

module _ (render : Message → String) (env : Scoring) where
  -- Some criterion that is required and proven did not pass.
  pub failing : TaskCriterion → Bool
  failing c = effectively_required env c && not (env.score c).passed

  score_all-failed :
      (cs : List TaskCriterion)
      → (score_all render env cs).any_effectively_required_failed ≡ any failing cs
  unfolding score_all add_score failing effectively_required
  score_all-failed [] = refl
  score_all-failed (c ∷ cs) = ground (arith, score_all-failed cs)

  within-cons :
      (ids : List String) (r : CriterionResult) (results : List CriterionResult)
      → within ids results ≡ true
      → within ids (r ∷ results) ≡ true
  unfolding within passed_ids
  within-cons [] r results h = refl
  within-cons (i ∷ ids) r results h = ground (arith, within-cons ids r results)

  found-passed :
      (i : String) (r : CriterionResult) (results : List CriterionResult)
      → r.criterion_id ≡ i
      → r.passed ≡ true
      → contains i (passed_ids (r ∷ results)) ≡ true
  unfolding passed_ids
  found-passed i r results same passed =
      rw (passed, subst (λ j. str_eq r.criterion_id j ≡ true) same (str_eq_refl r.criterion_id))
        refl

  -- A passed result in front covers the id of its criterion.
  within-passed :
      (i : String) (ids : List String) (r : CriterionResult) (results : List CriterionResult)
      → r.criterion_id ≡ i
      → r.passed ≡ true
      → within ids results ≡ true
      → within (i ∷ ids) (r ∷ results) ≡ true
  unfolding within
  within-passed i ids r results same passed h =
      ground (arith, found-passed i r results same passed, within-cons ids r results h)

  add_score-within :
      (c : TaskCriterion) (r : CriterionResult) (later : Scored) (ids : List String)
      → r.criterion_id ≡ c.id
      → (add_score render env c r later).any_effectively_required_failed ≡ false
      → within ids later.results ≡ true
      → within (if is_required c then c.id ∷ ids else ids) (add_score render env c r later).results
        ≡ true
  unfolding add_score advisory_result
  add_score-within c r later ids same none_failed h = ground (
    arith,
    within-passed c.id ids r later.results same,
    within-passed c.id ids (advisory_result render env r) later.results same refl,
    within-cons ids r later.results,
  )

  later_passed :
      (c : TaskCriterion) (r : CriterionResult) (later : Scored)
      → (add_score render env c r later).any_effectively_required_failed ≡ false
      → later.any_effectively_required_failed ≡ false
  unfolding add_score
  later_passed c r later h = ground arith

  score_all-within :
      Labelled env
      → (cs : List TaskCriterion)
      → (score_all render env cs).any_effectively_required_failed ≡ false
      → within (required_ids cs) (score_all render env cs).results ≡ true
  unfolding score_all required_ids Labelled within
  score_all-within labelled [] none_failed = refl
  score_all-within labelled (c ∷ cs) none_failed =
      add_score-within c (env.score c) (score_all render env cs) (required_ids cs) (labelled c)
        none_failed
        (score_all-within labelled cs
          (later_passed c (env.score c) (score_all render env cs) none_failed))

  validate_node-validated :
      (s : RunState) (out : NodeOutcome)
      → validate_node render env s ≡ ok out
      → validated render env s (score_all render env s.criteria) ≡ out
  unfolding validate_node score_criteria
  validate_node-validated s out answer = ground arith

  -- Where a validated run goes next.
  pub after_validate : RunState → Node
  after_validate s =
      if not (is_empty s.branches)
      then join
      else if any failing s.criteria
      then classify_failure
      else distill

  -- `validate` leaves a failure signal exactly when some criterion that is required and has a proof of
  -- its sensitivity did not pass: a required criterion without a proof never gates.
  pub validate_node-signal :
      (s : RunState) (out : NodeOutcome)
      → validate_node render env s ≡ ok out
      → is_some out.state.failure_signal ≡ any failing s.criteria
  unfolding validated signal_of
  validate_node-signal s out answer =
      subst (λ (o : NodeOutcome). is_some o.state.failure_signal ≡ any failing s.criteria)
        (validate_node-validated s out answer) (ground (arith, score_all-failed s.criteria))

  required-pass :
      Labelled env
      → (s : RunState) → any failing s.criteria ≡ false
      → required_criteria_pass (validated render env s (score_all render env s.criteria)).state
        ≡ true
  unfolding validated required_criteria_pass within
  required-pass labelled s none_failed =
      score_all-within labelled s.criteria (score_all-failed s.criteria ∙ none_failed)

  validated-Legal :
      Labelled env
      → (s : RunState) (branchless failed : Bool) → is_empty s.branches ≡ branchless
      → any failing s.criteria ≡ failed
      → (r : Route) × (choose_route validate
            (validated render env s (score_all render env s.criteria))
          ≡ ok r)
        × (r.target ≡ after_validate s)
  unfolding validated signal_of route_of choose_route legal_routes after_validate has_branches
      failure_signal_present
  validated-Legal labelled s false failed e f = rw e (_, refl, refl)
  validated-Legal labelled s true false e f =
      rw (required-pass labelled s f, score_all-failed s.criteria, e, f) (_, refl, refl)
  validated-Legal labelled s true true e f =
      elim (Bool-cases
        (required_criteria_pass (validated render env s (score_all render env s.criteria)).state)) [
          | inl p ↦ rw (p, score_all-failed s.criteria, e, f) (_, refl, refl)
          | inr p ↦ rw (p, score_all-failed s.criteria, e, f) (_, refl, refl)
        ]

  -- The route that `validate` names, in the state that it leaves.
  validate_node-routed :
      Labelled env
      → (s : RunState) (out : NodeOutcome) → validate_node render env s ≡ ok out
      → (r : Route) × (choose_route validate out ≡ ok r) × (r.target ≡ after_validate s)
  validate_node-routed labelled s out answer =
      subst
        (λ (o : NodeOutcome).
          (r : Route) × (choose_route validate o ≡ ok r) × (r.target ≡ after_validate s))
        (validate_node-validated s out answer)
        (validated-Legal labelled s (is_empty s.branches) (any failing s.criteria) refl refl)

  -- If every result carries the id of the criterion it scores, then the route that `validate` names is
  -- one the table allows in the state it leaves: to `join` if the run has branches, and else to
  -- `classify_failure` or `distill` as some proven required criterion failed or none did. `validate`
  -- leaves a failure signal exactly when some criterion that is required and has a proof of its
  -- sensitivity did not pass: a required criterion without a proof never gates.
  pub validate_node-Legal :
      Labelled env
      → (s : RunState) (out : NodeOutcome) → validate_node render env s ≡ ok out
      → ((r : Route) × (choose_route validate out ≡ ok r) × (r.target ≡ after_validate s))
        × (is_some out.state.failure_signal ≡ any failing s.criteria)
  validate_node-Legal labelled s out answer =
      (validate_node-routed labelled s out answer, validate_node-signal s out answer)
