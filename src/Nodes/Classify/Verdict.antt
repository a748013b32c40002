-- ===== src/Nodes/Classify/Verdict.antt =====
-- What `classify_failure` decides: its assertions never fail, and where it sends the run.
use recertia.Prelude.{
  ◌≡◌, String, Bool, true, false, not, some, List, [], ◌∷◌, ok, raised, arith, refl, subst, sym,
  str_eq_refl, All-first_case, All, length, if◌then◌else◌,
}
use recertia.Contracts.Failure.{FailureSignal, FailureVerdict, is_criteria, is_consistent}
use recertia.Contracts.Run.{RunState}
use recertia.Graph.Routes.{
  Route, classify_failure, evolve, record_dead_end, legal_routes, budget_remains_with_progress,
}
use recertia.Graph.Routes.Unique.{legal_routes-unique_iff}
use recertia.Graph.Engine.{NodeOutcome, choose_route}
use recertia.Nodes.{Message, classified_as, inconsistent_verdict}
use recertia.Nodes.Classify.{
  ClassifyContext, failure_of, failure_cases, otherwise_failure, classify_node, with_verdict,
  classify_signal, classified,
}

-- Every legal route leads on to a retry where one is due, and else to the dead end.
exits :
    (s : RunState)
    → All
        (λ r. r.target ≡ (if budget_remains_with_progress s then evolve else record_dead_end))
        (legal_routes classify_failure s)
unfolding legal_routes
exits s = split (budget_remains_with_progress s) refl
  where
    split :
        (b : Bool)
        → budget_remains_with_progress s ≡ b
        → All
            (λ r. r.target ≡ (if budget_remains_with_progress s then evolve else record_dead_end))
            (legal_routes classify_failure s)
    split true e = rw e (refl, tt)
    split false e = rw e (refl, tt)

one_exit : (s : RunState) → length (legal_routes classify_failure s) ≡ 1
one_exit s = (legal_routes-unique_iff classify_failure s).1 tt

-- A verdict is consistent unless it blames the criteria: that class counts against trust, and the node
-- says that it does not.
IsTold : FailureVerdict → Type 0
IsTold v = is_consistent v ≡ not (is_criteria v.failure_class)

module _ (render : Message → String) (ctx : ClassifyContext) (s : RunState)
    (signal : FailureSignal) where
  cases-IsTold : All (λ c. IsTold c.1) (failure_cases render ctx s signal)
  unfolding failure_cases IsTold is_consistent
  cases-IsTold = (refl, (refl, (refl, (refl, (refl, (refl, (refl, (refl, tt))))))))

  otherwise-IsTold : IsTold (otherwise_failure render s signal)
  unfolding otherwise_failure IsTold is_consistent
  otherwise-IsTold = refl

  failure_of-IsTold :
      is_consistent (failure_of render ctx s signal)
      ≡ not (is_criteria (failure_of render ctx s signal).failure_class)
  unfolding failure_of IsTold
  failure_of-IsTold =
      All-first_case IsTold (failure_cases render ctx s signal) (otherwise_failure render s signal)
        cases-IsTold otherwise-IsTold

-- What a classified run is left with.
pub record Classified (s : RunState) (out : NodeOutcome) : Type 0 where
  pub failure : FailureVerdict
  pub verdict : out.state ≡ record s { failure = some failure }
  pub consistent : is_consistent failure ≡ true
  pub chosen : Route
  pub chose : choose_route classify_failure out ≡ ok chosen
  pub goes_to :
      chosen.target ≡ (if budget_remains_with_progress out.state then evolve else record_dead_end)

module _ (render : Message → String) where
  answered_with :
      (s : RunState) (failure : FailureVerdict)
      → is_consistent failure ≡ true
      → (rs : List Route) → legal_routes classify_failure (record s { failure = some failure }) ≡ rs
      → length rs ≡ 1
      → (out : NodeOutcome) × (with_verdict render s failure ≡ ok out) × Classified s out
  unfolding with_verdict classified choose_route
  answered_with s failure good [] e one = ground arith
  answered_with s failure good (r ∷ q ∷ rest) e one = ground arith
  answered_with s failure good (r ∷ []) e one =
      let new_state : RunState = record s { failure = some failure } in
      let goes_to =
        subst
          (λ rs.
            All
              (λ (x : Route).
                x.target
                ≡ (if budget_remains_with_progress new_state then evolve else record_dead_end))
              rs)
          e (exits new_state) in
      (
        record {
          state = record s { failure = some failure };
          route = some r.predicate_name;
          note = some (render (classified_as failure.failure_class));
        },
        rw (good, e) refl,
        record {
          failure = failure;
          verdict = refl;
          consistent = good;
          chosen = r;
          chose = rw (e, str_eq_refl r.predicate_name) refl;
          goes_to = goes_to.0;
        },
      )

module _ (render : Message → String) (ctx : ClassifyContext) (s : RunState) (signal : FailureSignal)
    (given : s.failure_signal ≡ some signal) where
  -- A failure signal that the chain does not blame on the criteria is answered: neither assertion
  -- fails, the verdict is consistent, nothing else changes in the state, and the engine sends the run
  -- to `evolve` if a retry is due, and to `record_dead_end` if not.
  pub classify_node-Classified :
      is_criteria (failure_of render ctx s signal).failure_class ≡ false
      → (out : NodeOutcome) × (classify_node render ctx s ≡ ok out) × Classified s out
  unfolding classify_node classify_signal
  classify_node-Classified other =
      let failure = failure_of render ctx s signal in
      let told = failure_of-IsTold render ctx s signal in
      subst
        (λ o. (out : NodeOutcome) × (classify_signal render ctx s o ≡ ok out) × Classified s out)
        (sym given)
        (answered_with render s failure (ground arith)
          (legal_routes classify_failure (record s { failure = some failure })) refl
          (one_exit (record s { failure = some failure })))

  -- A failure that the chain blames on the criteria ends in the failed assertion of consistency, and
  -- so in no verdict at all.
  pub criteria_blame_raises :
      is_criteria (failure_of render ctx s signal).failure_class ≡ true
      → classify_node render ctx s ≡ raised inconsistent_verdict
  unfolding classify_node classify_signal with_verdict
  criteria_blame_raises blamed =
      let told = failure_of-IsTold render ctx s signal in
      subst (λ o. classify_signal render ctx s o ≡ raised inconsistent_verdict) (sym given)
        (ground arith)
