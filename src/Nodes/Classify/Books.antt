-- ===== src/Nodes/Classify/Books.antt =====
-- classify_failure does not charge the run.
use recertia.Prelude.{String, not, Option, none, some, Outcome, ok, raised, refl}
use recertia.Contracts.Failure.{FailureSignal, FailureVerdict, is_consistent}
use recertia.Contracts.Run.{RunState}
use recertia.Graph.Routes.{Route, classify_failure, legal_routes}
use recertia.Nodes.{Message, NodeError, inconsistent_verdict}
use recertia.Nodes.Free.{IsFree, IsFree-raise_if}
use recertia.Nodes.Classify.{
  ClassifyContext, classified, with_verdict, classify_signal, classify_node, failure_of, only_route,
}

module _ (render : Message → String) (ctx : ClassifyContext) (s : RunState) where
  classified-IsFree :
      (failure : FailureVerdict) (r : Outcome NodeError Route)
      → IsFree s (classified render (record s { failure = some failure }) failure r)
  unfolding classified
  classified-IsFree failure (raised e) = tt
  classified-IsFree failure (ok r) = (refl, refl)

  classify_signal-IsFree :
      (signal : Option FailureSignal) → IsFree s (classify_signal render ctx s signal)
  unfolding classify_signal with_verdict
  classify_signal-IsFree none = tt
  classify_signal-IsFree (some signal) =
      let failure = failure_of render ctx s signal in
      let chosen =
        only_route (legal_routes classify_failure (record s { failure = some failure })) in
      IsFree-raise_if s (not (is_consistent failure)) inconsistent_verdict
        (classified render (record s { failure = some failure }) failure chosen)
        (classified-IsFree failure chosen)

  pub classify_node-IsFree : IsFree s (classify_node render ctx s)
  unfolding classify_node
  classify_node-IsFree = classify_signal-IsFree s.failure_signal
