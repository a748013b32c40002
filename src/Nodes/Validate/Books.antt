-- ===== src/Nodes/Validate/Books.antt =====
-- validate does not charge the run.
use recertia.Prelude.{String, refl}
use recertia.Contracts.Run.{RunState}
use recertia.Nodes.{Message}
use recertia.Nodes.Free.{IsFree, IsFree-bind}
use recertia.Nodes.Validate.{Scoring, score_criteria, validated, validate_node}

pub validate_node-IsFree :
    (render : Message → String) (env : Scoring) (s : RunState)
    → IsFree s (validate_node render env s)
unfolding validate_node validated
validate_node-IsFree render env s =
    IsFree-bind s (score_criteria render env s) (validated render env s) (λ scored. (refl, refl))
