-- ===== src/Graph/Routes/Tests.antt =====
-- The uniqueness of the legal route at a concrete state.
use recertia.Prelude.{◌≡◌, ◌↔◌, length}
use recertia.Graph.Routes.{plan, legal_routes}
use recertia.Graph.Routes.Unique.{Decides, legal_routes-unique_iff}
use recertia.Samples.{run_state}

legal_routes-unique_iff_example :
    (length (legal_routes plan run_state) ≡ 1) ↔ Decides plan run_state
legal_routes-unique_iff_example = legal_routes-unique_iff plan run_state
