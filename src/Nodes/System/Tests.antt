-- ===== src/Nodes/System/Tests.antt =====
-- A run whose scripts succeed, on a host whose other nodes pass the state on.
use recertia.Prelude.{
  ℕ, ◌≤◌, ◌≡◌, ◌≢◌, true, false, none, some, [], ◌∷◌, ok, raised, arith, ap, subst, ok-injective,
}
use recertia.Prelude.Int.{pos}
use recertia.Samples.{run_state, result}
use recertia.Graph.Store.{HopDb, Checkpoint, latest, latest_row}
use recertia.Graph.Engine.{NodeOutcome, Host, start, resume, ran_out}
use recertia.Graph.Engine.Termination.{attempts_left}
use recertia.Nodes.Validate.{Scoring}
use recertia.Nodes.Join.{conflict}
use recertia.Nodes.Solve.Env.{Solving}
use recertia.Nodes.System.{Services, composed, Keeps, composed-enough}

abbrev passing_on : Host
passing_on = record {
  World = ℕ;
  before = λ _ w. (false, w);
  node_func = λ _ s _ w. (ok (record { state = s; route = none; note = none }), w);
  after = λ _ _ w. w;
  snapshot = λ _ w. ("snapshot", w);
  adjust = λ _ _ s w. (s, [], w);
  trajectory = λ _ _ _ _ _ _. [];
  node_name = λ _. "node";
  now = λ _. "now";
  on_finalize = λ _ w. w;
  offload_idle = λ _ w. w;
  restore_idle = λ _ w. w;
}

abbrev scripted : Solving
scripted = record {
  script = some ("make" ∷ []);
  has_tools = false;
  has_model = false;
  has_applicator = false;
  has_store = false;
  transcripts = none;
  proposed = raised "no model";
  model_help = "set a model";
  skill_script = λ _. raised "no store";
  command_op = λ _ _. ok (record {
    returncode = pos 0;
    flaky = false;
    usage = record { tool_calls = 1; tokens = 0; cost_usd = 0 };
  });
  scratch_op = λ _ _. raised "no model";
  apply_op = λ _. raised "no applicator";
  scratch_max_steps = 3;
  branch_command = λ _ _ _. pos 0;
  score_owned = λ _ c. ok (result true c);
  branch_elapsed_s = λ _. 1;
  branch_workspace = λ b. b.branch_id;
  clock_start = 100;
  clock_at = λ _. 101;
  clock_end = 102;
  now = "now";
}

abbrev passing : Scoring
passing = record {
  evidence_hash = λ _ _. "hash";
  score = λ c. result true c;
  observations = λ _. [];
  now = "now";
}

abbrev services : Services passing_on
services = record {
  render = λ _. "text";
  error_text = λ _. "error";
  planning = λ _ _. record { deterministic_guide = false; stitch_guide = λ _. none };
  fanning_out =
      λ _ _. record { run_id = "run-1"; script = none; now = "now"; in_workdir = λ name. name };
  classifying = λ _ _. record { tools = none; affordances = none; lower = λ t. t };
  solving = λ _ _ _. scripted;
  scoring = λ _ _. passing;
  joining = λ _ _. record {
    scoring = passing;
    materialize_decomposition = λ _ _. conflict "conflict";
    now = "now";
  };
  evolving = λ _ _. record {
    restore = λ _. none;
    dead_ends = none;
    normalize = λ why _. why;
    patch_templates = none;
  };
  after_node = λ _ _ w. w;
}

abbrev empty_db : HopDb
empty_db = record {
  checkpoints = [];
  run_summaries = [];
  eval_outbox = [];
  trajectory_events = [];
  route_entries = [];
  run_leases = [];
}

keeps : Keeps passing_on services
keeps = record {
  others_keep = λ n s k w w' out h.
      subst (λ (p : NodeOutcome). attempts_left p.state ≤ attempts_left s)
        (ok-injective (ap (λ p. p.0) h)) (omega arith);
  adjust_keeps = λ n k s w. omega arith;
}

none_stored : (c : Checkpoint) → latest "run-1" empty_db ≡ some c → attempts_left c.state ≤ 97
unfolding latest latest_row
none_stored c h = absurd cc

few : attempts_left run_state ≤ 97
unfolding attempts_left
few = omega arith

composed-enough_example :
    (start
        (composed passing_on services)
        (record { tenant_id = "local"; fencing_token = none })
        none
        run_state
        empty_db
        0
      ≢ ran_out empty_db 0)
    × (resume
          (composed passing_on services)
          (record { tenant_id = "local"; fencing_token = none })
          none
          "run-1"
          empty_db
          0
        ≢ ran_out empty_db 0)
composed-enough_example =
    composed-enough passing_on services keeps (record { tenant_id = "local"; fencing_token = none })
      none run_state empty_db empty_db 0 0 few none_stored
