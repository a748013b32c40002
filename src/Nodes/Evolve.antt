-- ===== src/Nodes/Evolve.antt =====
-- nodes/evolve.py: restoring the workspace and the repair move. The dead ends of episodic memory, the
-- published patch templates, the signature of a failure and the restore itself are arguments.
pub mod Moves
mod Tests
use recertia.Prelude.{
  String, Bool, true, false, not, Option, none, some, List, [], ◌∷◌, str_eq, is_some, find, keep,
  Outcome, ok, raised, if◌then◌else◌, ◌&&◌, ◌==◌,
}
use recertia.Contracts.Common.{Strategy, apply, adapt, scratch}
use recertia.Contracts.Failure.{
  FailureClass, environment, tool, retrieval, plan, execution, criteria, budget, merge,
  FailureSignal, FailureVerdict,
}
use recertia.Contracts.Run.{RunState, SkillCandidateRef, MemoryBundle, WorkspaceSnapshot}
use recertia.Graph.Routes.{last_two_equal}
use recertia.Graph.Engine.{NodeOutcome}
use recertia.Nodes.{
  Message, skill_approach, strategy_approach, switch_reason, no_move, suppressed_reason,
  template_name, template_reason, evolved, NodeError, no_snapshot, not_restored,
}

pub record DeadEnd : Type 0 where
  pub approach : String
  pub why_failed : String

pub record Evolving : Type 0 where
  -- the message of the exception, where the restore of a snapshot fails
  pub restore : String → Option String
  -- `dead_ends_for`, the cases that have a dead end
  pub dead_ends : Option (List DeadEnd)
  -- `normalize_signature`
  pub normalize : String → FailureClass → String
  pub patch_templates : Option (String → Option String)

pub record Move : Type 0 where
  pub name : String
  pub approach : String
  pub reason : String
  pub strategy : Option Strategy
  pub drop_chosen : Bool

abbrev is_apply : Option Strategy → Bool
is_apply (some apply) = true
is_apply _ = false

-- `"scratch" if state.strategy != "scratch" else "adapt"`
abbrev pub next_strategy : Option Strategy → Strategy
next_strategy (some scratch) = adapt
next_strategy _ = scratch

abbrev class_of : Option FailureVerdict → FailureClass
class_of none = execution
class_of (some v) = v.failure_class

abbrev class_text : FailureClass → String
class_text environment = "environment"
class_text tool = "tool"
class_text retrieval = "retrieval"
class_text plan = "plan"
class_text execution = "execution"
class_text criteria = "criteria"
class_text budget = "budget"
class_text merge = "merge"

first_evidence : FailureClass → Option FailureVerdict → String
first_evidence c none = class_text c
first_evidence c (some v) = elim v.evidence [ [] ↦ class_text c | e ∷ _ ↦ e ]

-- The text whose signature is looked up.
why_of : FailureClass → Option FailureSignal → Option FailureVerdict → String
unfolding first_evidence
why_of c (some signal) verdict = signal.detail
why_of c none verdict = first_evidence c verdict

abbrev strategy_text : Strategy → String
strategy_text scratch = "scratch"
strategy_text _ = "adapt"

module _ (render : Message → String) (env : Evolving) where
  approach_of : Option SkillCandidateRef → Option Strategy → String
  approach_of (some c) strategy = render (skill_approach c)
  approach_of none strategy = render (strategy_approach strategy)

  -- `_current_approach`
  unfoldable pub current_approach : RunState → String
  unfolding approach_of
  current_approach s = approach_of s.chosen s.strategy

  keeping : RunState → String → String → Move
  keeping s name reason = record {
    name = name;
    approach = current_approach s;
    reason = reason;
    strategy = s.strategy;
    drop_chosen = false;
  }

  -- `_repair_move`
  unfoldable pub repair_move : FailureClass → RunState → Move
  unfolding keeping
  repair_move environment s =
      keeping s "repair_environment"
        "environment failure: keep strategy, repair workspace via restore"
  repair_move tool s =
      keeping s "retry_backoff"
        "tool failure: retry same approach after restore (backoff is temporal)"
  repair_move retrieval s = record {
    name = "drop_and_rereetrieve";
    approach = "scratch";
    reason = "retrieval failure: drop candidate, fall back to scratch";
    strategy = some scratch;
    drop_chosen = true;
  }
  repair_move plan s = record {
    name = "switch_strategy";
    approach = strategy_text (next_strategy s.strategy);
    reason = render (switch_reason s.strategy (next_strategy s.strategy));
    strategy = some (next_strategy s.strategy);
    drop_chosen = is_apply s.strategy;
  }
  repair_move execution s =
      keeping s "patch_artifacts"
        "execution failure: restore and retry with same strategy (patch via criteria)"
  repair_move merge s =
      keeping s "redispatch_serial" "merge failure: re-dispatch from snapshot, serialised"
  repair_move criteria s = keeping s "noop_restore" (render (no_move criteria))
  repair_move budget s = keeping s "noop_restore" (render (no_move budget))

  avoid : String → DeadEnd → Move
  avoid approach d = record {
    name = "avoid_dead_end";
    approach = "scratch";
    reason = render (suppressed_reason approach d.why_failed);
    strategy = some scratch;
    drop_chosen = true;
  }

  pub first_match : String → Option (List DeadEnd) → Option DeadEnd
  first_match approach none = none
  first_match approach (some dead_ends) = find (λ d. str_eq d.approach approach) dead_ends

  -- `_suppress_repeated_approach`, and the move that stands without it.
  or_suppressed : Move → Option DeadEnd → Move
  unfolding avoid
  or_suppressed move none = move
  or_suppressed move (some d) = avoid move.approach d

  templated : RunState → Move → String → Move
  templated s move template = record {
    name = render (template_name template);
    approach = move.approach;
    reason = render (template_reason template);
    strategy = s.strategy;
    drop_chosen = false;
  }

  found_template : String → Option (String → Option String) → Option String
  found_template signature none = none
  found_template signature (some get) = if str_eq signature "" then none else get signature

  unfoldable pub template_of : RunState → Option String
  unfolding found_template why_of
  template_of s =
      found_template
        (env.normalize (why_of (class_of s.failure) s.failure_signal s.failure)
          (class_of s.failure))
        env.patch_templates

  or_templated : RunState → Move → Option String → Move
  unfolding templated
  or_templated s move none = move
  or_templated s move (some template) = templated s move template

  unfoldable pub chosen_move : RunState → Move
  unfolding or_templated or_suppressed first_match
  chosen_move s =
      let move = repair_move (class_of s.failure) s in
      or_templated s (or_suppressed move (first_match move.approach env.dead_ends)) (template_of s)

  with_strategy : Move → Option Strategy → RunState → RunState
  with_strategy move none s = s
  with_strategy move (some t) s = record s { strategy = some t; strategy_reason = some move.reason }

  same_candidate : SkillCandidateRef → SkillCandidateRef → Bool
  same_candidate a b =
      str_eq a.skill_id b.skill_id
      && (a.version == b.version && (a.score == b.score && same_flag a.is_shadow b.is_shadow))
    where
      same_flag : Bool → Bool → Bool
      same_flag true b = b
      same_flag false b = not b

  without : Option SkillCandidateRef → List SkillCandidateRef → List SkillCandidateRef
  unfolding same_candidate
  without none skills = skills
  without (some c) skills = keep (λ x. not (same_candidate x c)) skills

  -- Dropping the chosen skill, also from the bundle.
  dropped : Bool → RunState → RunState
  unfolding without
  dropped false s = s
  dropped true s = record s {
    chosen = none;
    bundle = record s.bundle { skills = without s.chosen s.bundle.skills };
  }

  repaired : RunState → WorkspaceSnapshot → List WorkspaceSnapshot → Move → RunState
  unfolding with_strategy dropped
  repaired s clean later move = dropped move.drop_chosen (
      with_strategy move move.strategy (record s {
        workspace_snapshots = record clean { restored = true } ∷ later;
        failure_signal = none;
        transcript_ref = none;
      }))

  after_restore :
      RunState
      → WorkspaceSnapshot
      → List WorkspaceSnapshot
      → Option String
      → Outcome NodeError NodeOutcome
  unfolding repaired
  after_restore s clean later (some e) = raised (not_restored e)
  after_restore s clean later none =
      let move = chosen_move s in
      ok (record {
        state = repaired s clean later move;
        route = some "always";
        note = some (
            render (
              evolved (last_two_equal s.results_history) clean.snapshot_ref move.name move.approach
                (template_of s)));
      })

  evolve_from : RunState → List WorkspaceSnapshot → Outcome NodeError NodeOutcome
  unfolding after_restore
  evolve_from s [] = raised no_snapshot
  evolve_from s (clean ∷ later) = after_restore s clean later (env.restore clean.snapshot_ref)

  -- `evolve`
  pub evolve_node : RunState → Outcome NodeError NodeOutcome
  unfolding evolve_from
  evolve_node s = evolve_from s s.workspace_snapshots
