-- ===== src/Nodes/Join.antt =====
-- nodes/join.py: the audit of a merge, the winner of a portfolio, and the merge of a decomposition.
-- Copying the files of workspaces is left out; what it answers for a decomposition is an argument.
pub mod Winner
pub mod Unmergeable
pub mod Books
mod Tests
use recertia.Prelude.{
  ℕ, zero, suc, ◌+◌, ◌/◌, ◌==◌, max, String, Bool, true, false, not, ◌&&◌, ◌||◌, Option, none, some,
  List, [], ◌∷◌, ◌++◌, map, keep, any, count, contains, length, is_empty, is_none, is_some, ltb,
  leb, str_eq, Outcome, ok, raised, ◌>>=◌, if◌then◌else◌,
}
use recertia.Contracts.Common.{Strategy, portfolio}
use recertia.Contracts.Branch.{BranchKind, BranchState, BranchStatus, MergeAction, MergeAudit}
use recertia.Contracts.Criteria.{CriterionResult, full_weight}
use recertia.Contracts.Failure.{FailureClass, FailureSignal, FailureSource, FailureVerdict}
use recertia.Contracts.Run.{RunState}
use recertia.Graph.Engine.{NodeOutcome}
use recertia.Nodes.{
  Message, merge_id, merge_gap, missing_branches, merge_gap_visible, portfolio_note,
  decomposition_note, NodeError,
}
use recertia.Nodes.Validate.{Scoring, Scored, score_criteria, signal_of}

abbrev pub layer_threshold : ℕ
layer_threshold = 8

-- `status in ("succeeded", "failed")`
abbrev pub is_received : BranchStatus → Bool
is_received BranchStatus.succeeded = true
is_received BranchStatus.failed = true
is_received _ = false

abbrev pub is_succeeded : BranchStatus → Bool
is_succeeded BranchStatus.succeeded = true
is_succeeded _ = false

-- `status in ("failed", "timed_out")`
abbrev pub is_lost : BranchStatus → Bool
is_lost BranchStatus.failed = true
is_lost BranchStatus.timed_out = true
is_lost _ = false

abbrev pub is_portfolio_kind : BranchKind → Bool
is_portfolio_kind BranchKind.portfolio = true
is_portfolio_kind BranchKind.decomposition = false

abbrev is_portfolio : Option Strategy → Bool
is_portfolio (some portfolio) = true
is_portfolio _ = false

-- `_portfolio_score`, with the cost by its amount: less is better.
pub record Score : Type 0 where
  pub req_pass : ℕ
  pub advisory : ℕ
  pub cost : ℕ

-- `sum(r.weight for r in b.results if r.passed and r.weight < 1.0)`
advisory_weight : List CriterionResult → ℕ
advisory_weight [] = 0
advisory_weight (r ∷ results) =
    (if r.passed && ltb r.weight full_weight then r.weight else 0) + advisory_weight results

abbrev nonzero_or : Option ℕ → ℕ → ℕ
nonzero_or none default = default
nonzero_or (some n) default = if n == 0 then default else n

unfoldable pub portfolio_score : BranchState → Score
unfolding advisory_weight
portfolio_score b = record {
  req_pass = count (λ r. leb full_weight r.weight && r.passed) b.results;
  advisory = advisory_weight b.results;
  cost = nonzero_or b.cost_usd b.spent.cost_usd;
}

-- The order of tuples, with the cost negated.
abbrev pub exceeds : Score → Score → Bool
exceeds a b =
    ltb b.req_pass a.req_pass
    || (a.req_pass == b.req_pass
        && (ltb b.advisory a.advisory || (a.advisory == b.advisory && ltb a.cost b.cost)))

abbrev pub better : BranchState → BranchState → Bool
better a b = exceeds (portfolio_score a) (portfolio_score b)

abbrev best_of : BranchState → Option BranchState → Option BranchState
best_of b none = some b
best_of b (some later) = if better later b then some later else some b

-- `max(branches, key=_portfolio_score)`: the first of the best.
unfoldable pub max_branch : List BranchState → Option BranchState
max_branch [] = none
max_branch (b ∷ branches) = best_of b (max_branch branches)

-- `sorted(branches, key=_portfolio_score, reverse=True)` keeps the order of equals.
place : BranchState → List BranchState → List BranchState
place b [] = b ∷ []
place b (c ∷ cs) = let rest = place b cs in if better c b then c ∷ rest else b ∷ c ∷ cs

unfoldable pub ranked : List BranchState → List BranchState
unfolding place
ranked [] = []
ranked (b ∷ branches) = place b (ranked branches)

unfoldable pub first_n : ℕ → List BranchState → List BranchState
first_n zero branches = []
first_n (suc n) [] = []
first_n (suc n) (b ∷ branches) = b ∷ first_n n branches

abbrev pub succeeded_of : List BranchState → List BranchState
succeeded_of = keep (λ b. is_succeeded b.status)

abbrev ids_of : List BranchState → List String
ids_of = map (λ b. b.branch_id)

-- `survivor_ids` of a layered portfolio: the better half of those that succeeded, and two at least.
kept_ids : List BranchState → Option (List String)
unfolding first_n
kept_ids [] = none
kept_ids (b ∷ best) = some (ids_of (first_n (max 2 (length (b ∷ best) / 2)) (b ∷ best)))

unfoldable pub survivor_ids : Bool → RunState → Option (List String)
unfolding kept_ids
survivor_ids layered s =
    let kept = kept_ids (ranked (succeeded_of s.branches)) in
    if layered && is_portfolio s.strategy then kept else none

abbrev pub eligible : Option (List String) → List BranchState → List BranchState
eligible none branches = branches
eligible (some ids) branches = keep (λ b. contains b.branch_id ids) branches

abbrev or_else : Option BranchState → Option BranchState → Option BranchState
or_else none second = second
or_else (some b) second = some b

-- `_select_portfolio_winner`
unfoldable pub select_portfolio_winner :
    Option (List String) → List BranchState → Option BranchState
select_portfolio_winner ids branches =
    or_else (max_branch (eligible ids (succeeded_of branches)))
      (max_branch (eligible ids (keep (λ b. is_lost b.status) branches)))

pub deselect_others : Option (List String) → List BranchState → List BranchState
deselect_others none branches = branches
deselect_others (some ids) branches =
    map {A = BranchState}
      (λ b. if contains b.branch_id ids then b else record b { selected = false }) branches

select : Option BranchState → List BranchState → List BranchState
select none branches = branches
select (some w) branches =
    map {A = BranchState} (λ b. record b { selected = str_eq b.branch_id w.branch_id }) branches

-- What `_materialize_decomposition` answers.
pub data Merged : Type 0 where
  merged : String → List (List String) → Merged
  conflict : String → Merged

pub record Joining : Type 0 where
  pub scoring : Scoring
  pub materialize_decomposition : RunState → Bool → Merged
  pub now : String

abbrev pub missing_ids : List BranchState → List String
missing_ids branches = ids_of (keep (λ b. not (is_received b.status)) branches)

module _ (render : Message → String) (env : Joining) where
  unfoldable pub audit_of : RunState → List String → MergeAction → Bool → MergeAudit
  audit_of s missing action layered = record {
    merge_id = render (merge_id s.run_id (length s.merge_audits));
    expected = length s.branches;
    received = count (λ b. is_received b.status) s.branches;
    missing = missing;
    action = action;
    layered = layered;
    batches = [];
  }

  signal : FailureSource → String → FailureSignal
  signal source detail = record {
    source = source;
    detail = detail;
    at = env.now;
    class_hint = none;
  }

  gap : RunState → Bool → List String → NodeOutcome
  unfolding signal
  gap s layered missing = record {
    state = record s {
      merge_audits = s.merge_audits ++ audit_of s missing MergeAction.flagged layered ∷ [];
      failure_signal = some (signal FailureSource.join (render (merge_gap missing)));
      failure = some (record {
        failure_class = FailureClass.merge;
        evidence = render (missing_branches missing) ∷ [];
        implicated_skill = none;
        counts_against_trust = false;
        escalate_to_human = false;
      });
    };
    route = some "otherwise";
    note = some (render (merge_gap_visible missing));
  }

  unfoldable pub route_after : Option FailureSignal → String
  route_after none = "merge_complete_and_passing"
  route_after (some _) = "otherwise"

  scored_as : RunState → MergeAudit → Message → Scored → NodeOutcome
  unfolding route_after
  scored_as s audit remark scored =
      let failure = signal_of render env.scoring scored.any_effectively_required_failed in
      record {
        state = record s {
          results = scored.results;
          results_history = s.results_history ++ scored.results ∷ [];
          failure_signal = failure;
          merge_audits = s.merge_audits ++ audit ∷ [];
        };
        route = some (route_after failure);
        note = some (render remark);
      }

  abbrev winner_id : Option BranchState → Option String
  winner_id none = none
  winner_id (some w) = some w.branch_id

  join_portfolio : RunState → Bool → Outcome NodeError NodeOutcome
  unfolding scored_as select deselect_others
  join_portfolio s layered =
      let ids = survivor_ids layered s in
      let reduced = deselect_others ids s.branches in
      let winner = select_portfolio_winner ids reduced in
      score_criteria render env.scoring (record s { branches = reduced }) >>= λ scored. ok (
        scored_as (record s { branches = select winner reduced })
          (audit_of s [] MergeAction.proceeded layered)
          (portfolio_note (winner_id winner) layered scored.downgrade_notes) scored)

  -- A decomposition that is not merged.
  unmerged : RunState → Bool → FailureSource → String → String → NodeOutcome
  unfolding signal
  unmerged s layered source detail remark = record {
    state = record s {
      merge_audits = s.merge_audits ++ audit_of s [] MergeAction.failed layered ∷ [];
      failure_signal = some (signal source detail);
    };
    route = some "otherwise";
    note = some remark;
  }

  after_merge : RunState → Bool → Merged → Outcome NodeError NodeOutcome
  unfolding unmerged scored_as
  after_merge s layered (conflict detail) =
      ok (unmerged s layered FailureSource.join detail "decomposition merge conflict")
  after_merge s layered (merged ref batches) = score_criteria render env.scoring s >>= λ scored.
      ok (
        scored_as s (record (audit_of s [] MergeAction.proceeded layered) { batches = batches })
          (decomposition_note layered scored.downgrade_notes) scored)

  join_decomposition : RunState → Bool → Outcome NodeError NodeOutcome
  unfolding after_merge unmerged
  join_decomposition s layered =
      if any (λ b. not (is_succeeded b.status)) s.branches
      then ok (
          unmerged s layered FailureSource.solver "decomposition branch failed"
            "decomposition incomplete")
      else after_merge s layered (env.materialize_decomposition s layered)

  join_received : RunState → Bool → List String → Outcome NodeError NodeOutcome
  unfolding gap join_portfolio join_decomposition
  join_received s layered (b ∷ missing) = ok (gap s layered (b ∷ missing))
  join_received s layered [] =
      if is_portfolio s.strategy || any (λ b. is_portfolio_kind b.kind) s.branches
      then join_portfolio s layered
      else join_decomposition s layered

  -- `join`
  pub join_node : RunState → Outcome NodeError NodeOutcome
  unfolding join_received
  join_node s = join_received s (leb layer_threshold (length s.branches)) (missing_ids s.branches)
