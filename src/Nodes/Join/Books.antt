-- ===== src/Nodes/Join/Books.antt =====
-- join does not charge the run.
use recertia.Prelude.{String, Bool, List, [], ◌∷◌, any, length, leb, refl, ◌||◌, not}
use recertia.Contracts.Run.{RunState}
use recertia.Nodes.{Message}
use recertia.Nodes.Free.{IsFree, IsFree-bind, IsFree-if}
use recertia.Nodes.Validate.{score_criteria}
use recertia.Nodes.Join.{
  Joining, Merged, merged, conflict, gap, scored_as, unmerged, after_merge, join_decomposition,
  join_portfolio, join_received, join_node, missing_ids, layer_threshold, is_portfolio,
  is_portfolio_kind, is_succeeded,
}

module _ (render : Message → String) (env : Joining) (s : RunState) where
  after_merge-IsFree : (layered : Bool) (m : Merged) → IsFree s (after_merge render env s layered m)
  unfolding after_merge unmerged scored_as
  after_merge-IsFree layered (conflict detail) = (refl, refl)
  after_merge-IsFree layered (merged ref batches) =
      IsFree-bind s (score_criteria render env.scoring s) _ (λ scored. (refl, refl))

  join_received-IsFree :
      (layered : Bool) (missing : List String)
      → IsFree s (join_received render env s layered missing)
  unfolding join_received gap join_portfolio join_decomposition unmerged scored_as
  join_received-IsFree layered (b ∷ missing) = (refl, refl)
  join_received-IsFree layered [] =
      IsFree-if s (is_portfolio s.strategy || any (λ b. is_portfolio_kind b.kind) s.branches) _ _
        (IsFree-bind s (score_criteria render env.scoring _) _ (λ scored. (refl, refl)))
        (IsFree-if s (any (λ b. not (is_succeeded b.status)) s.branches) _ _ (refl, refl)
          (after_merge-IsFree layered (env.materialize_decomposition s layered)))

  pub join_node-IsFree : IsFree s (join_node render env s)
  unfolding join_node
  join_node-IsFree =
      join_received-IsFree (leb layer_threshold (length s.branches)) (missing_ids s.branches)
