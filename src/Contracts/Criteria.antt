-- ===== src/Contracts/Criteria.antt =====
-- contracts/criteria.py: the criteria of a run and their results. Weights, thresholds and durations,
-- floats in the source, are whole numbers of millionths here.
use Prim.Native.String.{slice, len}
use recertia.Prelude.{
  ℕ, String, Bool, true, false, ◌&&◌, not, starts_with, Option, none, some, List, [], ◌∷◌, str_eq,
  ltb, leb, ◌==◌, is_some, opt_eq, if◌then◌else◌,
}
use recertia.Prelude.Int.{ℤ, eq_ℤ}
use recertia.Contracts.Common.{
  Isolation, fresh_context, inherits_context, Lens, correctness, currency, provenance, scope,
  safety,
}

pub data CriterionKind : Type 0 where
  command assertion schema metric judge : CriterionKind

pub data Comparison : Type 0 where
  lt lte gt gte eq : Comparison

pub data CriterionSource : Type 0 where
  caller task_class_template critic : CriterionSource

pub record SensitivityProof : Type 0 where
  pub criterion_id : String
  pub negative_fixture : String
  pub rejected : Bool
  pub checked_at : String
  pub checked_against : Option String
  pub evidence_hash : Option String

-- One in the unit of weights.
abbrev pub full_weight : ℕ
full_weight = 1_000_000

pub record TaskCriterion : Type 0 where
  pub id : String
  pub kind : CriterionKind
  pub run : Option String
  pub expect_exit : ℤ
  pub expr : Option String
  pub target : Option String
  pub schema_ref : Option String
  pub metric_name : Option String
  pub op : Option Comparison
  pub threshold : Option ℤ
  pub rubric : Option String
  pub isolation : Isolation
  pub lens : Option Lens
  pub timeout_s : ℕ
  pub weight : ℕ
  pub sensitivity_proof : Option SensitivityProof
  pub source : CriterionSource
  pub preregistered : Bool

-- `self.weight >= 1.0`
unfoldable pub is_required : TaskCriterion → Bool
is_required c = leb full_weight c.weight

-- No field that `_REQUIRED_FIELDS_BY_KIND` names for the kind is missing.
has_required_fields : CriterionKind → TaskCriterion → Bool
has_required_fields command c = is_some c.run
has_required_fields assertion c = is_some c.expr
has_required_fields schema c = is_some c.target && is_some c.schema_ref
has_required_fields metric c = is_some c.metric_name && (is_some c.op && is_some c.threshold)
has_required_fields judge c = is_some c.rubric

judge_in_fresh_context : CriterionKind → Isolation → Bool
judge_in_fresh_context judge inherits_context = false
judge_in_fresh_context judge fresh_context = true
judge_in_fresh_context _ _ = true

-- The validators of a criterion accept it.
unfoldable pub criterion_accepted : TaskCriterion → Bool
unfolding has_required_fields judge_in_fresh_context
criterion_accepted c = has_required_fields c.kind c && judge_in_fresh_context c.kind c.isolation

clamp_timeout : ℕ → TaskCriterion → TaskCriterion
clamp_timeout ceiling_s c =
    if ltb ceiling_s c.timeout_s then record c { timeout_s = ceiling_s } else c

unfoldable pub clamp_criterion_timeouts : ℕ → List TaskCriterion → List TaskCriterion
unfolding clamp_timeout
clamp_criterion_timeouts ceiling_s [] = []
clamp_criterion_timeouts ceiling_s (c ∷ criteria) =
    clamp_timeout ceiling_s c ∷ clamp_criterion_timeouts ceiling_s criteria

-- `not proof.evidence_hash` and `proof.checked_against or ""` are read through these.
abbrev text_or_empty : Option String → String
text_or_empty none = ""
text_or_empty (some t) = t

-- `checked[len("sha256:") :]`, where the text starts with that prefix.
abbrev after_prefix : String → String
after_prefix checked = slice checked 7 (len checked)

module _ (evidence_hash : TaskCriterion → String → String) where
  proof_binds : TaskCriterion → SensitivityProof → Bool
  proof_binds c bound =
      bound.rejected
      && (not (str_eq (text_or_empty bound.evidence_hash) "")
          && (starts_with (text_or_empty bound.checked_against) "sha256:"
              && str_eq (text_or_empty bound.evidence_hash)
                  (evidence_hash c (after_prefix (text_or_empty bound.checked_against)))))

  -- `sensitivity_proof_binds` on the criterion's own proof; the hash is an argument.
  unfoldable pub is_preregistered_and_proven : TaskCriterion → Bool
  unfolding proof_binds
  is_preregistered_and_proven c = elim c.sensitivity_proof [
    | none ↦ false
    | some bound ↦ proof_binds c bound
  ]

pub record CriterionResult : Type 0 where
  pub criterion_id : String
  pub kind : Option CriterionKind
  pub passed : Bool
  pub weight : ℕ
  pub isolation : Option Isolation
  pub lens : Option Lens
  pub context_hash : Option String
  pub exit_code : Option ℤ
  pub output_excerpt : String
  pub errored : Bool
  pub duration_s : ℕ

abbrev pub is_judge : CriterionKind → Bool
is_judge judge = true
is_judge _ = false

-- The ids of the results that did not pass.
unfoldable pub failed_ids : List CriterionResult → List String
failed_ids [] = []
failed_ids (r ∷ results) =
    let rest = failed_ids results in if r.passed then rest else r.criterion_id ∷ rest

kind_no : CriterionKind → ℕ
kind_no command = 0
kind_no assertion = 1
kind_no schema = 2
kind_no metric = 3
kind_no judge = 4

isolation_no : Isolation → ℕ
isolation_no fresh_context = 0
isolation_no inherits_context = 1

lens_no : Lens → ℕ
lens_no correctness = 0
lens_no currency = 1
lens_no provenance = 2
lens_no scope = 3
lens_no safety = 4

abbrev bool_no : Bool → ℕ
bool_no true = 1
bool_no false = 0

-- Equality of two results, field by field.
unfoldable pub result_eq : CriterionResult → CriterionResult → Bool
unfolding kind_no isolation_no lens_no
result_eq a b =
    str_eq a.criterion_id b.criterion_id
    && (opt_eq (λ x y. kind_no x == kind_no y) a.kind b.kind
        && (bool_no a.passed == bool_no b.passed
            && (a.weight == b.weight
                && (opt_eq (λ x y. isolation_no x == isolation_no y) a.isolation b.isolation
                    && (opt_eq (λ x y. lens_no x == lens_no y) a.lens b.lens
                        && (opt_eq str_eq a.context_hash b.context_hash
                            && (opt_eq eq_ℤ a.exit_code b.exit_code
                                && (str_eq a.output_excerpt b.output_excerpt
                                    && (bool_no a.errored == bool_no b.errored
                                        && (a.duration_s == b.duration_s))))))))))
