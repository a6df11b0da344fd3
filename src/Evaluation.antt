-- ===== src/Evaluation.antt =====
-- The evaluation of answers: evaluation/contracts.py and evaluation/baselines.py. The parent of the
-- scores and of the runs.
pub mod Scores
pub mod Runs
pub mod Passed
use oscillink_agent.Base.{
  ℕ, ◌+◌, String, Bool, true, false, Option, List, [], ◌∷◌, map, ltb, if◌then◌else◌,
}
use oscillink_agent.Context.{token_count}

pub data EvaluationCondition : Type 0 where
  no_memory raw_transcript generated_summary approved_lexical : EvaluationCondition

pub record EvaluationBudget : Type 0 where
  pub max_context_units : ℕ
  pub max_output_tokens : ℕ
  pub max_seconds : ℕ

-- The fields of `EvaluationManifest` that a run reads.
pub record EvaluationManifest : Type 0 where
  pub conditions : List EvaluationCondition
  pub budget : EvaluationBudget

pub record EvaluationEvidence : Type 0 where
  pub ref : String
  pub text : String

pub record EvaluationLabels : Type 0 where
  pub accepted_answers : List String
  pub relevant_refs : List String
  pub obsolete_terms : List String
  pub contradiction_terms : List String
  pub injection_terms : List String
  pub requires_abstention : Bool

pub record EvaluationCase : Type 0 where
  pub case_id : String
  pub question : String
  pub context : List EvaluationEvidence
  pub budget : EvaluationBudget

-- `EvaluationOutput`; a float is its text.
pub record EvaluationOutput : Type 0 where
  pub answer : String
  pub citations : List String
  pub latency_ms : ℕ
  pub output_tokens : ℕ
  pub provider_usage_units : Option ℕ
  pub estimated_cost_usd : Option String
  pub human_correction_burden : Option ℕ

-- `EvaluationFixture`, whose contexts are there for every condition.
pub record EvaluationFixture : Type 0 where
  pub case_id : String
  pub question : String
  pub contexts : EvaluationCondition → List EvaluationEvidence
  pub labels : EvaluationLabels

-- `context_units`
unfoldable pub context_units : List EvaluationEvidence → ℕ
context_units [] = 0
context_units (x ∷ xs) = token_count x.text + context_units xs

-- The loop of `_bounded_context`, from the units that are used.
unfoldable pub bounded_context : ℕ → ℕ → List EvaluationEvidence → List EvaluationEvidence
bounded_context max_units used [] = []
bounded_context max_units used (x ∷ xs) =
    let without = bounded_context max_units used xs in
    let beside = bounded_context max_units (used + token_count x.text) xs in
    if ltb max_units (used + token_count x.text) then without else x ∷ beside

-- `prepare_cases`, at one condition
unfoldable pub prepare_case :
    EvaluationFixture → EvaluationManifest → EvaluationCondition → EvaluationCase
unfolding bounded_context
prepare_case f m c = record {
  case_id = f.case_id;
  question = f.question;
  context = bounded_context m.budget.max_context_units 0 (f.contexts c);
  budget = m.budget;
}
