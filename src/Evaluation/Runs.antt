-- ===== src/Evaluation/Runs.antt =====
-- `run_suite` of evaluation/runner.py.
use oscillink_agent.Base.{
  ℕ, ◌*◌, String, Bool, false, List, [], ◌∷◌, ◌++◌, ltb, ◌==◌, nat_eq, Result, ok, err,
  if◌then◌else◌,
}
use oscillink_agent.Context.{all_rows}
use oscillink_agent.Evaluation.{
  EvaluationCondition, EvaluationManifest, EvaluationLabels, EvaluationCase, EvaluationOutput,
  EvaluationFixture, prepare_case,
}
use oscillink_agent.Evaluation.Scores.{EvaluationMetrics, score_output}

-- What a result says beside the case and the condition: the output with its metrics, or the type of
-- the error.
pub data Verdict : Type 0 where
  succeeded : EvaluationOutput → EvaluationMetrics → Verdict
  failed : String → Verdict

pub record EvaluationResult : Type 0 where
  pub case_id : String
  pub condition : EvaluationCondition
  pub verdict : Verdict

-- The fields of `EvaluationReport` that a run computes.
pub record EvaluationReport : Type 0 where
  pub results : List EvaluationResult
  pub passed : Bool

-- `state == "succeeded"`, with metrics without provenance failures
abbrev pub is_passed : EvaluationResult → Bool
is_passed r = elim r.verdict [
  | succeeded output metrics ↦ metrics.critical_provenance_failures == 0
  | failed name ↦ false
]

-- `execute` is the executor's, which a suite calls once for each case and condition; its error is
-- the name of the exception's type, cut to 256 characters.
module _ (casefold : List ℕ → List ℕ)
    (execute : EvaluationCase → EvaluationCondition → Result String EvaluationOutput) where
  -- The `try` block, after the call of the executor.
  unfoldable pub judge :
      EvaluationCase → EvaluationLabels → Result String EvaluationOutput → Verdict
  judge case labels (err name) = failed name
  judge case labels (ok output) =
      if ltb case.budget.max_output_tokens output.output_tokens
      then failed "EvaluationIntegrityError"
      else if ltb (case.budget.max_seconds * 1000) output.latency_ms
      then failed "EvaluationIntegrityError"
      else succeeded output (score_output casefold case labels output)

  unfoldable pub run_case :
      EvaluationManifest → EvaluationFixture → EvaluationCondition → EvaluationResult
  unfolding judge prepare_case
  run_case m f c = record {
    case_id = f.case_id;
    condition = c;
    verdict = judge (prepare_case f m c) f.labels (execute (prepare_case f m c) c);
  }

  unfoldable pub run_conditions :
      EvaluationManifest → EvaluationFixture → List EvaluationCondition → List EvaluationResult
  unfolding run_case
  run_conditions m f [] = []
  run_conditions m f (c ∷ cs) = run_case m f c ∷ run_conditions m f cs

  unfoldable pub run_fixtures : EvaluationManifest → List EvaluationFixture → List EvaluationResult
  unfolding run_conditions
  run_fixtures m [] = []
  run_fixtures m (f ∷ fs) = run_conditions m f m.conditions ++ run_fixtures m fs

  -- `run_suite`
  unfoldable pub run_suite : EvaluationManifest → List EvaluationFixture → EvaluationReport
  unfolding run_fixtures
  run_suite m fs = record {
    results = run_fixtures m fs;
    passed = all_rows is_passed (run_fixtures m fs);
  }
