-- ===== src/Evaluation/Passed.antt =====
-- What a report says that passed (evaluation/runner.py).
use oscillink_agent.Base.{
  ℕ, ◌*◌, ◌≤◌, ◌≡◌, String, Bool, true, false, List, map, All, holds, ◌==◌, nat_eq, string_eq,
  Result, ok,
}
use oscillink_agent.Evaluation.{
  EvaluationCondition, EvaluationEvidence, EvaluationCase, EvaluationOutput, context_units,
}
use oscillink_agent.Evaluation.Runs.{Verdict}

abbrev pub context_refs : EvaluationCase → List String
context_refs case = map (λ (x : EvaluationEvidence). x.ref) case.context

-- The executor answered a case within its budget, and cited only what the case has shown.
pub record IsClean (execute : EvaluationCase → EvaluationCondition → Result String EvaluationOutput)
    (case : EvaluationCase) (c : EvaluationCondition) : Type 0 where
  pub output : EvaluationOutput
  pub answered : execute case c ≡ ok output
  pub in_context : context_units case.context ≤ case.budget.max_context_units
  pub in_tokens : output.output_tokens ≤ case.budget.max_output_tokens
  pub in_time : output.latency_ms ≤ case.budget.max_seconds * 1000
  pub cited : All (λ r. holds (context_refs case) r ≡ true) output.citations

module _ (refs : List String) where
  abbrev IsKnown : String → Type 0
  IsKnown r = holds refs r ≡ true

module _ (casefold : List ℕ → List ℕ)
    (execute : EvaluationCase → EvaluationCondition → Result String EvaluationOutput) where
  abbrev verdict_passed : Verdict → Bool
  verdict_passed v = elim v [
    | Verdict.succeeded output metrics ↦ metrics.critical_provenance_failures == 0
    | Verdict.failed name ↦ false
  ]
