-- ===== src/Tests/Evaluation.antt =====
-- The theorem about evaluation, applied to one fixture under the four conditions.
use oscillink_agent.Base.{ℕ, String, false, none, some, List, [], ◌∷◌, Result, ok}
use oscillink_agent.Evaluation.{
  EvaluationCondition, no_memory, raw_transcript, generated_summary, approved_lexical,
  EvaluationManifest, EvaluationCase, EvaluationOutput, EvaluationFixture,
}

abbrev manifest : EvaluationManifest
manifest = record {
  conditions = no_memory ∷ raw_transcript ∷ generated_summary ∷ approved_lexical ∷ [];
  budget = record { max_context_units = 4; max_output_tokens = 2; max_seconds = 1 };
}

-- The second piece of evidence does not fit beside the first.
abbrev fixture : EvaluationFixture
fixture = record {
  case_id = "solar";
  question = "what is it";
  contexts = λ c.
      record { ref = "a"; text = "answer: solar cells" }
      ∷ record { ref = "b"; text = "two words" }
      ∷ [];
  labels = record {
    accepted_answers = "solar cells" ∷ [];
    relevant_refs = "a" ∷ [];
    obsolete_terms = [];
    contradiction_terms = [];
    injection_terms = [];
    requires_abstention = false;
  };
}

abbrev output : EvaluationOutput
output = record {
  answer = "solar cells";
  citations = "a" ∷ [];
  latency_ms = 3;
  output_tokens = 2;
  provider_usage_units = none;
  estimated_cost_usd = none;
  human_correction_burden = none;
}

abbrev execute : EvaluationCase → EvaluationCondition → Result String EvaluationOutput
execute case c = ok output
