-- ===== src/Tests/Pipeline.antt =====
-- The theorem about ranking and compiling, applied.
use oscillink_agent.Base.{
  ℕ, ◌+◌, ◌≡◌, ◌≢◌, ◌≤◌, refl, ap, arith, String, true, false, List, [], ◌∷◌, length, map, ok, ◌==◌,
  string_eq, string_discrete,
}
use oscillink_agent.Memory.Types.{approved, MemoryRecord}
use oscillink_agent.Retrieval.{rank_memory_records}
use oscillink_agent.Retrieval.Lexical.{terms, to_set, lexical_score}
use oscillink_agent.Retrieval.Sorting.{occurrences}
use oscillink_agent.Retrieval.Partition.{record_id}
use oscillink_agent.Context.Compiler.{nothing_selected, choose_all, manifest_of, compile_context}
use oscillink_agent.Context.Pipeline.{IsStorable, rank-compile_context}
use oscillink_agent.Tests.{request, request-IsRequest, ids_differ, first_id, second_id, sample}

abbrev fold : List ℕ → List ℕ
fold s = s

abbrev sun : MemoryRecord
sun = sample first_id approved "sun" "solar cells"

abbrev moon : MemoryRecord
moon = sample second_id approved "moon" "tides"

abbrev both : List MemoryRecord
both = sun ∷ moon ∷ []

sun-IsStorable : IsStorable sun
unfolding oscillink_agent.Memory.Store.is_valid
    oscillink_agent.Domain.Identifiers.is_memory_record_id oscillink_agent.Base.ℕ_discrete
    oscillink_agent.Domain.Identifiers.is_digest
sun-IsStorable = record { valid = refl; domains_fit = omega arith }

moon-IsStorable : IsStorable moon
unfolding oscillink_agent.Memory.Store.is_valid
    oscillink_agent.Domain.Identifiers.is_memory_record_id oscillink_agent.Base.ℕ_discrete
    oscillink_agent.Domain.Identifiers.is_digest
moon-IsStorable = record { valid = refl; domains_fit = omega arith }

sun_score : lexical_score fold sun (to_set (terms fold "solar")) ≡ 1
unfolding lexical_score to_set terms oscillink_agent.Base.select
    oscillink_agent.Domain.Identifiers.is_term_code oscillink_agent.Base.exists_row
    oscillink_agent.Base.list_discrete oscillink_agent.Base.ℕ_discrete
    oscillink_agent.Retrieval.Lexical.sum oscillink_agent.Retrieval.Lexical.count
sun_score = refl

moon_score : lexical_score fold moon (to_set (terms fold "solar")) ≡ 0
unfolding lexical_score to_set terms oscillink_agent.Base.select
    oscillink_agent.Domain.Identifiers.is_term_code oscillink_agent.Base.exists_row
    oscillink_agent.Base.list_discrete oscillink_agent.Base.ℕ_discrete
    oscillink_agent.Retrieval.Lexical.sum oscillink_agent.Retrieval.Lexical.count
moon_score = refl

both-distinct : (id : String) → occurrences record_id id both ≤ 1
unfolding occurrences
both-distinct id = ground (arith, ids_differ)

rank-compile_context_example :
    compile_context (rank_memory_records fold both "solar") request
    ≡ ok (
      manifest_of request
          (rank_memory_records fold both "solar")
          (choose_all 4 (rank_memory_records fold both "solar").ranked nothing_selected),
      map
          (λ c. c.evidence.memory)
          (choose_all 4 (rank_memory_records fold both "solar").ranked nothing_selected).selected,
    )
rank-compile_context_example =
    rank-compile_context fold both "solar" request (sun-IsStorable, (moon-IsStorable, tt))
      (omega (arith, sun_score), (omega (arith, moon_score), tt)) (omega arith) both-distinct
      request-IsRequest
