-- ===== src/Tests/Recall.antt =====
-- The theorem about recall, applied.
use oscillink_agent.Base.{ℕ, ◌≡◌, refl, String, some, List, [], ◌∷◌, All, ok, map}
use oscillink_agent.Memory.Types.{approved, candidate, MemoryRecord}
use oscillink_agent.Retrieval.{rank_memory_records}
use oscillink_agent.Context.{Manifest}
use oscillink_agent.Context.Compiler.{nothing_selected, choose_all, manifest_of}
use oscillink_agent.Recall.{
  Runtime, RecallRequest, RecalledMemory, available, recalled_memory, compile_request, recall,
}
use oscillink_agent.Recall.{request_time}
use oscillink_agent.Recall.Clock.{request_time-encode}
use oscillink_agent.Domain.Tokens.{encode}
use Prim.Native.String.{◌++◌}
use oscillink_agent.Base.{◌*◌, ◌+◌, ◌^◌, ◌<◌, arith}
use oscillink_agent.Recall.Approved.{IsApprovedText, recall-IsApprovedText}
use oscillink_agent.Tests.{first_id, second_id, hash_a, sample}

abbrev runtime : Runtime
runtime = record {
  casefold = λ s. s;
  digest = λ id purpose. 640;
  from_timestamp = λ ms. some ms;
  policy_hash = hash_a;
}

abbrev sun : MemoryRecord
sun = sample first_id approved "sun" "solar cells"

abbrev library : List MemoryRecord
library = sample second_id candidate "draft" "solar draft" ∷ sun ∷ []

abbrev question : RecallRequest
question = record {
  request_id = "evt_00000000010000000000000001";
  query = "solar";
  token_budget = 4;
}

abbrev manifest : Manifest
manifest =
    manifest_of (compile_request runtime question 1)
      (rank_memory_records runtime.casefold library "solar")
      (choose_all 4 (rank_memory_records runtime.casefold library "solar").ranked nothing_selected)

recall_returns :
    recall runtime library question ≡ ok (available manifest (recalled_memory sun ∷ []))
unfolding recall oscillink_agent.Base.ℕ_discrete oscillink_agent.Base.select
    oscillink_agent.Retrieval.is_eligible oscillink_agent.Memory.Types.state_discrete
    oscillink_agent.Base.option_discrete oscillink_agent.Recall.request_time
    oscillink_agent.Domain.Tokens.decode oscillink_agent.Domain.Tokens.index
    oscillink_agent.Recall.compile_recall oscillink_agent.Context.Compiler.compile_context
    oscillink_agent.Context.is_valid_manifest oscillink_agent.Domain.Identifiers.is_context_id
    manifest_of compile_request oscillink_agent.Domain.Tokens.token_id
    oscillink_agent.Domain.Tokens.symbol oscillink_agent.Base.holds oscillink_agent.Base.is_unique
    oscillink_agent.Base.list_discrete oscillink_agent.Base.string_discrete
    oscillink_agent.Base.exists_row oscillink_agent.Context.Compiler.choose choose_all
    oscillink_agent.Context.Compiler.item_of oscillink_agent.Context.Compiler.over_budget
    oscillink_agent.Context.Compiler.unmatched_omission oscillink_agent.Context.all_rows
    oscillink_agent.Context.is_space oscillink_agent.Context.is_valid_item
    oscillink_agent.Context.is_valid_omission oscillink_agent.Context.item_discrete
    oscillink_agent.Context.sum_tokens oscillink_agent.Context.token_count
    oscillink_agent.Domain.Identifiers.all_codes oscillink_agent.Domain.Identifiers.has_token
    oscillink_agent.Domain.Identifiers.is_crockford oscillink_agent.Domain.Identifiers.is_digest
    oscillink_agent.Domain.Identifiers.is_hex oscillink_agent.Domain.Identifiers.is_memory_record_id
    oscillink_agent.Domain.Identifiers.is_record_id oscillink_agent.Domain.Identifiers.is_task_id
    oscillink_agent.Domain.Identifiers.is_term_code oscillink_agent.Domain.Identifiers.strip_prefix
    oscillink_agent.Domain.Tokens.crockford oscillink_agent.Domain.Tokens.encode
    oscillink_agent.Domain.Vocabulary.status_discrete
    oscillink_agent.Domain.Vocabulary.trust_discrete oscillink_agent.Memory.Types.category_discrete
    oscillink_agent.Memory.Types.domain_discrete oscillink_agent.Recall.drop_codes
    oscillink_agent.Recall.is_bound oscillink_agent.Recall.is_valid_recalled recalled_memory
    oscillink_agent.Recall.respond oscillink_agent.Retrieval.Lexical.category_value
    oscillink_agent.Retrieval.Lexical.contains oscillink_agent.Retrieval.Lexical.count
    oscillink_agent.Retrieval.Lexical.domain_value oscillink_agent.Retrieval.Lexical.find_terms
    oscillink_agent.Retrieval.Lexical.lexical_score oscillink_agent.Retrieval.Lexical.runs
    oscillink_agent.Retrieval.Lexical.stop_words oscillink_agent.Retrieval.Lexical.sum
    oscillink_agent.Retrieval.Lexical.terms oscillink_agent.Retrieval.Lexical.to_set
    oscillink_agent.Retrieval.classify oscillink_agent.Retrieval.classify_all
    oscillink_agent.Retrieval.evidence_le oscillink_agent.Retrieval.insert
    oscillink_agent.Retrieval.number_from rank_memory_records oscillink_agent.Retrieval.record_le
    oscillink_agent.Retrieval.sort oscillink_agent.Retrieval.text_le
recall_returns = refl

recall-IsApprovedText_example : All (IsApprovedText library) (recalled_memory sun ∷ [])
recall-IsApprovedText_example =
    recall-IsApprovedText runtime library question manifest (recalled_memory sun ∷ [])
      recall_returns

early : 1700000000000 < 2 ^ 50
early = omega arith

noise : 123456789 < 2 ^ 80
noise = omega arith

request_time-encode_example :
    request_time runtime ("evt_" ++ encode 26 (1700000000000 * 2 ^ 80 + 123456789) String.[])
    ≡ some 1700000000000
request_time-encode_example = request_time-encode runtime 1700000000000 123456789 early noise
