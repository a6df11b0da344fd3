-- ===== src/Tests/Retrieval.antt =====
-- The theorems about retrieval, applied.
use oscillink_agent.Base.{
  ℕ, ◌+◌, ◌≡◌, ◌≤◌, ◌⊎◌, inl, inr, refl, String, true, some, List, [], ◌∷◌, length, map, All,
  Occurs,
}
use oscillink_agent.Domain.Identifiers.{codes}
use oscillink_agent.Memory.Types.{approved, superseded, candidate, MemoryRecord}
use oscillink_agent.Retrieval.{is_eligible, rank_memory_records}
use oscillink_agent.Retrieval.Lexical.{terms, to_set, lexical_score}
use oscillink_agent.Retrieval.Partition.{IsMatch, IsUnmatched}
use oscillink_agent.Retrieval.Ranking.{
  HasRanks, IsChained, IsBefore, ComesBefore, pair_of, rank_sound, rank_complete, rank-IsOrdered,
}
use oscillink_agent.Tests.{first_id, second_id, sample}

-- ASCII text folds to itself here.
abbrev fold : List ℕ → List ℕ
fold s = s

abbrev library : List MemoryRecord
library =
    sample second_id approved "roof" "solar roof"
    ∷ sample first_id approved "sun" "solar cells"
    ∷ sample "mem_00000000000000000000000003" approved "moon" "tides"
    ∷ sample "mem_00000000000000000000000004" superseded "old" "solar"
    ∷ sample "mem_00000000000000000000000005" candidate "new" "solar"
    ∷ []

rank_sound_example :
    All
      (λ e. IsMatch fold (to_set (terms fold "solar")) (pair_of e))
      (rank_memory_records fold library "solar").ranked
    × All
        (IsUnmatched fold (to_set (terms fold "solar")))
        (rank_memory_records fold library "solar").unmatched
rank_sound_example = rank_sound fold library "solar"

solar_roof_eligible : is_eligible (sample second_id approved "roof" "solar roof") ≡ true
unfolding is_eligible oscillink_agent.Memory.Types.state_discrete
    oscillink_agent.Base.option_discrete
solar_roof_eligible = refl

rank_complete_example :
    Occurs
      (sample second_id approved "roof" "solar roof")
      (rank_memory_records fold library "solar").unmatched
    ⊎ Occurs
        (
          lexical_score fold
              (sample second_id approved "roof" "solar roof")
              (to_set (terms fold "solar")),
          sample second_id approved "roof" "solar roof",
        )
        (map pair_of (rank_memory_records fold library "solar").ranked)
rank_complete_example =
    rank_complete fold library "solar" (sample second_id approved "roof" "solar roof") (inl refl)
      solar_roof_eligible

rank-IsOrdered_example :
    HasRanks 1 (rank_memory_records fold library "solar").ranked
    × IsChained ComesBefore (map pair_of (rank_memory_records fold library "solar").ranked)
    × IsChained
        (λ r t. IsBefore (codes r.id) (codes t.id))
        (rank_memory_records fold library "solar").unmatched
rank-IsOrdered_example = rank-IsOrdered fold library "solar"
