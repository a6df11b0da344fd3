-- ===== src/Retrieval/Approved.antt =====
-- Ranking against `retrieve_approved_memory` (retrieval/service.py).
use oscillink_agent.Base.{
  ℕ, ◌+◌, ◌≡◌, String, List, [], ◌∷◌, arith, length, length-append, select, if◌then◌else◌,
}
use oscillink_agent.Memory.Types.{MemoryRecord, state_eq}
use oscillink_agent.Memory.Store.{Store, list}
use oscillink_agent.Retrieval.{
  Sorted, none_yet, is_eligible, evidence_le, record_le, sort, classify, classify_all,
  rank_memory_records, retrieve_memory_evidence, retrieve_approved_memory,
}
use oscillink_agent.Retrieval.Lexical.{Term, terms, to_set, lexical_score}
use oscillink_agent.Retrieval.Sorting.{length-sort}
use oscillink_agent.Retrieval.Ranking.{length-number_from}

module _ (casefold : List ℕ → List ℕ) where
  abbrev shown : Sorted → ℕ
  shown a = length a.scored + length a.unmatched

  shown-classify :
      (query : List Term) (r : MemoryRecord) (a : Sorted)
      → shown (classify casefold query r a) ≡ shown a + (if is_eligible r then 1 else 0)
  unfolding classify is_eligible
  shown-classify query r a = ground (
    arith,
    length-append a.scored ((lexical_score casefold r query, r) ∷ []),
    length-append a.unmatched (r ∷ []),
  )

  shown-classify_all :
      (query : List Term) (rs : List MemoryRecord) (a : Sorted)
      → shown (classify_all casefold query rs a) ≡ shown a + length (select is_eligible rs)
  unfolding classify_all select
  shown-classify_all query [] a = omega arith
  shown-classify_all query (r ∷ rs) a =
      ground
        (arith, shown-classify query r a, shown-classify_all query rs (classify casefold query r a))

  -- For any query, as many records are ranked or unmatched as `retrieve_approved_memory` returns.
  pub evidence_counts_approved :
      (s : Store) (query : String)
      → length (retrieve_memory_evidence casefold s query).ranked
          + length (retrieve_memory_evidence casefold s query).unmatched
        ≡ length (retrieve_approved_memory s)
  unfolding retrieve_memory_evidence rank_memory_records retrieve_approved_memory
  evidence_counts_approved s query =
      let q = to_set (terms casefold query) in
      let a = classify_all casefold q (list s) none_yet in
      omega (
        arith,
        shown-classify_all q (list s) none_yet,
        length-number_from 1 (sort evidence_le a.scored),
        length-sort evidence_le a.scored,
        length-sort record_le a.unmatched,
      )
