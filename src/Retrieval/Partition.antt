-- ===== src/Retrieval/Partition.antt =====
-- `rank_memory_records` accounts for every record once, and shows eligible records alone.
use oscillink_agent.Base.{
  ℕ, suc, ◌+◌, ◌≤◌, ◌≡◌, ◌≢◌, ◌⊎◌, inl, inr, String, true, List, [], ◌∷◌, arith, All, All-append,
  Occurs, Occurs-append_left, Occurs-append_last, length, length-append, string_eq,
}
use oscillink_agent.Memory.Types.{MemoryRecord}
use oscillink_agent.Retrieval.{
  Evidence, Exclusions, Scored, Sorted, is_eligible, classify, classify_all,
}
use oscillink_agent.Retrieval.Lexical.{Term, lexical_score}
use oscillink_agent.Retrieval.Sorting.{occurrences, occurrences-append}

abbrev pub excluded : Exclusions → ℕ
excluded x = x.not_approved + x.missing_source + x.superseded_count + x.conflict

abbrev pub scored_id : Scored → String
scored_id p = p.1.id

abbrev pub record_id : MemoryRecord → String
record_id r = r.id

abbrev pub evidence_id : Evidence → String
evidence_id e = e.memory.id

module _ (casefold : List ℕ → List ℕ) (query : List Term) where
  -- What holds of a record that was scored, and of one that was not matched.
  abbrev pub IsMatch : Scored → Type 0
  IsMatch (score, r) =
      (is_eligible r ≡ true) × (score ≡ lexical_score casefold r query) × (score ≢ 0)

  abbrev pub IsUnmatched : MemoryRecord → Type 0
  IsUnmatched r = (is_eligible r ≡ true) × (lexical_score casefold r query ≡ 0)

  abbrev pub handled : Sorted → ℕ
  handled a = length a.scored + length a.unmatched + excluded a.exclusions

  handled-classify :
      (r : MemoryRecord) (a : Sorted) → handled (classify casefold query r a) ≡ suc (handled a)
  unfolding classify
  handled-classify r a = ground (
    arith,
    length-append a.unmatched (r ∷ []),
    length-append a.scored ((lexical_score casefold r query, r) ∷ []),
  )

  pub handled-classify_all :
      (rs : List MemoryRecord) (a : Sorted)
      → handled (classify_all casefold query rs a) ≡ handled a + length rs
  unfolding classify_all
  handled-classify_all [] a = omega arith
  handled-classify_all (r ∷ rs) a =
      omega (arith, handled-classify_all rs (classify casefold query r a), handled-classify r a)

  -- What the lists hold.
  pub record IsSound (a : Sorted) : Type 0 where
    pub scored : All IsMatch a.scored
    pub unmatched : All IsUnmatched a.unmatched

  classify-IsSound :
      (r : MemoryRecord) (a : Sorted) → IsSound a → IsSound (classify casefold query r a)
  unfolding classify is_eligible
  classify-IsSound r a h = ground (
    arith,
    All-append IsMatch a.scored ((lexical_score casefold r query, r) ∷ []) h.scored,
    All-append IsUnmatched a.unmatched (r ∷ []) h.unmatched,
  )

  pub classify_all-IsSound :
      (rs : List MemoryRecord) (a : Sorted) → IsSound a → IsSound (classify_all casefold query rs a)
  unfolding classify_all
  classify_all-IsSound [] a h = h
  classify_all-IsSound (r ∷ rs) a h =
      classify_all-IsSound rs (classify casefold query r a) (classify-IsSound r a h)

  -- Each identity is kept at most as often as it is given.
  abbrev pub kept : String → Sorted → ℕ
  kept id a = occurrences scored_id id a.scored + occurrences record_id id a.unmatched

  kept-classify :
      (id : String) (r : MemoryRecord) (a : Sorted)
      → kept id (classify casefold query r a) ≤ kept id a + occurrences record_id id (r ∷ [])
  unfolding classify occurrences
  kept-classify id r a = ground (
    arith,
    occurrences-append record_id id a.unmatched (r ∷ []),
    occurrences-append scored_id id a.scored ((lexical_score casefold r query, r) ∷ []),
  )

  pub kept-classify_all :
      (id : String) (rs : List MemoryRecord) (a : Sorted)
      → kept id (classify_all casefold query rs a) ≤ kept id a + occurrences record_id id rs
  unfolding classify_all occurrences
  kept-classify_all id [] a = omega arith
  kept-classify_all id (r ∷ rs) a =
      omega (arith, kept-classify_all id rs (classify casefold query r a), kept-classify id r a)

  -- An eligible record is in one of the lists.
  abbrev pub Has : MemoryRecord → Sorted → Type 0
  Has r a = Occurs r a.unmatched ⊎ Occurs (lexical_score casefold r query, r) a.scored

  classify-Has : (r t : MemoryRecord) (a : Sorted) → Has t a → Has t (classify casefold query r a)
  unfolding classify
  classify-Has r t a h = ground (
    arith,
    Occurs-append_left t a.unmatched (r ∷ []),
    Occurs-append_left (lexical_score casefold t query, t) a.scored
        ((lexical_score casefold r query, r) ∷ []),
  )

  classify-Has_self :
      (r : MemoryRecord) (a : Sorted) → is_eligible r ≡ true → Has r (classify casefold query r a)
  unfolding classify is_eligible
  classify-Has_self r a h = ground (
    arith,
    Occurs-append_last r a.unmatched,
    Occurs-append_last (lexical_score casefold r query, r) a.scored,
  )

  pub classify_all-Has :
      (rs : List MemoryRecord) (t : MemoryRecord) (a : Sorted)
      → is_eligible t ≡ true
      → Occurs t rs ⊎ Has t a
      → Has t (classify_all casefold query rs a)
  unfolding classify_all
  classify_all-Has [] t a e (inl o) = absurd o
  classify_all-Has [] t a e (inr h) = h
  classify_all-Has (r ∷ rs) t a e (inl (inl same)) =
      classify_all-Has rs t (classify casefold query r a) e
        (inr (rw same (classify-Has_self r a (rw (← same) e))))
  classify_all-Has (r ∷ rs) t a e (inl (inr o)) =
      classify_all-Has rs t (classify casefold query r a) e (inl o)
  classify_all-Has (r ∷ rs) t a e (inr h) =
      classify_all-Has rs t (classify casefold query r a) e (inr (classify-Has r t a h))
