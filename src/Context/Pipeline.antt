-- ===== src/Context/Pipeline.antt =====
-- Ranking and compilation together, as the callers of retrieval/service.py and context/compiler.py
-- compose them.
use oscillink_agent.Base.{
  ℕ, ◌+◌, ◌≤◌, ◌<◌, ◌≡◌, ◌≢◌, String, true, List, [], ◌∷◌, arith, All, All-append, All-map, length,
  map, ok,
}
use oscillink_agent.Domain.Identifiers.{is_record_id, is_memory_record_id}
use oscillink_agent.Domain.Vocabulary.{max_integer}
use oscillink_agent.Memory.Types.{MemoryRecord}
use oscillink_agent.Memory.Store.{is_valid}
use oscillink_agent.Retrieval.{
  Evidence, Scored, Sorted, none_yet, evidence_le, record_le, sort, classify, classify_all,
  rank_memory_records,
}
use oscillink_agent.Retrieval.Lexical.{Term, terms, to_set, lexical_score}
use oscillink_agent.Retrieval.Sorting.{occurrences, All-sort}
use oscillink_agent.Retrieval.Partition.{record_id}
use oscillink_agent.Retrieval.Ranking.{
  HasRanks, All-number_from, rank_accounts_for_all, rank_sound, rank-IsOrdered, rank_occurrences,
}
use oscillink_agent.Context.Compiler.{
  nothing_selected, choose_all, CompileRequest, manifest_of, compile_context,
}
use oscillink_agent.Context.Validity.{
  IsAcceptable, IsCitable, IsCompilable, IsRequest, compile_succeeds,
}

-- A record as the repository stores it, of at most sixteen domains.
pub record IsStorable (r : MemoryRecord) : Type 0 where
  pub valid : is_valid r ≡ true
  pub domains_fit : length r.domains ≤ 16

HasRanks-bounds :
    (n : ℕ) (es : List Evidence)
    → HasRanks n es
    → All (λ e. (n ≤ e.rank) × (e.rank < n + length es)) es
HasRanks-bounds n [] h = tt
HasRanks-bounds n (e ∷ es) h = (
  (omega (arith, h.0), omega (arith, h.0)),
  All-map _ _ es (λ x b. (omega (arith, b.0), omega (arith, b.1))) (HasRanks-bounds (n + 1) es h.1),
)

pub All-both :
    {A : Type 0} (P Q : A → Type 0) (xs : List A) → All P xs → All Q xs → All (λ x. P x × Q x) xs
All-both P Q [] p q = tt
All-both P Q (x ∷ xs) p q = ((p.0, q.0), All-both P Q xs p.1 q.1)

citable_id : (id : String) → is_memory_record_id id ≡ true → is_record_id id ≡ true
unfolding is_memory_record_id is_record_id
citable_id id h = ground arith

IsStorable-IsCitable : (r : MemoryRecord) → IsStorable r → IsCitable r
unfolding is_valid
IsStorable-IsCitable r h = record {
  named = citable_id r.id (ground (arith, h.valid));
  hashed = ground (arith, h.valid);
}

module _ (casefold : List ℕ → List ℕ) where
  module _ (P : MemoryRecord → Type 0) (query : List Term) where
    abbrev Pair : Scored → Type 0
    Pair (score, r) = P r

    -- Every record that is kept has the property.
    record Shows (a : Sorted) : Type 0 where
      scored : All Pair a.scored
      unmatched : All P a.unmatched

    classify-Shows :
        (r : MemoryRecord) (a : Sorted) → P r → Shows a → Shows (classify casefold query r a)
    unfolding classify
    classify-Shows r a p h = ground (
      arith,
      p,
      h.scored,
      h.unmatched,
      All-append Pair a.scored ((lexical_score casefold r query, r) ∷ []) h.scored,
      All-append P a.unmatched (r ∷ []) h.unmatched,
    )

    classify_all-Shows :
        (rs : List MemoryRecord) (a : Sorted)
        → All P rs
        → Shows a
        → Shows (classify_all casefold query rs a)
    unfolding classify_all
    classify_all-Shows [] a h s = s
    classify_all-Shows (r ∷ rs) a h s =
        classify_all-Shows rs (classify casefold query r a) h.1 (classify-Shows r a h.0 s)

  pub rank-Shows :
      (P : MemoryRecord → Type 0) (rs : List MemoryRecord) (query : String)
      → All P rs
      → All (λ e. P e.memory) (rank_memory_records casefold rs query).ranked
        × All P (rank_memory_records casefold rs query).unmatched
  unfolding rank_memory_records
  rank-Shows P rs query h =
      let q = to_set (terms casefold query) in
      let a = classify_all casefold q rs none_yet in
      let s = classify_all-Shows P q rs none_yet h (record { scored = tt; unmatched = tt }) in
      (
        All-number_from (Pair P q) 1 (sort evidence_le a.scored)
            (All-sort evidence_le (Pair P q) a.scored s.scored),
        All-sort record_le P a.unmatched s.unmatched,
      )

-- What is known of a ranked evidence.
record IsKnown (limit : ℕ) (e : Evidence) : Type 0 where
  storable : IsStorable e.memory
  score_fits : e.score ≤ max_integer
  ranked : 1 ≤ e.rank
  rank_fits : e.rank ≤ limit
  scored : e.score ≢ 0

IsKnown-IsAcceptable :
    (limit : ℕ) (e : Evidence) → limit ≤ max_integer → IsKnown limit e → IsAcceptable e
unfolding is_valid
IsKnown-IsAcceptable limit e bounded h =
    let v = h.storable.valid in
    record {
      named = citable_id e.memory.id (ground arith);
      hashed = ground arith;
      titled = ground arith;
      title_fits = ground arith;
      domains_fit = h.storable.domains_fit;
      ranked = h.ranked;
      rank_fits = omega (arith, h.rank_fits);
      scored = ground (arith, h.scored);
      score_fits = h.score_fits;
    }

module _ (casefold : List ℕ → List ℕ) (rs : List MemoryRecord) (query : String) where
  abbrev HasFittingScore : MemoryRecord → Type 0
  HasFittingScore r = lexical_score casefold r (to_set (terms casefold query)) ≤ max_integer

  abbrev IsGiven : MemoryRecord → Type 0
  IsGiven r = IsStorable r × HasFittingScore r

  ranked-IsKnown :
      All IsStorable rs
      → All HasFittingScore rs
      → All (IsKnown (length rs)) (rank_memory_records casefold rs query).ranked
  ranked-IsKnown storable fits =
      let result = rank_memory_records casefold rs query in
      let shown =
        rank-Shows casefold IsGiven rs query
          (All-both IsStorable HasFittingScore rs storable fits) in
      let sound = rank_sound casefold rs query in
      let bounds = HasRanks-bounds 1 result.ranked (rank-IsOrdered casefold rs query).0 in
      let few : length result.ranked ≤ length rs =
        omega (arith, rank_accounts_for_all casefold rs query) in
      All-map _ _ result.ranked
        (λ e h. record {
          storable = h.0.0;
          score_fits = omega (arith, h.0.1, h.1.0.1);
          ranked = h.1.1.0;
          rank_fits = omega (arith, h.1.1.1, few);
          scored = h.1.0.2;
        })
        (All-both _ _ result.ranked shown.0 (All-both _ _ result.ranked sound.0 bounds))

  -- Whatever records are ranked for a query, stored records of at most sixteen domains with
  -- distinct ids, as long as their number and their scores are integers that JSON can exchange, a
  -- request within its bounds compiles: the manifest of the ranking meets the whole contract.
  pub rank-compile_context :
      (q : CompileRequest)
      → All IsStorable rs
      → All HasFittingScore rs
      → length rs ≤ max_integer
      → ((id : String) → occurrences record_id id rs ≤ 1)
      → IsRequest q
      → compile_context (rank_memory_records casefold rs query) q
        ≡ ok (
          manifest_of q (rank_memory_records casefold rs query) (
              choose_all q.token_budget
                (rank_memory_records casefold rs query).ranked
                nothing_selected),
          map
              (λ c. c.evidence.memory)
              (choose_all q.token_budget
                (rank_memory_records casefold rs query).ranked
                nothing_selected).selected,
        )
  rank-compile_context q storable fits few distinct request =
      let result = rank_memory_records casefold rs query in
      let good : IsCompilable result = record {
        acceptable =
            All-map _ _ result.ranked (λ e h. IsKnown-IsAcceptable (length rs) e few h)
              (ranked-IsKnown storable fits);
        citable =
            All-map _ _ result.unmatched IsStorable-IsCitable
              (rank-Shows casefold IsStorable rs query storable).1;
        distinct = λ id. omega (arith, rank_occurrences casefold rs query id, distinct id);
      } in
      compile_succeeds result q good request
