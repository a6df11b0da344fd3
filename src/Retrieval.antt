-- ===== src/Retrieval.antt =====
-- Lexical ranking of approved memory: retrieval/service.py and retrieval/contracts.py. `casefold`
-- stands for `str.casefold` on code points.
pub mod Lexical
pub mod Sorting
pub mod Partition
pub mod Ranking
pub mod Approved
use oscillink_agent.Base.{
  ℕ, zero, suc, ◌+◌, String, Bool, true, false, ◌&&◌, ◌||◌, none, some, List, [], ◌∷◌, ◌++◌, ltb,
  leb, select, ◌==◌, nat_eq, string_eq, option_eq, if◌then◌else◌,
}
use oscillink_agent.Domain.Identifiers.{codes}
use oscillink_agent.Memory.Types.{
  AuthorityState, approved, superseded, contradicted, MemoryRecord, state_eq,
}
use oscillink_agent.Memory.Store.{Store, list}
use Lexical.{Term, terms, to_set, lexical_score}

-- `RankedMemoryEvidence`
pub record Evidence : Type 0 where
  pub memory : MemoryRecord
  pub rank : ℕ
  pub score : ℕ

-- `ContextExclusionSummary`
pub record Exclusions : Type 0 where
  pub not_approved : ℕ
  pub missing_source : ℕ
  pub superseded_count : ℕ
  pub conflict : ℕ

-- `MemoryRetrievalResult`
pub record Retrieval : Type 0 where
  pub ranked : List Evidence
  pub unmatched : List MemoryRecord
  pub exclusions : Exclusions

abbrev pub Scored : Type 0
Scored = ℕ × MemoryRecord

-- Python's order of texts, by code points.
unfoldable pub text_le : List ℕ → List ℕ → Bool
text_le [] t = true
text_le (a ∷ s) [] = false
text_le (a ∷ s) (b ∷ t) = let rest = text_le s t in if ltb a b then true else (a == b) && rest

abbrev pub id_le : String → String → Bool
id_le a b = text_le (codes a) (codes b)

-- `sort`, which is stable: an insertion sort by `le`.
module _ {A : Type 0} (le : A → A → Bool) where
  unfoldable pub insert : A → List A → List A
  insert x [] = x ∷ []
  insert x (y ∷ ys) = if le x y then x ∷ y ∷ ys else y ∷ insert x ys

  unfoldable pub sort : List A → List A
  unfolding insert
  sort [] = []
  sort (x ∷ xs) = insert x (sort xs)

-- The key `(-score, id)`.
unfoldable pub evidence_le : Scored → Scored → Bool
evidence_le (a, r) (b, t) = if ltb b a then true else (a == b) && id_le r.id t.id

unfoldable pub record_le : MemoryRecord → MemoryRecord → Bool
record_le r t = id_le r.id t.id

-- `enumerate(scored, start=n)`
unfoldable pub number_from : ℕ → List Scored → List Evidence
number_from n [] = []
number_from n ((score, r) ∷ rest) =
    record { memory = r; rank = n; score = score } ∷ number_from (n + 1) rest

-- The loop variables of `rank_memory_records`.
pub record Sorted : Type 0 where
  pub scored : List Scored
  pub unmatched : List MemoryRecord
  pub exclusions : Exclusions

abbrev pub none_yet : Sorted
none_yet = record {
  scored = [];
  unmatched = [];
  exclusions = record { not_approved = 0; missing_source = 0; superseded_count = 0; conflict = 0 };
}

-- The approved records whose source is not missing.
unfoldable pub is_eligible : MemoryRecord → Bool
is_eligible r =
    r.authority_state == approved && (if r.source_status == some "missing" then false else true)

-- `retrieve_approved_memory`
unfoldable pub retrieve_approved_memory : Store → List MemoryRecord
retrieve_approved_memory s = select is_eligible (list s)

module _ (casefold : List ℕ → List ℕ) where
  -- The loop body.
  unfoldable pub classify : List Term → MemoryRecord → Sorted → Sorted
  classify query r a =
      let x = a.exclusions in
      if r.authority_state == superseded
      then record a { exclusions = record x { superseded_count = x.superseded_count + 1 } }
      else if r.authority_state == contradicted
      then record a { exclusions = record x { conflict = x.conflict + 1 } }
      else if r.authority_state == approved
      then (if r.source_status == some "missing"
          then record a { exclusions = record x { missing_source = x.missing_source + 1 } }
          else if lexical_score casefold r query == 0
          then record a { unmatched = a.unmatched ++ r ∷ [] }
          else record a { scored = a.scored ++ (lexical_score casefold r query, r) ∷ [] })
      else record a { exclusions = record x { not_approved = x.not_approved + 1 } }

  unfoldable pub classify_all : List Term → List MemoryRecord → Sorted → Sorted
  classify_all query [] a = a
  classify_all query (r ∷ rs) a = classify_all query rs (classify query r a)

  -- `rank_memory_records`
  unfoldable pub rank_memory_records : List MemoryRecord → String → Retrieval
  rank_memory_records rs query =
      let a = classify_all (to_set (terms casefold query)) rs none_yet in
      record {
        ranked = number_from 1 (sort evidence_le a.scored);
        unmatched = sort record_le a.unmatched;
        exclusions = a.exclusions;
      }

  -- `retrieve_memory_evidence`
  unfoldable pub retrieve_memory_evidence : Store → String → Retrieval
  retrieve_memory_evidence s query = rank_memory_records (list s) query
