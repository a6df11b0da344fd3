-- ===== src/Retrieval/Ranking.antt =====
-- What `rank_memory_records` returns.
use oscillink_agent.Base.{
  ℕ, ◌+◌, ◌≤◌, ◌<◌, ◌≡◌, ap, Bool, ◌++◌, ◌⊎◌, inl, inr, refl, String, true, false, List, [], ◌∷◌,
  arith, All, Occurs, length, map,
}
use oscillink_agent.Domain.Identifiers.{codes}
use oscillink_agent.Memory.Types.{MemoryRecord}
use oscillink_agent.Retrieval.{
  Evidence, Retrieval, Scored, none_yet, is_eligible, text_le, evidence_le, record_le, sort,
  number_from, classify_all, rank_memory_records,
}
use oscillink_agent.Retrieval.Lexical.{Term, terms, to_set, lexical_score}
use oscillink_agent.Retrieval.Sorting.{
  occurrences, occurrences-sort, length-sort, All-sort, Occurs-sort, IsOrdered, sort-IsOrdered,
}
use oscillink_agent.Retrieval.Partition.{
  excluded, scored_id, record_id, evidence_id, IsMatch, IsUnmatched, handled-classify_all,
  classify_all-IsSound, kept-classify_all, classify_all-Has,
}

-- The score and the record of an evidence.
abbrev pub pair_of : Evidence → Scored
pair_of e = (e.score, e.memory)

-- The ranks count up from a number.
abbrev pub HasRanks : ℕ → List Evidence → Type 0
HasRanks n [] = Unit
HasRanks n (e ∷ es) = (e.rank ≡ n) × HasRanks (n + 1) es

number_from-HasRanks : (n : ℕ) (ps : List Scored) → HasRanks n (number_from n ps)
unfolding number_from
number_from-HasRanks n [] = tt
number_from-HasRanks n (p ∷ ps) = (refl, number_from-HasRanks (n + 1) ps)

map-number_from : (n : ℕ) (ps : List Scored) → map pair_of (number_from n ps) ≡ ps
unfolding number_from
map-number_from n [] = refl
map-number_from n (p ∷ ps) = rw (map-number_from (n + 1) ps)

pub length-number_from : (n : ℕ) (ps : List Scored) → length (number_from n ps) ≡ length ps
unfolding number_from
length-number_from n [] = refl
length-number_from n (p ∷ ps) = omega (arith, length-number_from (n + 1) ps)

occurrences-number_from :
    (id : String) (n : ℕ) (ps : List Scored)
    → occurrences evidence_id id (number_from n ps) ≡ occurrences scored_id id ps
unfolding number_from occurrences
occurrences-number_from id n [] = refl
occurrences-number_from id n (p ∷ ps) = omega (arith, occurrences-number_from id (n + 1) ps)

pub All-number_from :
    (P : Scored → Type 0) (n : ℕ) (ps : List Scored)
    → All P ps
    → All (λ e. P (pair_of e)) (number_from n ps)
unfolding number_from
All-number_from P n [] h = tt
All-number_from P n (p ∷ ps) h = (h.0, All-number_from P (n + 1) ps h.1)

text_le_total : (s t : List ℕ) → text_le s t ≡ false → text_le t s ≡ true
unfolding text_le
text_le_total [] t h = ground arith
text_le_total (a ∷ s) [] h = refl
text_le_total (a ∷ s) (b ∷ t) h = ground (arith, text_le_total s t)

evidence_le_total : (p q : Scored) → evidence_le p q ≡ false → evidence_le q p ≡ true
unfolding evidence_le
evidence_le_total (a, r) (b, t) h = ground (arith, text_le_total (codes r.id) (codes t.id))

record_le_total : (r t : MemoryRecord) → record_le r t ≡ false → record_le t r ≡ true
unfolding record_le
record_le_total r t h = text_le_total (codes r.id) (codes t.id) h

-- Each item and the next are related.
abbrev pub IsChained : {A : Type 0} → (A → A → Type 0) → List A → Type 0
IsChained R [] = Unit
IsChained R (x ∷ []) = Unit
IsChained R (x ∷ y ∷ ys) = R x y × IsChained R (y ∷ ys)

IsOrdered-IsChained :
    {A : Type 0} (le : A → A → Bool) (R : A → A → Type 0)
    → ((x y : A) → le x y ≡ true → R x y)
    → (xs : List A) → IsOrdered le xs
    → IsChained R xs
IsOrdered-IsChained le R f [] h = tt
IsOrdered-IsChained le R f (x ∷ []) h = tt
IsOrdered-IsChained le R f (x ∷ y ∷ ys) h = (f x y h.0, IsOrdered-IsChained le R f (y ∷ ys) h.1)

-- Of two texts, the first is a beginning of the second, or has the lower code where they first
-- differ.
abbrev pub IsBefore : List ℕ → List ℕ → Type 0
IsBefore s t =
    ((rest : List ℕ) × (t ≡ s ++ rest))
    ⊎ ((p : List ℕ) × (a : ℕ) × (b : ℕ) × (s' : List ℕ) × (t' : List ℕ) × (s ≡ p ++ a ∷ s')
        × (t ≡ p ++ b ∷ t')
        × (a < b))

IsBefore-cons : (a : ℕ) (s t : List ℕ) → IsBefore s t → IsBefore (a ∷ s) (a ∷ t)
IsBefore-cons a s t (inl (rest, e)) = inl (rest, ap (λ l. a ∷ l) e)
IsBefore-cons a s t (inr (p, c, d, s', t', e, f, lt)) =
    inr (a ∷ p, c, d, s', t', ap (λ l. a ∷ l) e, ap (λ l. a ∷ l) f, lt)

text_le_cases :
    (a b : ℕ) (s t : List ℕ)
    → text_le (a ∷ s) (b ∷ t) ≡ true
    → (a < b) ⊎ ((a ≡ b) × (text_le s t ≡ true))
unfolding text_le
text_le_cases a b s t h = ground arith

text_le-IsBefore : (s t : List ℕ) → text_le s t ≡ true → IsBefore s t
unfolding text_le
text_le-IsBefore [] t h = inl (t, refl)
text_le-IsBefore (a ∷ s) [] h = absurd (ground arith)
text_le-IsBefore (a ∷ s) (b ∷ t) h = elim (text_le_cases a b s t h) [
  | inl less ↦ inr ([], a, b, s, t, refl, refl, less)
  | inr (same, rest) ↦ rw same (IsBefore-cons b s t (text_le-IsBefore s t rest))
]

evidence_le_cases :
    (x y : Scored)
    → evidence_le x y ≡ true
    → (y.0 < x.0) ⊎ ((x.0 ≡ y.0) × (text_le (codes x.1.id) (codes y.1.id) ≡ true))
unfolding evidence_le
evidence_le_cases x y h = ground arith

-- A higher score, or the same score and an identity that is not later.
abbrev pub ComesBefore : Scored → Scored → Type 0
ComesBefore x y = (y.0 < x.0) ⊎ ((x.0 ≡ y.0) × IsBefore (codes x.1.id) (codes y.1.id))

evidence_le-ComesBefore : (x y : Scored) → evidence_le x y ≡ true → ComesBefore x y
evidence_le-ComesBefore x y h = elim (evidence_le_cases x y h) [
  | inl higher ↦ inl higher
  | inr (same, ids) ↦ inr (same, text_le-IsBefore (codes x.1.id) (codes y.1.id) ids)
]

record_le-IsBefore :
    (r t : MemoryRecord) → record_le r t ≡ true → IsBefore (codes r.id) (codes t.id)
unfolding record_le
record_le-IsBefore r t h = text_le-IsBefore (codes r.id) (codes t.id) h

module _ (casefold : List ℕ → List ℕ) (rs : List MemoryRecord) (query : String) where
  abbrev query_terms : List Term
  query_terms = to_set (terms casefold query)

  abbrev result : Retrieval
  result = rank_memory_records casefold rs query

  -- The numbers of ranked, unmatched and excluded records add up to the number of records given.
  pub rank_accounts_for_all :
      length (rank_memory_records casefold rs query).ranked
        + length (rank_memory_records casefold rs query).unmatched
        + excluded (rank_memory_records casefold rs query).exclusions
      ≡ length rs
  unfolding rank_memory_records
  rank_accounts_for_all =
      let a = classify_all casefold query_terms rs none_yet in
      omega (
        arith,
        handled-classify_all casefold query_terms rs none_yet,
        length-number_from 1 (sort evidence_le a.scored),
        length-sort evidence_le a.scored,
        length-sort record_le a.unmatched,
      )

  -- Ranked evidence is approved, has its source and carries its positive lexical score; unmatched
  -- records are approved, have their source and score zero.
  pub rank_sound :
      All
        (λ e. IsMatch casefold (to_set (terms casefold query)) (pair_of e))
        (rank_memory_records casefold rs query).ranked
      × All
          (IsUnmatched casefold (to_set (terms casefold query)))
          (rank_memory_records casefold rs query).unmatched
  unfolding rank_memory_records
  rank_sound =
      let a = classify_all casefold query_terms rs none_yet in
      let s =
        classify_all-IsSound casefold query_terms rs none_yet
          (record { scored = tt; unmatched = tt }) in
      (
        All-number_from (IsMatch casefold query_terms) 1 (sort evidence_le a.scored)
            (All-sort evidence_le (IsMatch casefold query_terms) a.scored s.scored),
        All-sort record_le (IsUnmatched casefold query_terms) a.unmatched s.unmatched,
      )

  -- Every record given that is approved and whose source is not missing is shown: ranked with its
  -- lexical score, or unmatched.
  pub rank_complete :
      (r : MemoryRecord)
      → Occurs r rs
      → is_eligible r ≡ true
      → Occurs r (rank_memory_records casefold rs query).unmatched
        ⊎ Occurs
            (lexical_score casefold r (to_set (terms casefold query)), r)
            (map pair_of (rank_memory_records casefold rs query).ranked)
  unfolding rank_memory_records
  rank_complete r o e =
      let a = classify_all casefold query_terms rs none_yet in
      elim (classify_all-Has casefold query_terms rs r none_yet e (inl o)) [
        | inl u ↦ inl (Occurs-sort record_le r a.unmatched u)
        | inr m ↦ inr (rw map-number_from (Occurs-sort evidence_le _ a.scored m))
      ]

  -- The evidence is in order of falling score and, at the same score, of identity by code points, and
  -- is ranked 1, 2, 3 and on; the unmatched records are in order of identity.
  pub rank-IsOrdered :
      HasRanks 1 (rank_memory_records casefold rs query).ranked
      × IsChained ComesBefore (map pair_of (rank_memory_records casefold rs query).ranked)
      × IsChained
          (λ r t. IsBefore (codes r.id) (codes t.id))
          (rank_memory_records casefold rs query).unmatched
  unfolding rank_memory_records
  rank-IsOrdered =
      let a = classify_all casefold query_terms rs none_yet in
      (
        number_from-HasRanks 1 (sort evidence_le a.scored),
        rw map-number_from (
            IsOrdered-IsChained evidence_le ComesBefore evidence_le-ComesBefore
              (sort evidence_le a.scored) (sort-IsOrdered evidence_le evidence_le_total a.scored)),
        IsOrdered-IsChained record_le (λ r t. IsBefore (codes r.id) (codes t.id)) record_le-IsBefore
            (sort record_le a.unmatched) (sort-IsOrdered record_le record_le_total a.unmatched),
      )

  -- No identity is ranked or listed as unmatched more often, together, than it is given.
  pub rank_occurrences :
      (id : String)
      → occurrences evidence_id id (rank_memory_records casefold rs query).ranked
          + occurrences record_id id (rank_memory_records casefold rs query).unmatched
        ≤ occurrences record_id id rs
  unfolding rank_memory_records occurrences
  rank_occurrences id =
      let a = classify_all casefold query_terms rs none_yet in
      omega (
        arith,
        kept-classify_all casefold query_terms id rs none_yet,
        occurrences-number_from id 1 (sort evidence_le a.scored),
        occurrences-sort evidence_le scored_id id a.scored,
        occurrences-sort record_le record_id id a.unmatched,
      )
