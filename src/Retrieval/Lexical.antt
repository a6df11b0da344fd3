-- ===== src/Retrieval/Lexical.antt =====
-- `_terms` and `_lexical_score` of retrieval/service.py. `casefold` stands for `str.casefold` on
-- code points, whose tables are the Unicode standard's.
use oscillink_agent.Base.{
  ℕ, ◌+◌, ◌*◌, String, Bool, true, false, List, [], ◌∷◌, ◌++◌, map, ◌==◌, nat_eq, list_eq,
  exists_row, select, length, if◌then◌else◌,
}
use Prim.Native.Nat.{min}
use oscillink_agent.Domain.Identifiers.{codes, is_term_code}
use oscillink_agent.Memory.Types.{Category, Domain, MemoryRecord}

abbrev pub Term : Type 0
Term = List ℕ

-- `_STOP_WORDS`
unfoldable pub stop_words : List Term
stop_words =
    codes "a"
    ∷ codes "an"
    ∷ codes "and"
    ∷ codes "apply"
    ∷ codes "applies"
    ∷ codes "are"
    ∷ codes "for"
    ∷ codes "is"
    ∷ codes "of"
    ∷ codes "or"
    ∷ codes "the"
    ∷ codes "to"
    ∷ codes "what"
    ∷ codes "which"
    ∷ []

unfoldable pub contains : List Term → Term → Bool
contains ts t = exists_row (λ x. x == t) ts

-- A run that has ended is a match, if it is not empty.
finish : Term → List Term → List Term
finish [] ts = ts
finish (c ∷ cs) ts = (c ∷ cs) ∷ ts

-- `re.findall(r"[a-z0-9]+", …)`: the run that begins here, and the matches behind it.
unfoldable pub runs : List ℕ → Term × List Term
unfolding finish
runs [] = ([], [])
runs (c ∷ cs) =
    let (run, later) = runs cs in
    if is_term_code c then (c ∷ run, later) else ([], finish run later)

unfoldable pub find_terms : List ℕ → List Term
unfolding runs
find_terms cs = let (run, later) = runs cs in finish run later

-- A set of terms, as a list that holds each once.
unfoldable pub to_set : List Term → List Term
to_set [] = []
to_set (t ∷ ts) = let rest = to_set ts in if contains rest t then rest else t ∷ rest

unfoldable pub count : List Term → Term → ℕ
count [] t = 0
count (x ∷ xs) t = (if x == t then 1 else 0) + count xs t

unfoldable pub sum : List ℕ → ℕ
sum [] = 0
sum (n ∷ ns) = n + sum ns

-- `category.value`
unfoldable pub category_value : Category → String
category_value Category.research = "research"
category_value Category.tooling = "tooling"
category_value Category.project = "project"
category_value Category.experiment = "experiment"
category_value Category.governance = "governance"
category_value Category.reference = "reference"
category_value Category.note = "note"

-- `domain.value`
unfoldable pub domain_value : Domain → String
domain_value Domain.ai_ml = "ai_ml"
domain_value Domain.rf_em = "rf_em"
domain_value Domain.science = "science"
domain_value Domain.mathematics = "mathematics"
domain_value Domain.engineering = "engineering"
domain_value Domain.software = "software"
domain_value Domain.business = "business"
domain_value Domain.general = "general"

flat : List (List Term) → List Term
flat [] = []
flat (ts ∷ rest) = ts ++ flat rest

module _ (casefold : List ℕ → List ℕ) where
  -- `_terms`
  unfoldable pub terms : String → List Term
  unfolding find_terms stop_words contains
  terms s =
      select (λ t. if contains stop_words t then false else true) (find_terms (casefold (codes s)))

  weighted_score : MemoryRecord → List Term → ℕ
  unfolding flat category_value domain_value
  weighted_score r query =
      let title = terms r.title in
      let topics = flat (map terms r.topics) in
      let classes =
        terms (category_value r.category) ++ flat (map (λ d. terms (domain_value d)) r.domains) in
      let content = terms r.content in
      4 * length (select (contains title) query)
      + 3 * length (select (contains topics) query)
      + 2 * length (select (contains classes) query)
      + min 8 (sum (map (count content) query))

  -- `_lexical_score`, on the distinct terms of the query
  unfoldable pub lexical_score : MemoryRecord → List Term → ℕ
  unfolding weighted_score
  lexical_score r [] = 0
  lexical_score r (t ∷ query) = weighted_score r (t ∷ query)
