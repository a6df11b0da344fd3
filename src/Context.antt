-- ===== src/Context.antt =====
-- Context compilation: the manifest contracts of domain/context.py and `compile_context` of
-- context/compiler.py.
pub mod Compiler
pub mod Accounting
pub mod Validity
pub mod Failures
pub mod Pipeline
use oscillink_agent.Base.{
  ℕ, zero, suc, ◌+◌, String, Bool, true, false, not, ◌&&◌, ◌||◌, Option, none, some, List, [], ◌∷◌,
  ◌++◌, map, length, ltb, leb, ◌==◌, nat_eq, string_eq, list_eq, option_eq, DecEq, holds, is_unique,
  Result, ok, err, string_discrete, ℕ_discrete, if◌then◌else◌,
}
use oscillink_agent.Domain.Identifiers.{codes, is_record_id, is_digest, is_context_id, is_task_id}
use oscillink_agent.Domain.Vocabulary.{
  TrustClass, human_verified, ContextStatus, approved, OmissionReason, token_budget, no_query_match,
  max_integer, trust_discrete, status_discrete,
}
use oscillink_agent.Memory.Types.{
  Category, Domain, MemoryRecord, category_discrete, domain_discrete,
}
use oscillink_agent.Retrieval.{Evidence, Exclusions, Retrieval}

-- `str.isspace` of the code points at which `str.split()` separates words.
unfoldable pub is_space : ℕ → Bool
is_space c =
    leb 9 c && leb c 13
    || leb 28 c && leb c 32
    || c == 133
    || c == 160
    || c == 5760
    || leb 8192 c && leb c 8202
    || c == 8232
    || c == 8233
    || c == 8239
    || c == 8287
    || c == 12288

-- Whether a word begins here, and how many words there are.
scan_words : List ℕ → Bool × ℕ
scan_words [] = (false, 0)
scan_words (c ∷ cs) =
    let (in_word, n) = scan_words cs in
    if is_space c then (false, n) else if in_word then (true, n) else (true, n + 1)

-- `len(content.split())`
unfoldable pub token_count : String → ℕ
unfolding scan_words is_space
token_count s = (scan_words (codes s)).1

-- `ContextItem`; the inclusion reason is the text "approved lexical evidence rank=… score=…",
-- which the rank and the score determine.
pub record Item : Type 0 where
  pub record_id : String
  pub content_hash : String
  pub title : String
  pub category : Category
  pub domains : List Domain
  pub trust_class : TrustClass
  pub status : ContextStatus
  pub tokens : ℕ
  pub source_refs : List String
  pub retrieval_rank : Option ℕ
  pub retrieval_score : Option ℕ

unfoldable pub item_discrete : Discrete Item
item_discrete = hlevel (
  string_discrete, category_discrete, domain_discrete, trust_discrete, status_discrete, ℕ_discrete,
)

instance abbrev pub item_eq : DecEq Item
item_eq = record { dec = item_discrete }

-- `ContextOmission`
pub record Omission : Type 0 where
  pub record_id : String
  pub content_hash : String
  pub reason : OmissionReason
  pub retrieval_rank : Option ℕ
  pub retrieval_score : Option ℕ

-- `ContextManifest`
pub record Manifest : Type 0 where
  pub id : String
  pub task_id : String
  pub compiled_at : ℕ
  pub budget : ℕ
  pub total : ℕ
  pub policy_hash : String
  pub items : List Item
  pub omissions : List Omission
  pub exclusions : Exclusions

abbrev in_range : ℕ → ℕ → Bool
in_range low n = leb low n && leb n max_integer

-- `JsonInteger, Field(ge=1)` or None
positive_or_none : Option ℕ → Bool
positive_or_none none = true
positive_or_none (some n) = in_range 1 n

is_some : Option ℕ → Bool
is_some none = false
is_some (some n) = true

-- `(retrieval_rank is None) == (retrieval_score is None)`
recorded_together : Option ℕ → Option ℕ → Bool
unfolding is_some
recorded_together none s = not (is_some s)
recorded_together (some r) s = is_some s

unfoldable pub all_rows : {A : Type 0} → (A → Bool) → List A → Bool
all_rows p [] = true
all_rows p (x ∷ xs) = p x && all_rows p xs

-- The constraints and validators of `ContextItem`.
unfoldable pub is_valid_item : Item → Bool
unfolding positive_or_none recorded_together
is_valid_item i =
    is_record_id i.record_id
    && is_digest i.content_hash
    && leb 1 (length (codes i.title))
    && leb (length (codes i.title)) 512
    && leb (length i.domains) 16
    && in_range 0 i.tokens
    && leb 1 (length i.source_refs)
    && is_unique i.source_refs
    && all_rows is_record_id i.source_refs
    && positive_or_none i.retrieval_rank
    && positive_or_none i.retrieval_score
    && recorded_together i.retrieval_rank i.retrieval_score

-- The constraints and the validator of `ContextOmission`.
unfoldable pub is_valid_omission : Omission → Bool
unfolding positive_or_none is_some
is_valid_omission o =
    let has_rank = is_some o.retrieval_rank && is_some o.retrieval_score in
    is_record_id o.record_id
    && is_digest o.content_hash
    && positive_or_none o.retrieval_rank
    && positive_or_none o.retrieval_score
    && elim o.reason [ token_budget ↦ has_rank | no_query_match ↦ not has_rank ]

unfoldable pub sum_tokens : List Item → ℕ
sum_tokens [] = 0
sum_tokens (i ∷ is) = i.tokens + sum_tokens is

abbrev pub item_ids : List Item → List String
item_ids = map (λ i. i.record_id)

abbrev pub omission_ids : List Omission → List String
omission_ids = map (λ o. o.record_id)

-- The constraints and validators of `ContextManifest`, its items' and its omissions', less the upper
-- bound of a JSON integer on the counts of its exclusions.
unfoldable pub is_valid_manifest : Manifest → Bool
is_valid_manifest m =
    is_context_id m.id
    && is_task_id m.task_id
    && in_range 1 m.budget
    && in_range 0 m.total
    && is_digest m.policy_hash
    && all_rows is_valid_item m.items
    && all_rows is_valid_omission m.omissions
    && is_unique m.items
    && is_unique (omission_ids m.omissions)
    && leb m.total m.budget
    && sum_tokens m.items == m.total
    && all_rows (λ id. not (holds (omission_ids m.omissions) id)) (item_ids m.items)
