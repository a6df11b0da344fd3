-- ===== src/Context/Compiler.antt =====
-- `compile_context` of context/compiler.py.
use oscillink_agent.Base.{
  ℕ, ◌+◌, String, none, some, List, [], ◌∷◌, ◌++◌, map, ltb, Result, ok, err, if◌then◌else◌,
}
use oscillink_agent.Domain.Vocabulary.{human_verified, approved, token_budget, no_query_match}
use oscillink_agent.Memory.Types.{MemoryRecord}
use oscillink_agent.Retrieval.{Evidence, Retrieval}
use oscillink_agent.Context.{Item, Omission, Manifest, token_count, is_valid_manifest}

-- A member of `selected`: the evidence and its token count.
pub record Chosen : Type 0 where
  pub evidence : Evidence
  pub tokens : ℕ

-- The loop variables `selected`, `omissions` and `total_tokens`.
pub record Selection : Type 0 where
  pub selected : List Chosen
  pub omissions : List Omission
  pub total : ℕ

abbrev pub nothing_selected : Selection
nothing_selected = record { selected = []; omissions = []; total = 0 }

-- `ContextOmission(…, reason=TOKEN_BUDGET, …)`
unfoldable pub over_budget : Evidence → Omission
over_budget e = record {
  record_id = e.memory.id;
  content_hash = e.memory.content_hash;
  reason = token_budget;
  retrieval_rank = some e.rank;
  retrieval_score = some e.score;
}

-- `ContextOmission(…, reason=NO_QUERY_MATCH)`
unfoldable pub unmatched_omission : MemoryRecord → Omission
unmatched_omission r = record {
  record_id = r.id;
  content_hash = r.content_hash;
  reason = no_query_match;
  retrieval_rank = none;
  retrieval_score = none;
}

-- The loop body.
unfoldable pub choose : ℕ → Evidence → Selection → Selection
choose budget e a =
    let tokens = token_count e.memory.content in
    if ltb budget (a.total + tokens)
    then record a { omissions = a.omissions ++ over_budget e ∷ [] }
    else record {
      selected = a.selected ++ record { evidence = e; tokens = tokens } ∷ [];
      omissions = a.omissions;
      total = a.total + tokens;
    }

unfoldable pub choose_all : ℕ → List Evidence → Selection → Selection
choose_all budget [] a = a
choose_all budget (e ∷ es) a = choose_all budget es (choose budget e a)

-- `ContextItem(…)`
unfoldable pub item_of : Chosen → Item
item_of c =
    let r = c.evidence.memory in
    record {
      record_id = r.id;
      content_hash = r.content_hash;
      title = r.title;
      category = r.category;
      domains = r.domains;
      trust_class = human_verified;
      status = approved;
      tokens = c.tokens;
      source_refs = r.id ∷ [];
      retrieval_rank = some c.evidence.rank;
      retrieval_score = some c.evidence.score;
    }

pub data ContextError : Type 0 where
  validation_error : ContextError

-- What a compilation is given beside its evidence; `policy_hash` is the hash of a constant.
pub record CompileRequest : Type 0 where
  pub context_id : String
  pub task_id : String
  pub compiled_at : ℕ
  pub token_budget : ℕ
  pub policy_hash : String

-- The manifest that is built, before its constructors validate it.
unfoldable pub manifest_of : CompileRequest → Retrieval → Selection → Manifest
manifest_of q retrieval a = record {
  id = q.context_id;
  task_id = q.task_id;
  compiled_at = q.compiled_at;
  budget = q.token_budget;
  total = a.total;
  policy_hash = q.policy_hash;
  items = map item_of a.selected;
  omissions = a.omissions ++ map unmatched_omission retrieval.unmatched;
  exclusions = retrieval.exclusions;
}

-- `compile_context`; a constraint that fails is pydantic's ValidationError
unfoldable pub compile_context :
    Retrieval → CompileRequest → Result ContextError (Manifest × List MemoryRecord)
compile_context retrieval q =
    let a = choose_all q.token_budget retrieval.ranked nothing_selected in
    let m = manifest_of q retrieval a in
    if is_valid_manifest m
    then ok (m, map (λ c. c.evidence.memory) a.selected)
    else err validation_error
