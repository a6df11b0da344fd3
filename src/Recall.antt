-- ===== src/Recall.antt =====
-- The recall tool of integrations/mcp/server.py, with RecallRequest and RecalledMemory of
-- integrations/mcp/contracts.py.
pub mod Approved
pub mod Clock
use Prim.Native.String.{String}
use oscillink_agent.Base.{
  ℕ, zero, suc, Bool, true, false, ◌&&◌, Option, none, some, List, [], ◌∷◌, map, length, leb,
  select, ◌==◌, nat_eq, string_eq, Result, ok, err, if◌then◌else◌,
}
use oscillink_agent.Domain.Identifiers.{codes, is_digest, is_memory_record_id, is_record_id}
use oscillink_agent.Domain.Tokens.{decode, token_id}
use oscillink_agent.Domain.Vocabulary.{approved, status_eq}
use oscillink_agent.Memory.Types.{MemoryRecord}
use oscillink_agent.Retrieval.{is_eligible, rank_memory_records}
use oscillink_agent.Context.{Item, Manifest, all_rows, token_count}
use oscillink_agent.Context.Compiler.{CompileRequest, compile_context}

-- `RecallRequest`
pub record RecallRequest : Type 0 where
  pub request_id : String
  pub query : String
  pub token_budget : ℕ

-- `RecalledMemory`; its content treatment is the constant "untrusted_data".
pub record RecalledMemory : Type 0 where
  pub record_id : String
  pub content_hash : String
  pub title : String
  pub content : String
  pub source_refs : List String

-- `UnavailableResponse` for want of approved memory, or `RecallResponse`.
pub data Recalled : Type 0 where
  unavailable : Recalled
  available : Manifest → List RecalledMemory → Recalled

pub data RecallError : Type 0 where
  value_error : RecallError

-- The library functions that recall calls: `str.casefold`, the first seventeen bytes of
-- `hashlib.sha256(f"{request_id}:{purpose}")` as a number, `datetime.fromtimestamp` of milliseconds,
-- which gives microseconds or raises, and `canonical_payload_hash` of the policy.
pub record Runtime : Type 0 where
  pub casefold : List ℕ → List ℕ
  pub digest : String → String → ℕ
  pub from_timestamp : ℕ → Option ℕ
  pub policy_hash : String

-- `request_id.removeprefix("evt_")`, of a text that starts with it
unfoldable pub drop_codes : ℕ → String → String
drop_codes zero s = s
drop_codes (suc n) String.[] = String.[]
drop_codes (suc n) (String.◌∷◌ c s) = drop_codes n s

-- The constraints of `RecalledMemory`.
unfoldable pub is_valid_recalled : RecalledMemory → Bool
is_valid_recalled r =
    is_memory_record_id r.record_id
    && is_digest r.content_hash
    && leb 1 (length (codes r.title))
    && leb (length (codes r.title)) 512
    && leb 1 (length (codes r.content))
    && leb (length (codes r.content)) 65536
    && leb 1 (length r.source_refs)
    && leb (length r.source_refs) 16
    && all_rows is_record_id r.source_refs

-- `RecalledMemory(…)`
unfoldable pub recalled_memory : MemoryRecord → RecalledMemory
recalled_memory r = record {
  record_id = r.id;
  content_hash = r.content_hash;
  title = r.title;
  content = r.content;
  source_refs = r.id ∷ [];
}

-- `bind_records_to_manifest_revisions`, item by item: the revision, the status and the tokens.
unfoldable pub is_bound : List Item → List RecalledMemory → Bool
is_bound [] [] = true
is_bound [] (r ∷ rs) = false
is_bound (i ∷ is) [] = false
is_bound (i ∷ is) (r ∷ rs) =
    i.record_id == r.record_id
    && i.content_hash == r.content_hash
    && i.status == approved
    && token_count r.content == i.tokens
    && is_bound is rs

module _ (runtime : Runtime) where
  -- `_request_time`; `none` stands for the ValueError
  unfoldable pub request_time : String → Option ℕ
  unfolding drop_codes
  request_time request_id = elim (decode 10 0 (drop_codes 4 request_id)) [
    | none ↦ none
    | some ms ↦ runtime.from_timestamp ms
  ]

  -- The arguments that `_recall` gives to `compile_context`.
  unfoldable pub compile_request : RecallRequest → ℕ → CompileRequest
  compile_request q at = record {
    context_id = token_id "ctx_" (runtime.digest q.request_id "recall-context");
    task_id = token_id "tsk_" (runtime.digest q.request_id "recall-task");
    compiled_at = at;
    token_budget = q.token_budget;
    policy_hash = runtime.policy_hash;
  }

  unfoldable pub respond : Manifest → List MemoryRecord → Result RecallError Recalled
  respond m selected =
      if all_rows is_valid_recalled (map recalled_memory selected)
        && is_bound m.items (map recalled_memory selected)
      then ok (available m (map recalled_memory selected))
      else err value_error

  unfoldable pub compile_recall :
      List MemoryRecord → RecallRequest → ℕ → Result RecallError Recalled
  compile_recall records q at =
      elim (compile_context (rank_memory_records runtime.casefold records q.query)
        (compile_request q at)) [ err e ↦ err value_error | ok r ↦ respond r.0 r.1 ]

  -- `_recall`
  unfoldable pub recall : List MemoryRecord → RecallRequest → Result RecallError Recalled
  recall records q =
      if length (select is_eligible records) == 0
      then ok unavailable
      else elim (request_time q.request_id) [
        | none ↦ err value_error
        | some at ↦ compile_recall records q at
      ]
