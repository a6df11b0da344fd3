-- ===== src/Mcp/Server.antt =====
-- The server of integrations/mcp/server.py: validation and dispatch of the four tools, and the
-- answer to a call that raised.
use oscillink_agent.Base.{
  String, Bool, ◌&&◌, Option, none, some, List, [], ◌∷◌, length, ◌==◌, nat_eq, string_eq, Result,
  ok, err, Action, if◌then◌else◌,
}
use oscillink_agent.Memory.Store.{Store, MemoryError, empty, list}
use oscillink_agent.Recall.{Runtime, RecallRequest, RecallError, Recalled, recall}
use oscillink_agent.Mcp.{
  Tool, empty_workspace, no_approved_memory, invalid_request, internal_error, RememberRequest,
  Target, ExplainRequest, Response, unavailable, failure, recalled, is_valid_recall,
  is_valid_remember, is_valid_target, is_valid_explain,
}
use oscillink_agent.Mcp.Explain.{explain_revision}
use oscillink_agent.Mcp.Propose.{Proposal, Proposer, propose}

-- The database file of the workspace, or none.
abbrev pub Workspace : Type 0
Workspace = Option Store

pub data ToolError : Type 0 where
  raised_memory : MemoryError → ToolError
  raised_recall : RecallError → ToolError

abbrev pub ToolCall : Type 0
ToolCall = Action Workspace ToolError Response

-- The library's part of `model_validate`: the fields of the declared types, and no others.
pub record Decoder (Arguments : Type 0) : Type 0 where
  pub recall_fields : Arguments → Option RecallRequest
  pub explain_fields : Arguments → Option ExplainRequest
  pub remember_fields : Arguments → Option RememberRequest
  pub correct_fields : Arguments → Option (RememberRequest × Target)

pub data ReadRequest : Type 0 where
  recall_of : RecallRequest → ReadRequest
  explain_of : ExplainRequest → ReadRequest

abbrev pub tool_of_read : ReadRequest → Tool
tool_of_read (recall_of q) = Tool.recall
tool_of_read (explain_of q) = Tool.explain

-- `ProjectMemoryTool(tool_name)`; `none` stands for the ValueError
unfoldable pub parse_tool : String → Option Tool
parse_tool name =
    if name == "remember"
    then some Tool.remember
    else if name == "recall"
    then some Tool.recall
    else if name == "correct"
    then some Tool.correct
    else if name == "explain"
    then some Tool.explain
    else none

-- The operation that an answer to an unknown name carries.
abbrev pub tool_or_recall : Option Tool → Tool
tool_or_recall none = Tool.recall
tool_or_recall (some t) = t

module _ (runtime : Runtime) where
  unfoldable pub recalled_response : Result RecallError Recalled → Result ToolError Response
  recalled_response (ok Recalled.unavailable) = ok (unavailable Tool.recall no_approved_memory)
  recalled_response (ok (Recalled.available m rs)) = ok (recalled m rs)
  recalled_response (err e) = err (raised_recall e)

  unfoldable pub read_records : Store → ReadRequest → Result ToolError Response
  unfolding recalled_response
  read_records s (recall_of q) = recalled_response (recall runtime (list s) q)
  read_records s (explain_of q) = ok (explain_revision s q)

  -- `execute_read_only_tool`, of a valid request
  unfoldable pub read_tool : ReadRequest → ToolCall
  unfolding read_records
  read_tool q none = (ok (unavailable (tool_of_read q) empty_workspace), none)
  read_tool q (some s) =
      if length (list s) == 0
      then (ok (unavailable (tool_of_read q) empty_workspace), some s)
      else (read_records s q, some s)

-- The end of `execute_project_memory_tool`: the file that the connection made, or changed.
abbrev pub closed : Result MemoryError Response × Store → Result ToolError Response × Workspace
closed (ok r, s) = (ok r, some s)
closed (err e, s) = (err (raised_memory e), some s)

-- `SQLiteMemoryRepository(path)`: it makes the file that is not there.
abbrev pub opened : Workspace → Store
opened none = empty
opened (some s) = s

module _ (proposer : Proposer) where
  -- `execute_project_memory_tool`, of a valid write
  unfoldable pub propose_tool : Proposal → ToolCall
  unfolding propose
  propose_tool p w = closed (propose proposer p (opened w))

module _ {Arguments : Type 0} (decoder : Decoder Arguments) where
  unfoldable pub valid_read : Tool → Arguments → Option ReadRequest
  valid_read Tool.recall a = elim (decoder.recall_fields a) [
    | none ↦ none
    | some q ↦ if is_valid_recall q then some (recall_of q) else none
  ]
  valid_read Tool.explain a = elim (decoder.explain_fields a) [
    | none ↦ none
    | some q ↦ if is_valid_explain q then some (explain_of q) else none
  ]
  valid_read _ a = none

  unfoldable pub valid_write : Tool → Arguments → Option Proposal
  valid_write Tool.remember a = elim (decoder.remember_fields a) [
    | none ↦ none
    | some q ↦ if is_valid_remember q then some (record { request = q; target = none }) else none
  ]
  valid_write Tool.correct a = elim (decoder.correct_fields a) [
    | none ↦ none
    | some (q, t) ↦
        if is_valid_remember q && is_valid_target q.source_refs t
        then some (record { request = q; target = some t })
        else none
  ]
  valid_write _ a = none

  module _ (runtime : Runtime) where
    -- What follows the validation of a read.
    unfoldable pub execute_read : Tool → Option ReadRequest → ToolCall
    unfolding read_tool
    execute_read t none w = (ok (failure t invalid_request), w)
    execute_read t (some q) w = read_tool runtime q w

    unfoldable pub execute_named : Option Tool → Arguments → ToolCall
    unfolding valid_read execute_read
    execute_named none a w = (ok (failure Tool.recall invalid_request), w)
    execute_named (some t) a w = execute_read t (valid_read t a) w

    -- `execute_read_only_tool`
    unfoldable pub execute_read_only_tool : String → Arguments → ToolCall
    unfolding parse_tool execute_named
    execute_read_only_tool name a = execute_named (parse_tool name) a

    module _ (proposer : Proposer) where
      -- What follows the validation of a write.
      unfoldable pub execute_write : Tool → Option Proposal → ToolCall
      unfolding propose_tool
      execute_write t none w = (ok (failure t invalid_request), w)
      execute_write t (some p) w = propose_tool proposer p w

      -- `execute_project_memory_tool`
      unfoldable pub execute_project_memory_tool : String → Arguments → ToolCall
      unfolding execute_read_only_tool valid_write execute_write
      execute_project_memory_tool name a w =
          if name == "remember"
          then execute_write Tool.remember (valid_write Tool.remember a) w
          else if name == "correct"
          then execute_write Tool.correct (valid_write Tool.correct a) w
          else execute_read_only_tool name a w

      -- `on_call_tool`: a call that raises answers with an internal error.
      abbrev pub answered : String → Result ToolError Response × Workspace → Response × Workspace
      answered name (ok r, w) = (r, w)
      answered name (err e, w) = (failure (tool_or_recall (parse_tool name)) internal_error, w)

      unfoldable pub on_call_tool : Bool → String → Arguments → Workspace → Response × Workspace
      unfolding execute_project_memory_tool execute_read_only_tool
      on_call_tool include_candidate_writes name a w =
          if include_candidate_writes
          then answered name (execute_project_memory_tool name a w)
          else answered name (execute_read_only_tool name a w)

      -- A session of the server: its calls, one after another.
      unfoldable pub run_calls : Bool → List (String × Arguments) → Workspace → Workspace
      unfolding on_call_tool
      run_calls writes [] w = w
      run_calls writes (c ∷ cs) w = run_calls writes cs (on_call_tool writes c.0 c.1 w).1
