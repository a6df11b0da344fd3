-- ===== src/Mcp/Explain.antt =====
-- `_explain` of integrations/mcp/server.py.
use oscillink_agent.Base.{
  String, Bool, false, not, Option, none, some, List, [], ◌∷◌, ◌++◌, ◌==◌, string_eq, option_eq,
  if◌then◌else◌,
}
use oscillink_agent.Memory.Types.{AuthorityState, MemoryRecord}
use oscillink_agent.Memory.Store.{Store, Review, get, get_revision, latest_review}
use oscillink_agent.Mcp.{
  Tool, revision_not_found, ExplanationReason, LineageRelationship, requested, supersedes,
  superseded_by, ExplainRequest, LineageEntry, Explanation, Response, unavailable, explained,
}

-- `current is not None and current.content_hash != request.content_hash`
unfoldable pub is_stale : Option MemoryRecord → String → Bool
is_stale none hash = false
is_stale (some current) hash = not (current.content_hash == hash)

-- The reason by the authority state, for a revision that is not stale.
unfoldable pub reason_of : AuthorityState → Option String → ExplanationReason
reason_of AuthorityState.approved status =
    if status == some "missing"
    then ExplanationReason.missing_source
    else ExplanationReason.selected
reason_of AuthorityState.superseded status = ExplanationReason.superseded
reason_of AuthorityState.contradicted status = ExplanationReason.contradicted
reason_of AuthorityState.retracted status = ExplanationReason.retracted
reason_of _ status = ExplanationReason.not_approved

unfoldable pub explanation_reason : Option MemoryRecord → MemoryRecord → String → ExplanationReason
explanation_reason current revision hash =
    if is_stale current hash
    then ExplanationReason.stale_revision
    else reason_of revision.authority_state revision.source_status

unfoldable pub entry_of : LineageRelationship → MemoryRecord → LineageEntry
entry_of relationship r = record {
  record_id = r.id;
  content_hash = r.content_hash;
  authority_state = r.authority_state;
  relationship = relationship;
}

-- One entry for a record that is found.
unfoldable pub entry_if : LineageRelationship → Option MemoryRecord → List LineageEntry
entry_if relationship none = []
entry_if relationship (some r) = entry_of relationship r ∷ []

-- The target of a correction, at the revision that the correction expected.
unfoldable pub target_revision : Store → Option String → Option String → Option MemoryRecord
target_revision s none hash = none
target_revision s (some id) none = none
target_revision s (some id) (some hash) = get_revision s id hash

-- The record that the latest review names as the replacement.
unfoldable pub replacement_of : Store → Option Review → Option MemoryRecord
replacement_of s none = none
replacement_of s (some v) = elim v.replacement_record_id [ none ↦ none | some id ↦ get s id ]

unfoldable pub lineage_of : Store → MemoryRecord → List LineageEntry
lineage_of s r =
    entry_of requested r
    ∷ (entry_if supersedes (target_revision s r.correction_target_id r.correction_expected_hash)
        ++ entry_if superseded_by (replacement_of s (latest_review s r.id r.content_hash)))

-- `ExplainResponse(…)`, of the revision that was found
unfoldable pub explanation_of : Store → ExplainRequest → MemoryRecord → Explanation
explanation_of s q r = record {
  request_id = q.request_id;
  record_id = r.id;
  content_hash = r.content_hash;
  authority_state = r.authority_state;
  reason = explanation_reason (get s q.record_id) r q.content_hash;
  lineage = lineage_of s r;
}

-- `_explain`; the validators of `ExplainResponse` hold of what it builds.
unfoldable pub explain_revision : Store → ExplainRequest → Response
unfolding explanation_of
explain_revision s q = elim (get_revision s q.record_id q.content_hash) [
  | none ↦ unavailable Tool.explain revision_not_found
  | some r ↦ explained (explanation_of s q r)
]
