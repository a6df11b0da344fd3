-- ===== src/Mcp/Staleness.antt =====
-- `explain` beside recall: the revision that `get_revision` reads and the record that `list` reads
-- (integrations/mcp/server.py, memory/repository.py).
use oscillink_agent.Base.{
  String, ◌≡◌, ◌↔◌, ◌∙◌, Bool, true, false, Option, none, some, List, [], ◌∷◌, arith, ◌==◌,
  string_eq, option_eq, exists_row, select_latest, select_one, select_latest-Occurs, if◌then◌else◌,
  ◌&&◌,
}
use oscillink_agent.Memory.Types.{AuthorityState, approved, MemoryRecord, record_eq, state_eq}
use oscillink_agent.Memory.Store.{
  Store, Review, get, get_revision, stored, with_review_state, reviews_revision,
}
use oscillink_agent.Memory.Write.{upsert, insert_revision, write_record}
use oscillink_agent.Retrieval.{is_eligible}
use oscillink_agent.Mcp.{ExplanationReason, ExplainRequest, Explanation, explained}
use oscillink_agent.Mcp.Explain.{
  is_stale, reason_of, explanation_reason, explanation_of, explain_revision,
}

-- `record_id = ? AND content_hash = ?`
abbrev pub is_revision : String → String → MemoryRecord → Bool
is_revision id hash r = r.id == id && r.content_hash == hash

abbrev pub request_of : String → MemoryRecord → ExplainRequest
request_of request_id r = record {
  request_id = request_id;
  record_id = r.id;
  content_hash = r.content_hash;
}

reason-selected :
    (state : AuthorityState) (status : Option String)
    → (reason_of state status ≡ ExplanationReason.selected)
      ↔ ((state == approved && (if status == some "missing" then false else true)) ≡ true)
unfolding reason_of
reason-selected AuthorityState.approved status = ground arith
reason-selected AuthorityState.superseded status = ground arith
reason-selected AuthorityState.contradicted status = ground arith
reason-selected AuthorityState.retracted status = ground arith
reason-selected _ status = ground arith

get-stored :
    (s : Store) (r : MemoryRecord)
    → stored s r.id ≡ some r
    → get s r.id ≡ some (with_review_state s r)
unfolding get
get-stored s r e = ground arith

shown_hash : (s : Store) (r : MemoryRecord) → (with_review_state s r).content_hash ≡ r.content_hash
unfolding with_review_state
shown_hash s r = ground arith

explain-found :
    (s : Store) (q : ExplainRequest) (m : MemoryRecord)
    → select_latest (is_revision q.record_id q.content_hash) s.revisions ≡ some m
    → explain_revision s q ≡ explained (explanation_of s q (with_review_state s m))
unfolding explain_revision get_revision
explain-found s q m latest = ground arith

module _ (s : Store) (request_id : String) (r : MemoryRecord) where
  reason-stored :
      (shown : MemoryRecord)
      → stored s r.id ≡ some r
      → explanation_reason (get s r.id) shown r.content_hash
        ≡ reason_of shown.authority_state shown.source_status
  unfolding explanation_reason is_stale
  reason-stored shown e = let found = get-stored s r e in ground (arith, found, shown_hash s r)

  -- A stored record whose newest revision is the record itself is explained, and the reason is that
  -- it is selected exactly when recall may select it.
  pub explain-Eligible :
      stored s r.id ≡ some r
      → select_latest (is_revision r.id r.content_hash) s.revisions ≡ some r
      → (x : Explanation) × (explain_revision s (request_of request_id r) ≡ explained x)
        × ((x.reason ≡ ExplanationReason.selected) ↔ (is_eligible (with_review_state s r) ≡ true))
  unfolding explanation_of
  explain-Eligible e latest = (
    explanation_of s (request_of request_id r) (with_review_state s r),
    explain-found s (request_of request_id r) r latest,
    rw (reason-stored (with_review_state s r) e) (
        unfold is_eligible in
        reason-selected (with_review_state s r).authority_state
          (with_review_state s r).source_status),
  )

-- An obsolete row of the revisions.
module _ (s : Store) (request_id : String) (r m : MemoryRecord) (v : Review) where
  stored-upsert : (rs : List MemoryRecord) → select_one (λ x. x.id == r.id) (upsert r rs) ≡ some r
  unfolding select_one upsert
  stored-upsert [] = ground arith
  stored-upsert (x ∷ xs) = ground (arith, stored-upsert xs)

  same_revisions :
      exists_row (λ x. x == r) s.revisions ≡ true → (write_record r s).revisions ≡ s.revisions
  unfolding write_record insert_revision
  same_revisions again = ground arith

  approved_state :
      (x : MemoryRecord)
      → is_revision r.id r.content_hash x ≡ true
      → select_latest (reviews_revision r.id r.content_hash) s.reviews ≡ some v
      → v.decision ≡ approved
      → with_review_state (write_record r s) x ≡ record x { authority_state = approved }
  unfolding with_review_state write_record
  approved_state x same reviewed approves = ground arith

  same_here : (x : MemoryRecord) → is_revision x.id x.content_hash x ≡ true
  same_here x = ground arith

  eligible_here :
      {x : MemoryRecord}
      → r.source_status ≡ none
      → x ≡ record r { authority_state = approved }
      → is_eligible x ≡ true
  unfolding is_eligible oscillink_agent.Memory.Types.state_discrete
  eligible_here here e = rw (e, here) (ground arith)

  reason_missing :
      (x : MemoryRecord)
      → x ≡ record m { authority_state = approved }
      → m.source_status ≡ some "missing"
      → reason_of x.authority_state x.source_status ≡ ExplanationReason.missing_source
  unfolding reason_of
  reason_missing x e missing = rw (e, missing) (ground arith)

  -- When a revision that was marked as missing is written again as it first was, the record is
  -- stored and may be recalled, but `explain` goes on to report a missing source.
  pub restored-missing :
      exists_row (λ x. x == r) s.revisions ≡ true
      → select_latest (is_revision r.id r.content_hash) s.revisions ≡ some m
      → m.source_status ≡ some "missing"
      → r.source_status ≡ none
      → select_latest (reviews_revision r.id r.content_hash) s.reviews ≡ some v
      → v.decision ≡ approved
      → (get (write_record r s) r.id ≡ some (with_review_state (write_record r s) r))
        × (is_eligible (with_review_state (write_record r s) r) ≡ true)
        × (x : Explanation) × (explain_revision (write_record r s) (request_of request_id r)
            ≡ explained x)
        × (x.reason ≡ ExplanationReason.missing_source)
  unfolding explanation_of
  restored-missing again latest missing here reviewed approves =
      let s' = write_record r s in
      let shown = with_review_state s' m in
      let same = (select_latest-Occurs (is_revision r.id r.content_hash) s.revisions m latest).1 in
      let is_stored : stored s' r.id ≡ some r =
        unfold stored write_record in stored-upsert s.records in
      (
        get-stored s' r is_stored,
        eligible_here here (approved_state r (same_here r) reviewed approves),
        explanation_of s' (request_of request_id r) shown,
        explain-found s' (request_of request_id r) m (rw (same_revisions again) latest),
        reason-stored s' request_id r shown is_stored
            ∙ reason_missing shown (approved_state m same reviewed approves) missing,
      )
