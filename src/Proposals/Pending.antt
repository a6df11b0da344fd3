-- ===== src/Proposals/Pending.antt =====
-- A pending proposal can be decided (proposals/service.py).
use oscillink_agent.Base.{
  String, ◌≡◌, refl, sym, ◌∙◌, inl, inr, Option-cases, true, false, none, some, List, [], ◌∷◌, ◌++◌,
  map, arith, ◌==◌, string_eq, ok, All, exists_row, select_one, select_one-Occurs,
  exists_row-select_one,
}
use oscillink_agent.Domain.Identifiers.{is_idempotency_key}
use oscillink_agent.Domain.Events.{Event, is_valid_event}
use oscillink_agent.Ledger.{
  Codec, Row, is_resolved, check_found, get, get_by_idempotency, row_of, conflicts, insert_row,
  append_one, append_each, append_many, iter_all,
}
use oscillink_agent.Ledger.Append.{has_event, parents-check, artifacts-check}
use oscillink_agent.Ledger.Refinement.{check_row-row_of}
use oscillink_agent.Proposals.{
  State, pending_review, state_eq, Projection, ProposalError, find_event, project_memory_proposals,
  projection,
}
use oscillink_agent.Proposals.Decisions.{
  DecisionCall, verdict_state, Services, decision_event, resolved, append_decision, decide_found,
  decide_projected, decide_unless, decide_memory_proposal,
}
use oscillink_agent.Proposals.Payloads.{eq_refl}
use oscillink_agent.Proposals.Projections.{Found, projection-Found, Found-projection, Found-id}
use oscillink_agent.Proposals.Effects.{keyed_if_unused}
use oscillink_agent.Proposals.Growth.{decide_one, each_after}
use oscillink_agent.Proposals.Repeat.{check_rows-append}

decided_id : (q : DecisionCall) (p : Projection) → (decide_one q p).proposal_id ≡ p.proposal_id
unfolding decide_one
decided_id q p = ground arith

select_one-decide_one :
    (q : DecisionCall) (id : String) (ps : List Projection) (p : Projection)
    → select_one (λ x. x.proposal_id == id) ps ≡ some p
    → select_one (λ x. x.proposal_id == id) (map (decide_one q) ps) ≡ some (decide_one q p)
unfolding select_one
select_one-decide_one q id [] p h = cc
select_one-decide_one q id (x ∷ ps) p h =
    ground (arith, decided_id q x, select_one-decide_one q id ps p)

-- An event that meets every condition is appended.
module _ (codec : Codec) (e : Event) (key : String) (rows : List Row) where
  pub record Fits : Type 0 where
    pub keyed : is_idempotency_key key ≡ true
    pub caused : All (λ p. has_event rows p ≡ true) e.causal_parent_ids
    pub resolves : All (λ a. is_resolved codec a ≡ true) e.artifact_refs
    pub free : exists_row (conflicts codec (row_of codec e key)) rows ≡ false

  fits-insert_row : Fits → insert_row codec e key rows ≡ (ok e.id, rows ++ row_of codec e key ∷ [])
  unfolding insert_row
  fits-insert_row f = ground (arith, f.free)

  fits-append_one : Fits → append_one codec e key rows ≡ (ok e.id, rows ++ row_of codec e key ∷ [])
  unfolding append_one
  fits-append_one f = ground (
    arith,
    f.keyed,
    parents-check e.causal_parent_ids rows f.caused,
    artifacts-check codec e.artifact_refs rows f.resolves,
    fits-insert_row f,
  )

  pub fits-append_many :
      Fits
      → append_many codec ((e, key) ∷ []) rows ≡ (ok (e.id ∷ []), rows ++ row_of codec e key ∷ [])
  unfolding append_many append_each
  fits-append_many f = ground (arith, fits-append_one f)

module _ (services : Services) (q : DecisionCall) (before : Projection) (event : Event)
    (rows : List Row) where
  abbrev d : Event
  d = decision_event services q before event

  abbrev grown : List Row
  grown = rows ++ row_of services.codec d q.idempotency_key ∷ []

  -- What the projection of the ledger is after the decision.
  shown_after :
      (f : Found services.show services.codec q.proposal_id rows before)
      → services.codec.decode (services.codec.encode d) ≡ some d
      → find_event services.show f.events d.id ≡ none
      → Found services.show services.codec q.proposal_id grown (decide_one q before)
  unfolding iter_all project_memory_proposals
  shown_after f readable new = record {
    events = f.events ++ d ∷ [];
    projections = map (decide_one q) f.projections;
    read =
        check_rows-append services.codec rows (row_of services.codec d q.idempotency_key) d f.events
          (check_row-row_of services.codec d q.idempotency_key readable) f.read;
    projected = each_after services q before event f.events f.events f.projections new f.projected;
    found = select_one-decide_one q q.proposal_id f.projections before f.found;
  }

  decided_state :
      before.proposal_id ≡ q.proposal_id → (decide_one q before).state ≡ verdict_state q.decision
  unfolding decide_one
  decided_state e = ground arith

  source_there :
      get services.codec q.proposal_id rows ≡ ok (some event) → has_event rows q.proposal_id ≡ true
  unfolding get check_found
  source_there h = elim (Option-cases (select_one (λ r. r.event_id == q.proposal_id) rows)) [
    | inl none_there ↦ absurd (ground (arith, none_there))
    | inr (r, there) ↦
        exists_row-select_one (λ x. x.event_id == q.proposal_id) (λ x. x.event_id == q.proposal_id)
          rows r there (select_one-Occurs (λ x. x.event_id == q.proposal_id) rows r there).1
  ]

  still_pending :
      before.state ≡ pending_review
      → decide_projected services q (ok (some before)) rows
        ≡ decide_found services q before (get services.codec q.proposal_id rows) rows
  unfolding decide_projected oscillink_agent.Proposals.state_discrete
  still_pending e = rw e refl

  decision_appended :
      is_valid_event services.payload_hash services.payload_bytes d ≡ true
      → Fits services.codec d q.idempotency_key rows
      → append_decision services q d rows
        ≡ (resolved services q (projection services.show services.codec q.proposal_id grown), grown)
  unfolding append_decision
  decision_appended valid fits =
      rw (valid, fits-append_many services.codec d q.idempotency_key rows fits) refl

  -- A pending proposal can be decided: where the key and the identity of the request are new, the
  -- decision is a valid event without conflict that the codec reads back, and the artifacts are still
  -- resolved, the call returns the projection of the proposal, decided, and appends one row.
  pub pending-Decidable :
      projection services.show services.codec q.proposal_id rows ≡ ok (some before)
      → before.state ≡ pending_review
      → get_by_idempotency services.codec q.idempotency_key rows ≡ ok none
      → get services.codec q.proposal_id rows ≡ ok (some event)
      → (es : List Event) → iter_all services.codec rows ≡ ok es
      → find_event services.show es q.request_id ≡ none
      → is_valid_event services.payload_hash services.payload_bytes d ≡ true
      → services.codec.decode (services.codec.encode d) ≡ some d
      → All (λ a. is_resolved services.codec a ≡ true) event.artifact_refs
      → exists_row (conflicts services.codec (row_of services.codec d q.idempotency_key)) rows
        ≡ false
      → decide_memory_proposal services q rows
        ≡ (ok (decide_one q before), rows ++ row_of services.codec d q.idempotency_key ∷ [])
  unfolding decide_memory_proposal decide_unless decide_found
  pending-Decidable was_shown pending unused source es read new valid readable resolves free =
      let f = projection-Found services.show services.codec q.proposal_id rows before was_shown in
      let same : f.events ≡ es =
        (let both : ok f.events ≡ ok es = sym f.read ∙ read in ground arith) in
      let fits : Fits services.codec d q.idempotency_key rows = record {
        keyed = keyed_if_unused services q.idempotency_key rows unused;
        caused = unfold decision_event in (source_there source, tt);
        resolves = unfold decision_event in resolves;
        free = free;
      } in
      let after = shown_after f readable (rw same (unfold decision_event in new)) in
      let state =
        decided_state (Found-id services.show services.codec q.proposal_id rows before f) in
      rw
        (
          unused,
          was_shown,
          still_pending pending,
          source,
          decision_appended valid fits,
          Found-projection services.show services.codec q.proposal_id grown (decide_one q before)
              after,
          state,
          eq_refl (verdict_state q.decision),
        )
        refl
