-- ===== src/Proposals/Effects.antt =====
-- What a decision that returns has done (proposals/service.py).
use oscillink_agent.Base.{
  String, ◌≡◌, ◌⊎◌, inl, inr, refl, true, false, Option, none, some, List, [], ◌∷◌, ◌++◌, arith,
  ◌==◌, string_eq, Result, ok, err, exists_row, select_one, transaction-ok,
}
use oscillink_agent.Domain.Identifiers.{is_idempotency_key}
use oscillink_agent.Domain.Events.{Event, is_valid_event}
use oscillink_agent.Ledger.{
  Codec, Row, LedgerError, check_found, get, get_by_idempotency, row_of, conflicts, append_each,
  append_many,
}
use oscillink_agent.Ledger.Append.{append_one-Appended}
use oscillink_agent.Ledger.Refinement.{insert_row-new, insert_row-unfound, append_each-parts}
use oscillink_agent.Proposals.{
  pending_review, state_eq, Projection, ProposalError, already_resolved, projection,
}
use oscillink_agent.Proposals.Decisions.{
  DecisionCall, verdict_state, Services, is_same_decision, decision_event, replayed, replay,
  resolved, appended, append_decision, decide_found, decide_projected, decide_unless,
  decide_memory_proposal,
}
use oscillink_agent.Proposals.Projections.{projection-Found, Found-id}

module _ (services : Services) where
  abbrev codec : Codec
  codec = services.codec

  abbrev pub shown : String → List Row → Result ProposalError (Option Projection)
  shown id rows = projection services.show services.codec id rows

  -- The event of the key is the decision that is asked for, and the projection names it.
  pub record Replayed (q : DecisionCall) (p : Projection) (rows : List Row) : Type 0 where
    pub event : Event
    pub found : get_by_idempotency services.codec q.idempotency_key rows ≡ ok (some event)
    pub same : is_same_decision q event ≡ true
    pub named : p.decision_event_id ≡ some event.id

  -- The proposal was pending, the key and the subject new, and the decision is the row appended.
  pub record Recorded (q : DecisionCall) (rows rows' : List Row) : Type 0 where
    pub before : Projection
    pub event : Event
    pub unused : get_by_idempotency services.codec q.idempotency_key rows ≡ ok none
    pub was_shown : shown q.proposal_id rows ≡ ok (some before)
    pub was_pending : before.state ≡ pending_review
    pub source : get services.codec q.proposal_id rows ≡ ok (some event)
    pub valid :
        is_valid_event services.payload_hash services.payload_bytes
          (decision_event services q before event)
        ≡ true
    pub free :
        exists_row
          (conflicts services.codec
            (row_of services.codec (decision_event services q before event) q.idempotency_key))
          rows
        ≡ false
    pub grown :
        rows'
        ≡ rows
          ++ row_of services.codec (decision_event services q before event) q.idempotency_key ∷ []

  pub record Decided (q : DecisionCall) (p : Projection) (rows rows' : List Row) : Type 0 where
    pub proposal : p.proposal_id ≡ q.proposal_id
    pub state : p.state ≡ verdict_state q.decision
    pub is_shown : shown q.proposal_id rows' ≡ ok (some p)
    pub how : (Replayed q p rows × (rows' ≡ rows)) ⊎ Recorded q rows rows'

  module _ (q : DecisionCall) (p : Projection) (rows rows' : List Row) where
    replayed_step :
        (e : Event) (r : Result ProposalError (Option Projection))
        → replayed services q e r ≡ ok p
        → (r ≡ ok (some p))
          × (p.state ≡ verdict_state q.decision)
          × (p.decision_event_id ≡ some e.id)
    replayed_step e (err x) h = absurd (ground arith)
    replayed_step e (ok none) h = absurd (ground arith)
    replayed_step e (ok (some x)) h = ground arith

    replay_step :
        (e : Event)
        → replay services q e rows ≡ ok p
        → (is_same_decision q e ≡ true) × (replayed services q e (shown q.proposal_id rows) ≡ ok p)
    unfolding replay
    replay_step e h = ground arith

    resolved_step :
        (r : Result ProposalError (Option Projection))
        → resolved services q r ≡ ok p
        → (r ≡ ok (some p)) × (p.state ≡ verdict_state q.decision)
    resolved_step (err x) h = absurd (ground arith)
    resolved_step (ok none) h = absurd (ground arith)
    resolved_step (ok (some x)) h = ground arith

    appended_step :
        (x : Result LedgerError (List String) × List Row)
        → appended services q x ≡ (ok p, rows')
        → (ids : List String) × (x ≡ (ok ids, rows'))
          × (resolved services q (shown q.proposal_id rows') ≡ ok p)
    appended_step (err x, s) h = absurd (ground arith)
    appended_step (ok ids, s) h = (ids, ground arith, ground arith)

    append_step :
        (d : Event)
        → append_decision services q d rows ≡ (ok p, rows')
        → (is_valid_event services.payload_hash services.payload_bytes d ≡ true)
          × (appended services q (append_many services.codec ((d, q.idempotency_key) ∷ []) rows)
              ≡ (ok p, rows'))
    unfolding append_decision
    append_step d h = ground arith

    found_step :
        (old : Projection) (r : Result LedgerError (Option Event))
        → decide_found services q old r rows ≡ (ok p, rows')
        → (e : Event) × (r ≡ ok (some e))
          × (append_decision services q (decision_event services q old e) rows ≡ (ok p, rows'))
    unfolding decide_found
    found_step old (err x) h = absurd (ground arith)
    found_step old (ok none) h = absurd (ground arith)
    found_step old (ok (some e)) h = (e, refl, h)

    projected_step :
        (r : Result ProposalError (Option Projection))
        → decide_projected services q r rows ≡ (ok p, rows')
        → (old : Projection) × (r ≡ ok (some old))
          × (old.state ≡ pending_review)
          × (decide_found services q old (get services.codec q.proposal_id rows) rows
              ≡ (ok p, rows'))
    unfolding decide_projected
    projected_step (err x) h = absurd (ground arith)
    projected_step (ok none) h = absurd (ground arith)
    projected_step (ok (some old)) h = (old, refl, ground arith, ground arith)

    decide_step :
        (r : Result LedgerError (Option Event))
        → decide_unless services q r rows ≡ (ok p, rows')
        → ((e : Event) × (r ≡ ok (some e)) × (replay services q e rows ≡ ok p) × (rows' ≡ rows))
          ⊎ ((r ≡ ok none)
              × (decide_projected services q (shown q.proposal_id rows) rows ≡ (ok p, rows')))
    unfolding decide_unless
    decide_step (err x) h = absurd (ground arith)
    decide_step (ok none) h = inr (refl, h)
    decide_step (ok (some e)) h = inl (e, refl, ground arith, ground arith)

  pub keyed_if_unused :
      (key : String) (rows : List Row)
      → get_by_idempotency services.codec key rows ≡ ok none
      → is_idempotency_key key ≡ true
  unfolding get_by_idempotency
  keyed_if_unused key rows h = ground arith

  pub unused_key :
      (key : String) (rows : List Row)
      → get_by_idempotency services.codec key rows ≡ ok none
      → select_one (λ r. r.idempotency_key == key) rows ≡ none
  unfolding get_by_idempotency check_found
  unused_key key rows h = ground arith

  -- One event appended under a new key is one more row.
  single_append :
      (d : Event) (key : String) (rows rows' : List Row) (ids : List String)
      → append_many services.codec ((d, key) ∷ []) rows ≡ (ok ids, rows')
      → select_one (λ r. r.idempotency_key == key) rows ≡ none
      → (exists_row (conflicts services.codec (row_of services.codec d key)) rows ≡ false)
        × (rows' ≡ rows ++ row_of services.codec d key ∷ [])
  unfolding append_many append_each
  single_append d key rows rows' ids h unused =
      let each = transaction-ok (append_each services.codec ((d, key) ∷ [])) rows ids h in
      let (id, mid, rest, first, last, parts) =
        append_each-parts services.codec d key [] rows rows' ids each in
      let inserted = (append_one-Appended services.codec d key rows mid id first).inserted in
      let free = insert_row-unfound services.codec d key rows mid id inserted unused in
      (free, ground (arith, (insert_row-new services.codec d key rows mid id inserted free).0))

  module _ (q : DecisionCall) (p : Projection) (rows rows' : List Row) where
    replay-Decided :
        (e : Event)
        → get_by_idempotency services.codec q.idempotency_key rows ≡ ok (some e)
        → replay services q e rows ≡ ok p
        → rows' ≡ rows
        → Decided q p rows rows'
    replay-Decided e found h still =
        let (same, again) = replay_step q p rows rows' e h in
        let (is_shown, state, named) =
          replayed_step q p rows rows' e (shown q.proposal_id rows) again in
        record {
          proposal =
              Found-id services.show services.codec q.proposal_id rows p
                (projection-Found services.show services.codec q.proposal_id rows p is_shown);
          state = state;
          is_shown = rw still is_shown;
          how = inl (record { event = e; found = found; same = same; named = named }, still);
        }

    new-Decided :
        get_by_idempotency services.codec q.idempotency_key rows ≡ ok none
        → decide_projected services q (shown q.proposal_id rows) rows ≡ (ok p, rows')
        → Decided q p rows rows'
    new-Decided unused h =
        let (before, was_shown, was_pending, at_event) =
          projected_step q p rows rows' (shown q.proposal_id rows) h in
        let (e, source, at_append) =
          found_step q p rows rows' before (get services.codec q.proposal_id rows) at_event in
        let d = decision_event services q before e in
        let (valid, at_rows) = append_step q p rows rows' d at_append in
        let (ids, done, at_end) =
          appended_step q p rows rows'
            (append_many services.codec ((d, q.idempotency_key) ∷ []) rows) at_rows in
        let (is_shown, state) = resolved_step q p rows rows' (shown q.proposal_id rows') at_end in
        let (free, grown) =
          single_append d q.idempotency_key rows rows' ids done
            (unused_key q.idempotency_key rows unused) in
        record {
          proposal =
              Found-id services.show services.codec q.proposal_id rows' p
                (projection-Found services.show services.codec q.proposal_id rows' p is_shown);
          state = state;
          is_shown = is_shown;
          how = inr (record {
            before = before;
            event = e;
            unused = unused;
            was_shown = was_shown;
            was_pending = was_pending;
            source = source;
            valid = valid;
            free = free;
            grown = grown;
          });
        }

    -- A decision that returns shows the proposal in the state that was asked for; it is a replay that
    -- found its own event under the key and changes nothing, or the proposal was pending and exactly
    -- the row of the decision is appended, with no conflict.
    pub decide-Decided :
        decide_memory_proposal services q rows ≡ (ok p, rows') → Decided q p rows rows'
    unfolding decide_memory_proposal
    decide-Decided h =
        elim (decide_step q p rows rows' (get_by_idempotency services.codec q.idempotency_key rows)
          h) [
            | inl (e, found, again, still) ↦ replay-Decided e found again still
            | inr (unused, again) ↦ new-Decided unused again
          ]

    closed_step :
        (next : DecisionCall)
        → p.state ≡ verdict_state q.decision
        → decide_projected services next (ok (some p)) rows' ≡ (err already_resolved, rows')
    unfolding decide_projected oscillink_agent.Proposals.state_discrete
    closed_step next e = ground arith

    -- After a decision that returned, one under another key is refused as already resolved, and
    -- nothing changes.
    pub decide_once :
        (next : DecisionCall)
        → decide_memory_proposal services q rows ≡ (ok p, rows')
        → next.proposal_id ≡ q.proposal_id
        → get_by_idempotency services.codec next.idempotency_key rows' ≡ ok none
        → decide_memory_proposal services next rows' ≡ (err already_resolved, rows')
    unfolding decide_memory_proposal
    decide_once next h same unused =
        let done = decide-Decided h in
        let again : shown next.proposal_id rows' ≡ ok (some p) = rw same done.is_shown in
        rw (unused, again) (closed_step next done.state)
