-- ===== src/Proposals/Repeat.antt =====
-- Retries of a decision (proposals/service.py).
use oscillink_agent.Base.{
  ℕ, ◌≡◌, inl, inr, refl, sym, ◌∙◌, ap, some, List, [], ◌∷◌, ◌++◌, arith, ◌==◌, string_eq, nat_eq,
  option_eq, Result, ok, err, select_one, select_one-append, select_latest-append,
}
use oscillink_agent.Domain.Vocabulary.{event_type_eq}
use oscillink_agent.Domain.Events.{Event}
use oscillink_agent.Ledger.{
  Codec, Row, LedgerError, check_row, check_rows, check_found, get, get_by_idempotency, row_of,
  iter_all,
}
use oscillink_agent.Ledger.Refinement.{check_row-row_of}
use oscillink_agent.Proposals.{state_eq, Projection, decides, find_decision, projection}
use oscillink_agent.Proposals.Decisions.{
  DecisionCall, verdict_state, is_same_decision, Services, decision_event, replay, decide_unless,
  decide_memory_proposal,
}
use oscillink_agent.Proposals.Payloads.{eq_refl, decides-decision_event, same-decision_event}
use oscillink_agent.Proposals.Projections.{projection-Found, Found-decision}
use oscillink_agent.Proposals.Effects.{
  Decided, Recorded, keyed_if_unused, unused_key, decide-Decided,
}

module _ (codec : Codec) where
  -- The events of a list of rows of which the first passes its checks.
  first_read :
      (x : Result LedgerError Event) (rest : Result LedgerError (List Event)) (es : List Event)
      → elim x [ err c ↦ err c | ok e ↦ elim rest [ err c ↦ err c | ok ys ↦ ok (e ∷ ys) ] ] ≡ ok es
      → (e : Event) × (ys : List Event) × (x ≡ ok e) × (rest ≡ ok ys) × (es ≡ e ∷ ys)
  first_read (err c) rest es h = absurd (ground arith)
  first_read (ok e) (err c) es h = absurd (ground arith)
  first_read (ok e) (ok ys) es h = (e, ys, refl, refl, ground arith)

  next_read :
      (x : Result LedgerError Event) (rest : Result LedgerError (List Event)) (e : Event)
      (ys : List Event)
      → x ≡ ok e
      → rest ≡ ok ys
      → elim x [ err c ↦ err c | ok y ↦ elim rest [ err c ↦ err c | ok zs ↦ ok (y ∷ zs) ] ]
        ≡ ok (e ∷ ys)
  next_read x rest e ys h k = rw (h, k) refl

  -- One more row that passes its checks is one more event.
  pub check_rows-append :
      (rows : List Row) (r : Row) (e : Event) (es : List Event)
      → check_row codec r ≡ ok e
      → check_rows codec rows ≡ ok es
      → check_rows codec (rows ++ r ∷ []) ≡ ok (es ++ e ∷ [])
  unfolding check_rows
  check_rows-append [] r e es c h = ground arith
  check_rows-append (x ∷ rows) r e es c h =
      let (y, ys, first, rest, same) =
        first_read (check_row codec x) (check_rows codec rows) es h in
      next_read (check_row codec x) _ y _ first (check_rows-append rows r e ys c rest)
      ∙ ap (λ l. ok (l ++ e ∷ [])) (sym same)

module _ (services : Services) (q : DecisionCall) (rows rows' : List Row) (p : Projection) where
  module _ (done : Decided services q p rows rows') (new : Recorded services q rows rows') where
    abbrev d : Event
    d = decision_event services q new.before new.event

    module _ (readable : services.codec.decode (services.codec.encode d) ≡ some d) where
      found_row :
          select_one (λ r. r.idempotency_key == q.idempotency_key) rows'
          ≡ some (row_of services.codec d q.idempotency_key)
      unfolding row_of
      found_row =
          rw
            (
              new.grown,
              select_one-append (λ r. r.idempotency_key == q.idempotency_key) rows
                  (row_of services.codec d q.idempotency_key)
                  (unused_key services q.idempotency_key rows new.unused),
              eq_refl q.idempotency_key,
            )
            refl

      checked :
          check_found services.codec (some (row_of services.codec d q.idempotency_key))
          ≡ ok (some d)
      unfolding check_found
      checked = rw (check_found, check_row-row_of services.codec d q.idempotency_key readable) refl

      -- The decision is found under its key.
      key_finds : get_by_idempotency services.codec q.idempotency_key rows' ≡ ok (some d)
      unfolding get_by_idempotency
      key_finds = rw (keyed_if_unused services q.idempotency_key rows new.unused, found_row) checked

      last_decision :
          (es : List Event) → find_decision services.show (es ++ d ∷ []) q.proposal_id ≡ some d
      unfolding find_decision
      last_decision es =
          rw
            (
              select_latest-append (decides services.show q.proposal_id) es d,
              decides-decision_event services q new.before new.event q.proposal_id,
              eq_refl q.proposal_id,
            )
            refl

      -- The projection names it, for it is the last event of the ledger.
      names_it : p.decision_event_id ≡ some d.id
      unfolding iter_all find_decision
      names_it =
          let before =
            projection-Found services.show services.codec q.proposal_id rows new.before
              new.was_shown in
          let after =
            projection-Found services.show services.codec q.proposal_id rows' p done.is_shown in
          let extended =
            check_rows-append services.codec rows (row_of services.codec d q.idempotency_key) d
              before.events (check_row-row_of services.codec d q.idempotency_key readable)
              before.read in
          let read : ok after.events ≡ ok (before.events ++ d ∷ []) =
            sym after.read ∙ rw new.grown extended in
          let same : after.events ≡ before.events ++ d ∷ [] = ground arith in
          let shows = Found-decision services.show services.codec q.proposal_id rows' p after in
          shows ∙ rw (same, last_decision before.events) refl

      answers_again : replay services q d rows' ≡ ok p
      unfolding replay
      answers_again =
          rw
            (
              same-decision_event services q new.before new.event,
              done.is_shown,
              done.state,
              names_it,
              eq_refl (verdict_state q.decision),
              eq_refl (some d.id),
            )
            refl

      recorded-repeat : decide_memory_proposal services q rows' ≡ (ok p, rows')
      unfolding decide_memory_proposal decide_unless
      recorded-repeat = rw (key_finds, answers_again) refl

  -- A call that finds an event under its key does not look at the clock.
  at_any_time :
      (later : ℕ) (e : Event) (held : List Row)
      → get_by_idempotency services.codec q.idempotency_key held ≡ ok (some e)
      → decide_memory_proposal services (record q { now = later }) held
        ≡ decide_memory_proposal services q held
  unfolding decide_memory_proposal decide_unless replay is_same_decision
  at_any_time later e held found = rw found refl

  -- A decision that returned, repeated at any time, returns the same projection and changes nothing,
  -- where the codec reads back the event of this decision on what the ledger held.
  pub decide-repeat :
      (later : ℕ)
      → ((before : Projection) (event : Event)
          → projection services.show services.codec q.proposal_id rows ≡ ok (some before)
          → get services.codec q.proposal_id rows ≡ ok (some event)
          → services.codec.decode (services.codec.encode (decision_event services q before event))
            ≡ some (decision_event services q before event))
      → decide_memory_proposal services q rows ≡ (ok p, rows')
      → decide_memory_proposal services (record q { now = later }) rows' ≡ (ok p, rows')
  decide-repeat later readable h =
      let done = decide-Decided services q p rows rows' h in
      elim done.how [
        | inl (again, still) ↦
            at_any_time later again.event rows' (rw still again.found) ∙ rw still (rw still at h)
        | inr new ↦
            let read = readable new.before new.event new.was_shown new.source in
            at_any_time later (decision_event services q new.before new.event) rows'
              (key_finds done new read)
            ∙ recorded-repeat done new read
      ]
