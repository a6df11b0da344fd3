-- ===== src/Proposals/Growth.antt =====
-- What the event of a decision makes of the projections (proposals/repository.py).
use oscillink_agent.Base.{
  String, ◌≡◌, refl, sym, ◌∙◌, Bool, true, false, Option, none, some, List, [], ◌∷◌, ◌++◌, map,
  arith, ◌==◌, string_eq, Result, ok, err, select_latest-append, if◌then◌else◌,
}
use oscillink_agent.Domain.Json.{Json, get_field, field_is}
use oscillink_agent.Domain.Events.{Event}
use oscillink_agent.Proposals.{
  State, Projection, ProposalError, decides, event_id_of, time_of, actor_of, state_of,
  find_decision, find_event, awaiting, projected, required, project_imported, project_proposed,
  project_one, gather, project_each,
}
use oscillink_agent.Proposals.Decisions.{DecisionCall, verdict_state, Services, decision_event}
use oscillink_agent.Proposals.Projections.{gather-some}
use oscillink_agent.Proposals.Payloads.{
  decides-decision_event, state-decision_event, awaiting-decision_event, not_imported,
}

-- The projection of the proposal, decided by an event, and every other one as it is.
unfoldable pub decide_one : DecisionCall → Projection → Projection
decide_one q p =
    if q.proposal_id == p.proposal_id
    then record p {
      state = verdict_state q.decision;
      decision_event_id = some q.request_id;
      decided_at = some q.observed_at;
      decided_by = some q.actor_id;
    }
    else p

abbrev decide_option : DecisionCall → Option Projection → Option Projection
decide_option q none = none
decide_option q (some p) = some (decide_one q p)

module _ (services : Services) (q : DecisionCall) (before : Projection) (event : Event)
    (es : List Event) where
  abbrev d : Event
  d = decision_event services q before event

  abbrev show : Option Json → String
  show = services.show

  decision_after :
      (id : String)
      → find_decision show (es ++ d ∷ []) id
        ≡ (if q.proposal_id == id then some d else find_decision show es id)
  unfolding find_decision
  decision_after id =
      rw
        (
          select_latest-append (decides show id) es d,
          decides-decision_event services q before event id,
        )
        refl

  event_after :
      (id : String)
      → find_event show (es ++ d ∷ []) id ≡ (if d.id == id then some d else find_event show es id)
  unfolding find_event
  event_after id = select_latest-append (λ e. e.id == id) es d

  -- The projection that the parts give.
  abbrev built : Event → String → Option Event → String × String → State → Projection
  built e artifact x s state = record {
    proposal_id = e.id;
    state = state;
    target_record_id = s.0;
    artifact_ref = artifact;
    source_name = s.1;
    created_at = e.observed_at;
    decision_event_id = event_id_of show x;
    decided_at = time_of show x;
    decided_by = actor_of show x;
  }

  projected-ok :
      (e : Event) (artifact : String) (x : Option Event)
      (r : Result ProposalError (String × String)) (w : Option State) (o : Option Projection)
      → projected show e artifact x r w ≡ ok o
      → (s : String × String) × (state : State) × (r ≡ ok s)
        × (w ≡ some state)
        × (o ≡ some (built e artifact x s state))
  unfolding projected
  projected-ok e artifact x (err y) w o h = absurd (ground arith)
  projected-ok e artifact x (ok s) none o h = absurd (ground arith)
  projected-ok e artifact x (ok s) (some state) o h = (s, state, refl, refl, ground arith)

  decided_built :
      (e : Event) (artifact : String) (x : Option Event) (s : String × String) (state : State)
      (b : Bool)
      → (q.proposal_id == e.id) ≡ b
      → state_of show x ≡ some state
      → projected show e artifact
          (if b then some d else x)
          (ok s)
          (state_of show (if b then some d else x))
        ≡ ok (some (decide_one q (built e artifact x s state)))
  unfolding projected decide_one
  decided_built e artifact x s state true same w =
      rw (same, state-decision_event services q before event) (unfold decision_event in refl)
  decided_built e artifact x s state false other w = rw (other, w) refl

  projected_after :
      (e : Event) (artifact : String) (x : Option Event)
      (r : Result ProposalError (String × String)) (o : Option Projection)
      → projected show e artifact x r (state_of show x) ≡ ok o
      → projected show e artifact
          (if q.proposal_id == e.id then some d else x)
          r
          (state_of show (if q.proposal_id == e.id then some d else x))
        ≡ ok (decide_option q o)
  projected_after e artifact x r o h =
      let (s, state, source, parsed, same) = projected-ok e artifact x r (state_of show x) o h in
      rw (source, same) (decided_built e artifact x s state (q.proposal_id == e.id) refl parsed)

  if_after :
      (b : Bool) (u v : Result ProposalError (Option Projection)) (o : Option Projection)
      → (u ≡ ok o → v ≡ ok (decide_option q o))
      → (if b then u else ok none) ≡ ok o
      → (if b then v else ok none) ≡ ok (decide_option q o)
  if_after true u v o f h = f h
  if_after false u v o f h = let same : none ≡ o = ground arith in rw (sym same) refl

  -- What the new decision makes of one projection, from the same event that imported.
  imported_after :
      (e : Event) (artifact : String) (i : Option Event) (o : Option Projection) (x : Option Event)
      → project_imported show e artifact i x ≡ ok o
      → project_imported show e artifact i (if q.proposal_id == e.id then some d else x)
        ≡ ok (decide_option q o)
  unfolding project_imported
  imported_after e artifact none o x h = let same : none ≡ o = ground arith in rw (sym same) refl
  imported_after e artifact (some i) o x h =
      if_after (field_is "operation" "artifact_import" i.payload) _ _ o
        (projected_after e artifact x
          (required (get_field "target_record_id" e.payload) (get_field "source_name" i.payload)) o)
        h

  decision_skipped :
      (e : Event) (artifact : String) (x : Option Event)
      → project_imported show e artifact (some d) x ≡ ok none
  unfolding project_imported
  decision_skipped e artifact x = rw (not_imported services q before event) refl

  nothing_imported :
      (e : Event) (artifact : String) (x : Option Event)
      → project_imported show e artifact none x ≡ ok none
  unfolding project_imported
  nothing_imported e artifact x = refl

  -- The decision is no import, and no event had its identity.
  event_kept :
      (e : Event) (artifact parent : String) (o : Option Projection) (x : Option Event) (b : Bool)
      → (d.id == parent) ≡ b
      → find_event show es d.id ≡ none
      → project_imported show e artifact (find_event show es parent) x ≡ ok o
      → project_imported show e artifact (if b then some d else find_event show es parent) x ≡ ok o
  event_kept e artifact parent o x true same new h =
      let there : d.id ≡ parent = ground arith in
      let gone : find_event show es parent ≡ none = rw (sym there) new in
      decision_skipped e artifact x ∙ sym (nothing_imported e artifact x) ∙ (rw gone at h)
  event_kept e artifact parent o x false same new h = h

  proposed_after :
      (e : Event) (w : Option (String × String)) (o : Option Projection)
      → find_event show es d.id ≡ none
      → project_proposed show es e w ≡ ok o
      → project_proposed show (es ++ d ∷ []) e w ≡ ok (decide_option q o)
  unfolding project_proposed
  proposed_after e none o new h = let same : none ≡ o = ground arith in rw (sym same) refl
  proposed_after e (some w) o new h =
      rw (decision_after e.id, event_after w.1)
        (event_kept e w.0 w.1 (decide_option q o)
          (if q.proposal_id == e.id then some d else find_decision show es e.id) (d.id == w.1) refl
          new (imported_after e w.0 (find_event show es w.1) o (find_decision show es e.id) h))

  gathered_after :
      (o : Option Projection) (qs ps : List Projection)
      → gather show (ok o) (ok qs) ≡ ok ps
      → gather show (ok (decide_option q o)) (ok (map (decide_one q) qs))
        ≡ ok (map (decide_one q) ps)
  gathered_after none qs ps h = let same : qs ≡ ps = ground arith in rw (sym same) refl
  gathered_after (some p) qs ps h = let same : p ∷ qs ≡ ps = ground arith in rw (sym same) refl

  -- Every projection after the decision is the earlier one, decided.
  pub each_after :
      (xs : List Event) (ps : List Projection)
      → find_event show es d.id ≡ none
      → project_each show es xs ≡ ok ps
      → project_each show (es ++ d ∷ []) (xs ++ d ∷ []) ≡ ok (map (decide_one q) ps)
  unfolding project_each project_one
  each_after [] ps new h =
      let same : [] ≡ ps = ground arith in
      rw (sym same, awaiting-decision_event services q before event)
        (unfold project_proposed in refl)
  each_after (x ∷ xs) ps new h =
      let (o, qs, one, rest, both) =
        gather-some show (project_one show es x) (project_each show es xs) ps h in
      rw (proposed_after x (awaiting x) o new one, each_after xs qs new rest)
        (gathered_after o qs ps both)
