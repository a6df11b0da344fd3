-- ===== src/Capabilities/Authority.antt =====
-- A claimed grant was approved by a human in the ledger (capabilities/broker.py).
use oscillink_agent.Base.{
  ℕ, ◌≡◌, ◌∙◌, ◌⊎◌, inl, inr, refl, sym, ap, String, true, false, Option, none, some, List, [], ◌∷◌,
  ◌++◌, arith, select_one-Occurs, ok, ◌==◌, string_eq, nat_eq, Option-cases, outcome-cases, All,
  All-append, All-at,
}
use oscillink_agent.Domain.Vocabulary.{
  human, approval, human_verified, actor_type_eq, event_type_eq, trust_eq,
}
use oscillink_agent.Domain.Json.{Json, Fields, text, field_is, get_field}
use oscillink_agent.Domain.Events.{Event}
use oscillink_agent.Ledger.{Codec, Row, get}
use oscillink_agent.Capabilities.{
  Grant, GrantRow, Broker, is_authorization, find_authorization, consume, claim_grant, insert_grant,
  register_locked, register_grant,
}
use oscillink_agent.Capabilities.Claims.{claim_grant-Claimed, claim_grant-consume, claim_grant-err}
use oscillink_agent.Capabilities.SingleUse.{Operation, register, claim, perform, run}

module _ (broker : Broker) (codec : Codec) (events : List Row) where
  -- The event in the ledger that authorizes a grant.
  pub record Approved (g : Grant) : Type 0 where
    pub event : Event
    pub found : get codec g.authorization_event_id events ≡ ok (some event)
    pub named : event.id ≡ g.authorization_event_id
    pub issuer : event.actor.id ≡ g.issued_by
    pub by_human : event.actor.kind ≡ human
    pub is_approval : event.event_type ≡ approval
    pub verified : event.trust_class ≡ human_verified
    pub timed : event.observed_at ≡ g.issued_at
    pub for_grant : get_field "grant_id" event.payload ≡ some (text g.id)
    pub decided : get_field "decision" event.payload ≡ some (text "approved")

  -- The row files a grant that was approved.
  record IsAuthorized (r : GrantRow) : Type 0 where
    grant : Grant
    document : r.document_json ≡ broker.encode grant
    approved : Approved grant

  find_authorization-get :
      (g : Grant) (e : Event)
      → find_authorization codec events g ≡ some e
      → get codec g.authorization_event_id events ≡ ok (some e)
  unfolding find_authorization
  find_authorization-get g e h = ground arith

  -- A field that is a text is there with that text.
  text_of :
      (v : Option Json) (s : String)
      → elim v [ none ↦ false | some j ↦ elim j [ text t ↦ t == s | _ ↦ false ] ] ≡ true
      → v ≡ some (text s)
  text_of none s h = absurd (ground arith)
  text_of (some (text t)) s h = ground arith
  text_of (some _) s h = absurd (ground arith)

  field_is-get_field :
      (key s : String) (fs : Fields) → field_is key s fs ≡ true → get_field key fs ≡ some (text s)
  unfolding field_is
  field_is-get_field key s fs h = text_of (get_field key fs) s h

  is_authorization-Approved :
      (g : Grant) (e : Event)
      → find_authorization codec events g ≡ some e
      → is_authorization g e ≡ true
      → Approved g
  unfolding is_authorization
  is_authorization-Approved g e found h = record {
    event = e;
    found = find_authorization-get g e found;
    named = ground arith;
    issuer = ground arith;
    by_human = ground arith;
    is_approval = ground arith;
    verified = ground arith;
    timed = ground arith;
    for_grant = field_is-get_field "grant_id" g.id e.payload (ground arith);
    decided = field_is-get_field "decision" "approved" e.payload (ground arith);
  }

  consume-IsAuthorized :
      (id : String) (now : ℕ) (rows : List GrantRow)
      → All IsAuthorized rows
      → All IsAuthorized (consume broker id now rows)
  unfolding consume
  consume-IsAuthorized id now [] h = tt
  consume-IsAuthorized id now (r ∷ rows) h = (
    record { grant = h.0.grant; document = ground (arith, h.0.document); approved = h.0.approved },
    consume-IsAuthorized id now rows h.1,
  )

  abbrev new_row : Grant → GrantRow
  new_row g = record { id = g.id; document_json = broker.encode g; consumed_at = none }

  register-unauthorized :
      (g : Grant) (rows : List GrantRow)
      → find_authorization codec events g ≡ none
      → (register_grant broker codec events g rows).1 ≡ rows
  unfolding register_grant
  register-unauthorized g rows h = ground arith

  register-cases :
      (g : Grant) (rows : List GrantRow) (e : Event)
      → find_authorization codec events g ≡ some e
      → ((register_grant broker codec events g rows).1 ≡ rows)
        ⊎ ((is_authorization g e ≡ true)
            × ((register_grant broker codec events g rows).1 ≡ rows ++ new_row g ∷ []))
  unfolding register_grant register_locked insert_grant
  register-cases g rows e h = ground arith

  -- A registration leaves the grants as they are, or appends one that was approved.
  register-IsAuthorized :
      (g : Grant) (rows : List GrantRow)
      → All IsAuthorized rows
      → All IsAuthorized (register_grant broker codec events g rows).1
  register-IsAuthorized g rows h = elim (Option-cases (find_authorization codec events g)) [
    | inl e ↦ rw (register-unauthorized g rows e) h
    | inr (event, e) ↦ elim (register-cases g rows event e) [
      | inl same ↦ rw same h
      | inr (valid, grown) ↦ rw grown (
          All-append IsAuthorized rows (new_row g ∷ []) h (
            record {
              grant = g;
              document = refl;
              approved = is_authorization-Approved g event e valid;
            },
            tt,
          ))
    ]
  ]

  claim-IsAuthorized :
      (id subject : String) (now : ℕ) (rows : List GrantRow)
      → All IsAuthorized rows
      → All IsAuthorized (claim_grant broker id subject now rows).1
  claim-IsAuthorized id subject now rows h =
      elim (outcome-cases (claim_grant broker id subject now rows)) [
        | inl (g, e) ↦
            rw (claim_grant-consume broker id subject now g rows _ e)
              (consume-IsAuthorized g.id now rows h)
        | inr (d, e) ↦ rw (claim_grant-err broker id subject now d rows _ e) h
      ]

  run-IsAuthorized :
      (ops : List Operation) (rows : List GrantRow)
      → All IsAuthorized rows
      → All IsAuthorized (run broker codec events ops rows)
  unfolding run perform
  run-IsAuthorized [] rows h = h
  run-IsAuthorized (register g ∷ ops) rows h =
      run-IsAuthorized ops _ (register-IsAuthorized g rows h)
  run-IsAuthorized (claim id subject now ∷ ops) rows h =
      run-IsAuthorized ops _ (claim-IsAuthorized id subject now rows h)

  -- Where documents decode to no other grant than the one they encode, every grant that is claimed,
  -- after any registrations and claims on an empty store, names an event of the ledger that is a
  -- human-verified approval by its human issuer, observed at the time of its issue, whose payload
  -- names the grant and says that it was approved.
  pub claim-Approved :
      (exact : (g h : Grant) → broker.decode (broker.encode g) ≡ some h → h ≡ g)
      (ops : List Operation) (id subject : String) (now : ℕ) (g : Grant) (rows' : List GrantRow)
      → claim_grant broker id subject now (run broker codec events ops []) ≡ (ok g, rows')
      → Approved g
  claim-Approved exact ops id subject now g rows' h =
      let rows = run broker codec events ops [] in
      let c = claim_grant-Claimed broker id subject now g rows rows' h in
      let o = select_one-Occurs (λ r. r.id == id) rows c.row c.found in
      let a = All-at IsAuthorized rows c.row (run-IsAuthorized ops [] tt) o.0 in
      let same : g ≡ a.grant = exact a.grant g (ap broker.decode (sym a.document) ∙ c.decoded) in
      rw same a.approved
