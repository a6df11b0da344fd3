-- ===== src/Proposals/Projections.antt =====
-- What a projection of the ledger says of a proposal (proposals/repository.py).
use oscillink_agent.Base.{
  String, ◌≡◌, refl, sym, Option, none, some, List, [], ◌∷◌, arith, All, All-at, ◌==◌, string_eq,
  Result, ok, err, select_one, select_one-Occurs,
}
use oscillink_agent.Domain.Json.{Json}
use oscillink_agent.Domain.Events.{Event}
use oscillink_agent.Ledger.{Codec, Row, LedgerError, iter_all}
use oscillink_agent.Proposals.{
  Projection, ProposalError, event_id_of, find_decision, projected, project_imported,
  project_proposed, project_one, gather, project_each, project_memory_proposals, named,
  project_read, projection,
}

module _ (show : Option Json → String) where
  named-some :
      (id : String) (r : Result ProposalError (List Projection)) (p : Projection)
      → named show id r ≡ ok (some p)
      → (ps : List Projection) × (r ≡ ok ps) × (select_one (λ x. x.proposal_id == id) ps ≡ some p)
  named-some id (err x) p h = absurd (ground arith)
  named-some id (ok ps) p h = (ps, refl, ground arith)

  read-some :
      (r : Result LedgerError (List Event)) (ps : List Projection)
      → project_read show r ≡ ok ps
      → (es : List Event) × (r ≡ ok es) × (project_memory_proposals show es ≡ ok ps)
  read-some (err x) ps h = absurd (ground arith)
  read-some (ok es) ps h = (es, refl, h)

  -- A projection that was found: the events, all projections, and the one of the identity.
  pub record Found (codec : Codec) (id : String) (rows : List Row) (p : Projection) : Type 0 where
    pub events : List Event
    pub projections : List Projection
    pub read : iter_all codec rows ≡ ok events
    pub projected : project_memory_proposals show events ≡ ok projections
    pub found : select_one (λ x. x.proposal_id == id) projections ≡ some p

  pub projection-Found :
      (codec : Codec) (id : String) (rows : List Row) (p : Projection)
      → projection show codec id rows ≡ ok (some p)
      → Found codec id rows p
  unfolding projection
  projection-Found codec id rows p h =
      let (ps, all, found) = named-some id (project_read show (iter_all codec rows)) p h in
      let (es, read, each) = read-some (iter_all codec rows) ps all in
      record { events = es; projections = ps; read = read; projected = each; found = found }

  pub Found-projection :
      (codec : Codec) (id : String) (rows : List Row) (p : Projection)
      → Found codec id rows p
      → projection show codec id rows ≡ ok (some p)
  unfolding projection
  Found-projection codec id rows p f = rw (f.read, f.projected, f.found) refl

  pub Found-id :
      (codec : Codec) (id : String) (rows : List Row) (p : Projection)
      → Found codec id rows p
      → p.proposal_id ≡ id
  Found-id codec id rows p f =
      let meets = (select_one-Occurs (λ x. x.proposal_id == id) f.projections p f.found).1 in
      ground arith

  -- A projection names the event that the ledger holds as the decision on it.
  abbrev pub ShowsDecision : List Event → Projection → Type 0
  ShowsDecision es p = p.decision_event_id ≡ event_id_of show (find_decision show es p.proposal_id)

  one-ShowsDecision :
      (es : List Event) (e : Event) (p : Projection)
      → project_one show es e ≡ ok (some p)
      → ShowsDecision es p
  unfolding project_one project_proposed project_imported projected
  one-ShowsDecision es e p h = ground arith

  pub gather-some :
      (x : Result ProposalError (Option Projection)) (y : Result ProposalError (List Projection))
      (ps : List Projection)
      → gather show x y ≡ ok ps
      → (o : Option Projection) × (qs : List Projection) × (x ≡ ok o)
        × (y ≡ ok qs)
        × (gather show (ok o) (ok qs) ≡ ok ps)
  gather-some (err x) y ps h = absurd (ground arith)
  gather-some (ok o) (err y) ps h = absurd (ground arith)
  gather-some (ok o) (ok qs) ps h = (o, qs, refl, refl, h)

  gathered-ShowsDecision :
      (es : List Event) (x : Event) (o : Option Projection) (qs ps : List Projection)
      → project_one show es x ≡ ok o
      → All (ShowsDecision es) qs
      → gather show (ok o) (ok qs) ≡ ok ps
      → All (ShowsDecision es) ps
  gathered-ShowsDecision es x none qs ps one h g =
      let same : qs ≡ ps = ground arith in rw (sym same) h
  gathered-ShowsDecision es x (some p) qs ps one h g =
      let same : p ∷ qs ≡ ps = ground arith in rw (sym same) (one-ShowsDecision es x p one, h)

  each-ShowsDecision :
      (es xs : List Event) (ps : List Projection)
      → project_each show es xs ≡ ok ps
      → All (ShowsDecision es) ps
  unfolding project_each
  each-ShowsDecision es [] ps h = let same : [] ≡ ps = ground arith in rw (sym same) tt
  each-ShowsDecision es (x ∷ xs) ps h =
      let (o, qs, one, rest, both) =
        gather-some (project_one show es x) (project_each show es xs) ps h in
      gathered-ShowsDecision es x o qs ps one (each-ShowsDecision es xs qs rest) both

  pub Found-decision :
      (codec : Codec) (id : String) (rows : List Row) (p : Projection)
      → (f : Found codec id rows p)
      → p.decision_event_id ≡ event_id_of show (find_decision show f.events id)
  unfolding project_memory_proposals
  Found-decision codec id rows p f =
      let shown =
        All-at (ShowsDecision f.events) f.projections p
          (each-ShowsDecision f.events f.events f.projections f.projected)
          (select_one-Occurs (λ x. x.proposal_id == id) f.projections p f.found).0 in
      let same = Found-id codec id rows p f in rw same at shown
