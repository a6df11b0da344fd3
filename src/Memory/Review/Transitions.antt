-- ===== src/Memory/Review/Transitions.antt =====
-- The state machine that `review` implements.
use oscillink_agent.Base.{
  ◌≢◌, ◌∙◌, sym, select_one, select_one-append, String, ◌≡◌, ◌⊎◌, inl, inr, Bool, true, none, some,
  [], ◌∷◌, ◌++◌, arith, ok, err, ◌==◌, string_eq, Option-cases,
}
use oscillink_agent.Domain.Identifiers.{is_idempotency_key}
use oscillink_agent.Memory.Types.{AuthorityState, MemoryRecord, state_eq}
use oscillink_agent.Memory.Store.Views.{
  Shown, get-Shown, with_review_state-append, hash-with_review_state, set-with_review_state,
}
use oscillink_agent.Memory.Store.{MemoryError, Store, Review, get, stored}
use oscillink_agent.Memory.Review.States.{IsTransition, is_allowed-IsTransition}
use oscillink_agent.Memory.Review.{
  Decision, is_supported, is_allowed, review_row, review_locked, review, decide, is_same_request,
}

abbrev pub has_key : String → Review → Bool
has_key key v = v.idempotency_key == key

-- What a review that found its idempotency key in the log did: the logged row is of the same
-- request, on the same content, and nothing changed.
pub record Replayed (s : Store) (d : Decision) (current : MemoryRecord) (s' : Store) : Type 0 where
  pub found : get s d.record_id ≡ some current
  pub row : Review
  pub seen : select_one (has_key d.idempotency_key) s.reviews ≡ some row
  pub same_event : row.event_id ≡ d.event_id
  pub same_record : row.record_id ≡ d.record_id
  pub same_content : row.content_hash ≡ current.content_hash
  pub same_decision : row.decision ≡ d.decision
  pub same_replacement : row.replacement_record_id ≡ d.replacement_record_id
  pub unchanged : s' ≡ s

-- What a review under a new key did: it took a transition that is allowed.
pub record Decided (s : Store) (d : Decision) (current : MemoryRecord) (s' : Store) : Type 0 where
  pub found : get s d.record_id ≡ some current
  pub supported : is_supported d.decision ≡ true
  pub keyed : is_idempotency_key d.idempotency_key ≡ true
  pub unseen : select_one (has_key d.idempotency_key) s.reviews ≡ none
  pub allowed : is_allowed s current d ≡ true
  pub transition : IsTransition s current d
  pub logged : s' ≡ record s { reviews = s.reviews ++ review_row current d ∷ [] }

review_seen :
    (s s' : Store) (d : Decision) (current r : MemoryRecord) (v : Review)
    → get s d.record_id ≡ some current
    → select_one (has_key d.idempotency_key) s.reviews ≡ some v
    → review d s ≡ (ok r, s')
    → Replayed s d current s'
unfolding review review_locked decide is_same_request
review_seen s s' d current r v found seen h = record {
  found = found;
  row = v;
  seen = seen;
  same_event = ground arith;
  same_record = ground arith;
  same_content = ground arith;
  same_decision = ground arith;
  same_replacement = ground arith;
  unchanged = ground arith;
}

allowed_of :
    (s s' : Store) (d : Decision) (current r : MemoryRecord)
    → get s d.record_id ≡ some current
    → select_one (has_key d.idempotency_key) s.reviews ≡ none
    → review d s ≡ (ok r, s')
    → (is_supported d.decision ≡ true)
      × (is_idempotency_key d.idempotency_key ≡ true)
      × (is_allowed s current d ≡ true)
      × (s' ≡ record s { reviews = s.reviews ++ review_row current d ∷ [] })
unfolding review review_locked decide
allowed_of s s' d current r found unseen h = ground arith

review_unseen :
    (s s' : Store) (d : Decision) (current r : MemoryRecord)
    → get s d.record_id ≡ some current
    → select_one (has_key d.idempotency_key) s.reviews ≡ none
    → review d s ≡ (ok r, s')
    → Decided s d current s'
review_unseen s s' d current r found unseen h =
    let a = allowed_of s s' d current r found unseen h in
    record {
      found = found;
      supported = a.0;
      keyed = a.1;
      unseen = unseen;
      allowed = a.2;
      transition = is_allowed-IsTransition s current d a.0 a.2;
      logged = a.3;
    }

pub review-Decided_from :
    (s s' : Store) (d : Decision) (current r : MemoryRecord)
    → get s d.record_id ≡ some current
    → review d s ≡ (ok r, s')
    → Replayed s d current s' ⊎ Decided s d current s'
review-Decided_from s s' d current r found h =
    elim (Option-cases (select_one (has_key d.idempotency_key) s.reviews)) [
      | inl unseen ↦ inr (review_unseen s s' d current r found unseen h)
      | inr (v, seen) ↦ inl (review_seen s s' d current r v found seen h)
    ]

pub review-found :
    (s s' : Store) (d : Decision) (r : MemoryRecord)
    → review d s ≡ (ok r, s')
    → get s d.record_id ≢ none
unfolding review review_locked
review-found s s' d r h = ground arith

-- A review that returns shows the record as it then reads.
pub review-returns :
    (s s' : Store) (d : Decision) (r : MemoryRecord)
    → review d s ≡ (ok r, s')
    → get s' d.record_id ≡ some r
unfolding review review_locked decide
review-returns s s' d r h = ground arith

-- A review that returns is about a record that exists, and returns the record as it then reads. It
-- is a replay, which found the same request on the same content under its key and changes nothing;
-- or it is a supported decision under a valid and unseen key which takes a transition of the state
-- machine: an open record is approved or rejected without a replacement, or an approved one is
-- superseded by another approved one; and it appends one row to the log.
pub review-Decided :
    (s s' : Store) (d : Decision) (r : MemoryRecord)
    → review d s ≡ (ok r, s')
    → (current : MemoryRecord) × (get s' d.record_id ≡ some r)
      × (Replayed s d current s' ⊎ Decided s d current s')
review-Decided s s' d r h = elim (Option-cases (get s d.record_id)) [
  | inl e ↦ absurd (review-found s s' d r h e)
  | inr (current, e) ↦
      (current, review-returns s s' d r h, review-Decided_from s s' d current r e h)
]

-- In short: it changed nothing or it decided.
pub review_changes :
    (s s' : Store) (d : Decision) (r : MemoryRecord)
    → review d s ≡ (ok r, s')
    → (s' ≡ s) ⊎ ((current : MemoryRecord) × Decided s d current s')
review_changes s s' d r h =
    let (current, shown, how) = review-Decided s s' d r h in
    elim how [ inl again ↦ inl again.unchanged | inr decided ↦ inr (current, decided) ]

-- A review that raises changes nothing.
pub review-err : (s s' : Store) (d : Decision) (e : MemoryError) → review d s ≡ (err e, s') → s' ≡ s
unfolding review
review-err s s' d e h = ground arith

get-Shown_appended :
    (s : Store) (d : Decision) (current : MemoryRecord)
    → Shown s d.record_id current
    → get (record s { reviews = s.reviews ++ review_row current d ∷ [] }) d.record_id
      ≡ some (record current { authority_state = d.decision })
unfolding get stored review_row
get-Shown_appended s d current v = ground (
  arith,
  v.found,
  v.view,
  v.named,
  with_review_state-append s (review_row current d) v.base,
  hash-with_review_state s v.base,
  set-with_review_state s v.base d.decision,
)

-- Behind an allowed transition the reviewed record reads with the decision.
pub get-Decided :
    (s s' : Store) (d : Decision) (current : MemoryRecord)
    → Decided s d current s'
    → get s' d.record_id ≡ some (record current { authority_state = d.decision })
get-Decided s s' d current h =
    rw (h.logged) (get-Shown_appended s d current (get-Shown s d.record_id current h.found))

review_recorded :
    (s : Store) (d : Decision) (r : MemoryRecord) (v : Review)
    → get s d.record_id ≡ some r
    → select_one (has_key d.idempotency_key) s.reviews ≡ some v
    → is_same_request v r d ≡ true
    → is_supported d.decision ≡ true
    → is_idempotency_key d.idempotency_key ≡ true
    → review d s ≡ (ok r, s)
unfolding review review_locked decide
review_recorded s d r v found seen same supported keyed = ground arith

is_same_request-review_row :
    (current : MemoryRecord) (d : Decision) (a : AuthorityState)
    → is_same_request (review_row current d) (record current { authority_state = a }) d ≡ true
unfolding is_same_request review_row
is_same_request-review_row current d a = ground arith

replay-Decided :
    (s s' : Store) (d : Decision) (current : MemoryRecord)
    → Decided s d current s'
    → review d s' ≡ (ok (record current { authority_state = d.decision }), s')
replay-Decided s s' d current h =
    review_recorded s' d _ (review_row current d) (get-Decided s s' d current h)
      (rw h.logged (
        select_one-append (has_key d.idempotency_key) s.reviews (review_row current d) h.unseen
        ∙ unfold review_row in ground arith))
      (is_same_request-review_row current d d.decision) h.supported h.keyed

-- Repeating a review that returned returns the same record and changes nothing.
pub review_idem :
    (s s' : Store) (d : Decision) (r : MemoryRecord)
    → review d s ≡ (ok r, s')
    → review d s' ≡ (ok r, s')
review_idem s s' d r h = elim (review_changes s s' d r h) [
  | inl same ↦ rw same (cc)
  | inr (current, decided) ↦
      let shown : some r ≡ some (record current { authority_state = d.decision }) =
        sym (review-returns s s' d r h) ∙ get-Decided s s' d current decided in
      let e : r ≡ record current { authority_state = d.decision } = ground arith in
      rw e (replay-Decided s s' d current decided)
]
