-- ===== src/Memory/Review.antt =====
-- `review` and `_review_locked` of memory/repository.py: the governed authority-state machine.
pub mod States
pub mod Transitions
use oscillink_agent.Base.{
  String, Bool, true, false, not, ◌&&◌, ◌||◌, Option, none, some, [], ◌∷◌, ◌++◌, ◌==◌, exists_row,
  select_one, pure, raise, raise_if, or_raise, gets, modify, transaction, ◌>>=◌, ◌>>◌, string_eq,
  option_eq, if◌then◌else◌,
}
use oscillink_agent.Domain.Identifiers.{is_idempotency_key}
use oscillink_agent.Memory.Types.{
  AuthorityState, candidate, curated, approved, rejected, superseded, MemoryRecord, state_eq,
}
use oscillink_agent.Memory.Store.{
  Store, Review, Call, record_not_found, review_conflict, transition_conflict, unsupported_decision,
  invalid_key, assertion_error, get,
}

-- The arguments of `review`.
pub record Decision : Type 0 where
  pub record_id : String
  pub decision : AuthorityState
  pub event_id : String
  pub idempotency_key : String
  pub replacement_record_id : Option String

-- `decision in {APPROVED, REJECTED, SUPERSEDED}`
unfoldable pub is_supported : AuthorityState → Bool
is_supported approved = true
is_supported rejected = true
is_supported superseded = true
is_supported _ = false

-- `authority_state in {CANDIDATE, CURATED}`
unfoldable pub is_open : AuthorityState → Bool
is_open candidate = true
is_open curated = true
is_open _ = false

-- `replacement is not None and replacement.id != record_id and it is APPROVED`
unfoldable pub is_replacement : String → Option MemoryRecord → Bool
is_replacement record_id none = false
is_replacement record_id (some r) = not (r.id == record_id) && r.authority_state == approved

-- The guard on the transition: `true` where `_review_locked` goes on to the insertion.
unfoldable pub is_allowed : Store → MemoryRecord → Decision → Bool
unfolding is_open is_replacement
is_allowed s current d =
    if d.decision == approved || d.decision == rejected
    then is_open current.authority_state && d.replacement_record_id == none
    else current.authority_state == approved
      && is_replacement d.record_id
          (elim d.replacement_record_id [ none ↦ none | some id ↦ get s id ])

unfoldable pub review_row : MemoryRecord → Decision → Review
review_row current d = record {
  event_id = d.event_id;
  idempotency_key = d.idempotency_key;
  record_id = d.record_id;
  content_hash = current.content_hash;
  decision = d.decision;
  replacement_record_id = d.replacement_record_id;
}

-- `existing == expected`
unfoldable pub is_same_request : Review → MemoryRecord → Decision → Bool
is_same_request v current d =
    v.event_id == d.event_id
    && v.record_id == d.record_id
    && v.content_hash == current.content_hash
    && v.decision == d.decision
    && v.replacement_record_id == d.replacement_record_id

-- `INSERT INTO memory_reviews`, under its two UNIQUE constraints
unfoldable pub insert_review : Review → Call (Unit {0})
insert_review v = do
  taken ← gets (λ s.
      exists_row (λ x. x.event_id == v.event_id || x.idempotency_key == v.idempotency_key)
        s.reviews)
  raise_if taken (review_conflict v.event_id)
  modify (λ s. record s { reviews = s.reviews ++ v ∷ [] })

-- `reviewed = self.get(record_id)` and `assert reviewed is not None`
unfoldable pub reread : String → Call MemoryRecord
reread record_id = do or_raise (← gets (λ s. get s record_id)) assertion_error

-- What follows the look-up of the idempotency key.
unfoldable pub decide : MemoryRecord → Decision → Option Review → Call MemoryRecord
unfolding insert_review reread review_row is_same_request
decide current d (some v) =
    if is_same_request v current d
    then reread d.record_id
    else raise (review_conflict d.idempotency_key)
decide current d none = do
  allowed ← gets (λ s. is_allowed s current d)
  raise_if (not allowed) (transition_conflict d.record_id)
  insert_review (review_row current d)
  reread d.record_id

-- `_review_locked`
unfoldable pub review_locked : Decision → Call MemoryRecord
review_locked d = do
  current ← or_raise (← gets (λ s. get s d.record_id)) (record_not_found d.record_id)
  existing ← gets (λ s. select_one (λ v. v.idempotency_key == d.idempotency_key) s.reviews)
  decide current d existing

-- `review`
unfoldable pub review : Decision → Call MemoryRecord
review d = do
  raise_if (not (is_supported d.decision)) unsupported_decision
  raise_if (not (is_idempotency_key d.idempotency_key)) invalid_key
  transaction (review_locked d)
