-- ===== src/Memory/Store/Views.antt =====
-- What the reads show: a stored record under the latest review of its revision.
use oscillink_agent.Base.{
  String, ◌≡◌, inl, inr, true, none, some, [], ◌∷◌, ◌++◌, arith, ◌==◌, string_eq, Option-cases,
  select_one-Occurs, select_latest-append, Occurs, if◌then◌else◌,
}
use oscillink_agent.Memory.Types.{AuthorityState, MemoryRecord}
use oscillink_agent.Memory.Store.{
  latest_review, Store, Review, get, stored, with_review_state, reviews_revision,
}

-- `stored` and the review state, for a record that `get` shows.
pub record Shown (s : Store) (id : String) (current : MemoryRecord) : Type 0 where
  pub base : MemoryRecord
  pub found : stored s id ≡ some base
  pub view : current ≡ with_review_state s base
  pub named : base.id ≡ id
  pub present : Occurs base s.records

pub get-Shown :
    (s : Store) (id : String) (current : MemoryRecord)
    → get s id ≡ some current
    → Shown s id current
unfolding get
get-Shown s id current h = elim (Option-cases (stored s id)) [
  | inl e ↦ absurd (cc (e, h))
  | inr (r, e) ↦
      let o : Occurs r s.records × ((r.id == id) ≡ true) =
        unfold stored in select_one-Occurs (λ x. x.id == id) s.records r e in
      record { base = r; found = e; view = ground arith; named = ground arith; present = o.0 }
]

pub id-with_review_state : (s : Store) (r : MemoryRecord) → (with_review_state s r).id ≡ r.id
unfolding with_review_state
id-with_review_state s r = ground arith

pub hash-with_review_state :
    (s : Store) (r : MemoryRecord) → (with_review_state s r).content_hash ≡ r.content_hash
unfolding with_review_state
hash-with_review_state s r = ground arith

-- One more review decides the state of exactly the revision that it names.
pub with_review_state-append :
    (s : Store) (v : Review) (r : MemoryRecord)
    → with_review_state (record s { reviews = s.reviews ++ v ∷ [] }) r ≡ (
        if reviews_revision r.id r.content_hash v
        then record r { authority_state = v.decision }
        else with_review_state s r)
unfolding with_review_state
with_review_state-append s v r =
    ground (arith, select_latest-append (reviews_revision r.id r.content_hash) s.reviews v)

-- The review state is all that a read adds.
pub set-with_review_state :
    (s : Store) (r : MemoryRecord) (a : AuthorityState)
    → record (with_review_state s r) { authority_state = a } ≡ record r { authority_state = a }
unfolding with_review_state
set-with_review_state s r a = ground arith

-- A read shows the decision of the latest review of the revision, and without one the stored state.
pub state_of_latest_review :
    (s : Store) (id : String) (current : MemoryRecord) (v : Review)
    → Shown s id current
    → latest_review s id current.content_hash ≡ some v
    → current.authority_state ≡ v.decision
unfolding with_review_state latest_review
state_of_latest_review s id current v w e =
    ground (arith, w.view, w.named, hash-with_review_state s w.base)

pub state_without_review :
    (s : Store) (id : String) (current : MemoryRecord) (w : Shown s id current)
    → latest_review s id current.content_hash ≡ none
    → current ≡ w.base
unfolding with_review_state latest_review
state_without_review s id current w e =
    ground (arith, w.view, w.named, hash-with_review_state s w.base)
