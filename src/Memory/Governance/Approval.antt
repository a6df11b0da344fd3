-- ===== src/Memory/Governance/Approval.antt =====
-- Authority comes from the log of reviews alone.
use oscillink_agent.Base.{
  String, ◌≡◌, ◌∙◌, ◌↔◌, ◌≢◌, inl, inr, sym, true, none, some, arith, All-at, Option-cases,
  string_eq,
}
use oscillink_agent.Memory.Types.{AuthorityState, approved, MemoryRecord}
use oscillink_agent.Memory.Store.{Store, Review, get, latest_review}
use oscillink_agent.Memory.Store.Views.{
  Shown, get-Shown, state_of_latest_review, state_without_review,
}
use oscillink_agent.Memory.Review.{is_open}
use oscillink_agent.Memory.Governance.{Governed, IsOpen}

-- A stored record that no review names is open.
pub unreviewed_state :
    (s : Store) (id : String) (current : MemoryRecord)
    → Governed s
    → Shown s id current
    → latest_review s id current.content_hash ≡ none
    → is_open current.authority_state ≡ true
unreviewed_state s id current g w e =
    rw (state_without_review s id current w e) (All-at IsOpen s.records w.base g.records w.present)

open_not_approved : (a : AuthorityState) → is_open a ≡ true → a ≢ approved
unfolding is_open
open_not_approved a h e = ground arith

-- In a governed store a record reads as approved exactly when the latest review of its revision
-- approves it.
pub approved_iff :
    (s : Store) (id : String) (current : MemoryRecord)
    → Governed s
    → get s id ≡ some current
    → (current.authority_state ≡ approved) ↔ (
        (v : Review) × (latest_review s id current.content_hash ≡ some v) × (v.decision ≡ approved))
approved_iff s id current g h =
    let w = get-Shown s id current h in
    (
      λ a. elim (Option-cases (latest_review s id current.content_hash)) [
        | inl e ↦
            absurd
              (open_not_approved current.authority_state (unreviewed_state s id current g w e) a)
        | inr (v, e) ↦ (v, e, sym (state_of_latest_review s id current v w e) ∙ a)
      ],
      λ r. state_of_latest_review s id current r.0 w r.1 ∙ r.2,
    )
