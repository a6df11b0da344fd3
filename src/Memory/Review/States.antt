-- ===== src/Memory/Review/States.antt =====
-- The transitions of the state machine that `review` implements, and its guard.
use oscillink_agent.Base.{
  refl, ◌≢◌, String, ◌≡◌, ◌⊎◌, inl, inr, true, Option, none, some, arith, string_eq, Option-cases,
}
use oscillink_agent.Memory.Types.{
  AuthorityState, candidate, curated, approved, rejected, superseded, MemoryRecord, state_eq,
}
use oscillink_agent.Memory.Store.{Store, get}
use oscillink_agent.Memory.Review.{Decision, is_supported, is_open, is_replacement, is_allowed}

-- The transitions of a record: an open record is approved or rejected, and an approved one is
-- superseded by another approved one.
abbrev pub IsTransition : Store → MemoryRecord → Decision → Type 0
IsTransition s current d =
    (((d.decision ≡ approved) ⊎ (d.decision ≡ rejected))
      × ((current.authority_state ≡ candidate) ⊎ (current.authority_state ≡ curated))
      × (d.replacement_record_id ≡ none))
    ⊎ ((d.decision ≡ superseded)
        × (current.authority_state ≡ approved)
        × ((id : String) × (r : MemoryRecord) × (d.replacement_record_id ≡ some id)
            × (get s id ≡ some r)
            × (r.id ≢ d.record_id)
            × (r.authority_state ≡ approved)))

no_replacement : (record_id : String) → is_replacement record_id none ≢ true
unfolding is_replacement
no_replacement record_id h = ground arith

is_replacement-parts :
    (record_id : String) (r : MemoryRecord)
    → is_replacement record_id (some r) ≡ true
    → (r.id ≢ record_id) × (r.authority_state ≡ approved)
unfolding is_replacement
is_replacement-parts record_id r h = (ground arith, ground arith)

is_open-parts : (a : AuthorityState) → is_open a ≡ true → (a ≡ candidate) ⊎ (a ≡ curated)
unfolding is_open
is_open-parts candidate h = inl refl
is_open-parts curated h = inr refl
is_open-parts _ h = absurd (ground arith)

opened :
    (s : Store) (current : MemoryRecord) (d : Decision)
    → (d.decision ≡ approved) ⊎ (d.decision ≡ rejected)
    → is_allowed s current d ≡ true
    → (is_open current.authority_state ≡ true) × (d.replacement_record_id ≡ none)
unfolding is_allowed
opened s current d e h = ground arith

replaced :
    (s : Store) (current : MemoryRecord) (d : Decision)
    → d.decision ≡ superseded
    → is_allowed s current d ≡ true
    → (current.authority_state ≡ approved)
      × (is_replacement d.record_id
            (elim d.replacement_record_id [ none ↦ none | some id ↦ get s id ])
          ≡ true)
unfolding is_allowed
replaced s current d e h = ground arith

replacement_of :
    (s : Store) (record_id : String) (named : Option String)
    → is_replacement record_id (elim named [ none ↦ none | some id ↦ get s id ]) ≡ true
    → (id : String) × (r : MemoryRecord) × (named ≡ some id)
      × (get s id ≡ some r)
      × (r.id ≢ record_id)
      × (r.authority_state ≡ approved)
replacement_of s record_id none h = absurd (no_replacement record_id h)
replacement_of s record_id (some id) h = elim (Option-cases (get s id)) [
  | inl e ↦ absurd (no_replacement record_id (rw e at h))
  | inr (r, e) ↦
      let parts = is_replacement-parts record_id r (rw e at h) in (id, r, refl, e, parts.0, parts.1)
]

is_supported-IsTransition :
    (s : Store) (current : MemoryRecord) (d : Decision) (a : AuthorityState)
    → d.decision ≡ a
    → is_supported a ≡ true
    → is_allowed s current d ≡ true
    → IsTransition s current d
unfolding is_supported
is_supported-IsTransition s current d approved e supported h =
    let o = opened s current d (inl e) h in
    inl (inl e, is_open-parts current.authority_state o.0, o.1)
is_supported-IsTransition s current d rejected e supported h =
    let o = opened s current d (inr e) h in
    inl (inr e, is_open-parts current.authority_state o.0, o.1)
is_supported-IsTransition s current d superseded e supported h =
    let o = replaced s current d e h in
    inr (e, o.0, replacement_of s d.record_id d.replacement_record_id o.1)
is_supported-IsTransition s current d _ e supported h = absurd (ground arith)

-- The guard of the program is that description.
pub is_allowed-IsTransition :
    (s : Store) (current : MemoryRecord) (d : Decision)
    → is_supported d.decision ≡ true
    → is_allowed s current d ≡ true
    → IsTransition s current d
is_allowed-IsTransition s current d supported h =
    is_supported-IsTransition s current d d.decision refl supported h
