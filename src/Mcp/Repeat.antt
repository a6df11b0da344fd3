-- ===== src/Mcp/Repeat.antt =====
-- Retries of `remember` and `correct`: `execute_project_memory_tool` of integrations/mcp/server.py.
use oscillink_agent.Base.{
  String, ◌≡◌, refl, sym, ◌∙◌, Bool, true, false, Option, none, some, List, [], ◌∷◌, ◌++◌, arith,
  ok, Bool-cases, Option-cases, inl, inr, not, if◌then◌else◌, DecEq, ◌==◌, string_eq, option_eq,
  list_eq, select_latest, select_one-append, select_one-append_found, Result,
}
use oscillink_agent.Memory.Types.{AuthorityState, MemoryRecord, category_eq, domain_eq}
use oscillink_agent.Memory.Store.{
  Store, Review, MemoryError, get, stored, with_review_state, reviews_revision,
}
use oscillink_agent.Memory.Write.{
  Native, native_record, insert_explicit_record, insert_or_compare, create_as, create_native,
}
use oscillink_agent.Mcp.{Tool, Response, Target, failure, revision_conflict, request_conflict}
use oscillink_agent.Mcp.Propose.{
  tool_of, Proposal, Proposer, native_of, proposed_id, answers, is_conflicting, response_of,
  answer_or_create, answer_created, propose,
}

-- The store under another log of reviews.
unfoldable pub reviewed : List Review → Store → Store
reviewed vs s = record s { reviews = vs }

eq_refl : {A : Type 0} ⦃e : DecEq A⦄ (a : A) → (a == a) ≡ true
eq_refl a = ground arith

-- A review shows in the authority state only.
abbrev in_state : AuthorityState → MemoryRecord → MemoryRecord
in_state a r = record r { authority_state = a }

state_of :
    (r : MemoryRecord) (o : Option Review)
    → (a : AuthorityState) × (elim o [
      | none ↦ r
      | some v ↦ record r { authority_state = v.decision }
    ]
        ≡ in_state a r)
state_of r none = (r.authority_state, refl)
state_of r (some v) = (v.decision, refl)

shown_state :
    (s : Store) (r : MemoryRecord) → (a : AuthorityState) × (with_review_state s r ≡ in_state a r)
unfolding with_review_state
shown_state s r = state_of r (select_latest (reviews_revision r.id r.content_hash) s.reviews)

get-stored :
    (s : Store) (id : String) (r : MemoryRecord)
    → stored s id ≡ some r
    → (a : AuthorityState) × (get s id ≡ some (in_state a r))
unfolding get
get-stored s id r e = let shown = shown_state s r in (shown.0, ground (arith, shown.1))

get-none : (s : Store) (id : String) → stored s id ≡ none → get s id ≡ none
unfolding get
get-none s id e = ground arith

ok_if :
    (b : Bool) (x y : Response) (s : Store)
    → Path
        (Result MemoryError Response × Store)
        (if b then (ok x, s) else (ok y, s))
        (ok (if b then x else y), s)
ok_if true x y s = refl
ok_if false x y s = refl

module _ (proposer : Proposer) (p : Proposal) where
  abbrev id_of : String
  id_of = proposed_id proposer p

  abbrev fields : Native
  fields = native_of proposer p

  answers-native_record : answers proposer fields (native_record id_of fields) ≡ true
  unfolding answers native_record
  answers-native_record =
      rw
        (
          eq_refl fields.title,
          eq_refl fields.content,
          eq_refl fields.category,
          eq_refl fields.domains,
          eq_refl fields.topics,
          eq_refl fields.content_hash,
          eq_refl fields.source_refs,
          eq_refl fields.created_by,
          eq_refl fields.creation_request_id,
          eq_refl fields.correction_target_id,
          eq_refl fields.correction_expected_hash,
          eq_refl fields.correction_reason,
        )
        refl

  -- Whether the target of a correction is not the revision that it names.
  abbrev differs : Target → Option MemoryRecord → Bool
  differs t none = true
  differs t (some r) = not (r.content_hash == t.expected_content_hash)

  conflict-stored :
      (t : Target) (s : Store)
      → is_conflicting proposer (some t) s ≡ differs t (stored s t.record_id)
  unfolding is_conflicting
  conflict-stored t s = elim (Option-cases (stored s t.record_id)) [
    | inl e ↦ rw (is_conflicting, e, get-none s t.record_id e) refl
    | inr (r, e) ↦ rw (is_conflicting, e, (get-stored s t.record_id r e).1) refl
  ]

  -- What is answered for the record that has the identity.
  answer_of : MemoryRecord → Response
  answer_of r =
      if answers proposer fields r
      then response_of proposer p r
      else failure (tool_of p) request_conflict

  propose-found :
      (s : Store) (r : MemoryRecord)
      → is_conflicting proposer p.target s ≡ false
      → stored s id_of ≡ some r
      → propose proposer p s ≡ (ok (answer_of r), s)
  unfolding propose answer_or_create answer_of answers response_of
  propose-found s r c e =
      rw (c, (get-stored s id_of r e).1)
        (ok_if (answers proposer fields r) (response_of proposer p r)
          (failure (tool_of p) request_conflict) s)

  propose-conflicting :
      (s : Store)
      → is_conflicting proposer p.target s ≡ true
      → propose proposer p s ≡ (ok (failure Tool.correct revision_conflict), s)
  unfolding propose
  propose-conflicting s c = rw c refl

  -- A new identity: the record that the proposal stands for is stored.
  propose-created :
      (s s' : Store) (x : Response)
      → is_conflicting proposer p.target s ≡ false
      → stored s id_of ≡ none
      → propose proposer p s ≡ (ok x, s')
      → (x ≡ response_of proposer p (native_record id_of fields))
        × (s'.records ≡ s.records ++ native_record id_of fields ∷ [])
        × (stored s' id_of ≡ some (native_record id_of fields))
  unfolding propose answer_or_create answer_created create_native create_as insert_explicit_record
      insert_or_compare native_of stored native_record
  propose-created s s' x c e h = ground (
    arith,
    c,
    get-none s id_of e,
    select_one-append (λ r. r.id == id_of) s.records (native_record id_of fields),
  )

  differs_kept :
      (t : Target) (s s' : Store) (x : MemoryRecord)
      → s'.records ≡ s.records ++ x ∷ []
      → differs t (stored s t.record_id) ≡ false
      → differs t (stored s' t.record_id) ≡ false
  unfolding stored
  differs_kept t s s' x e d = elim (Option-cases (stored s t.record_id)) [
    | inl n ↦ ground (arith, n)
    | inr (r, f) ↦
        let found = select_one-append_found (λ y. y.id == t.record_id) s.records (x ∷ []) r f in
        ground (arith, found)
  ]

  -- A target that was found as named is found so again, whatever was stored and reviewed since.
  conflict_kept :
      (t : Option Target) (s s' : Store) (x : MemoryRecord)
      → s'.records ≡ s.records ++ x ∷ []
      → is_conflicting proposer t s ≡ false
      → is_conflicting proposer t s' ≡ false
  unfolding is_conflicting
  conflict_kept none s s' x e c = refl
  conflict_kept (some t) s s' x e c =
      conflict-stored t s' ∙ differs_kept t s s' x e (sym (conflict-stored t s) ∙ c)

  conflict_reviewed :
      (t : Option Target) (s : Store) (vs : List Review)
      → is_conflicting proposer t (reviewed vs s) ≡ is_conflicting proposer t s
  unfolding is_conflicting
  conflict_reviewed none s vs = refl
  conflict_reviewed (some t) s vs =
      conflict-stored t (reviewed vs s) ∙ unfold reviewed stored in sym (conflict-stored t s)

  module _ (s s' : Store) (x : Response) (vs : List Review)
      (h : propose proposer p s ≡ (ok x, s')) where
    unchanged :
        (y : Response)
        → propose proposer p s ≡ (ok y, s)
        → propose proposer p (reviewed vs s) ≡ (ok y, reviewed vs s)
        → propose proposer p (reviewed vs s') ≡ (ok x, reviewed vs s')
    unchanged y e e' = let same = sym e ∙ h in ground (arith, same)

    created_repeat :
        is_conflicting proposer p.target s ≡ false
        → (x ≡ response_of proposer p (native_record id_of fields))
          × (s'.records ≡ s.records ++ native_record id_of fields ∷ [])
          × (stored s' id_of ≡ some (native_record id_of fields))
        → propose proposer p (reviewed vs s') ≡ (ok x, reviewed vs s')
    unfolding answer_of reviewed response_of
    created_repeat c made =
        let kept = conflict_kept p.target s s' (native_record id_of fields) made.1 c in
        let found =
          propose-found (reviewed vs s') (native_record id_of fields)
            (conflict_reviewed p.target s' vs ∙ kept) (unfold reviewed stored in made.2) in
        found ∙ rw (made.0, answer_of, answers-native_record) refl

    -- A proposal that was answered, repeated after any reviews, gets the same answer and changes
    -- nothing.
    pub propose-repeat : propose proposer p (reviewed vs s') ≡ (ok x, reviewed vs s')
    propose-repeat = elim (Bool-cases (is_conflicting proposer p.target s)) [
      | inl c ↦
          unchanged _ (propose-conflicting s c)
            (propose-conflicting (reviewed vs s) (conflict_reviewed p.target s vs ∙ c))
      | inr c ↦ elim (Option-cases (stored s id_of)) [
        | inr (r, e) ↦ unchanged _ (propose-found s r c e) (
            propose-found (reviewed vs s) r (conflict_reviewed p.target s vs ∙ c)
              (unfold reviewed stored in e))
        | inl e ↦ created_repeat c (propose-created s s' x c e h)
      ]
    ]
