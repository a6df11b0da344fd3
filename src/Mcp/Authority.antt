-- ===== src/Mcp/Authority.antt =====
-- What the MCP server cannot do: no session changes which memory is approved.
use oscillink_agent.Base.{
  String, ◌≡◌, ◌⊎◌, inl, inr, ◌∙◌, ap, refl, Bool, true, false, Option, none, some, List, [], ◌∷◌,
  ◌++◌, map, arith, All, All-map, Result, ok, err, select, select_latest, exists_row-append_left,
  ◌==◌, string_eq, if◌then◌else◌,
}
use oscillink_agent.Memory.Types.{MemoryRecord, state_eq}
use oscillink_agent.Memory.Store.{
  Store, Review, MemoryError, list, with_review_state, reviews_revision, stored,
}
use oscillink_agent.Memory.Write.{
  Native, native_record, insert_explicit_record, create_as, create_native,
}
use oscillink_agent.Memory.Write.Tables.{has_id}
use oscillink_agent.Memory.Write.Keeps.{
  added, has_id-stored, insert_explicit-cases, explicit_id-cases,
}
use oscillink_agent.Retrieval.{is_eligible, retrieve_approved_memory}
use oscillink_agent.Recall.{Runtime}
use oscillink_agent.Mcp.{Tool, Response}
use oscillink_agent.Mcp.Propose.{
  Proposal, Proposer, native_of, proposed_id, answer_or_create, answer_created, propose,
}
use oscillink_agent.Mcp.Server.{
  Workspace, ToolError, ReadRequest, Decoder, opened, closed, answered, parse_tool, valid_read,
  read_tool, propose_tool, execute_read, execute_named, execute_write, execute_read_only_tool,
  execute_project_memory_tool, on_call_tool, run_calls,
}

-- Every review is of a record that is stored.
abbrev pub IsAnchored : Store → Type 0
IsAnchored s = All (λ v. has_id v.record_id s.records ≡ true) s.reviews

no_review :
    (id hash : String) (rs : List MemoryRecord) (vs : List Review)
    → has_id id rs ≡ false
    → All (λ v. has_id v.record_id rs ≡ true) vs
    → select_latest (reviews_revision id hash) vs ≡ none
unfolding select_latest
no_review id hash rs [] e h = refl
no_review id hash rs (v ∷ vs) e h = ground (arith, no_review id hash rs vs e h.1)

map-append : {A B : Type 0} (f : A → B) (xs ys : List A) → map f (xs ++ ys) ≡ map f xs ++ map f ys
map-append f [] ys = refl
map-append f (x ∷ xs) ys = ap (λ r. f x ∷ r) (map-append f xs ys)

select-append_left :
    {A : Type 0} (p : A → Bool) (xs : List A) (x : A)
    → p x ≡ false
    → select p (xs ++ x ∷ []) ≡ select p xs
unfolding select
select-append_left p [] x e = ground arith
select-append_left p (y ∷ ys) x e = ground (arith, select-append_left p ys x e)

-- What a call keeps: the log of reviews, the approved memory, and that every review is anchored.
pub record Harmless (s s' : Store) : Type 0 where
  pub reviews : s'.reviews ≡ s.reviews
  pub approved : retrieve_approved_memory s' ≡ retrieve_approved_memory s
  pub anchored : IsAnchored s'

Harmless-refl : (s : Store) → IsAnchored s → Harmless s s
Harmless-refl s h = record { reviews = refl; approved = refl; anchored = h }

Harmless-trans : (s t u : Store) → Harmless s t → Harmless t u → Harmless s u
Harmless-trans s t u h k = record {
  reviews = k.reviews ∙ h.reviews;
  approved = k.approved ∙ h.approved;
  anchored = k.anchored;
}

module _ (id : String) (n : Native) (s : Store) (h : IsAnchored s) (new : stored s id ≡ none) where
  unreviewed : with_review_state s (native_record id n) ≡ native_record id n
  unfolding with_review_state native_record stored
  unreviewed =
      ground
        (arith, no_review id n.content_hash s.records s.reviews (has_id-stored id s.records new) h)

  not_shown : is_eligible (with_review_state s (native_record id n)) ≡ false
  unfolding oscillink_agent.Memory.Types.state_discrete
  not_shown = rw unreviewed (unfold is_eligible native_record in refl)

  Harmless-added : Harmless s (added (native_record id n) s)
  unfolding added retrieve_approved_memory list with_review_state
  Harmless-added = record {
    reviews = refl;
    approved =
        ap (select is_eligible)
          (map-append (with_review_state s) s.records (native_record id n ∷ []))
        ∙ select-append_left is_eligible (map (with_review_state s) s.records)
            (with_review_state s (native_record id n)) not_shown;
    anchored =
        All-map _ _ s.reviews
          (λ v.
            exists_row-append_left (λ r. r.id == v.record_id) s.records (native_record id n ∷ []))
          h;
  }

module _ (s : Store) (h : IsAnchored s) where
  Harmless-insert :
      (id : String) (n : Native) → Harmless s (insert_explicit_record (native_record id n) s).1
  Harmless-insert id n = elim (insert_explicit-cases (native_record id n) s) [
    | inl e ↦ rw e (Harmless-refl s h)
    | inr (new, e) ↦ rw e (Harmless-added id n s h (unfold native_record in new))
  ]

  Harmless-create_as : (id : String) (n : Native) → Harmless s (create_as 0 n (some id) s).1
  Harmless-create_as id n = elim (explicit_id-cases 0 n s id) [
    | inl e ↦ rw e (Harmless-refl s h)
    | inr e ↦ rw e (Harmless-insert id n)
  ]

  module _ (proposer : Proposer) (p : Proposal) where
    answer_created-store :
        (x : Result MemoryError MemoryRecord × Store) → (answer_created proposer p x).1 ≡ x.1
    unfolding answer_created
    answer_created-store (ok r, s') = refl
    answer_created-store (err e, s') = ground arith

    propose-cases :
        ((propose proposer p s).1 ≡ s)
        ⊎ ((propose proposer p s).1
            ≡ (create_as 0 (native_of proposer p) (some (proposed_id proposer p)) s).1)
    unfolding propose answer_or_create create_native native_of
    propose-cases = ground (
      arith,
      answer_created-store (create_as 0 (native_of proposer p) (some (proposed_id proposer p)) s),
    )

    Harmless-propose : Harmless s (propose proposer p s).1
    Harmless-propose = elim propose-cases [
      | inl e ↦ rw e (Harmless-refl s h)
      | inr e ↦ rw e (Harmless-create_as (proposed_id proposer p) (native_of proposer p))
    ]

module _ {Arguments : Type 0} (decoder : Decoder Arguments) (runtime : Runtime)
    (proposer : Proposer) where
  module _ (a : Arguments) (w : Workspace) (h : IsAnchored (opened w)) where
    closed-store : (x : Result MemoryError Response × Store) → (closed x).1 ≡ some x.1
    closed-store (ok r, s) = refl
    closed-store (err e, s) = refl

    Harmless-write :
        (t : Tool) (p : Option Proposal)
        → Harmless (opened w) (opened (execute_write decoder runtime proposer t p w).1)
    unfolding execute_write propose_tool
    Harmless-write t none = Harmless-refl (opened w) h
    Harmless-write t (some p) =
        rw (closed-store (propose proposer p (opened w))) (Harmless-propose (opened w) h proposer p)

    read_tool-store : (q : ReadRequest) (v : Workspace) → (read_tool runtime q v).1 ≡ v
    unfolding read_tool
    read_tool-store q none = refl
    read_tool-store q (some s) = ground arith

    read-store : (t : Tool) (q : Option ReadRequest) → (execute_read decoder runtime t q w).1 ≡ w
    unfolding execute_read
    read-store t none = refl
    read-store t (some q) = read_tool-store q w

    named-store : (t : Option Tool) → (execute_named decoder runtime t a w).1 ≡ w
    unfolding execute_named
    named-store none = refl
    named-store (some t) = read-store t (valid_read decoder t a)

    Harmless-read :
        (name : String)
        → Harmless (opened w) (opened (execute_read_only_tool decoder runtime name a w).1)
    unfolding execute_read_only_tool
    Harmless-read name = rw (named-store (parse_tool name)) (Harmless-refl (opened w) h)

    answered-store :
        (name : String) (x : Result ToolError Response × Workspace)
        → (answered decoder runtime proposer name x).1 ≡ x.1
    answered-store name (ok r, v) = refl
    answered-store name (err e, v) = refl

    Harmless-if :
        (b : Bool) (x y : Result ToolError Response × Workspace)
        → Harmless (opened w) (opened x.1)
        → Harmless (opened w) (opened y.1)
        → Harmless (opened w) (opened (if b then x else y).1)
    Harmless-if true x y hx hy = hx
    Harmless-if false x y hx hy = hy

    Harmless-tool :
        (name : String)
        → Harmless
            (opened w)
            (opened (execute_project_memory_tool decoder runtime proposer name a w).1)
    unfolding execute_project_memory_tool
    Harmless-tool name =
        Harmless-if (name == "remember") _ _ (Harmless-write Tool.remember _)
          (Harmless-if (name == "correct") _ _ (Harmless-write Tool.correct _) (Harmless-read name))

    call-Harmless :
        (writes : Bool) (name : String)
        → Harmless (opened w) (opened (on_call_tool decoder runtime proposer writes name a w).1)
    unfolding on_call_tool
    call-Harmless true name =
        rw (answered-store name (execute_project_memory_tool decoder runtime proposer name a w))
          (Harmless-tool name)
    call-Harmless false name =
        rw (answered-store name (execute_read_only_tool decoder runtime name a w))
          (Harmless-read name)

  -- No session of the server, with any tools, names, arguments and errors, changes the log of reviews
  -- or what `retrieve_approved_memory` returns, where every review is of a stored record, which stays
  -- so; the server has no path to authority.
  pub run_calls-Harmless :
      (writes : Bool) (calls : List (String × Arguments)) (w : Workspace)
      → IsAnchored (opened w)
      → Harmless (opened w) (opened (run_calls decoder runtime proposer writes calls w))
  unfolding run_calls
  run_calls-Harmless writes [] w h = Harmless-refl (opened w) h
  run_calls-Harmless writes (c ∷ cs) w h =
      let once = call-Harmless c.1 w h writes c.0 in
      let next = (on_call_tool decoder runtime proposer writes c.0 c.1 w).1 in
      Harmless-trans (opened w) (opened next) _ once
        (run_calls-Harmless writes cs next once.anchored)
