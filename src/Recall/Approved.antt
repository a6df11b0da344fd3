-- ===== src/Recall/Approved.antt =====
-- What recall may return (integrations/mcp/server.py).
use oscillink_agent.Base.{
  ℕ, ◌≡◌, ◌≢◌, ◌⊎◌, inl, inr, refl, true, none, some, List, [], ◌∷◌, arith, All, All-append,
  All-map, Occurs, map, ok, err, Result, Option-cases,
}
use oscillink_agent.Memory.Types.{approved, MemoryRecord}
use oscillink_agent.Retrieval.{Evidence, Retrieval, is_eligible, rank_memory_records}
use oscillink_agent.Retrieval.Ranking.{rank_sound}
use oscillink_agent.Context.{Manifest, token_count}
use oscillink_agent.Context.Compiler.{
  Chosen, Selection, nothing_selected, choose, choose_all, CompileRequest, ContextError,
  compile_context,
}
use oscillink_agent.Context.Pipeline.{rank-Shows, All-both}
use oscillink_agent.Recall.{
  Runtime, RecallRequest, RecalledMemory, available, recalled_memory, request_time, compile_request,
  respond, compile_recall, recall,
}

module _ (P : MemoryRecord → Type 0) (budget : ℕ) where
  abbrev IsOf : Chosen → Type 0
  IsOf c = P c.evidence.memory

  choose-keeps :
      (e : Evidence) (a : Selection)
      → P e.memory
      → All IsOf a.selected
      → All IsOf (choose budget e a).selected
  unfolding choose
  choose-keeps e a p h = ground (
    arith,
    All-append IsOf a.selected (record { evidence = e; tokens = token_count e.memory.content } ∷ [])
        h,
  )

  choose_all-keeps :
      (es : List Evidence) (a : Selection)
      → All (λ e. P e.memory) es
      → All IsOf a.selected
      → All IsOf (choose_all budget es a).selected
  unfolding choose_all
  choose_all-keeps [] a p h = h
  choose_all-keeps (e ∷ es) a p h =
      choose_all-keeps es (choose budget e a) p.1 (choose-keeps e a p.0 h)

All-mapped :
    {A B : Type 0} (f : A → B) (Q : B → Type 0) (xs : List A)
    → All (λ x. Q (f x)) xs
    → All Q (map f xs)
All-mapped f Q [] h = tt
All-mapped f Q (x ∷ xs) h = (h.0, All-mapped f Q xs h.1)

All-Occurs : {A : Type 0} (xs : List A) → All (λ x. Occurs x xs) xs
All-Occurs [] = tt
All-Occurs (x ∷ xs) = (inl refl, All-map _ _ xs (λ y o. inr o) (All-Occurs xs))

-- The text of an approved record of the repository, whose source is not missing.
abbrev pub IsApprovedText : List MemoryRecord → RecalledMemory → Type 0
IsApprovedText records x =
    (r : MemoryRecord) × Occurs r records
    × (r.authority_state ≡ approved)
    × (r.source_status ≢ some "missing")
    × (x.record_id ≡ r.id)
    × (x.content_hash ≡ r.content_hash)
    × (x.title ≡ r.title)
    × (x.content ≡ r.content)
    × (x.source_refs ≡ r.id ∷ [])

compile_context-selected :
    (retrieval : Retrieval) (q : CompileRequest) (m : Manifest) (rs : List MemoryRecord)
    → compile_context retrieval q ≡ ok (m, rs)
    → rs
      ≡ map
          (λ c. c.evidence.memory)
          (choose_all q.token_budget retrieval.ranked nothing_selected).selected
unfolding compile_context
compile_context-selected retrieval q m rs h = ground arith

result-cases : {E A : Type 0} (r : Result E A) → ((a : A) × (r ≡ ok a)) ⊎ ((e : E) × (r ≡ err e))
result-cases (ok a) = inl (a, refl)
result-cases (err e) = inr (e, refl)

module _ (runtime : Runtime) (records : List MemoryRecord) (q : RecallRequest) where
  abbrev IsSource : MemoryRecord → Type 0
  IsSource r = Occurs r records × (is_eligible r ≡ true)

  ranked-IsSource :
      All (λ e. IsSource e.memory) (rank_memory_records runtime.casefold records q.query).ranked
  ranked-IsSource =
      let result = rank_memory_records runtime.casefold records q.query in
      let here =
        (rank-Shows runtime.casefold (λ r. Occurs r records) records q.query
          (All-Occurs records)).0 in
      let sound = (rank_sound runtime.casefold records q.query).0 in
      All-map _ _ result.ranked (λ e h. (h.0, h.1.0)) (All-both _ _ result.ranked here sound)

  selected-IsSource :
      (at : ℕ) (m : Manifest) (rs : List MemoryRecord)
      → compile_context
          (rank_memory_records runtime.casefold records q.query)
          (compile_request runtime q at)
        ≡ ok (m, rs)
      → All IsSource rs
  selected-IsSource at m rs h =
      let result = rank_memory_records runtime.casefold records q.query in
      let budget = (compile_request runtime q at).token_budget in
      rw (compile_context-selected result (compile_request runtime q at) m rs h) (
        All-mapped (λ c. c.evidence.memory) IsSource
          (choose_all budget result.ranked nothing_selected).selected
          (choose_all-keeps IsSource budget result.ranked nothing_selected ranked-IsSource tt))

  respond-texts :
      (m m' : Manifest) (rs : List MemoryRecord) (xs : List RecalledMemory)
      → respond runtime m rs ≡ ok (available m' xs)
      → xs ≡ map recalled_memory rs
  unfolding respond
  respond-texts m m' rs xs h = ground arith

  approved_of : (r : MemoryRecord) → is_eligible r ≡ true → r.authority_state ≡ approved
  unfolding is_eligible
  approved_of r h = ground arith

  present_of : (r : MemoryRecord) → is_eligible r ≡ true → r.source_status ≢ some "missing"
  unfolding is_eligible
  present_of r h = ground arith

  text-IsApprovedText : (r : MemoryRecord) → IsSource r → IsApprovedText records (recalled_memory r)
  unfolding recalled_memory
  text-IsApprovedText r s =
      (r, s.0, approved_of r s.1, present_of r s.1, refl, refl, refl, refl, refl)

  texts-IsApprovedText :
      (rs : List MemoryRecord)
      → All IsSource rs
      → All (IsApprovedText records) (map recalled_memory rs)
  texts-IsApprovedText rs h =
      All-mapped recalled_memory (IsApprovedText records) rs (All-map _ _ rs text-IsApprovedText h)

  compile_recall-ok :
      (at : ℕ) (c : Manifest) (rs : List MemoryRecord) (m : Manifest) (xs : List RecalledMemory)
      → compile_context
          (rank_memory_records runtime.casefold records q.query)
          (compile_request runtime q at)
        ≡ ok (c, rs)
      → compile_recall runtime records q at ≡ ok (available m xs)
      → respond runtime c rs ≡ ok (available m xs)
  unfolding compile_recall
  compile_recall-ok at c rs m xs e h = ground arith

  compile_recall-err :
      (at : ℕ) (m : Manifest) (xs : List RecalledMemory) (x : ContextError)
      → compile_context
          (rank_memory_records runtime.casefold records q.query)
          (compile_request runtime q at)
        ≡ err x
      → compile_recall runtime records q at ≢ ok (available m xs)
  unfolding compile_recall
  compile_recall-err at m xs x e h = ground arith

  compile_recall-IsApprovedText :
      (at : ℕ) (m : Manifest) (xs : List RecalledMemory)
      → compile_recall runtime records q at ≡ ok (available m xs)
      → All (IsApprovedText records) xs
  compile_recall-IsApprovedText at m xs h =
      elim (result-cases (
        compile_context (rank_memory_records runtime.casefold records q.query)
          (compile_request runtime q at))) [
            | inl (r, e) ↦
                let texts = respond-texts r.0 m r.1 xs (compile_recall-ok at r.0 r.1 m xs e h) in
                rw texts (texts-IsApprovedText r.1 (selected-IsSource at r.0 r.1 e))
            | inr (x, e) ↦ absurd (compile_recall-err at m xs x e h)
          ]

  untimed_recall :
      (m : Manifest) (xs : List RecalledMemory)
      → request_time runtime q.request_id ≡ none
      → recall runtime records q ≢ ok (available m xs)
  unfolding recall
  untimed_recall m xs e h = ground arith

  timed_recall :
      (at : ℕ) (m : Manifest) (xs : List RecalledMemory)
      → request_time runtime q.request_id ≡ some at
      → recall runtime records q ≡ ok (available m xs)
      → compile_recall runtime records q at ≡ ok (available m xs)
  unfolding recall
  timed_recall at m xs e h = ground arith

  -- Everything that recall returns has the identity, the hash, the title and the exact text of an
  -- approved record of the repository whose source is not missing, and cites that record only.
  pub recall-IsApprovedText :
      (m : Manifest) (xs : List RecalledMemory)
      → recall runtime records q ≡ ok (available m xs)
      → All (IsApprovedText records) xs
  recall-IsApprovedText m xs h = elim (Option-cases (request_time runtime q.request_id)) [
    | inl e ↦ absurd (untimed_recall m xs e h)
    | inr (at, e) ↦ compile_recall-IsApprovedText at m xs (timed_recall at m xs e h)
  ]
