-- ===== src/Memory/Governance/Runs.antt =====
-- Sequences of calls: the log of reviews only grows, and a final decision stays.
use oscillink_agent.Base.{
  String, ◌≡◌, ◌∙◌, inl, inr, true, some, List, [], ◌∷◌, ◌++◌, arith, outcome-cases,
  select_latest-append, string_eq, if◌then◌else◌, Bool-cases,
}
use oscillink_agent.Memory.Types.{MemoryRecord}
use oscillink_agent.Memory.Store.{Store, Review, latest_review, reviews_revision}
use oscillink_agent.Memory.Store.Views.{get-Shown, state_of_latest_review}
use oscillink_agent.Memory.Write.Keeps.{Keeps, Keeps-create_native}
use oscillink_agent.Memory.Review.{Decision, is_allowed, review, review_row}
use oscillink_agent.Memory.Review.Transitions.{Decided, review_changes, review-err}
use oscillink_agent.Memory.Governance.{
  IsOpen, Operation, create, decide, sync, perform, run, is_final,
}
use oscillink_agent.Memory.Governance.Writes.{sync_obsidian-Keeps, native_record-IsOpen}

-- No transition out of a final state is allowed.
final_not_allowed :
    (s : Store) (current : MemoryRecord) (d : Decision)
    → is_final current.authority_state ≡ true
    → is_allowed s current d ≡ true
    → ⊥
unfolding is_final is_allowed
final_not_allowed s current d f h = ground arith

latest_review-append :
    (s : Store) (v : Review) (id hash : String)
    → latest_review (record s { reviews = s.reviews ++ v ∷ [] }) id hash
      ≡ (if reviews_revision id hash v then some v else latest_review s id hash)
unfolding latest_review
latest_review-append s v id hash = select_latest-append (reviews_revision id hash) s.reviews v

module _ (id hash : String) (v : Review) where
  -- An allowed transition is about another revision than one that is closed.
  Decided-latest :
      (s s' : Store) (d : Decision) (current : MemoryRecord)
      → Decided s d current s'
      → latest_review s id hash ≡ some v
      → is_final v.decision ≡ true
      → latest_review s' id hash ≡ some v
  unfolding review_row
  Decided-latest s s' d current h e f =
      elim (Bool-cases (reviews_revision id hash (review_row current d))) [
        | inl same ↦
            let w = get-Shown s d.record_id current h.found in
            let named : d.record_id ≡ id = ground arith in
            let hashed : current.content_hash ≡ hash = ground arith in
            absurd (
              final_not_allowed s current d
                (rw (state_of_latest_review s d.record_id current v w (rw (named, hashed) e)) f)
                h.allowed)
        | inr other ↦
            rw h.logged (latest_review-append s (review_row current d) id hash ∙ rw other e)
      ]

  Keeps-latest :
      (s s' : Store)
      → Keeps IsOpen s s'
      → latest_review s id hash ≡ some v
      → latest_review s' id hash ≡ some v
  unfolding latest_review
  Keeps-latest s s' k e = rw k.reviews e

  review-latest :
      (s : Store) (d : Decision)
      → latest_review s id hash ≡ some v
      → is_final v.decision ≡ true
      → latest_review (review d s).1 id hash ≡ some v
  review-latest s d e f = elim (outcome-cases (review d s)) [
    | inl (r, h) ↦ elim (review_changes s (review d s).1 d r h) [
      | inl same ↦ rw same e
      | inr (current, decided) ↦ Decided-latest s (review d s).1 d current decided e f
    ]
    | inr (x, h) ↦ rw (review-err s (review d s).1 d x h) e
  ]

  perform-latest :
      (op : Operation) (s : Store)
      → latest_review s id hash ≡ some v
      → is_final v.decision ≡ true
      → latest_review (perform op s) id hash ≡ some v
  unfolding perform
  perform-latest (create bytes n) s e f =
      Keeps-latest s _ (Keeps-create_native IsOpen bytes n s (native_record-IsOpen n)) e
  perform-latest (decide d) s e f = review-latest s d e f
  perform-latest (sync draw q) s e f = Keeps-latest s _ (sync_obsidian-Keeps draw q s) e

  -- Once the latest review of a revision rejects or supersedes it, that stays its latest review
  -- whatever calls of the repository follow, synchronizations included.
  pub run_final :
      (ops : List Operation) (s : Store)
      → latest_review s id hash ≡ some v
      → is_final v.decision ≡ true
      → latest_review (run ops s) id hash ≡ some v
  unfolding run
  run_final [] s e f = e
  run_final (op ∷ ops) s e f = run_final ops (perform op s) (perform-latest op s e f) f
