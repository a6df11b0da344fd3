-- ===== src/Ledger/Append.antt =====
-- What an append does to the ledger: nothing, or one more row; and a batch is atomic.
use oscillink_agent.Base.{
  ◌≡◌, ◌⊎◌, refl, String, Bool, true, false, List, [], ◌∷◌, ◌++◌, arith, All, exists_row, ok, ◌==◌,
  string_eq,
}
use oscillink_agent.Domain.Identifiers.{is_idempotency_key}
use oscillink_agent.Domain.Events.{Event}
use oscillink_agent.Ledger.{
  Codec, Row, check_parents, is_resolved, check_artifacts, row_of, conflicts, on_conflict,
  insert_row, append_one,
}

abbrev pub has_event : List Row → String → Bool
has_event rows id = exists_row (λ r. r.event_id == id) rows

-- The checks of the parents read the ledger and do not change it.
pub check_parents-state : (ps : List String) (rows : List Row) → (check_parents ps rows).1 ≡ rows
unfolding check_parents
check_parents-state [] rows = refl
check_parents-state (p ∷ ps) rows = ground (arith, check_parents-state ps rows)

pub check_parents-ok :
    (ps : List String) (rows : List Row)
    → (check_parents ps rows).0 ≡ ok tt
    → All (λ p. has_event rows p ≡ true) ps
unfolding check_parents
check_parents-ok [] rows h = tt
check_parents-ok (p ∷ ps) rows h = ground (arith, check_parents-ok ps rows)

pub parents-check :
    (ps : List String) (rows : List Row)
    → All (λ p. has_event rows p ≡ true) ps
    → check_parents ps rows ≡ (ok tt, rows)
unfolding check_parents
parents-check [] rows h = refl
parents-check (p ∷ ps) rows h = ground (arith, parents-check ps rows h.1)

module _ (codec : Codec) where
  pub check_artifacts-state :
      (refs : List String) (rows : List Row) → (check_artifacts codec refs rows).1 ≡ rows
  unfolding check_artifacts
  check_artifacts-state [] rows = refl
  check_artifacts-state (a ∷ refs) rows = ground (arith, check_artifacts-state refs rows)

  pub check_artifacts-ok :
      (refs : List String) (rows : List Row)
      → (check_artifacts codec refs rows).0 ≡ ok tt
      → All (λ a. is_resolved codec a ≡ true) refs
  unfolding check_artifacts
  check_artifacts-ok [] rows h = tt
  check_artifacts-ok (a ∷ refs) rows h = ground (arith, check_artifacts-ok refs rows)

  pub artifacts-check :
      (refs : List String) (rows : List Row)
      → All (λ a. is_resolved codec a ≡ true) refs
      → check_artifacts codec refs rows ≡ (ok tt, rows)
  unfolding check_artifacts
  artifacts-check [] rows h = refl
  artifacts-check (a ∷ refs) rows h = ground (arith, artifacts-check refs rows h.1)

  -- An append that returned: what was checked, and what became of the ledger.
  pub record Appended (e : Event) (key : String) (rows rows' : List Row) (id : String)
      : Type 0 where
    pub keyed : is_idempotency_key key ≡ true
    pub parents : All (λ p. has_event rows p ≡ true) e.causal_parent_ids
    pub artifacts : All (λ a. is_resolved codec a ≡ true) e.artifact_refs
    pub inserted : insert_row codec e key rows ≡ (ok id, rows')

  pub append_one-Appended :
      (e : Event) (key : String) (rows rows' : List Row) (id : String)
      → append_one codec e key rows ≡ (ok id, rows')
      → Appended e key rows rows' id
  unfolding append_one
  append_one-Appended e key rows rows' id h = record {
    keyed = ground arith;
    parents =
        check_parents-ok e.causal_parent_ids rows
          (ground (arith, check_parents-state e.causal_parent_ids rows));
    artifacts = check_artifacts-ok e.artifact_refs rows (
        ground (
          arith,
          check_parents-state e.causal_parent_ids rows,
          check_artifacts-state e.artifact_refs rows,
        ));
    inserted = ground (
      arith,
      check_parents-state e.causal_parent_ids rows,
      check_artifacts-state e.artifact_refs rows,
    );
  }

  -- The insertion either finds the event under its key, or appends a row without conflict.
  pub insert_row-cases :
      (e : Event) (key : String) (rows rows' : List Row) (id : String)
      → insert_row codec e key rows ≡ (ok id, rows')
      → (id ≡ e.id)
        × ((rows' ≡ rows)
            ⊎ ((exists_row (conflicts codec (row_of codec e key)) rows ≡ false)
                × (rows' ≡ rows ++ row_of codec e key ∷ [])))
  unfolding insert_row on_conflict
  insert_row-cases e key rows rows' id h = ground arith
