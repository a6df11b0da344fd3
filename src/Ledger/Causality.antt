-- ===== src/Ledger/Causality.antt =====
-- The causal order of the ledger: the parents of an event stand before it.
use oscillink_agent.Base.{
  append-nil, append_assoc, ◌≡◌, ◌∙◌, sym, refl, String, Bool, true, List, [], ◌∷◌, ◌++◌, arith,
  All, All-map, exists_row, ok, ◌==◌, string_eq, transaction-ok, Bool-cases, inl, inr,
}
use oscillink_agent.Domain.Events.{Event}
use oscillink_agent.Ledger.{Codec, Row, row_of, append_each, append_many}
use oscillink_agent.Ledger.Append.{append_one-Appended, has_event}
use oscillink_agent.Ledger.Refinement.{
  Entry, has_key, record_entry, record_all, rows_of, append_each-parts, append_each-refines,
  insert_row-refines,
}

-- An event of the id is among the entries.
abbrev knows : List Entry → String → Bool
knows l id = exists_row (λ x. x.0.id == id) l

-- The parents of each event are among the entries before it.
abbrev pub IsCausal : List Entry → List Entry → Type 0
IsCausal seen [] = Unit
IsCausal seen (x ∷ l) =
    All (λ p. knows seen p ≡ true) x.0.causal_parent_ids × IsCausal (seen ++ x ∷ []) l

-- One more entry whose parents are known.
IsCausal-append :
    (seen l : List Entry) (x : Entry)
    → IsCausal seen l
    → All (λ p. knows (seen ++ l) p ≡ true) x.0.causal_parent_ids
    → IsCausal seen (l ++ x ∷ [])
IsCausal-append seen [] x h known = (rw (sym (append-nil seen)) known, tt)
IsCausal-append seen (y ∷ l) x h known =
    (h.0, IsCausal-append (seen ++ y ∷ []) l x h.1 (rw (append_assoc seen (y ∷ []) l) known))

module _ (codec : Codec) where
  has_event-rows_of : (l : List Entry) (id : String) → has_event (rows_of codec l) id ≡ knows l id
  unfolding exists_row row_of
  has_event-rows_of [] id = refl
  has_event-rows_of (x ∷ l) id = ground (arith, has_event-rows_of l id)

  record_entry-IsCausal :
      (e : Event) (key : String) (l : List Entry)
      → IsCausal [] l
      → All (λ p. knows l p ≡ true) e.causal_parent_ids
      → IsCausal [] (record_entry (e, key) l)
  unfolding record_entry
  record_entry-IsCausal e key l h known = elim (Bool-cases (has_key key l)) [
    | inl old ↦ rw old h
    | inr new ↦ rw new (IsCausal-append [] l (e, key) h known)
  ]

  append_each-IsCausal :
      (xs l : List Entry) (rows' : List Row) (ids : List String)
      → IsCausal [] l
      → append_each codec xs (rows_of codec l) ≡ (ok ids, rows')
      → IsCausal [] (record_all xs l)
  unfolding record_all
  append_each-IsCausal [] l rows' ids causal h = causal
  append_each-IsCausal ((e, key) ∷ xs) l rows' ids causal h =
      let (id, mid, rest, first, second, parts) =
        append_each-parts codec e key xs (rows_of codec l) rows' ids h in
      let a = append_one-Appended codec e key (rows_of codec l) mid id first in
      let one = insert_row-refines codec e key l mid id a.inserted in
      let known : All (λ p. knows l p ≡ true) e.causal_parent_ids =
        All-map (λ p. has_event (rows_of codec l) p ≡ true) (λ p. knows l p ≡ true)
          e.causal_parent_ids (λ p k. sym (has_event-rows_of l p) ∙ k) a.parents in
      append_each-IsCausal xs (record_entry (e, key) l) rows' rest
        (record_entry-IsCausal e key l causal known) (rw (sym one.0) second)

  -- A batch that returned leaves a ledger in causal order in causal order: its rows file the entries
  -- recorded, in their order, and the parents of every event are events that stand before it, events
  -- of the same batch included.
  pub append_many-IsCausal :
      (xs l : List Entry) (rows' : List Row) (ids : List String)
      → IsCausal [] l
      → append_many codec xs (rows_of codec l) ≡ (ok ids, rows')
      → (rows' ≡ rows_of codec (record_all xs l)) × IsCausal [] (record_all xs l)
  unfolding append_many
  append_many-IsCausal xs l rows' ids causal h =
      let each = transaction-ok (append_each codec xs) (rows_of codec l) ids h in
      (
        (append_each-refines codec xs l rows' ids each).0,
        append_each-IsCausal xs l rows' ids causal each,
      )
