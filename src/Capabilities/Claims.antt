-- ===== src/Capabilities/Claims.antt =====
-- What `_claim_grant` requires and does (capabilities/broker.py).
use mathlib.Core.Path.{ap₂}
use oscillink_agent.Base.{
  ℕ, ◌+◌, ◌*◌, ◌≤◌, ◌<◌, ◌≡◌, ◌≢◌, ◌⊎◌, ◌↔◌, inl, inr, refl, String, true, false, none, some, List,
  [], ◌∷◌, map, holds, Occurs, arith, ◌&&◌, if◌then◌else◌, option_eq, nat_eq, select_one, ok, err,
  ◌==◌, string_eq, Option-cases, transaction-err,
}
use oscillink_agent.Capabilities.{
  Grant, GrantRow, Denial, Broker, is_extension_allowed, check_grant, consume, claim_locked,
  claim_grant,
}

-- Of two tables, the second has the unused rows of an id marked as used at a time, and every other
-- row as it was.
abbrev pub IsConsumed : String → ℕ → List GrantRow → List GrantRow → Type 0
IsConsumed id now [] [] = Unit
IsConsumed id now [] (r' ∷ rs') = ⊥
IsConsumed id now (r ∷ rs) [] = ⊥
IsConsumed id now (r ∷ rs) (r' ∷ rs') =
    (((r.id ≡ id) × (r.consumed_at ≡ none) × (r' ≡ record r { consumed_at = some now }))
      ⊎ (((r.id ≢ id) ⊎ (r.consumed_at ≢ none)) × (r' ≡ r)))
    × IsConsumed id now rs rs'

module _ (broker : Broker) where
  -- What holds of a claim that succeeded.
  pub record Claimed (id subject : String) (now : ℕ) (g : Grant) (rows rows' : List GrantRow)
      : Type 0 where
    pub row : GrantRow
    pub found : select_one (λ r. r.id == id) rows ≡ some row
    pub decoded : broker.decode row.document_json ≡ some g
    pub unused : row.consumed_at ≡ none
    pub subject_matches : g.subject_actor_id ≡ subject
    pub issued : g.issued_at ≤ now
    pub unexpired : now < g.issued_at + g.valid_for_seconds * 1000000
    pub reads_file : g.capability ≡ "file.read"
    pub single : g.max_uses ≡ 1
    pub offline : g.network_allowed ≡ false
    pub scoped : broker.has_scope g.scope_id ≡ true
    pub extension :
        Occurs (broker.casefold (broker.suffix g.target)) (map broker.casefold g.allowed_extensions)
    pub consumed : IsConsumed g.id now rows rows'

  consume_cases :
      (id : String) (now : ℕ) (r r' : GrantRow)
      → r'
        ≡ (if r.id == id && r.consumed_at == none then record r { consumed_at = some now } else r)
      → ((r.id ≡ id) × (r.consumed_at ≡ none) × (r' ≡ record r { consumed_at = some now }))
        ⊎ (((r.id ≢ id) ⊎ (r.consumed_at ≢ none)) × (r' ≡ r))
  consume_cases id now r r' h = ground arith

  consume-IsConsumed :
      (id : String) (now : ℕ) (rows : List GrantRow)
      → IsConsumed id now rows (consume broker id now rows)
  unfolding consume
  consume-IsConsumed id now [] = tt
  consume-IsConsumed id now (r ∷ rows) =
      (consume_cases id now r _ refl, consume-IsConsumed id now rows)

  consumed_row :
      (id : String) (now : ℕ) (r r' : GrantRow)
      → ((r.id ≡ id) × (r.consumed_at ≡ none) × (r' ≡ record r { consumed_at = some now }))
        ⊎ (((r.id ≢ id) ⊎ (r.consumed_at ≢ none)) × (r' ≡ r))
      → r'
        ≡ (if r.id == id && r.consumed_at == none then record r { consumed_at = some now } else r)
  consumed_row id now r r' h = ground arith

  -- The description determines the rows.
  pub IsConsumed-consume :
      (id : String) (now : ℕ) (rows rows' : List GrantRow)
      → IsConsumed id now rows rows'
      → rows' ≡ consume broker id now rows
  unfolding consume
  IsConsumed-consume id now [] [] h = refl
  IsConsumed-consume id now [] (r' ∷ rows') h = absurd h
  IsConsumed-consume id now (r ∷ rows) [] h = absurd h
  IsConsumed-consume id now (r ∷ rows) (r' ∷ rows') h =
      ap₂ (λ x xs. x ∷ xs) (consumed_row id now r r' h.0) (IsConsumed-consume id now rows rows' h.1)

  holds-Occurs : (xs : List String) (x : String) → holds xs x ≡ true → Occurs x xs
  unfolding holds
  holds-Occurs [] x h = absurd (ground arith)
  holds-Occurs (y ∷ ys) x h = ground (arith, holds-Occurs ys x)

  Occurs-holds : (xs : List String) (x : String) → Occurs x xs → holds xs x ≡ true
  unfolding holds
  Occurs-holds [] x h = absurd h
  Occurs-holds (y ∷ ys) x (inl e) = ground arith
  Occurs-holds (y ∷ ys) x (inr o) = ground (arith, Occurs-holds ys x o)

  allowed_of :
      (g : Grant)
      → is_extension_allowed broker g ≡ true
      → holds (map broker.casefold g.allowed_extensions) (broker.casefold (broker.suffix g.target))
        ≡ true
  unfolding is_extension_allowed
  allowed_of g h = h

  claim_grant-found :
      (id subject : String) (now : ℕ) (g : Grant) (rows rows' : List GrantRow)
      → claim_grant broker id subject now rows ≡ (ok g, rows')
      → select_one (λ r. r.id == id) rows ≢ none
  unfolding claim_grant claim_locked
  claim_grant-found id subject now g rows rows' h = ground arith

  claim_grant-Claimed_from :
      (id subject : String) (now : ℕ) (g : Grant) (rows rows' : List GrantRow) (row : GrantRow)
      → select_one (λ r. r.id == id) rows ≡ some row
      → claim_grant broker id subject now rows ≡ (ok g, rows')
      → Claimed id subject now g rows rows'
  unfolding claim_grant claim_locked check_grant
  claim_grant-Claimed_from id subject now g rows rows' row found h = record {
    row = row;
    found = found;
    decoded = ground arith;
    unused = ground arith;
    subject_matches = ground arith;
    issued = ground arith;
    unexpired = ground arith;
    reads_file = ground arith;
    single = ground arith;
    offline = ground arith;
    scoped = ground arith;
    extension =
        holds-Occurs (map broker.casefold g.allowed_extensions)
          (broker.casefold (broker.suffix g.target)) (allowed_of g (ground arith));
    consumed =
        let e : rows' ≡ consume broker g.id now rows = ground arith in
        rw e (consume-IsConsumed g.id now rows);
  }

  pub claim_grant-Claimed :
      (id subject : String) (now : ℕ) (g : Grant) (rows rows' : List GrantRow)
      → claim_grant broker id subject now rows ≡ (ok g, rows')
      → Claimed id subject now g rows rows'
  claim_grant-Claimed id subject now g rows rows' h =
      elim (Option-cases (select_one (λ r. r.id == id) rows)) [
        | inl e ↦ absurd (claim_grant-found id subject now g rows rows' h e)
        | inr (row, e) ↦ claim_grant-Claimed_from id subject now g rows rows' row e h
      ]

  -- The rows that a claim that succeeds leaves.
  pub claim_grant-consume :
      (id subject : String) (now : ℕ) (g : Grant) (rows rows' : List GrantRow)
      → claim_grant broker id subject now rows ≡ (ok g, rows')
      → rows' ≡ consume broker g.id now rows
  claim_grant-consume id subject now g rows rows' h =
      IsConsumed-consume g.id now rows rows'
        (claim_grant-Claimed id subject now g rows rows' h).consumed

  Claimed-claim_grant_from :
      (id subject : String) (now : ℕ) (g : Grant) (rows rows' : List GrantRow)
      → (c : Claimed id subject now g rows rows') → is_extension_allowed broker g ≡ true
      → rows' ≡ consume broker g.id now rows
      → claim_grant broker id subject now rows ≡ (ok g, rows')
  unfolding claim_grant claim_locked check_grant
  Claimed-claim_grant_from id subject now g rows rows' c e k = ground (
    arith, c.found, c.decoded, c.unused, c.subject_matches, c.issued, c.unexpired, c.reads_file,
    c.single, c.offline, c.scoped,
  )

  -- A claim returns a grant exactly when it found the first row of the id unused, the document of
  -- that row decodes to the grant, the subject is the grant's, the time is in its window, and it is
  -- a single use of `file.read` without network in a configured scope on an allowed extension; and
  -- then the unused rows of the grant's id are marked as used at that time, and no other row changes.
  pub claim_grant_iff :
      (id subject : String) (now : ℕ) (g : Grant) (rows rows' : List GrantRow)
      → (claim_grant broker id subject now rows ≡ (ok g, rows'))
        ↔ Claimed id subject now g rows rows'
  unfolding is_extension_allowed
  claim_grant_iff id subject now g rows rows' = (
    claim_grant-Claimed id subject now g rows rows',
    λ c.
        Claimed-claim_grant_from id subject now g rows rows' c
          (Occurs-holds (map broker.casefold g.allowed_extensions) _ c.extension)
          (IsConsumed-consume g.id now rows rows' c.consumed),
  )

  -- A claim that is denied consumes nothing.
  pub claim_grant-err :
      (id subject : String) (now : ℕ) (d : Denial) (rows rows' : List GrantRow)
      → claim_grant broker id subject now rows ≡ (err d, rows')
      → rows' ≡ rows
  unfolding claim_grant
  claim_grant-err id subject now d rows rows' h =
      transaction-err (claim_locked broker id subject now) rows d h
