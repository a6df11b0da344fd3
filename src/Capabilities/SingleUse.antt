-- ===== src/Capabilities/SingleUse.antt =====
-- A grant is used at most once (capabilities/broker.py).
use oscillink_agent.Base.{
  ℕ, ◌≡◌, ◌∙◌, inl, inr, refl, ap, String, none, some, List, [], ◌∷◌, ◌++◌, arith, select_one,
  select_one-Occurs, ok, err, ◌==◌, string_eq, outcome-cases, All, All-at,
}
use oscillink_agent.Ledger.{Codec, Row}
use oscillink_agent.Capabilities.{
  Grant, GrantRow, grant_consumed, Broker, check_grant, consume, claim_locked, claim_grant,
  insert_grant, register_locked, register_grant,
}
use oscillink_agent.Capabilities.Claims.{claim_grant-Claimed, claim_grant-consume, claim_grant-err}

-- A call of the broker.
pub data Operation : Type 0 where
  register : Grant → Operation
  claim : String → String → ℕ → Operation

module _ (broker : Broker) (codec : Codec) (events : List Row) where
  -- The grants after a call, whether it returns or raises.
  unfoldable pub perform : Operation → List GrantRow → List GrantRow
  perform (register g) rows = (register_grant broker codec events g rows).1
  perform (claim id subject now) rows = (claim_grant broker id subject now rows).1

  unfoldable pub run : List Operation → List GrantRow → List GrantRow
  run [] rows = rows
  run (op ∷ ops) rows = run ops (perform op rows)

  -- Documents decode to grants of their row's id.
  abbrev pub IsFiled : GrantRow → Type 0
  IsFiled r = (g : Grant) → broker.decode r.document_json ≡ some g → g.id ≡ r.id

  consume-kept :
      (id other : String) (now at : ℕ) (rows : List GrantRow) (row : GrantRow)
      → select_one (λ r. r.id == id) rows ≡ some row
      → row.consumed_at ≡ some at
      → select_one (λ r. r.id == id) (consume broker other now rows) ≡ some row
  unfolding consume select_one
  consume-kept id other now at [] row h c = cc
  consume-kept id other now at (r ∷ rows) row h c =
      ground (arith, consume-kept id other now at rows row)

  append-kept :
      (id : String) (rows : List GrantRow) (r row : GrantRow)
      → select_one (λ r. r.id == id) rows ≡ some row
      → select_one (λ r. r.id == id) (rows ++ r ∷ []) ≡ some row
  unfolding select_one
  append-kept id [] r row h = cc
  append-kept id (x ∷ rows) r row h = ground (arith, append-kept id rows r row)

  register-kept :
      (id : String) (g : Grant) (rows : List GrantRow) (row : GrantRow)
      → select_one (λ r. r.id == id) rows ≡ some row
      → select_one (λ r. r.id == id) (register_grant broker codec events g rows).1 ≡ some row
  unfolding register_grant register_locked insert_grant
  register-kept id g rows row h = ground (
    arith,
    append-kept id rows (record { id = g.id; document_json = broker.encode g; consumed_at = none })
        row h,
  )

  claim-kept :
      (id other subject : String) (now at : ℕ) (rows : List GrantRow) (row : GrantRow)
      → select_one (λ r. r.id == id) rows ≡ some row
      → row.consumed_at ≡ some at
      → select_one (λ r. r.id == id) (claim_grant broker other subject now rows).1 ≡ some row
  claim-kept id other subject now at rows row h c =
      elim (outcome-cases (claim_grant broker other subject now rows)) [
        | inl (g, e) ↦
            rw (claim_grant-consume broker other subject now g rows _ e)
              (consume-kept id g.id now at rows row h c)
        | inr (d, e) ↦ rw (claim_grant-err broker other subject now d rows _ e) h
      ]

  run-kept :
      (id : String) (at : ℕ) (ops : List Operation) (rows : List GrantRow) (row : GrantRow)
      → select_one (λ r. r.id == id) rows ≡ some row
      → row.consumed_at ≡ some at
      → select_one (λ r. r.id == id) (run ops rows) ≡ some row
  unfolding run perform
  run-kept id at [] rows row h c = h
  run-kept id at (register g ∷ ops) rows row h c =
      run-kept id at ops _ row (register-kept id g rows row h) c
  run-kept id at (claim other subject now ∷ ops) rows row h c =
      run-kept id at ops _ row (claim-kept id other subject now at rows row h c) c

  -- The row of a grant that is consumed.
  consume-marks :
      (id other : String) (now : ℕ) (rows : List GrantRow) (row : GrantRow)
      → other ≡ id
      → select_one (λ r. r.id == id) rows ≡ some row
      → row.consumed_at ≡ none
      → select_one (λ r. r.id == id) (consume broker other now rows)
        ≡ some (record row { consumed_at = some now })
  unfolding consume select_one
  consume-marks id other now [] row e h c = cc
  consume-marks id other now (r ∷ rows) row e h c =
      ground (arith, consume-marks id other now rows row)

  consumed_refused :
      (id subject : String) (now at : ℕ) (rows : List GrantRow) (row : GrantRow) (g : Grant)
      → select_one (λ r. r.id == id) rows ≡ some row
      → row.consumed_at ≡ some at
      → broker.decode row.document_json ≡ some g
      → claim_grant broker id subject now rows ≡ (err grant_consumed, rows)
  unfolding claim_grant claim_locked check_grant
  consumed_refused id subject now at rows row g h c d = ground arith

  -- Once a grant was claimed, in a store whose documents are filed under their ids, every later
  -- claim of it is refused as consumed and changes nothing, whatever registrations and claims come
  -- in between and whoever claims it.
  pub claim_once :
      (id subject other : String) (now later : ℕ) (g : Grant) (rows rows' : List GrantRow)
      (ops : List Operation)
      → All IsFiled rows
      → claim_grant broker id subject now rows ≡ (ok g, rows')
      → claim_grant broker id other later (run ops rows') ≡ (err grant_consumed, run ops rows')
  claim_once id subject other now later g rows rows' ops filed h =
      let c = claim_grant-Claimed broker id subject now g rows rows' h in
      let o = select_one-Occurs (λ r. r.id == id) rows c.row c.found in
      let same : g.id ≡ c.row.id = All-at IsFiled rows c.row filed o.0 g c.decoded in
      let named : g.id ≡ id = ground arith in
      let marked : select_one (λ r. r.id == id) rows'
          ≡ some (record c.row { consumed_at = some now }) =
        ap (select_one (λ r. r.id == id)) (claim_grant-consume broker id subject now g rows rows' h)
        ∙ consume-marks id g.id now rows c.row named c.found c.unused in
      consumed_refused id other later now (run ops rows') (record c.row { consumed_at = some now })
        g (run-kept id now ops rows' (record c.row { consumed_at = some now }) marked refl) refl
        c.decoded
