-- ===== src/Ledger.antt =====
-- The append-only event ledger: storage/sqlite.py and storage/migrations/001_events.sql.
pub mod Append
pub mod Idempotency
pub mod Refinement
pub mod Causality
use oscillink_agent.Base.{
  ℕ, String, Bool, true, false, not, ◌&&◌, ◌||◌, Option, none, some, List, [], ◌∷◌, ◌++◌, ◌==◌,
  string_eq, exists_row, select, select_one, Result, ok, err, Action, pure, raise, raise_if, gets,
  modify, transaction, ◌>>=◌, ◌>>◌, if◌then◌else◌,
}
use oscillink_agent.Domain.Identifiers.{is_idempotency_key}
use oscillink_agent.Domain.Events.{Event}

-- The library functions that the ledger calls: `Event.model_dump_json` and
-- `Event.model_validate_json` (pydantic), `sha256(…).hexdigest()`, the key of the partial unique
-- index over `json_extract` (none where the index leaves a row out or the key is NULL), and
-- `ArtifactStore.verify` where a store is configured.
pub record Codec : Type 0 where
  pub encode : Event → String
  pub decode : String → Option Event
  pub digest : String → String
  pub review_subject : String → Option String
  pub verify : Option (String → Bool)

-- A row of `events`, in the order of `sequence`; the column `recorded_at`, which repeats the event's
-- own and is never read, is left out.
pub record Row : Type 0 where
  pub event_id : String
  pub idempotency_key : String
  pub session_id : String
  pub payload_hash : String
  pub event_json : String
  pub event_sha256 : String

pub data LedgerError : Type 0 where
  idempotency_conflict missing_parent unresolved_artifact corruption : String → LedgerError
  duplicate_event : String → LedgerError
  invalid_key constraint_error : LedgerError

abbrev pub Call : Type 0 → Type 0
Call A = Action (List Row) LedgerError A

-- `for parent_id in event.causal_parent_ids`
unfoldable pub check_parents : List String → Call (Unit {0})
check_parents [] = pure tt
check_parents (p ∷ ps) = do
  exists ← gets (exists_row (λ r. r.event_id == p))
  raise_if (not exists) (missing_parent p)
  check_parents ps

module _ (codec : Codec) where
  -- Whether an artifact reference is resolved; without a store none is.
  unfoldable pub is_resolved : String → Bool
  is_resolved reference = elim codec.verify [ none ↦ false | some verify ↦ verify reference ]

  -- `for reference in event.artifact_refs`
  unfoldable pub check_artifacts : List String → Call (Unit {0})
  unfolding is_resolved
  check_artifacts [] = pure tt
  check_artifacts (a ∷ rest) = do
    raise_if (not (is_resolved a)) (unresolved_artifact a)
    check_artifacts rest

  unfoldable pub row_of : Event → String → Row
  row_of e key = record {
    event_id = e.id;
    idempotency_key = key;
    session_id = e.session_id;
    payload_hash = e.payload_hash;
    event_json = codec.encode e;
    event_sha256 = codec.digest (codec.encode e);
  }

  -- The partial unique index on the subject of an artifact review.
  same_subject : Option String → Option String → Bool
  same_subject none t = false
  same_subject (some s) none = false
  same_subject (some s) (some t) = s == t

  -- Whether a row conflicts with a new one under the UNIQUE constraints.
  unfoldable pub conflicts : Row → Row → Bool
  unfolding same_subject
  conflicts v r =
      r.event_id == v.event_id
      || r.idempotency_key == v.idempotency_key
      || same_subject (codec.review_subject r.event_json) (codec.review_subject v.event_json)

  -- `except sqlite3.IntegrityError`
  unfoldable pub on_conflict : Event → String → Option Row → Call String
  on_conflict e key (some existing) =
      if existing.event_id == e.id && existing.event_json == codec.encode e
      then pure e.id
      else raise (idempotency_conflict key)
  on_conflict e key none = do
    duplicate ← gets (exists_row (λ r. r.event_id == e.id))
    if duplicate then raise (duplicate_event e.id) else raise constraint_error

  append_row : Event → String → Call String
  append_row e key = do modify (λ rows. rows ++ row_of e key ∷ []); pure e.id

  -- The insertion of `_append_one`.
  unfoldable pub insert_row : Event → String → Call String
  unfolding append_row
  insert_row e key = do
    taken ← gets (exists_row (conflicts (row_of e key)))
    existing ← gets (select_one (λ r. r.idempotency_key == key))
    if taken then on_conflict e key existing else append_row e key

  -- `_append_one`
  unfoldable pub append_one : Event → String → Call String
  append_one e key = do
    raise_if (not (is_idempotency_key key)) invalid_key
    check_parents e.causal_parent_ids
    check_artifacts e.artifact_refs
    insert_row e key

  unfoldable pub append_each : List (Event × String) → Call (List String)
  append_each [] = pure []
  append_each ((e, key) ∷ rest) = do id ← append_one e key; ids ← append_each rest; pure (id ∷ ids)

  -- `append_many`: one transaction; `append` is the case of one entry
  unfoldable pub append_many : List (Event × String) → Call (List String)
  append_many entries = transaction (append_each entries)

  -- The checks that `get`, `get_by_idempotency`, `stream` and `iter_all` make of a row.
  unfoldable pub check_row : Row → Result LedgerError Event
  check_row r =
      if codec.digest r.event_json == r.event_sha256
      then elim (codec.decode r.event_json) [
        | none ↦ err (corruption r.event_id)
        | some e ↦ if e.payload_hash == r.payload_hash then ok e else err (corruption r.event_id)
      ]
      else err (corruption r.event_id)

  -- The events that iterating over rows yields, up to the first corrupt row, and its error.
  unfoldable pub check_rows : List Row → Result LedgerError (List Event)
  check_rows [] = ok []
  check_rows (r ∷ rs) =
      let rest = check_rows rs in
      elim (check_row r) [
        | err x ↦ err x
        | ok e ↦ elim rest [ err x ↦ err x | ok es ↦ ok (e ∷ es) ]
      ]

  unfoldable pub iter_all : List Row → Result LedgerError (List Event)
  iter_all rows = check_rows rows

  unfoldable pub stream : String → List Row → Result LedgerError (List Event)
  stream session_id rows = check_rows (select (λ r. r.session_id == session_id) rows)

  unfoldable pub check_found : Option Row → Result LedgerError (Option Event)
  check_found none = ok none
  check_found (some r) = elim (check_row r) [ ok e ↦ ok (some e) | err x ↦ err x ]

  unfoldable pub get : String → List Row → Result LedgerError (Option Event)
  get event_id rows = check_found (select_one (λ r. r.event_id == event_id) rows)

  unfoldable pub get_by_idempotency : String → List Row → Result LedgerError (Option Event)
  get_by_idempotency key rows =
      if is_idempotency_key key
      then check_found (select_one (λ r. r.idempotency_key == key) rows)
      else err invalid_key
