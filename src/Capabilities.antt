-- ===== src/Capabilities.antt =====
-- The single-use broker of file reads: capabilities/broker.py, over the grants of
-- domain/capabilities.py.
pub mod Claims
pub mod SingleUse
pub mod Authority
pub mod Reads
use oscillink_agent.Base.{
  ℕ, ◌+◌, ◌*◌, String, Bool, true, false, not, ◌&&◌, ◌||◌, Option, none, some, List, [], ◌∷◌, ◌++◌,
  map, length, ltb, leb, ◌==◌, nat_eq, string_eq, option_eq, DecEq, holds, select_one, Result, ok,
  err, Action, pure, raise, raise_if, or_raise, gets, modify, transaction, ◌>>=◌, ◌>>◌,
  if◌then◌else◌, ℕ_discrete,
}
use oscillink_agent.Domain.Vocabulary.{
  human, approval, human_verified, actor_type_eq, event_type_eq, trust_eq,
}
use oscillink_agent.Domain.Json.{field_is}
use oscillink_agent.Domain.Events.{Event}
use oscillink_agent.Ledger.{Codec, Row}
use oscillink_agent.Ledger

-- `CapabilityGrant`, with its `FileResource` and its `CapabilityConstraints`. A time is a number of
-- microseconds, in UTC.
pub record Grant : Type 0 where
  pub id : String
  pub subject_actor_id : String
  pub capability : String
  pub scope_id : String
  pub target : String
  pub issued_at : ℕ
  pub valid_for_seconds : ℕ
  pub issued_by : String
  pub authorization_event_id : String
  pub max_uses : ℕ
  pub max_bytes : ℕ
  pub allowed_extensions : List String
  pub network_allowed : Bool

-- A row of `capability_grants`.
pub record GrantRow : Type 0 where
  pub id : String
  pub document_json : String
  pub consumed_at : Option ℕ

-- The codes of `CapabilityDeniedError`.
pub data Denial : Type 0 where
  authorization_invalid scope_unknown grant_conflict grant_not_found grant_corrupt : Denial
  grant_consumed subject_mismatch grant_not_yet_valid grant_expired : Denial
  capability_mismatch network_forbidden extension_denied scope_unavailable : Denial
  file_unavailable scope_escape size_exceeded file_changed encoding_denied : Denial

abbrev pub Call : Type 0 → Type 0
Call A = Action (List GrantRow) Denial A

-- What the broker is given: `model_dump_json` and `model_validate_json` of a grant (pydantic),
-- `str.casefold`, `Path(…).suffix` and whether a scope has a configured root.
pub record Broker : Type 0 where
  pub encode : Grant → String
  pub decode : String → Option Grant
  pub casefold : String → String
  pub suffix : String → String
  pub has_scope : String → Bool

-- The condition under which `_validate_authorization` does not raise.
unfoldable pub is_authorization : Grant → Event → Bool
is_authorization g e =
    e.id == g.authorization_event_id
    && e.actor.id == g.issued_by
    && e.actor.kind == human
    && e.event_type == approval
    && e.trust_class == human_verified
    && field_is "grant_id" g.id e.payload
    && field_is "decision" "approved" e.payload
    && e.observed_at == g.issued_at

-- `event_store.get(grant.authorization_event_id)`, where a corrupt row is refused as an absent one
unfoldable pub find_authorization : Codec → List Row → Grant → Option Event
find_authorization codec events g = elim (Ledger.get codec g.authorization_event_id events) [
  | err x ↦ none
  | ok found ↦ found
]

module _ (broker : Broker) where
  -- What `register_grant` does in its transaction, with the row of the same id.
  unfoldable pub insert_grant : Grant → Option GrantRow → Call (Unit {0})
  insert_grant g (some row) = raise_if (not (row.document_json == broker.encode g)) grant_conflict
  insert_grant g none = modify (λ rows.
      rows ++ record { id = g.id; document_json = broker.encode g; consumed_at = none } ∷ [])

  unfoldable pub register_locked : Grant → Call (Unit {0})
  register_locked g = do row ← gets (select_one (λ r. r.id == g.id)); insert_grant g row

  -- `register_grant`, over the ledger of events
  unfoldable pub register_grant : Codec → List Row → Grant → Call (Unit {0})
  register_grant codec events g = do
    event ← or_raise (find_authorization codec events g) authorization_invalid
    raise_if (not (is_authorization g event)) authorization_invalid
    raise_if (not (broker.has_scope g.scope_id)) scope_unknown
    transaction (register_locked g)

  -- `allowed_extensions` and the test of the target's suffix
  unfoldable pub is_extension_allowed : Grant → Bool
  is_extension_allowed g =
      holds (map broker.casefold g.allowed_extensions) (broker.casefold (broker.suffix g.target))

  -- The checks of `_claim_grant` on a decoded grant, in their order.
  unfoldable pub check_grant : Grant → Option ℕ → String → ℕ → Call (Unit {0})
  check_grant g (some at) subject now = raise grant_consumed
  check_grant g none subject now = do
    raise_if (not (g.subject_actor_id == subject)) subject_mismatch
    raise_if (ltb now g.issued_at) grant_not_yet_valid
    raise_if (leb (g.issued_at + g.valid_for_seconds * 1000000) now) grant_expired
    raise_if (not (g.capability == "file.read") || not (g.max_uses == 1)) capability_mismatch
    raise_if g.network_allowed network_forbidden
    raise_if (not (broker.has_scope g.scope_id)) scope_unknown
    raise_if (not (is_extension_allowed g)) extension_denied

  -- `UPDATE capability_grants SET consumed_at = ? WHERE id = ? AND consumed_at IS NULL`
  unfoldable pub consume : String → ℕ → List GrantRow → List GrantRow
  consume id now [] = []
  consume id now (r ∷ rs) =
      (if r.id == id && r.consumed_at == none then record r { consumed_at = some now } else r)
      ∷ consume id now rs

  -- What `_claim_grant` does in its transaction. A document that cannot be read is refused as corrupt;
  -- one that is not even JSON raises JSONDecodeError in the source, here with the same code.
  unfoldable pub claim_locked : String → String → ℕ → Call Grant
  claim_locked grant_id subject now = do
    row ← or_raise (← gets (select_one (λ r. r.id == grant_id))) grant_not_found
    grant ← or_raise (broker.decode row.document_json) grant_corrupt
    check_grant grant row.consumed_at subject now
    modify (consume grant.id now)
    pure grant

  -- `_claim_grant`
  unfoldable pub claim_grant : String → String → ℕ → Call Grant
  claim_grant grant_id subject now = transaction (claim_locked grant_id subject now)
