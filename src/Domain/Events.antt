-- ===== src/Domain/Events.antt =====
-- `Event` of domain/events.py and its validators.
pub mod Provenance
use oscillink_agent.Base.{
  ℕ, String, Bool, true, false, not, ◌&&◌, ◌||◌, Option, none, some, List, [], ◌∷◌, leb, ◌==◌,
  string_eq, nat_eq, length, exists_row, holds, is_unique, if◌then◌else◌,
}
use oscillink_agent.Domain.Identifiers.{
  codes, has_token, has_prefix, is_digest, is_event_id, is_actor_id, is_task_id,
}
use oscillink_agent.Domain.Json.{Fields, object, is_bounded}
use oscillink_agent.Domain.Vocabulary.{
  ActorType, human, model, tool, system, EventType, model_call, TrustClass, human_verified,
  tool_verified, model_generated, external_untrusted, system_trust, Sensitivity, actor_type_eq,
  event_type_eq, trust_eq,
}

pub record Actor : Type 0 where
  pub id : String
  pub kind : ActorType

-- `ModelIdentity`
pub record ModelIdentity : Type 0 where
  pub provider : String
  pub name : String
  pub configuration_hash : String

-- `Event`; `schema_version` is the constant 1. A time is a number of microseconds, in UTC.
pub record Event : Type 0 where
  pub id : String
  pub session_id : String
  pub run_id : String
  pub task_id : String
  pub actor : Actor
  pub event_type : EventType
  pub observed_at : ℕ
  pub recorded_at : ℕ
  pub payload_hash : String
  pub artifact_refs : List String
  pub causal_parent_ids : List String
  pub trust_class : TrustClass
  pub sensitivity : Sensitivity
  pub payload : Fields
  pub model_identity : Option ModelIdentity

-- `f"{self.type.value}_"`
unfoldable pub type_prefix : ActorType → List ℕ
type_prefix human = codes "human_"
type_prefix model = codes "model_"
type_prefix tool = codes "tool_"
type_prefix system = codes "system_"

-- `Actor.require_matching_id_prefix`
unfoldable pub is_valid_actor : Actor → Bool
is_valid_actor a = is_actor_id a.id && has_prefix (type_prefix a.kind) a.id

-- `allowed_trust`
unfoldable pub is_allowed_trust : ActorType → TrustClass → Bool
is_allowed_trust human human_verified = true
is_allowed_trust human external_untrusted = true
is_allowed_trust model model_generated = true
is_allowed_trust tool tool_verified = true
is_allowed_trust tool external_untrusted = true
is_allowed_trust system system_trust = true
is_allowed_trust system external_untrusted = true
is_allowed_trust _ _ = false

unfoldable pub needs_model : Event → Bool
needs_model e = e.event_type == model_call || e.actor.kind == model

has_model : Option ModelIdentity → Bool
has_model none = false
has_model (some m) = true

-- `require_model_provenance`; `payload_hash` stands for `canonical_payload_hash`.
unfoldable pub is_provenanced : (Fields → String) → Event → Bool
unfolding has_model
is_provenanced payload_hash e =
    e.payload_hash == payload_hash e.payload
    && not (holds e.causal_parent_ids e.id)
    && leb e.observed_at e.recorded_at
    && (if needs_model e then has_model e.model_identity else not (has_model e.model_identity))
    && (not (e.actor.kind == model) || e.trust_class == model_generated)
    && is_allowed_trust e.actor.kind e.trust_class

-- The white space of the pattern `\s`, by code points.
unfoldable pub is_white : ℕ → Bool
is_white c =
    leb 9 c && leb c 13
    || c == 32
    || c == 133
    || c == 160
    || c == 5760
    || leb 8192 c && leb c 8202
    || c == 8232
    || c == 8233
    || c == 8239
    || c == 8287
    || c == 12288

-- One to 128 characters with one that is not white space: the pattern `.*\S.*`.
unfoldable pub is_model_text : String → Bool
is_model_text s =
    leb 1 (length (codes s))
    && leb (length (codes s)) 128
    && exists_row (λ c. not (is_white c)) (codes s)

-- The constraints of `ModelIdentity`.
unfoldable pub is_valid_model : Option ModelIdentity → Bool
unfolding is_model_text is_white
is_valid_model none = true
is_valid_model (some m) =
    is_model_text m.provider && is_model_text m.name && is_digest m.configuration_hash

all_texts : (String → Bool) → List String → Bool
all_texts p [] = true
all_texts p (s ∷ ss) = p s && all_texts p ss

-- The constraints and validators of `Event`; `payload_bytes` stands for the length of the canonical
-- payload, `len(rfc8785.dumps(…))`.
unfoldable pub is_valid_event : (Fields → String) → (Fields → ℕ) → Event → Bool
unfolding all_texts
is_valid_event payload_hash payload_bytes e =
    is_event_id e.id
    && has_token (codes "ses_") e.session_id
    && has_token (codes "run_") e.run_id
    && is_task_id e.task_id
    && is_valid_actor e.actor
    && is_digest e.payload_hash
    && all_texts is_digest e.artifact_refs
    && all_texts is_event_id e.causal_parent_ids
    && is_bounded (object e.payload) 0
    && leb (payload_bytes e.payload) 65536
    && is_unique e.artifact_refs
    && is_unique e.causal_parent_ids
    && is_valid_model e.model_identity
    && is_provenanced payload_hash e
