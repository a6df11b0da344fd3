-- ===== src/Domain/Events/Provenance.antt =====
-- What the validators of `Event` establish about where an event comes from (domain/events.py).
use oscillink_agent.Base.{
  ℕ, ◌≤◌, ◌≡◌, ◌≢◌, ◌⊎◌, sym, ap, String, true, false, none, arith, holds, string_eq,
}
use oscillink_agent.Domain.Identifiers.{codes, has_prefix}
use oscillink_agent.Domain.Json.{Fields}
use oscillink_agent.Domain.Vocabulary.{
  ActorType, human, model, tool, model_call, human_verified, tool_verified, model_generated,
  actor_type_eq, event_type_eq, trust_eq,
}
use oscillink_agent.Domain.Events.{
  Event, is_valid_event, is_provenanced, is_allowed_trust, is_valid_actor, needs_model, type_prefix,
}

-- The provenance of an event.
pub record HasProvenance (payload_hash : Fields → String) (e : Event) : Type 0 where
  pub hashed : e.payload_hash ≡ payload_hash e.payload
  pub by_human : e.trust_class ≡ human_verified → has_prefix (codes "human_") e.actor.id ≡ true
  pub by_tool : e.trust_class ≡ tool_verified → has_prefix (codes "tool_") e.actor.id ≡ true
  pub of_model :
      e.actor.kind ≡ model → (e.trust_class ≡ model_generated) × (e.model_identity ≢ none)
  pub generated : e.trust_class ≡ model_generated → e.actor.kind ≡ model
  pub identified : e.model_identity ≢ none → (e.event_type ≡ model_call) ⊎ (e.actor.kind ≡ model)
  pub acyclic : holds e.causal_parent_ids e.id ≡ false
  pub ordered : e.observed_at ≤ e.recorded_at

trusted_as_human : (k : ActorType) → is_allowed_trust k human_verified ≡ true → k ≡ human
unfolding is_allowed_trust
trusted_as_human k h = ground arith

trusted_as_tool : (k : ActorType) → is_allowed_trust k tool_verified ≡ true → k ≡ tool
unfolding is_allowed_trust
trusted_as_tool k h = ground arith

trusted_as_model : (k : ActorType) → is_allowed_trust k model_generated ≡ true → k ≡ model
unfolding is_allowed_trust
trusted_as_model k h = ground arith

module _ (payload_hash : Fields → String) (payload_bytes : Fields → ℕ) (e : Event) where
  provenance_checked :
      is_valid_event payload_hash payload_bytes e ≡ true
      → (is_valid_actor e.actor ≡ true) × (is_provenanced payload_hash e ≡ true)
  unfolding is_valid_event
  provenance_checked h = ground arith

  actor_named :
      is_valid_actor e.actor ≡ true → has_prefix (type_prefix e.actor.kind) e.actor.id ≡ true
  unfolding is_valid_actor
  actor_named h = ground arith

  trust_allowed :
      is_provenanced payload_hash e ≡ true → is_allowed_trust e.actor.kind e.trust_class ≡ true
  unfolding is_provenanced
  trust_allowed h = ground arith

  -- A valid event carries the hash of its payload; it is human-verified only of an actor whose id
  -- starts with human_, tool-verified only of one with tool_, and generated exactly of a model,
  -- which is then identified; a model is identified only for model calls and models; it is not its
  -- own parent, and is not recorded before it was observed.
  pub is_valid_event-HasProvenance :
      is_valid_event payload_hash payload_bytes e ≡ true → HasProvenance payload_hash e
  unfolding is_provenanced needs_model type_prefix
  is_valid_event-HasProvenance h =
      let checked = provenance_checked h in
      let named = actor_named checked.0 in
      let p = checked.1 in
      let allowed = trust_allowed checked.1 in
      record {
        hashed = ground arith;
        by_human = λ t.
            let k = trusted_as_human e.actor.kind (rw (sym t) allowed) in
            rw (sym (ap (λ a. has_prefix (type_prefix a) e.actor.id) k)) named;
        by_tool = λ t.
            let k = trusted_as_tool e.actor.kind (rw (sym t) allowed) in
            rw (sym (ap (λ a. has_prefix (type_prefix a) e.actor.id) k)) named;
        of_model = λ k. (ground arith, ground arith);
        generated = λ t. trusted_as_model e.actor.kind (rw (sym t) allowed);
        identified = λ m. ground arith;
        acyclic = ground arith;
        ordered = ground arith;
      }
