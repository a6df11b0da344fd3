-- ===== src/Tests/Events.antt =====
-- The theorem about the provenance of events, applied.
use oscillink_agent.Base.{◌≡◌, refl, true, none, [], ◌∷◌}
use oscillink_agent.Domain.Json.{no_fields, field, text}
use oscillink_agent.Domain.Vocabulary.{human, message, human_verified, private}
use oscillink_agent.Domain.Events.{Event, is_valid_event}
use oscillink_agent.Domain.Events.Provenance.{HasProvenance, is_valid_event-HasProvenance}
use oscillink_agent.Tests.{hash_a}

abbrev said : Event
said = record {
  id = "evt_00000000000000000000000001";
  session_id = "ses_00000000000000000000000001";
  run_id = "run_00000000000000000000000001";
  task_id = "tsk_00000000000000000000000001";
  actor = record { id = "human_owner"; kind = human };
  event_type = message;
  observed_at = 5;
  recorded_at = 7;
  payload_hash = hash_a;
  artifact_refs = [];
  causal_parent_ids = "evt_00000000000000000000000002" ∷ [];
  trust_class = human_verified;
  sensitivity = private;
  payload = field "content" (text "hello") no_fields;
  model_identity = none;
}

said_valid : is_valid_event (λ _. hash_a) (λ _. 19) said ≡ true
unfolding is_valid_event oscillink_agent.Domain.Events.is_valid_model
    oscillink_agent.Domain.Identifiers.is_event_id oscillink_agent.Base.ℕ_discrete
    oscillink_agent.Domain.Identifiers.is_task_id oscillink_agent.Domain.Events.is_valid_actor
    oscillink_agent.Domain.Identifiers.is_actor_id oscillink_agent.Domain.Identifiers.has_prefix
    oscillink_agent.Domain.Events.type_prefix oscillink_agent.Domain.Identifiers.is_digest
    oscillink_agent.Domain.Json.is_bounded oscillink_agent.Base.is_unique
    oscillink_agent.Domain.Events.is_provenanced oscillink_agent.Base.string_discrete
    oscillink_agent.Domain.Events.needs_model oscillink_agent.Domain.Vocabulary.event_type_discrete
    oscillink_agent.Domain.Vocabulary.actor_type_discrete
    oscillink_agent.Domain.Events.is_allowed_trust oscillink_agent.Base.holds
    oscillink_agent.Domain.Identifiers.all_codes oscillink_agent.Domain.Identifiers.has_token
    oscillink_agent.Domain.Identifiers.is_crockford oscillink_agent.Domain.Identifiers.is_hex
    oscillink_agent.Domain.Identifiers.is_term_code oscillink_agent.Domain.Identifiers.strip_prefix
    oscillink_agent.Domain.Json.count_fields oscillink_agent.Domain.Json.count_items
    oscillink_agent.Domain.Vocabulary.trust_discrete
said_valid = refl

is_valid_event-HasProvenance_example : HasProvenance (λ _. hash_a) said
is_valid_event-HasProvenance_example =
    is_valid_event-HasProvenance (λ _. hash_a) (λ _. 19) said said_valid
