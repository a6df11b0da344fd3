-- ===== src/Domain/Vocabulary.antt =====
-- The enumerations of domain/events.py and domain/context.py.
use oscillink_agent.Base.{DecEq, ℕ, ◌-◌, ◌^◌}

pub data ActorType : Type 0 where
  human model tool system : ActorType

pub data EventType : Type 0 where
  message model_call tool_call observation memory_proposal approval correction : EventType
  retraction outcome : EventType

pub data TrustClass : Type 0 where
  human_verified tool_verified model_generated external_untrusted system_trust : TrustClass

pub data Sensitivity : Type 0 where
  public internal private restricted : Sensitivity

pub data ContextStatus : Type 0 where
  approved contested superseded retracted : ContextStatus

pub data OmissionReason : Type 0 where
  token_budget no_query_match : OmissionReason

-- `MAX_INTEROPERABLE_JSON_INTEGER`
abbrev pub max_integer : ℕ
max_integer = 2 ^ 53 - 1

unfoldable pub actor_type_discrete : Discrete ActorType
actor_type_discrete = hlevel

unfoldable pub event_type_discrete : Discrete EventType
event_type_discrete = hlevel

unfoldable pub trust_discrete : Discrete TrustClass
trust_discrete = hlevel

unfoldable pub sensitivity_discrete : Discrete Sensitivity
sensitivity_discrete = hlevel

unfoldable pub status_discrete : Discrete ContextStatus
status_discrete = hlevel

unfoldable pub reason_discrete : Discrete OmissionReason
reason_discrete = hlevel

instance abbrev pub actor_type_eq : DecEq ActorType
actor_type_eq = record { dec = actor_type_discrete }

instance abbrev pub event_type_eq : DecEq EventType
event_type_eq = record { dec = event_type_discrete }

instance abbrev pub trust_eq : DecEq TrustClass
trust_eq = record { dec = trust_discrete }

instance abbrev pub sensitivity_eq : DecEq Sensitivity
sensitivity_eq = record { dec = sensitivity_discrete }

instance abbrev pub status_eq : DecEq ContextStatus
status_eq = record { dec = status_discrete }

instance abbrev pub reason_eq : DecEq OmissionReason
reason_eq = record { dec = reason_discrete }
