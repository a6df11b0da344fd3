-- ===== src/Tests/Ledger.antt =====
-- The theorems about the event ledger, applied to two events, of which one causes the other.
use oscillink_agent.Base.{
  ℕ, ◌≡◌, refl, String, true, Option, none, some, List, [], ◌∷◌, map, ok, All, ◌==◌, string_eq,
  string_discrete, if◌then◌else◌,
}
use oscillink_agent.Domain.Json.{no_fields}
use oscillink_agent.Domain.Vocabulary.{human, message, human_verified, private}
use oscillink_agent.Domain.Events.{Event}
use oscillink_agent.Ledger.{Codec, Row, append_many, iter_all}
use oscillink_agent.Ledger.Refinement.{Entry, record_all, rows_of, append_many-refines}
use oscillink_agent.Ledger.Idempotency.{append_many-repeat}
use oscillink_agent.Ledger.Causality.{IsCausal, append_many-IsCausal}
use oscillink_agent.Tests.{hash_a}

abbrev event : String → List String → Event
event id parents = record {
  id = id;
  session_id = "ses_00000000000000000000000001";
  run_id = "run_00000000000000000000000001";
  task_id = "tsk_00000000000000000000000001";
  actor = record { id = "human_owner"; kind = human };
  event_type = message;
  observed_at = 0;
  recorded_at = 1;
  payload_hash = hash_a;
  artifact_refs = [];
  causal_parent_ids = parents;
  trust_class = human_verified;
  sensitivity = private;
  payload = no_fields;
  model_identity = none;
}

abbrev cause : Event
cause = event "evt_00000000000000000000000001" []

abbrev effect : Event
effect = event "evt_00000000000000000000000002" ("evt_00000000000000000000000001" ∷ [])

-- A codec of the two events, which writes an event as its identity.
abbrev two_events : Codec
two_events = record {
  encode = λ e. e.id;
  decode = λ s. if s == cause.id then some cause else if s == effect.id then some effect else none;
  digest = λ s. s;
  review_subject = λ _. none;
  verify = some (λ _. true);
}

abbrev entries : List Entry
entries = (cause, "key-1") ∷ (effect, "key-2") ∷ []

abbrev after_entries : List Row
after_entries = (append_many two_events entries []).1

entries_return : append_many two_events entries [] ≡ (ok (cause.id ∷ effect.id ∷ []), after_entries)
unfolding append_many oscillink_agent.Ledger.append_each oscillink_agent.Ledger.append_one
    oscillink_agent.Domain.Identifiers.is_idempotency_key oscillink_agent.Base.ℕ_discrete
    oscillink_agent.Ledger.check_parents oscillink_agent.Ledger.check_artifacts
    oscillink_agent.Ledger.insert_row oscillink_agent.Base.exists_row string_discrete
    oscillink_agent.Ledger.row_of oscillink_agent.Ledger.conflicts
entries_return = refl

readable : All (λ x. two_events.decode (two_events.encode x.0) ≡ some x.0) (record_all entries [])
unfolding record_all oscillink_agent.Ledger.Refinement.record_entry oscillink_agent.Base.exists_row
    string_discrete
readable = (refl, (refl, tt))

append_many-refines_example :
    (after_entries ≡ rows_of two_events (record_all entries []))
    × (cause.id ∷ effect.id ∷ [] ≡ map (λ x. x.0.id) entries)
    × (iter_all two_events after_entries ≡ ok (map (λ x. x.0) (record_all entries [])))
append_many-refines_example =
    append_many-refines two_events entries [] after_entries (cause.id ∷ effect.id ∷ [])
      entries_return readable

-- An append of the first event again.
abbrev later : List Entry
later = (cause, "key-1") ∷ []

later_return : append_many two_events later after_entries ≡ (ok (cause.id ∷ []), after_entries)
unfolding append_many oscillink_agent.Ledger.append_each oscillink_agent.Ledger.append_one
    oscillink_agent.Domain.Identifiers.is_idempotency_key oscillink_agent.Base.ℕ_discrete
    oscillink_agent.Ledger.check_parents oscillink_agent.Ledger.check_artifacts
    oscillink_agent.Ledger.insert_row oscillink_agent.Base.exists_row string_discrete
    oscillink_agent.Ledger.row_of oscillink_agent.Ledger.conflicts
    oscillink_agent.Ledger.on_conflict oscillink_agent.Base.select_one
later_return = refl

append_many-repeat_example :
    append_many two_events entries after_entries ≡ (ok (cause.id ∷ effect.id ∷ []), after_entries)
append_many-repeat_example =
    append_many-repeat two_events entries later [] after_entries after_entries
      (cause.id ∷ effect.id ∷ []) (cause.id ∷ []) entries_return later_return

append_many-IsCausal_example :
    (after_entries ≡ rows_of two_events (record_all entries []))
    × IsCausal [] (record_all entries [])
append_many-IsCausal_example =
    append_many-IsCausal two_events entries [] after_entries (cause.id ∷ effect.id ∷ []) tt
      entries_return
