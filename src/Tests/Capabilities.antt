-- ===== src/Tests/Capabilities.antt =====
-- The theorems about the capability broker, applied to one grant and its approval.
use oscillink_agent.Base.{
  ℕ, ◌+◌, ◌≡◌, ◌≢◌, ◌⊎◌, ◌↔◌, refl, sym, ap, ◌∙◌, inl, inr, Bool-cases, String, Bool, true, false,
  Option, none, some, List, [], ◌∷◌, Result, ok, err, All, ◌==◌, string_eq, string_discrete,
  list_discrete, ℕ_discrete, DecEq, if◌then◌else◌, arith, length,
}
use oscillink_agent.Domain.Json.{Fields, no_fields, field, text}
use oscillink_agent.Domain.Vocabulary.{human, approval, human_verified, private}
use oscillink_agent.Domain.Events.{Event}
use oscillink_agent.Ledger.{Codec, Row, append_many}
use oscillink_agent.Capabilities.{Grant, GrantRow, Denial, grant_consumed, Broker, claim_grant}
use oscillink_agent.Capabilities.Claims.{Claimed, claim_grant_iff}
use oscillink_agent.Capabilities.SingleUse.{Operation, register, claim, run, IsFiled, claim_once}
use oscillink_agent.Capabilities.Authority.{Approved, claim-Approved}
use oscillink_agent.Capabilities.Reads.{Stat, Files, Observation, execute_file_read}
use oscillink_agent.Capabilities.Reads.Outcome.{WasRead, execute_file_read-cases}
use oscillink_agent.Tests.{hash_a}

abbrev permit : Grant
permit = record {
  id = "grt_00000000000000000000000001";
  subject_actor_id = "model_agent";
  capability = "file.read";
  scope_id = "docs";
  target = "a/b.md";
  issued_at = 100;
  valid_for_seconds = 60;
  issued_by = "human_owner";
  authorization_event_id = "evt_00000000000000000000000001";
  max_uses = 1;
  max_bytes = 8;
  allowed_extensions = ".md" ∷ [];
  network_allowed = false;
}

-- Grants that agree on every field of the permit.
grant_discrete : Discrete Grant
grant_discrete = hlevel (string_discrete, list_discrete, ℕ_discrete)

instance abbrev grant_eq : DecEq Grant
grant_eq = record { dec = grant_discrete }

abbrev broker : Broker
broker = record {
  encode = λ g. if g == permit then "permit" else "other";
  decode = λ s. if s == "permit" then some permit else none;
  casefold = λ s. s;
  suffix = λ s. ".md";
  has_scope = λ s. s == "docs";
}

abbrev approving : Event
approving = record {
  id = "evt_00000000000000000000000001";
  session_id = "ses_00000000000000000000000001";
  run_id = "run_00000000000000000000000001";
  task_id = "tsk_00000000000000000000000001";
  actor = record { id = "human_owner"; kind = human };
  event_type = approval;
  observed_at = 100;
  recorded_at = 101;
  payload_hash = hash_a;
  artifact_refs = [];
  causal_parent_ids = [];
  trust_class = human_verified;
  sensitivity = private;
  payload =
      field "grant_id" (text "grt_00000000000000000000000001")
        (field "decision" (text "approved") no_fields);
  model_identity = none;
}

abbrev codec : Codec
codec = record {
  encode = λ e. e.id;
  decode = λ s. some approving;
  digest = λ s. s;
  review_subject = λ _. none;
  verify = none;
}

abbrev events : List Row
events = (append_many codec ((approving, "approve") ∷ []) []).1

abbrev filed : GrantRow
filed = record { id = permit.id; document_json = "permit"; consumed_at = none }

abbrev used : GrantRow
used = record filed { consumed_at = some 500 }

claim_returns : claim_grant broker permit.id "model_agent" 500 (filed ∷ []) ≡ (ok permit, used ∷ [])
unfolding claim_grant oscillink_agent.Capabilities.claim_locked oscillink_agent.Base.select_one
    string_discrete oscillink_agent.Capabilities.check_grant ℕ_discrete
    oscillink_agent.Capabilities.is_extension_allowed oscillink_agent.Base.holds
    oscillink_agent.Capabilities.consume oscillink_agent.Base.option_discrete
claim_returns = refl

filed-IsFiled : IsFiled broker codec events filed
filed-IsFiled g h = ground arith

claim_grant_iff_example :
    (claim_grant broker permit.id "model_agent" 500 (filed ∷ []) ≡ (ok permit, used ∷ []))
    ↔ Claimed broker permit.id "model_agent" 500 permit (filed ∷ []) (used ∷ [])
claim_grant_iff_example =
    claim_grant_iff broker permit.id "model_agent" 500 permit (filed ∷ []) (used ∷ [])

claim_once_example :
    claim_grant broker permit.id "model_agent" 600
      (run broker codec events (register permit ∷ []) (used ∷ []))
    ≡ (err grant_consumed, run broker codec events (register permit ∷ []) (used ∷ []))
claim_once_example =
    claim_once broker codec events permit.id "model_agent" "model_agent" 500 600 permit (filed ∷ [])
      (used ∷ []) (register permit ∷ []) (filed-IsFiled, tt) claim_returns

permit_decoded : broker.decode "permit" ≡ some permit
unfolding string_discrete
permit_decoded = refl

other_decoded : broker.decode "other" ≡ none
unfolding string_discrete
other_decoded = refl

exact : (g h : Grant) → broker.decode (broker.encode g) ≡ some h → h ≡ g
exact g h e =
    let code : Bool → Option Grant = λ b. broker.decode (if b then "permit" else "other") in
    elim (Bool-cases (g == permit)) [
      | inl same ↦
          let found : some permit ≡ some h = sym (permit_decoded) ∙ sym (ap code same) ∙ e in
          ground arith
      | inr differs ↦
          let found : none ≡ some h = sym other_decoded ∙ sym (ap code differs) ∙ e in
          absurd (ground arith)
    ]

claim_registered :
    claim_grant broker permit.id "model_agent" 500
      (run broker codec events (register permit ∷ []) [])
    ≡ (ok permit, used ∷ [])
unfolding claim_grant oscillink_agent.Capabilities.claim_locked oscillink_agent.Base.select_one run
    oscillink_agent.Capabilities.SingleUse.perform oscillink_agent.Capabilities.register_grant
    oscillink_agent.Capabilities.find_authorization oscillink_agent.Ledger.get
    oscillink_agent.Ledger.check_found append_many oscillink_agent.Ledger.append_each
    oscillink_agent.Ledger.append_one oscillink_agent.Domain.Identifiers.is_idempotency_key
    oscillink_agent.Ledger.check_parents oscillink_agent.Ledger.check_artifacts
    oscillink_agent.Ledger.insert_row oscillink_agent.Base.exists_row ℕ_discrete
    oscillink_agent.Base.holds oscillink_agent.Base.option_discrete string_discrete
    oscillink_agent.Capabilities.check_grant oscillink_agent.Capabilities.consume
    oscillink_agent.Capabilities.insert_grant oscillink_agent.Capabilities.is_authorization
    oscillink_agent.Capabilities.is_extension_allowed oscillink_agent.Capabilities.register_locked
    oscillink_agent.Domain.Identifiers.all_codes oscillink_agent.Domain.Identifiers.is_term_code
    oscillink_agent.Domain.Json.field_is oscillink_agent.Domain.Json.get_field
    oscillink_agent.Domain.Vocabulary.actor_type_discrete
    oscillink_agent.Domain.Vocabulary.event_type_discrete
    oscillink_agent.Domain.Vocabulary.trust_discrete oscillink_agent.Ledger.check_row
    oscillink_agent.Ledger.conflicts oscillink_agent.Ledger.is_resolved
    oscillink_agent.Ledger.on_conflict oscillink_agent.Ledger.row_of grant_discrete
claim_registered = refl

claim-Approved_example : Approved broker codec events permit
claim-Approved_example =
    claim-Approved broker codec events exact (register permit ∷ []) permit.id "model_agent" 500
      permit (used ∷ []) claim_registered

-- A file of two bytes.
abbrev files : Files
files = record {
  resolve_root = λ s. some "/docs";
  is_dir = λ s. true;
  resolve_target = λ r t. some "/docs/a/b.md";
  is_relative_to = λ p r. true;
  is_file = λ p. true;
  stat = λ p. some (record { device = 1; inode = 2; size = 2; modified = 3 });
  read = λ p n. some (104 ∷ 105 ∷ [], record { device = 1; inode = 2; size = 2; modified = 3 });
  stat_again = λ p. some (record { device = 1; inode = 2; size = 2; modified = 3 });
  decode_text = λ bytes. some "hi";
  digest = λ bytes. hash_a;
}

abbrev observed : Observation
observed = record {
  grant_id = permit.id;
  scope_id = "docs";
  target = "a/b.md";
  byte_count = 2;
  content_hash = hash_a;
  content = "hi";
}

abbrev answer : Result Denial Observation
answer = ok observed

read_returns :
    execute_file_read files broker permit.id "model_agent" 500 (filed ∷ [])
    ≡ (ok observed, used ∷ [])
unfolding execute_file_read claim_grant oscillink_agent.Capabilities.claim_locked
    oscillink_agent.Base.select_one string_discrete oscillink_agent.Capabilities.check_grant
    ℕ_discrete oscillink_agent.Capabilities.is_extension_allowed oscillink_agent.Base.holds
    oscillink_agent.Capabilities.Reads.read_granted oscillink_agent.Capabilities.Reads.resolve
    oscillink_agent.Capabilities.Reads.read_path oscillink_agent.Capabilities.Reads.is_same_file
    oscillink_agent.Capabilities.consume oscillink_agent.Base.option_discrete
read_returns = refl

execute_file_read-cases_example :
    ((d : Denial) × (answer ≡ err d)
      × ((claim_grant broker permit.id "model_agent" 500 (filed ∷ [])).0 ≡ err d)
      × (used ∷ [] ≡ filed ∷ []))
    ⊎ ((g : Grant) × Claimed broker permit.id "model_agent" 500 g (filed ∷ []) (used ∷ [])
        × ((o : Observation) → answer ≡ ok o → WasRead files g o))
execute_file_read-cases_example =
    execute_file_read-cases files broker permit.id "model_agent" 500 answer (filed ∷ []) (used ∷ [])
      read_returns
