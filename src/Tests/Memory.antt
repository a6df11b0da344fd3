-- ===== src/Tests/Memory.antt =====
-- The theorems about memory, applied.
use oscillink_agent.Base.{
  ℕ, ◌+◌, ◌*◌, ◌≡◌, ◌≢◌, ◌⊎◌, ◌↔◌, refl, String, true, false, some, List, [], ◌∷◌, ◌++◌, ok, err,
  string_discrete, list_discrete, option_discrete, select_one, Occurs,
}
use oscillink_agent.Domain.Tokens.{new_record_id}
use oscillink_agent.Memory.Types.{AuthorityState, approved, rejected, candidate, MemoryRecord}
use oscillink_agent.Memory.Store.{Store, Review, get, latest_review, create_conflict, empty}
use oscillink_agent.Memory.Write.{create_native, native_record}
use oscillink_agent.Memory.Write.Explicit.{create_native_idem}
use oscillink_agent.Memory.Review.{Decision, review, review_row}
use oscillink_agent.Memory.Review.Transitions.{Replayed, Decided, review-Decided, review_idem}
use oscillink_agent.Memory.Sync.{SyncResult, note_record}
use oscillink_agent.Memory.Snapshot.{sync_obsidian}
use oscillink_agent.Memory.Snapshot.Effects.{Replayed as Resynchronized}
use oscillink_agent.Memory.Snapshot.Replay.{replay_result, sync_obsidian-repeat}
use oscillink_agent.Memory.Governance.{Governed, Operation, create, decide, sync, run}
use oscillink_agent.Memory.Governance.Writes.{run-Governed}
use oscillink_agent.Memory.Governance.Approval.{approved_iff}
use oscillink_agent.Memory.Governance.Runs.{run_final}
use oscillink_agent.Tests.{
  first_id, second_id, hash_a, hash_b, proposed, one_candidate, approval, vault, solar, note_of,
}

abbrev reviewed : MemoryRecord
reviewed = record proposed { authority_state = approved }

abbrev after_approval : Store
after_approval = (review approval one_candidate).1

approval_returns : review approval one_candidate ≡ (ok reviewed, after_approval)
unfolding review oscillink_agent.Memory.Review.is_supported
    oscillink_agent.Domain.Identifiers.is_idempotency_key oscillink_agent.Base.ℕ_discrete
    oscillink_agent.Memory.Review.review_locked get select_one string_discrete
    oscillink_agent.Memory.Review.decide oscillink_agent.Memory.Review.is_allowed
    oscillink_agent.Memory.Types.state_discrete oscillink_agent.Memory.Store.with_review_state
    oscillink_agent.Base.select_latest option_discrete oscillink_agent.Base.exists_row
approval_returns = refl

review-Decided_example :
    (current : MemoryRecord) × (get after_approval approval.record_id ≡ some reviewed)
    × (Replayed one_candidate approval current after_approval
        ⊎ Decided one_candidate approval current after_approval)
review-Decided_example =
    review-Decided one_candidate after_approval approval reviewed approval_returns

review_idem_example : review approval after_approval ≡ (ok reviewed, after_approval)
review_idem_example = review_idem one_candidate after_approval approval reviewed approval_returns

one_candidate-Governed : Governed one_candidate
unfolding oscillink_agent.Memory.Review.is_open oscillink_agent.Base.exists_row
one_candidate-Governed = record {
  records = (refl, tt);
  revisions = (refl, tt);
  reviews = tt;
  ids = (refl, tt);
}

abbrev approved_store : Store
approved_store = record one_candidate { reviews = review_row proposed approval ∷ [] }

approved_store-Governed : Governed approved_store
unfolding oscillink_agent.Memory.Review.is_open oscillink_agent.Memory.Review.is_supported
    review_row oscillink_agent.Base.exists_row
approved_store-Governed = record {
  records = (refl, tt);
  revisions = (refl, tt);
  reviews = (refl, tt);
  ids = (refl, tt);
}

get_approved : get approved_store first_id ≡ some reviewed
unfolding get select_one string_discrete oscillink_agent.Memory.Store.with_review_state
    oscillink_agent.Base.select_latest review_row
get_approved = refl

approved_iff_example : (reviewed.authority_state ≡ approved) ↔ (
    (v : Review) × (latest_review approved_store first_id hash_a ≡ some v)
    × (v.decision ≡ approved))
approved_iff_example =
    approved_iff approved_store first_id reviewed approved_store-Governed get_approved

abbrev rejection : Review
rejection = review_row proposed (record approval { decision = rejected })

abbrev rejected_store : Store
rejected_store = record one_candidate { reviews = rejection ∷ [] }

-- Different numbers for different calls.
abbrev draws : ℕ → ℕ
draws n = 64 * (n + 1)

abbrev calls : List Operation
calls =
    decide (record approval {
      idempotency_key = "approve-2";
      event_id = "evt_00000000000000000000000009";
    })
    ∷ create 64 solar
    ∷ sync draws vault
    ∷ []

latest_rejection : latest_review rejected_store first_id hash_a ≡ some rejection
unfolding latest_review oscillink_agent.Base.select_latest string_discrete review_row
latest_rejection = refl

run_final_example : latest_review (run calls rejected_store) first_id hash_a ≡ some rejection
unfolding oscillink_agent.Memory.Governance.is_final review_row
run_final_example = run_final first_id hash_a rejection calls rejected_store latest_rejection refl

run-Governed_example : Governed (run calls one_candidate)
run-Governed_example = run-Governed calls one_candidate one_candidate-Governed

abbrev synced : SyncResult
synced = record {
  records =
      note_record (new_record_id 64) "vault" (note_of "a.md" hash_a)
      ∷ note_record (new_record_id 128) "vault" (note_of "b.md" hash_b)
      ∷ [];
  counts = record { created = 2; revised = 0; unchanged = 0; missing = 0; issues = 0 };
}

abbrev after_sync : Store
after_sync = (sync_obsidian draws vault one_candidate).1

sync_returns : sync_obsidian draws vault one_candidate ≡ (ok synced, after_sync)
unfolding sync_obsidian oscillink_agent.Memory.Snapshot.sync_obsidian_locked
    oscillink_agent.Domain.Identifiers.is_idempotency_key oscillink_agent.Base.ℕ_discrete
    oscillink_agent.Memory.Snapshot.replay_or_synchronize select_one oscillink_agent.Base.exists_row
    oscillink_agent.Memory.Snapshot.synchronize oscillink_agent.Memory.Sync.sync_notes
    oscillink_agent.Memory.Sync.sync_note oscillink_agent.Memory.Sync.store_identified
    oscillink_agent.Memory.Sync.identify oscillink_agent.Base.select
    oscillink_agent.Memory.Sync.store_note oscillink_agent.Memory.Store.is_valid
    oscillink_agent.Domain.Identifiers.is_memory_record_id new_record_id option_discrete
    string_discrete oscillink_agent.Base.select_latest oscillink_agent.Domain.Identifiers.all_codes
    oscillink_agent.Domain.Identifiers.has_token oscillink_agent.Domain.Identifiers.is_actor_id
    oscillink_agent.Domain.Identifiers.is_crockford oscillink_agent.Domain.Identifiers.is_digest
    oscillink_agent.Domain.Identifiers.is_event_id oscillink_agent.Domain.Identifiers.is_hex
    oscillink_agent.Domain.Identifiers.is_record_id oscillink_agent.Domain.Identifiers.is_term_code
    oscillink_agent.Domain.Identifiers.strip_prefix oscillink_agent.Domain.Tokens.crockford
    oscillink_agent.Domain.Tokens.encode oscillink_agent.Domain.Tokens.symbol
    oscillink_agent.Domain.Tokens.token_id oscillink_agent.Memory.Snapshot.is_same_sync
    oscillink_agent.Memory.Snapshot.mark oscillink_agent.Memory.Snapshot.mark_all_missing
    oscillink_agent.Memory.Snapshot.mark_missing oscillink_agent.Memory.Snapshot.record_sync
    oscillink_agent.Memory.Snapshot.sync_row get oscillink_agent.Memory.Store.list
    oscillink_agent.Memory.Store.stored oscillink_agent.Memory.Store.with_review_state
    oscillink_agent.Memory.Sync.count_note oscillink_agent.Memory.Sync.is_current note_record
    oscillink_agent.Memory.Sync.put_binding oscillink_agent.Memory.Sync.unbind
    oscillink_agent.Memory.Sync.upsert_binding oscillink_agent.Memory.Types.category_discrete
    oscillink_agent.Memory.Types.domain_discrete oscillink_agent.Memory.Types.kind_discrete
    oscillink_agent.Memory.Types.node_discrete oscillink_agent.Memory.Types.record_discrete
    oscillink_agent.Memory.Types.state_discrete oscillink_agent.Memory.Write.insert_revision
    oscillink_agent.Memory.Write.upsert oscillink_agent.Memory.Write.write_record
sync_returns = refl

sync_obsidian-repeat_example :
    sync_obsidian draws vault after_sync
    ≡ (ok (replay_result vault after_sync synced.counts), after_sync)
sync_obsidian-repeat_example =
    sync_obsidian-repeat draws vault one_candidate after_sync synced sync_returns

abbrev created : MemoryRecord
created = native_record second_id solar

abbrev after_creation : Store
after_creation = (create_native 64 solar one_candidate).1

creation_returns : create_native 64 solar one_candidate ≡ (ok created, after_creation)
unfolding create_native oscillink_agent.Memory.Store.is_valid
    oscillink_agent.Domain.Identifiers.is_memory_record_id native_record
    oscillink_agent.Base.ℕ_discrete oscillink_agent.Domain.Identifiers.is_digest
    oscillink_agent.Domain.Identifiers.is_actor_id
    oscillink_agent.Memory.Write.insert_explicit_record oscillink_agent.Memory.Store.stored
    select_one string_discrete oscillink_agent.Base.exists_row
    oscillink_agent.Memory.Types.record_discrete
creation_returns = refl

create_native_idem_example : create_native 128 solar after_creation ≡ (ok created, after_creation)
create_native_idem_example =
    create_native_idem solar second_id refl 64 128 one_candidate after_creation created
      creation_returns
