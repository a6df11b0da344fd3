-- ===== src/Memory/Governance.antt =====
-- What governs the authority of stored memory (memory/repository.py): records are stored open, and
-- only the log of reviews can close them. The parent of the proofs about every operation.
pub mod Writes
pub mod Approval
pub mod Runs
use oscillink_agent.Base.{
  ℕ, Bool, true, false, ◌≡◌, List, [], ◌∷◌, All, Result, ok, err, if◌then◌else◌,
}
use oscillink_agent.Memory.Types.{AuthorityState, rejected, superseded, MemoryRecord}
use oscillink_agent.Memory.Store.{Store, Review, MemoryError}
use oscillink_agent.Memory.Write.{Native, create_native}
use oscillink_agent.Memory.Write.Tables.{HasDistinctIds}
use oscillink_agent.Memory.Review.{Decision, is_open, is_supported, review}
use oscillink_agent.Memory.Sync.{SyncRequest}
use oscillink_agent.Memory.Snapshot.{sync_obsidian}

abbrev pub IsOpen : MemoryRecord → Type 0
IsOpen r = is_open r.authority_state ≡ true

abbrev pub IsDecision : Review → Type 0
IsDecision v = is_supported v.decision ≡ true

-- The invariant of the repository.
pub record Governed (s : Store) : Type 0 where
  pub records : All IsOpen s.records
  pub revisions : All IsOpen s.revisions
  pub reviews : All IsDecision s.reviews
  pub ids : HasDistinctIds s.records

-- A call of the repository that writes.
pub data Operation : Type 0 where
  create : ℕ → Native → Operation
  decide : Decision → Operation
  sync : (ℕ → ℕ) → SyncRequest → Operation

-- The store after a call, whether it returns or raises.
unfoldable pub perform : Operation → Store → Store
perform (create bytes n) s = (create_native bytes n s).1
perform (decide d) s = (review d s).1
perform (sync draw q) s = (sync_obsidian draw q s).1

unfoldable pub run : List Operation → Store → Store
unfolding perform
run [] s = s
run (op ∷ ops) s = run ops (perform op s)

-- A decision after which the revision is closed for good.
unfoldable pub is_final : AuthorityState → Bool
is_final rejected = true
is_final superseded = true
is_final _ = false
