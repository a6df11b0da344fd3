-- ===== src/Memory.antt =====
-- The product-owned memory repository (src/oscillink_agent/memory/repository.py).
pub mod Types
pub mod Store
pub mod Write
pub mod Review
pub mod Sync
pub mod Snapshot
pub mod Governance
