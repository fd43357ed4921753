-- ===== src/Audit.antt =====
-- packages/runtime/src/audit
pub mod MerkleRoot
