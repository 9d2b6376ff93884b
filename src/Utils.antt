-- ===== src/Utils.antt =====
-- pkg/utils: the deduplication of a MultiNetworkPolicy, and small helpers.
pub mod Dedupe
pub mod Operation
