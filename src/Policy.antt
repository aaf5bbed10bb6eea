-- ===== src/Policy.antt =====
-- policy/mod.rs: the policy engine, of which the pairs of processes that exchange messages and those that
-- lost their channel are modelled.
pub mod Evictions
pub mod Pairs
