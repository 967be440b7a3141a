-- ===== src/Container.antt =====
-- src/runtime/Container.h. Nodes are addresses, and a heap holds the links of
-- each node.
pub mod Chains
pub mod Queue
pub mod Stack
pub mod Ring
pub mod List
