-- ===== src/Relay.antt =====
-- crates/asm-relay: the relay between clients and the nodes that dial out to it.
pub mod Nodes
pub mod Control
