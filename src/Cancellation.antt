-- ===== src/Cancellation.antt =====
-- shookie/src/cancellation: stopping a conversation that is being answered.
pub mod Control
pub mod Registry
