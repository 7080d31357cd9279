-- ===== src/Conversation.antt =====
-- The conversation core: the dialogue cache and its budget, and the admission and the places of runs.
pub mod Memory
pub mod Runtime
pub mod Repository
pub mod Body
