-- ===== src/Mentions.antt =====
-- The mention groups: the events taken, the guard against repeated ones, the catalog, and the replacement.
pub mod Deduper
pub mod Service
pub mod Event
pub mod Parser
pub mod Finder
pub mod Catalog
