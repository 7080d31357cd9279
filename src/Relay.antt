-- ===== src/Relay.antt =====
-- The relay of Slack messages to Radar: a durable outbox (database/src/slack-message-relay.ts) and the
-- drain that delivers its rows (shookie/src/slack/message-relay).
pub mod Outbox
pub mod Event
pub mod Capture
pub mod Drain
