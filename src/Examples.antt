-- ===== src/Examples.antt =====
-- Runs of the model at concrete inputs, and each theorem with hypotheses at one that meets them.
mod Cancellation
mod Conversation
mod Relay
mod Drain
mod Runtime
mod Mentions
mod Oauth
mod Events
mod Posted
mod Ciphers
mod Bodies
mod Answers
mod Catalogs
mod Authorization
