-- ===== src/Oauth.antt =====
-- The Slack user tokens: their table in the database, the service that hands them out, the states of
-- the authorizations, and the callback that ends one.
pub mod Store
pub mod Tokens
pub mod States
pub mod Callback
pub mod Cipher
