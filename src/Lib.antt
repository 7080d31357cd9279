-- ===== src/Lib.antt =====
-- Shookie is a Slack bot. This development models its core and states what makes each part correct.
--
-- The parts, and where the code of each is:
--
-- * Conversations. A question to the bot becomes a run of `ConversationRuntime`
--   (shookie/src/slack/conversation-runtime.ts), which admits it, queues it behind the other runs of its
--   thread, and takes one of four places. While it executes, a `ConversationControl`
--   (shookie/src/cancellation/conversation-control.ts) decides between its cancellation, its deadline and
--   its commit; a `CancellationRegistry` (shookie/src/cancellation/request-registry.ts) finds the control
--   for a press of the cancel button. The dialogue so far comes from `InMemoryConversationStore` and
--   `budgetMessages` (shookie/src/services/memory/in-memory.ts, its bounds in limits.ts).
--     Cancellation/Control: the control; a state as a record, one function for each method, and an
--       asynchronous method split where it awaits (`commit` into `begin_commit` and `end_commit`).
--     Cancellation/Registry: the registry; the controls are a list, since several callers hold them.
--     Conversation/Memory: the cache (`get`, `set_messages`, `clear`) and the budget.
--     Conversation/Runtime: admission, the lanes of the threads, the semaphore; the promise that a run
--       chains on is its place in a queue.
--     Conversation/Body: what a run does while it holds its place. The callback `execute` is a script that
--       goes on by whether its commit threw; before each step the control may be cancelled or time out.
--     Conversation/Repository: the tables of events and turns (database/src/conversations.ts).
-- * The message relay. An event of which metadata is taken is handed on, and so acknowledged, only after
--   the capture (shookie/src/slack/message-relay/capture.ts) has stored the metadata, which
--   `extractRelayMessage` (event.ts beside it) takes of a new message of a public channel. It stands in
--   the outbox, a table (database/src/slack-message-relay.ts), and a drainer
--   (shookie/src/slack/message-relay/drain.ts) delivers them to Radar under leases.
--     Relay/Outbox: the table as a list of rows; each function is one transaction at the database's time.
--       Relay/Outbox/Outcomes and Relay/Outbox/Upkeep hold the updates by the holder of a claim, the
--       recovery and the retention.
--     Relay/Event: the extraction, on any JSON value.
--     Relay/Capture: the capture, split where it awaits the outbox; Relay/Capture/Runs: its calls among the
--       other transactions of the outbox.
--     Relay/Drain: what a delivery attempt makes of Radar's answer, and what it reports to the store.
-- * Mention groups. An event is handed on only if the guard against repeated deliveries lets it
--   (shookie/src/slack/mention-groups/event-deduper.ts); then a service replaces the mentions in the
--   author's message with the author's token (shookie/src/slack/mention-groups/service.ts).
--     Mentions/Event: which messages are taken (shookie/src/slack/mention-groups/event.ts).
--     Mentions/Deduper: the guard; a JavaScript Map is the list of its entries in insertion order.
--     Mentions/Finder: the search for handles in a text, and Mentions/Parser: the replacement plan and the
--       group index (shookie/src/slack/mention-groups/parser.ts).
--     Mentions/Catalog: the client of Radar's catalog of groups, which caches it
--       (shookie/src/slack/mention-groups/radar-client.ts).
--     Mentions/Service: the service, with the calls that reach the message or its author in a log.
-- * User tokens. Slack user tokens stand in a table (database/src/slack-user-oauth.ts) and are handed out,
--   refreshed and revoked by a service (shookie/src/slack/user-oauth/token-service.ts).
--   They come from an authorization, which is begun with a state (database/src/slack-oauth-state.ts,
--   state-service.ts beside the service) and ended by a callback (controller.ts there).
--     Oauth/Store: the table as a function of team and user.
--     Oauth/Tokens: the service, with Oauth/Tokens/Refresh, Attempt and Grants for its methods. The other
--       processes that use the table change it in any way before each of its accesses. The write of a grant
--       may throw, also after it was committed.
--     Oauth/States: the states as a list of rows, and their service; Oauth/Callback: the controller, over
--       the models of the states and of the tokens. The follow-up of the application may use the tokens in
--       any way.
--     Oauth/Cipher: the envelope of an encrypted token (shookie/src/security/token-cipher.ts).
-- * Answers. The bot's answer, in Markdown, becomes Slack blocks
--   (shookie/src/slack/markdown-to-blocks.ts). A text is the list of its UTF-16 units.
--     Markdown/Parse: the loop over the lines, with its regular expressions written out.
--     Markdown/Split: `splitLongText` and `splitLongCode`. Markdown/Blocks: the blocks and their limit.
--
-- Prelude holds what these share: JSON values, the code points of texts, Boolean tests, lists measured by
-- native numbers, and maps with text keys.
-- Examples runs the models at concrete inputs.
--
-- Clocks are arguments, in milliseconds. The loops go down a list, and the retries of `getAccessToken`
-- go down their number, which is 2; only the search for code and links in a text takes fuel, one more than
-- the text's length, and each round of it moves the cursor on. Texts are measured in bytes of UTF-8
-- where the source does so; JavaScript's `trim`, date parser and length in UTF-16 units are parameters, as are the answers of
-- Slack and Radar and the cipher.
--
-- Not modelled: Slack's views and messages, the agent and its tools, the markup of answers, telemetry,
-- configuration and the wiring of the process, which call libraries and services for the most part; and, of
-- the core, the resumption of a replacement after an authorization, the slash commands,
-- `toSlackMrkdwn`, the reminders and the reaction relay.
pub mod Oauth
pub mod Prelude
pub mod Cancellation
pub mod Conversation
pub mod Mentions
pub mod Markdown
pub mod Relay
pub mod Examples
