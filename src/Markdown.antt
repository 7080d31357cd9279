-- ===== src/Markdown.antt =====
-- The answers as Slack blocks: texts, the splitting of long ones, the parser of lines, and the blocks.
pub mod Texts
pub mod Split
pub mod Parse
pub mod Blocks
