-- ===== src/Markdown/Blocks.antt =====
-- shookie/src/slack/markdown-to-blocks.ts: the blocks of an answer. `toSlackMrkdwn`, a row of regular
-- expressions, is an argument; so is the fallback text left out.
pub mod Limit
use shookie.Prelude.{
  ℕ, suc, ◌-◌, Bool, true, false, not, List, [], ◌∷◌, ◌++◌, map, select, take, drop, length, leb,
  ◌==◌, if◌then◌else◌,
}
use shookie.Prelude.Text.{codes}
use shookie.Markdown.Texts.{Units, trim, split_lines, join, join_lines, is_empty}
use shookie.Markdown.Split.{split_long_code, split_long_text}
use shookie.Markdown.Parse.{
  ParsedBlock, heading2, heading3, divider, table, code, paragraph, parse_markdown,
}

-- A section's text is Slack's markup; the buttons are the same in every answer.
pub data Block : Type 0 where
  header section context : Units → Block
  rule feedback : Block

abbrev pub header_text_limit : ℕ
header_text_limit = 150

abbrev pub max_blocks : ℕ
max_blocks = 50

abbrev pub is_no_asterisk : ℕ → Bool
is_no_asterisk c = not (c == b'*')

abbrev pub strip_markdown_bold : Units → Units
strip_markdown_bold text = select is_no_asterisk text

-- `cell || other`
abbrev pub or_else : Units → Units → Units
or_else [] other = other
or_else (c ∷ cs) other = c ∷ cs

abbrev pub cell_or : Units → List Units → Units
cell_or other [] = other
cell_or other (cell ∷ cells) = or_else cell other

abbrev pub bold_item : Units → Units
bold_item text = codes "• *" ++ text ++ codes "*"

abbrev pub pair_line : List Units → Units
pair_line row = bold_item (cell_or [] row) ++ codes ": " ++ cell_or (codes "-") (drop 1 row)

-- The titles after the second, each with the row's cell.
abbrev pub labelled : List Units → List Units → List Units
labelled [] cells = []
labelled (title ∷ titles) cells =
    (title ++ codes ": " ++ cell_or (codes "-") cells) ∷ labelled titles (drop 1 cells)

abbrev pub card_rest : Units → Units
card_rest [] = []
card_rest (c ∷ cs) = codes "\n  " ++ c ∷ cs

abbrev pub card_line : List Units → List Units → Units
card_line header_row row =
    bold_item (strip_markdown_bold (cell_or [] row))
    ++ codes " — "
    ++ cell_or [] (drop 1 row)
    ++ card_rest (join (codes " | ") (labelled (drop 2 header_row) (drop 2 row)))

unfoldable pub table_to_mrkdwn : List Units → List (List Units) → Units
table_to_mrkdwn header_row rows =
    if leb (length header_row) 2
    then join_lines (map pair_line rows)
    else join_lines (map (card_line header_row) rows)

abbrev pub code_section : Units → Block
code_section chunk = section (codes "```\n" ++ chunk ++ codes "\n```")

unfoldable pub blocks_of : (Units → Units) → ParsedBlock → List Block
blocks_of mrkdwn (heading2 title) = header (take header_text_limit (strip_markdown_bold title)) ∷ []
blocks_of mrkdwn (heading3 title) =
    section (codes "*" ++ strip_markdown_bold title ++ codes "*") ∷ []
blocks_of mrkdwn divider = rule ∷ []
blocks_of mrkdwn (code text) = map code_section (split_long_code text)
blocks_of mrkdwn (table header_row rows) =
    map section (split_long_text (mrkdwn (table_to_mrkdwn header_row rows)))
blocks_of mrkdwn (paragraph text) = map (λ chunk. section (mrkdwn chunk)) (split_long_text text)

abbrev pub to_slack_blocks : (Units → Units) → List ParsedBlock → List Block
to_slack_blocks mrkdwn [] = []
to_slack_blocks mrkdwn (block ∷ blocks) = blocks_of mrkdwn block ++ to_slack_blocks mrkdwn blocks

abbrev pub is_filled : Units → Bool
is_filled line = not (is_empty line)

-- `buildDebugContextBlock`
abbrev pub debug_context : Units → Block
debug_context footer =
    context (join (codes " | ") (select is_filled (map trim (split_lines footer))))

abbrev pub omission : Block
omission = section (codes "... (응답이 너무 길어 일부가 생략되었습니다)")

abbrev pub last_block : List Block → List Block
last_block [] = []
last_block (block ∷ []) = block ∷ []
last_block (block ∷ next ∷ blocks) = last_block (next ∷ blocks)

unfoldable pub enforce_block_limit : List Block → List Block
enforce_block_limit blocks =
    if leb (length blocks) max_blocks
    then blocks
    else take (max_blocks - 2) blocks ++ omission ∷ last_block blocks

abbrev pub feedback_of : Bool → List Block
feedback_of true = feedback ∷ []
feedback_of false = []

abbrev pub footer_of : Units → List Block
footer_of [] = []
footer_of (c ∷ cs) = debug_context (c ∷ cs) ∷ []

-- The blocks before the limit.
abbrev pub all_blocks : (Units → Units) → Units → Units → Bool → List Block
all_blocks mrkdwn text footer with_feedback =
    to_slack_blocks mrkdwn (parse_markdown text) ++ feedback_of with_feedback ++ footer_of footer

-- `convertMarkdownToBlocks`
unfoldable pub convert : (Units → Units) → Units → Units → Bool → List Block
unfolding enforce_block_limit
convert mrkdwn text footer with_feedback =
    enforce_block_limit (all_blocks mrkdwn text footer with_feedback)
