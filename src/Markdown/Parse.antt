-- ===== src/Markdown/Parse.antt =====
-- shookie/src/slack/markdown-to-blocks.ts: `parseMarkdown`, a loop over the lines. The regular
-- expressions are written out; where one has a capture that is then trimmed, as what is captured in the
-- end.
pub mod Tidy
pub mod After
pub mod Fences
use shookie.Prelude.{
  ℕ, Bool, true, false, not, Option, none, some, List, [], ◌∷◌, ◌++◌, map, reverse, select, drop,
  length, leb, ltb, ◌==◌, ◌&&◌, ◌||◌, if◌then◌else◌,
}
use shookie.Prelude.Text.{all_of, starts_with}
use shookie.Markdown.Texts.{
  Units, is_space, is_terminator, trim_start, trim, split, split_lines, join_lines, is_empty,
}

-- A table's header row and its other rows.
pub data ParsedBlock : Type 0 where
  heading2 heading3 code paragraph : Units → ParsedBlock
  divider : ParsedBlock
  table : List Units → List (List Units) → ParsedBlock

abbrev pub fence : Units
fence = b'`' ∷ b'`' ∷ b'`' ∷ []

abbrev pub is_fence : Units → Bool
is_fence line = starts_with fence (trim_start line)

-- /^-{3,}\s*$/
abbrev drop_dashes : Units → Units
drop_dashes [] = []
drop_dashes (c ∷ cs) = let rest = drop_dashes cs in if c == b'-' then rest else c ∷ cs

unfoldable pub is_rule : Units → Bool
unfolding all_of
is_rule line = starts_with (b'-' ∷ b'-' ∷ b'-' ∷ []) line && all_of is_space (drop_dashes line)

-- /^\s+(.+)$/ on what follows the hashes, and its capture trimmed: of white space alone, the last unit
-- is captured, if it ends no line.
abbrev is_inline : ℕ → Bool
is_inline c = not (is_terminator c)

abbrev blank_title : Units → Option Units
blank_title [] = none
blank_title (c ∷ []) = none
blank_title (c ∷ d ∷ cs) = elim (reverse (d ∷ cs)) [
  | [] ↦ none
  | last ∷ rest ↦ if is_inline last then some [] else none
]

abbrev title_from : Units → Units → Option Units
title_from all [] = blank_title all
title_from all (c ∷ cs) = if all_of is_inline (c ∷ cs) then some (trim (c ∷ cs)) else none

abbrev title_after : Units → Option Units
title_after [] = none
title_after (c ∷ cs) = if is_space c then title_from (c ∷ cs) (trim_start (c ∷ cs)) else none

unfoldable pub heading_of : Units → Units → Option Units
heading_of hashes line =
    if starts_with hashes line then title_after (drop (length hashes) line) else none

-- /^\|(.+)\|$/, and the capture split at the bars
abbrev inside : Units → Option Units
inside [] = none
inside (c ∷ cs) = elim (reverse cs) [
  | [] ↦ none
  | last ∷ middle ↦
      if c == b'|' && last == b'|' && not (is_empty middle) && all_of is_inline middle
      then some (reverse middle)
      else none
]

abbrev pub cells_from : Option Units → Option (List Units)
cells_from none = none
cells_from (some row) = some (split b'|' row)

unfoldable pub cells_of : Units → Option (List Units)
cells_of line = cells_from (inside line)

-- /^[-:\s]+$/ on a trimmed cell
abbrev is_separator_unit : ℕ → Bool
is_separator_unit c = c == b'-' || c == b':' || is_space c

abbrev is_separator_cell : Units → Bool
is_separator_cell cell = not (is_empty (trim cell)) && all_of is_separator_unit (trim cell)

abbrev all_cells : List Units → Bool
all_cells [] = true
all_cells (cell ∷ cells) = is_separator_cell cell && all_cells cells

unfoldable pub is_separator_row : List Units → Bool
is_separator_row row = all_cells row

abbrev pub is_data_row : List Units → Bool
is_data_row row = not (is_separator_row row)

abbrev pub trim_cells : List Units → List Units
trim_cells row = map trim row

-- The variables of the loop, with the lines and rows in their order.
pub record Parser : Type 0 where
  pub result : List ParsedBlock
  pub lines : List Units
  pub rows : List (List Units)
  pub code_lines : List Units
  pub in_code : Bool
  pub in_table : Bool

abbrev pub paragraph_of : Units → List ParsedBlock
paragraph_of [] = []
paragraph_of (c ∷ cs) = paragraph (c ∷ cs) ∷ []

abbrev pub flush_paragraph : Parser → Parser
flush_paragraph p = record p {
  result = p.result ++ paragraph_of (trim (join_lines p.lines));
  lines = [];
}

abbrev pub table_of : List Units → List (List Units) → List ParsedBlock
table_of header [] = []
table_of header (row ∷ rows) = table (trim_cells header) (map trim_cells (row ∷ rows)) ∷ []

-- Without a row `inTable` stays.
abbrev pub flush_rows : List (List Units) → Parser → Parser
flush_rows [] p = p
flush_rows (header ∷ rows) p = record p {
  result = p.result ++ table_of header (select is_data_row rows);
  rows = [];
  in_table = false;
}

abbrev pub flush_table : Parser → Parser
flush_table p = flush_rows p.rows p

abbrev pub code_of : Units → List ParsedBlock
code_of [] = []
code_of (c ∷ cs) = code (c ∷ cs) ∷ []

abbrev pub flush_code : Parser → Parser
flush_code p = record p { result = p.result ++ code_of (join_lines p.code_lines); code_lines = [] }

abbrev pub flush_both : Parser → Parser
flush_both p = flush_table (flush_paragraph p)

abbrev pub add_block : ParsedBlock → Parser → Parser
add_block block p = record p { result = p.result ++ block ∷ [] }

abbrev pub cross_fence : Bool → Parser → Parser
cross_fence true p = flush_code (record p { in_code = false })
cross_fence false p = record (flush_both p) { in_code = true }

abbrev pub add_code : Units → Parser → Parser
add_code line p = record p { code_lines = p.code_lines ++ line ∷ [] }

abbrev pub open_table : Bool → Parser → Parser
open_table true p = p
open_table false p = record (flush_paragraph p) { in_table = true; rows = [] }

abbrev pub add_row : List Units → Parser → Parser
add_row cells p = let p' = open_table p.in_table p in record p' { rows = p'.rows ++ cells ∷ [] }

abbrev pub leave_table : Bool → Parser → Parser
leave_table true p = flush_table p
leave_table false p = p

abbrev pub add_plain : Units → Parser → Parser
add_plain line p = let p' = leave_table p.in_table p in record p' { lines = p'.lines ++ line ∷ [] }

abbrev pub parse_row : Units → Option (List Units) → Parser → Parser
parse_row line none p = add_plain line p
parse_row line (some cells) p = add_row cells p

abbrev pub parse_heading3 : Units → Option Units → Parser → Parser
parse_heading3 line none p = parse_row line (cells_of line) p
parse_heading3 line (some title) p = add_block (heading3 title) (flush_both p)

abbrev pub parse_heading2 : Units → Option Units → Parser → Parser
parse_heading2 line none p = parse_heading3 line (heading_of (b'#' ∷ b'#' ∷ b'#' ∷ []) line) p
parse_heading2 line (some title) p = add_block (heading2 title) (flush_both p)

abbrev pub parse_rule : Units → Bool → Parser → Parser
parse_rule line true p = add_block divider (flush_both p)
parse_rule line false p = parse_heading2 line (heading_of (b'#' ∷ b'#' ∷ []) line) p

-- A line outside code.
unfoldable pub parse_text : Units → Parser → Parser
parse_text line p = parse_rule line (is_rule line) p

abbrev pub take_line : Units → Bool → Bool → Parser → Parser
take_line line true in_code p = cross_fence in_code p
take_line line false true p = add_code line p
take_line line false false p = parse_text line p

unfoldable pub parse_line : Units → Parser → Parser
unfolding parse_text
parse_line line p = take_line line (is_fence line) p.in_code p

unfoldable pub parse_lines : List Units → Parser → Parser
parse_lines [] p = p
parse_lines (line ∷ lines) p = parse_lines lines (parse_line line p)

abbrev pub new_parser : Parser
new_parser = record {
  result = [];
  lines = [];
  rows = [];
  code_lines = [];
  in_code = false;
  in_table = false;
}

abbrev pub close_code : Bool → Parser → Parser
close_code true p = flush_code p
close_code false p = p

-- After the loop; an unterminated code is a code.
abbrev pub end_parse : Parser → List ParsedBlock
end_parse p = (close_code p.in_code (flush_both p)).result

unfoldable pub parse_all : List Units → List ParsedBlock
unfolding parse_lines
parse_all lines = end_parse (parse_lines lines new_parser)

unfoldable pub parse_markdown : Units → List ParsedBlock
unfolding parse_all
parse_markdown text = parse_all (split_lines text)
