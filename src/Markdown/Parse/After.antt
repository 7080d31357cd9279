-- ===== src/Markdown/Parse/After.antt =====
-- shookie/src/slack/markdown-to-blocks.ts: the loop of `parseMarkdown` only adds to its result.
use mathlib.Core.List.{append_assoc}
use shookie.Prelude.{
  Bool, true, false, Option, none, some, List, [], ◌∷◌, ◌++◌, ◌≡◌, refl, ◌∙◌, ap, select,
}
use shookie.Markdown.Texts.{Units, trim, join_lines}
use shookie.Markdown.Parse.{
  ParsedBlock, Parser, is_fence, is_rule, heading_of, cells_of, flush_paragraph, flush_rows,
  flush_table, flush_both, flush_code, add_block, open_table, parse_row, parse_heading3,
  parse_heading2, parse_text, parse_line, parse_lines, end_parse, code_of, is_data_row, table_of,
  paragraph_of, leave_table, parse_rule, take_line, close_code, heading2, heading3, divider,
}

-- The same parser after other results.
abbrev pub after : List ParsedBlock → Parser → Parser
after blocks p = record p { result = blocks ++ p.result }

append-after :
    (b more : List ParsedBlock) (p : Parser)
    → record p { result = b ++ p.result ++ more } ≡ after b (record p { result = p.result ++ more })
append-after b more p = ap (λ blocks. record p { result = blocks }) (append_assoc b p.result more)

flush_rows-after :
    (b : List ParsedBlock) (rows : List (List Units)) (p : Parser)
    → flush_rows rows (after b p) ≡ after b (flush_rows rows p)
flush_rows-after b [] p = refl
flush_rows-after b (header ∷ rows) p =
    append-after b (table_of header (select is_data_row rows))
      (record p { rows = []; in_table = false })

flush_paragraph-after :
    (b : List ParsedBlock) (p : Parser) → flush_paragraph (after b p) ≡ after b (flush_paragraph p)
flush_paragraph-after b p =
    append-after b (paragraph_of (trim (join_lines p.lines))) (record p { lines = [] })

flush_both-after :
    (b : List ParsedBlock) (p : Parser) → flush_both (after b p) ≡ after b (flush_both p)
flush_both-after b p =
    ap flush_table (flush_paragraph-after b p) ∙ flush_rows-after b p.rows (flush_paragraph p)

flush_code-after :
    (b : List ParsedBlock) (p : Parser) → flush_code (after b p) ≡ after b (flush_code p)
flush_code-after b p =
    append-after b (code_of (join_lines p.code_lines)) (record p { code_lines = [] })

add_block-after :
    (b : List ParsedBlock) (block : ParsedBlock) (p : Parser)
    → add_block block (flush_both (after b p)) ≡ after b (add_block block (flush_both p))
add_block-after b block p =
    ap (add_block block) (flush_both-after b p) ∙ append-after b (block ∷ []) (flush_both p)

leave_table-after :
    (b : List ParsedBlock) (within : Bool) (p : Parser)
    → leave_table within (after b p) ≡ after b (leave_table within p)
leave_table-after b true p = flush_rows-after b p.rows p
leave_table-after b false p = refl

open_table-after :
    (b : List ParsedBlock) (within : Bool) (p : Parser)
    → open_table within (after b p) ≡ after b (open_table within p)
open_table-after b true p = refl
open_table-after b false p =
    ap {A = Parser} (λ q. record q { in_table = true; rows = [] }) (flush_paragraph-after b p)

parse_row-after :
    (b : List ParsedBlock) (line : Units) (row : Option (List Units)) (p : Parser)
    → parse_row line row (after b p) ≡ after b (parse_row line row p)
parse_row-after b line none p =
    ap {A = Parser} (λ q. record q { lines = q.lines ++ line ∷ [] })
      (leave_table-after b p.in_table p)
parse_row-after b line (some cells) p =
    ap {A = Parser} (λ q. record q { rows = q.rows ++ cells ∷ [] })
      (open_table-after b p.in_table p)

parse_heading3-after :
    (b : List ParsedBlock) (line : Units) (title : Option Units) (p : Parser)
    → parse_heading3 line title (after b p) ≡ after b (parse_heading3 line title p)
parse_heading3-after b line none p = parse_row-after b line (cells_of line) p
parse_heading3-after b line (some title) p = add_block-after b (heading3 title) p

parse_heading2-after :
    (b : List ParsedBlock) (line : Units) (title : Option Units) (p : Parser)
    → parse_heading2 line title (after b p) ≡ after b (parse_heading2 line title p)
parse_heading2-after b line none p =
    parse_heading3-after b line (heading_of (b'#' ∷ b'#' ∷ b'#' ∷ []) line) p
parse_heading2-after b line (some title) p = add_block-after b (heading2 title) p

parse_rule-after :
    (b : List ParsedBlock) (line : Units) (rule : Bool) (p : Parser)
    → parse_rule line rule (after b p) ≡ after b (parse_rule line rule p)
parse_rule-after b line true p = add_block-after b divider p
parse_rule-after b line false p = parse_heading2-after b line (heading_of (b'#' ∷ b'#' ∷ []) line) p

take_line-after :
    (b : List ParsedBlock) (line : Units) (fenced within : Bool) (p : Parser)
    → take_line line fenced within (after b p) ≡ after b (take_line line fenced within p)
unfolding parse_text
take_line-after b line true true p = flush_code-after b (record p { in_code = false })
take_line-after b line true false p =
    ap {A = Parser} (λ q. record q { in_code = true }) (flush_both-after b p)
take_line-after b line false true p = refl
take_line-after b line false false p = parse_rule-after b line (is_rule line) p

pub parse_lines-after :
    (b : List ParsedBlock) (lines : List Units) (p : Parser)
    → parse_lines lines (after b p) ≡ after b (parse_lines lines p)
unfolding parse_lines parse_line
parse_lines-after b [] p = refl
parse_lines-after b (line ∷ lines) p =
    ap (parse_lines lines) (take_line-after b line (is_fence line) p.in_code p)
    ∙ parse_lines-after b lines (parse_line line p)

close_code-after :
    (b : List ParsedBlock) (within : Bool) (p : Parser)
    → (close_code within (after b p)).result ≡ b ++ (close_code within p).result
close_code-after b true p = append_assoc b p.result (code_of (join_lines p.code_lines))
close_code-after b false p = refl

pub end_parse-after : (b : List ParsedBlock) (p : Parser) → end_parse (after b p) ≡ b ++ end_parse p
end_parse-after b p =
    ap (λ q. (close_code p.in_code q).result) (flush_both-after b p)
    ∙ close_code-after b p.in_code (flush_both p)
