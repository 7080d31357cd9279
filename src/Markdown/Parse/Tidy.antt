-- ===== src/Markdown/Parse/Tidy.antt =====
-- shookie/src/slack/markdown-to-blocks.ts: what the loop of `parseMarkdown` keeps true of its variables.
use shookie.Prelude.{
  Bool, true, false, not, Option, none, some, List, [], ◌∷◌, ◌++◌, ◌≡◌, refl, sym, ◌∙◌, ap,
}
use shookie.Markdown.Texts.{Units, is_empty}
use shookie.Markdown.Parse.{
  ParsedBlock, Parser, is_fence, is_rule, heading_of, cells_of, flush_paragraph, flush_rows,
  flush_both, add_block, open_table, parse_row, parse_heading3, parse_heading2, parse_text,
  parse_line, parse_lines, leave_table, parse_rule, take_line,
}

-- A table is open exactly if it has rows, and no code is kept outside code.
abbrev pub Tidy : Parser → Type 0
Tidy p = (p.in_table ≡ not (is_empty p.rows)) × (p.in_code ≡ false → p.code_lines ≡ [])

flush_rows-Tidy :
    (rows : List (List Units)) (p : Parser) → p.rows ≡ rows → Tidy p → Tidy (flush_rows rows p)
flush_rows-Tidy [] p e t = t
flush_rows-Tidy (header ∷ rows) p e t = (refl, t.1)

flush_both-Tidy : (p : Parser) → Tidy p → Tidy (flush_both p)
flush_both-Tidy p t = flush_rows-Tidy p.rows (flush_paragraph p) refl t

snoc_nonempty : (rows : List (List Units)) (row : List Units) → is_empty (rows ++ row ∷ []) ≡ false
snoc_nonempty [] row = refl
snoc_nonempty (first ∷ rows) row = refl

add_block-Tidy : (block : ParsedBlock) (p : Parser) → Tidy p → Tidy (add_block block (flush_both p))
add_block-Tidy block p t = flush_both-Tidy p t

open_table-Tidy :
    (within : Bool) (cells : List Units) (p : Parser)
    → p.in_table ≡ within
    → Tidy p
    → Tidy (record (open_table within p) { rows = (open_table within p).rows ++ cells ∷ [] })
open_table-Tidy true cells p e t = (e ∙ ap not (sym (snoc_nonempty p.rows cells)), t.1)
open_table-Tidy false cells p e t = (refl, t.1)

leave_table-Tidy : (within : Bool) (p : Parser) → Tidy p → Tidy (leave_table within p)
leave_table-Tidy true p t = flush_rows-Tidy p.rows p refl t
leave_table-Tidy false p t = t

parse_row-Tidy :
    (line : Units) (row : Option (List Units)) (p : Parser) → Tidy p → Tidy (parse_row line row p)
parse_row-Tidy line none p t = leave_table-Tidy p.in_table p t
parse_row-Tidy line (some cells) p t = open_table-Tidy p.in_table cells p refl t

parse_heading3-Tidy :
    (line : Units) (title : Option Units) (p : Parser) → Tidy p → Tidy (parse_heading3 line title p)
parse_heading3-Tidy line none p t = parse_row-Tidy line (cells_of line) p t
parse_heading3-Tidy line (some title) p t = flush_both-Tidy p t

parse_heading2-Tidy :
    (line : Units) (title : Option Units) (p : Parser) → Tidy p → Tidy (parse_heading2 line title p)
parse_heading2-Tidy line none p t =
    parse_heading3-Tidy line (heading_of (b'#' ∷ b'#' ∷ b'#' ∷ []) line) p t
parse_heading2-Tidy line (some title) p t = flush_both-Tidy p t

parse_rule-Tidy : (line : Units) (rule : Bool) (p : Parser) → Tidy p → Tidy (parse_rule line rule p)
parse_rule-Tidy line true p t = flush_both-Tidy p t
parse_rule-Tidy line false p t = parse_heading2-Tidy line (heading_of (b'#' ∷ b'#' ∷ []) line) p t

take_line-Tidy :
    (line : Units) (fenced within : Bool) (p : Parser)
    → p.in_code ≡ within
    → Tidy p
    → Tidy (take_line line fenced within p)
unfolding parse_text
take_line-Tidy line true true p e t = (t.0, λ h. refl)
take_line-Tidy line true false p e t = ((flush_both-Tidy p t).0, λ h. cc)
take_line-Tidy line false true p e t = (t.0, λ h. cc)
take_line-Tidy line false false p e t = parse_rule-Tidy line (is_rule line) p t

pub parse_lines-Tidy : (lines : List Units) (p : Parser) → Tidy p → Tidy (parse_lines lines p)
unfolding parse_lines parse_line
parse_lines-Tidy [] p t = t
parse_lines-Tidy (line ∷ lines) p t =
    parse_lines-Tidy lines (parse_line line p)
      (take_line-Tidy line (is_fence line) p.in_code p refl t)
