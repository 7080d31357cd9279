-- ===== src/Markdown/Parse/Fences.antt =====
-- shookie/src/slack/markdown-to-blocks.ts: what stands between two fences is one code, as it is, and cuts
-- the text in two.
use mathlib.Core.List.{append_assoc, append-nil}
use shookie.Prelude.{Bool, true, false, not, List, [], ◌∷◌, ◌++◌, ◌≡◌, refl, sym, ◌∙◌, ap, All}
use shookie.Markdown.Texts.{Units, join_lines, is_empty, split_lines}
use shookie.Markdown.Parse.{
  ParsedBlock, Parser, is_fence, flush_paragraph, flush_rows, flush_both, parse_line, parse_lines,
  new_parser, end_parse, parse_all, parse_markdown, code_of, take_line, close_code,
}
use shookie.Markdown.Parse.Tidy.{Tidy, parse_lines-Tidy}
use shookie.Markdown.Parse.After.{after, parse_lines-after, end_parse-after}

parse_lines-append :
    (front back : List Units) (p : Parser)
    → parse_lines (front ++ back) p ≡ parse_lines back (parse_lines front p)
unfolding parse_lines
parse_lines-append [] back p = refl
parse_lines-append (line ∷ front) back p = parse_lines-append front back (parse_line line p)

-- The parser within code, with the lines of it so far.
abbrev within_code : List ParsedBlock → List Units → Parser
within_code blocks lines = record {
  result = blocks;
  lines = [];
  rows = [];
  code_lines = lines;
  in_code = true;
  in_table = false;
}

flush_rows-opens :
    (rows : List (List Units)) (p : Parser)
    → p.rows ≡ rows
    → p.lines ≡ []
    → p.code_lines ≡ []
    → p.in_table ≡ not (is_empty rows)
    → record (flush_rows rows p) { in_code = true } ≡ within_code (flush_rows rows p).result []
flush_rows-opens [] p r l c t = λ i. record {
  result = p.result;
  lines = l i;
  rows = r i;
  code_lines = c i;
  in_code = true;
  in_table = t i;
}
flush_rows-opens (header ∷ rows) p r l c t = λ i. record {
  result = (flush_rows (header ∷ rows) p).result;
  lines = l i;
  rows = [];
  code_lines = c i;
  in_code = true;
  in_table = false;
}

take_line-opens :
    (line : Units) (fenced within : Bool) (p : Parser)
    → fenced ≡ true
    → within ≡ false
    → Tidy p
    → p.in_code ≡ false
    → take_line line fenced within p ≡ within_code (flush_both p).result []
take_line-opens line true false p f w t c =
    flush_rows-opens p.rows (flush_paragraph p) refl refl (t.1 c) t.0
take_line-opens line true true p f w t c = cc
take_line-opens line false within p f w t c = cc

abbrev NotFence : Units → Type 0
NotFence line = is_fence line ≡ false

parse_lines-code :
    (blocks : List ParsedBlock) (acc body : List Units)
    → All NotFence body
    → parse_lines body (within_code blocks acc) ≡ within_code blocks (acc ++ body)
unfolding parse_lines parse_line
parse_lines-code blocks acc [] n = ap (within_code blocks) (sym (append-nil acc))
parse_lines-code blocks acc (line ∷ body) n = rw (n.0) (
    parse_lines-code blocks (acc ++ line ∷ []) body n.1
    ∙ ap (within_code blocks) (append_assoc acc (line ∷ []) body))

parse_line-closes :
    (line : Units) (blocks : List ParsedBlock) (body : List Units)
    → is_fence line ≡ true
    → parse_line line (within_code blocks body)
      ≡ after (blocks ++ code_of (join_lines body)) new_parser
unfolding parse_line
parse_line-closes line blocks body f = rw f (
    ap {A = List ParsedBlock} (λ more. record new_parser { result = more })
      (sym (append-nil (blocks ++ code_of (join_lines body)))))

end_parse-text : (p : Parser) → p.in_code ≡ false → (flush_both p).result ≡ end_parse p
end_parse-text p c = ap (λ b. (close_code b (flush_both p)).result) (sym c)

-- For a text whose lines are some that end outside code, a fence, lines that are no fences, a fence, and
-- any more: its blocks are those of the lines before, one code of the lines between as they are, and
-- those of the lines after.
pub parse_markdown-fences :
    (text : Units) (before body rest : List Units) (opening closing : Units)
    → split_lines text ≡ before ++ opening ∷ (body ++ closing ∷ rest)
    → (parse_lines before new_parser).in_code ≡ false
    → is_fence opening ≡ true
    → All (λ line. is_fence line ≡ false) body
    → is_fence closing ≡ true
    → parse_markdown text ≡ parse_all before ++ code_of (join_lines body) ++ parse_all rest
unfolding parse_markdown parse_all parse_lines parse_line
parse_markdown-fences text before body rest opening closing e c o n f =
    let p = parse_lines before new_parser in
    let blocks = end_parse p ++ code_of (join_lines body) in
    let opened : parse_line opening p ≡ within_code (end_parse p) [] =
      (take_line-opens opening (is_fence opening) p.in_code p o c
          (parse_lines-Tidy before new_parser (refl, λ h. refl)) c
        ∙ ap (λ bs. within_code bs []) (end_parse-text p c)) in
    let all : parse_lines (before ++ opening ∷ (body ++ closing ∷ rest)) new_parser
        ≡ after blocks (parse_lines rest new_parser) =
      (parse_lines-append before (opening ∷ (body ++ closing ∷ rest)) new_parser
        ∙ ap (parse_lines (body ++ closing ∷ rest)) opened
        ∙ parse_lines-append body (closing ∷ rest) (within_code (end_parse p) [])
        ∙ ap (parse_lines (closing ∷ rest)) (parse_lines-code (end_parse p) [] body n)
        ∙ ap (parse_lines rest) (parse_line-closes closing (end_parse p) body f)
        ∙ parse_lines-after blocks rest new_parser) in
    ap (λ lines. end_parse (parse_lines lines new_parser)) e
    ∙ ap end_parse all
    ∙ end_parse-after blocks (parse_lines rest new_parser)
