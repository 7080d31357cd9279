-- ===== src/Examples/Answers.antt =====
-- An answer with a piece of code in it.
use shookie.Prelude.{◌≤◌, true, [], ◌∷◌, ◌++◌, ◌≡◌, refl, length, take, All, arith}
use shookie.Prelude.Text.{codes, all_of}
use shookie.Markdown.Texts.{Units, is_space, trim_start, trim, split, join, join_lines}
use shookie.Markdown.Split.{section_text_limit, split_long_code, split_long_text}
use shookie.Markdown.Split.Code.{join_lines-split_long_code}
use shookie.Markdown.Split.Prose.{visible, visible-split_long_text}
use shookie.Markdown.Parse.{
  paragraph, code, is_rule, heading_of, cells_of, parse_text, parse_line, parse_lines, parse_all,
  parse_markdown, code_of,
}
use shookie.Markdown.Parse.Fences.{parse_markdown-fences}
use shookie.Markdown.Blocks.{blocks_of, max_blocks, all_blocks, convert}
use shookie.Markdown.Blocks.Limit.{block_text, blocks_of-code-Fits, convert_lem}

abbrev answer : Units
answer = codes "see\n```\n## x\n```\nthen"

is_code :
    parse_markdown answer
    ≡ paragraph (codes "see") ∷ code (codes "## x") ∷ paragraph (codes "then") ∷ []
unfolding parse_markdown parse_all parse_lines parse_line parse_text is_rule heading_of cells_of
    split join trim trim_start is_space all_of
is_code = refl

parse_markdown-fences_example :
    parse_markdown answer
    ≡ parse_all (codes "see" ∷ []) ++ code_of (codes "## x") ++ parse_all (codes "then" ∷ [])
unfolding parse_lines parse_line parse_text is_rule heading_of cells_of split join trim_start
    is_space all_of
parse_markdown-fences_example =
    parse_markdown-fences answer (codes "see" ∷ []) (codes "## x" ∷ []) (codes "then" ∷ [])
      (codes "```") (codes "```") refl refl refl (refl, tt) refl

join_lines-split_long_code_example : join_lines (split_long_code answer) ≡ answer
join_lines-split_long_code_example = join_lines-split_long_code answer

visible-split_long_text_example : visible (join_lines (split_long_text answer)) ≡ visible answer
visible-split_long_text_example = visible-split_long_text answer

blocks_of-code-Fits_example :
    All
      (λ block. length (block_text block) ≤ section_text_limit)
      (blocks_of (λ text. text) (code (codes "x\ny")))
unfolding split
blocks_of-code-Fits_example =
    blocks_of-code-Fits (λ text. text) (codes "x\ny") (omega arith, (omega arith, tt))

convert_lem_example :
    (length (convert (λ text. text) answer (codes "3s") true) ≤ max_blocks)
    × (take 48 (convert (λ text. text) answer (codes "3s") true)
        ≡ take 48 (all_blocks (λ text. text) answer (codes "3s") true))
convert_lem_example = convert_lem (λ text. text) answer (codes "3s") true
