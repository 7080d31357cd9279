-- ===== src/Markdown/Split.antt =====
-- shookie/src/slack/markdown-to-blocks.ts: `splitLongText` and `splitLongCode`.
pub mod Code
pub mod Prose
use shookie.Prelude.{
  ℕ, ◌+◌, ◌-◌, Bool, true, false, List, [], ◌∷◌, ◌++◌, ltb, leb, not, ◌&&◌, if◌then◌else◌, length,
}
use shookie.Markdown.Texts.{Units, newline, trim, split_lines, join_lines, is_empty}

abbrev pub section_text_limit : ℕ
section_text_limit = 3000

-- Room for the two fences.
abbrev pub code_limit : ℕ
code_limit = section_text_limit - 8

-- A line would overflow the chunk, which has something in it.
abbrev pub overflows : List Units → Units → Bool
overflows current line =
    ltb code_limit (length (join_lines current) + length line + 1) && not (is_empty current)

abbrev pub flush_code : Bool → List Units → List Units
flush_code true current = join_lines current ∷ []
flush_code false current = []

abbrev pub keep_code : Bool → List Units → List Units
keep_code true current = []
keep_code false current = current

-- The loop over the lines, with the lines of the current chunk.
unfoldable pub code_chunks : List Units → List Units → List Units
code_chunks current [] = flush_code (not (is_empty current)) current
code_chunks current (line ∷ lines) =
    let full = overflows current line in
    flush_code full current ++ code_chunks (keep_code full current ++ line ∷ []) lines

unfoldable pub split_long_code : Units → List Units
unfolding code_chunks
split_long_code text =
    if leb (length text) code_limit then text ∷ [] else code_chunks [] (split_lines text)

abbrev pub text_overflows : Units → Units → Bool
text_overflows current line =
    ltb section_text_limit (length current + length line + 1) && not (is_empty current)

abbrev pub flush_text : Bool → Units → List Units
flush_text true current = trim current ∷ []
flush_text false current = []

abbrev pub keep_text : Bool → Units → Units
keep_text true current = []
keep_text false current = current

-- `current += (current ? "\n" : "") + line`
abbrev pub add_line : Units → Units → Units
add_line [] line = line
add_line (c ∷ current) line = (c ∷ current) ++ newline ∷ line

unfoldable pub text_chunks : Units → List Units → List Units
text_chunks current [] = flush_text (not (is_empty (trim current))) current
text_chunks current (line ∷ lines) =
    let full = text_overflows current line in
    flush_text full current ++ text_chunks (add_line (keep_text full current) line) lines

unfoldable pub split_long_text : Units → List Units
unfolding text_chunks
split_long_text text =
    if leb (length text) section_text_limit then text ∷ [] else text_chunks [] (split_lines text)
