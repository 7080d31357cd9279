-- ===== src/Markdown/Blocks/Limit.antt =====
-- shookie/src/slack/markdown-to-blocks.ts: an answer has at most fifty blocks, and its last block.
use shookie.Prelude.{
  ℕ, zero, suc, ◌≤◌, Bool, false, List, [], ◌∷◌, ◌++◌, ◌≡◌, refl, inl, inr, arith, Bool-cases, ap,
  leb, map, length, length-append, take, All,
}
use shookie.Prelude.Text.{codes}
use shookie.Markdown.Texts.{Units, split_lines, is_empty}
use shookie.Markdown.Split.{code_limit, section_text_limit, split_long_code}
use shookie.Markdown.Split.Code.{split_long_code-Fits}
use shookie.Markdown.Parse.{code, parse_markdown}
use shookie.Markdown.Blocks.{
  Block, section, context, omission, last_block, enforce_block_limit, all_blocks, convert,
  debug_context, to_slack_blocks, feedback_of, footer_of, header, blocks_of, code_section,
  max_blocks,
}

length-last_block : (blocks : List Block) → length (last_block blocks) ≤ 1
length-last_block [] = omega arith
length-last_block (block ∷ []) = omega arith
length-last_block (block ∷ next ∷ blocks) = length-last_block (next ∷ blocks)

length-take : (n : ℕ) (blocks : List Block) → length (take n blocks) ≤ n
length-take zero blocks = omega arith
length-take (suc n) [] = omega arith
length-take (suc n) (block ∷ blocks) = omega (arith, length-take n blocks)

last_block-append :
    (front : List Block) (block : Block) → last_block (front ++ block ∷ []) ≡ block ∷ []
last_block-append [] block = refl
last_block-append (first ∷ []) block = refl
last_block-append (first ∷ next ∷ front) block = last_block-append (next ∷ front) block

length-enforce : (blocks : List Block) → length (enforce_block_limit blocks) ≤ max_blocks
unfolding enforce_block_limit
length-enforce blocks = elim (Bool-cases (leb (length blocks) max_blocks)) [
  | inl few ↦ rw few (ground (arith, few))
  | inr many ↦ rw many (
      ground (
        arith,
        length-append (take 48 blocks) (omission ∷ last_block blocks),
        length-last_block blocks,
        length-take 48 blocks,
      ))
]

last_block-after :
    (front : List Block) (block : Block) → last_block (front ++ omission ∷ block ∷ []) ≡ block ∷ []
last_block-after [] block = refl
last_block-after (first ∷ []) block = refl
last_block-after (first ∷ next ∷ front) block = last_block-after (next ∷ front) block

last_block-enforce :
    (front : List Block) (block : Block)
    → last_block (enforce_block_limit (front ++ block ∷ [])) ≡ block ∷ []
unfolding enforce_block_limit
last_block-enforce front block =
    let blocks = front ++ block ∷ [] in
    elim (Bool-cases (leb (length blocks) max_blocks)) [
      | inl few ↦ rw few (last_block-append front block)
      | inr many ↦
          rw (many, last_block-append front block) (last_block-after (take 48 blocks) block)
    ]

take-append-take :
    (n : ℕ) (xs ys : List Block) → n ≤ length xs → take n (take n xs ++ ys) ≡ take n xs
take-append-take zero xs ys h = refl
take-append-take (suc n) [] ys h = ground (arith, h)
take-append-take (suc n) (x ∷ xs) ys h =
    ap (λ zs. x ∷ zs) (take-append-take n xs ys (omega (arith, h)))

take-enforce : (blocks : List Block) → take 48 (enforce_block_limit blocks) ≡ take 48 blocks
unfolding enforce_block_limit
take-enforce blocks = elim (Bool-cases (leb (length blocks) max_blocks)) [
  | inl few ↦ rw few refl
  | inr many ↦
      rw many (take-append-take 48 blocks (omission ∷ last_block blocks) (ground (arith, many)))
]

last_block-footer :
    (front : List Block) (footer : Units)
    → is_empty footer ≡ false
    → last_block (enforce_block_limit (front ++ footer_of footer)) ≡ debug_context footer ∷ []
last_block-footer front [] h = cc
last_block-footer front (c ∷ cs) h = last_block-enforce front (debug_context (c ∷ cs))

-- An answer has at most fifty blocks, and the first 48 of them are those that its text gives.
pub convert_lem :
    (mrkdwn : Units → Units) (text footer : Units) (with_feedback : Bool)
    → (length (convert mrkdwn text footer with_feedback) ≤ max_blocks)
      × (take 48 (convert mrkdwn text footer with_feedback)
          ≡ take 48 (all_blocks mrkdwn text footer with_feedback))
unfolding convert
convert_lem mrkdwn text footer with_feedback =
    let blocks = all_blocks mrkdwn text footer with_feedback in
    (length-enforce blocks, take-enforce blocks)

-- A debug footer that is not empty is the last block, also of an answer that was cut.
pub convert-footer :
    (mrkdwn : Units → Units) (text footer : Units) (with_feedback : Bool)
    → is_empty footer ≡ false
    → last_block (convert mrkdwn text footer with_feedback) ≡ debug_context footer ∷ []
unfolding convert
convert-footer mrkdwn text footer with_feedback h =
    last_block-footer (to_slack_blocks mrkdwn (parse_markdown text) ++ feedback_of with_feedback)
      footer h

abbrev pub block_text : Block → Units
block_text (header text) = text
block_text (section text) = text
block_text (context text) = text
block_text _ = []

code_section-Fits :
    (chunks : List Units)
    → All (λ chunk. length chunk ≤ code_limit) chunks
    → All (λ block. length (block_text block) ≤ section_text_limit) (map code_section chunks)
code_section-Fits [] f = tt
code_section-Fits (chunk ∷ chunks) f =
    (ground (arith, f.0, length-append chunk (codes "\n```")), code_section-Fits chunks f.1)

-- The sections of a code none of whose lines is too long, fences included, fit Slack's limit.
pub blocks_of-code-Fits :
    (mrkdwn : Units → Units) (text : Units)
    → All (λ line. length line ≤ code_limit) (split_lines text)
    → All (λ block. length (block_text block) ≤ section_text_limit) (blocks_of mrkdwn (code text))
unfolding blocks_of
blocks_of-code-Fits mrkdwn text f =
    code_section-Fits (split_long_code text) (split_long_code-Fits text f)
