-- ===== src/Markdown/Texts.antt =====
-- What shookie/src/slack/markdown-to-blocks.ts uses of JavaScript's strings. A text is the list of its
-- UTF-16 units.
use shookie.Prelude.{
  ℕ, Bool, true, false, List, [], ◌∷◌, ◌++◌, reverse, ◌==◌, ◌||◌, ◌&&◌, leb, if◌then◌else◌,
}

abbrev pub Units : Type 0
Units = List ℕ

abbrev pub newline : ℕ
newline = 10

abbrev pub is_terminator : ℕ → Bool
is_terminator c = c == 10 || c == 13 || c == 8232 || c == 8233

-- White space and line terminators: what `trim` removes, and what `\s` matches.
unfoldable pub is_space : ℕ → Bool
is_space c =
    leb 9 c && leb c 13
    || c == 32
    || c == 160
    || c == 5760
    || leb 8192 c && leb c 8202
    || is_terminator c
    || c == 8239
    || c == 8287
    || c == 12288
    || c == 65279

-- `trimStart`
unfoldable pub trim_start : Units → Units
trim_start [] = []
trim_start (c ∷ cs) = let rest = trim_start cs in if is_space c then rest else c ∷ cs

unfoldable pub trim : Units → Units
unfolding trim_start
trim cs = reverse (trim_start (reverse (trim_start cs)))

abbrev pub push_first : ℕ → List Units → List Units
push_first c [] = (c ∷ []) ∷ []
push_first c (part ∷ parts) = (c ∷ part) ∷ parts

abbrev pub extend_parts : Bool → ℕ → List Units → List Units
extend_parts true c parts = [] ∷ parts
extend_parts false c parts = push_first c parts

-- `split`, by one unit
unfoldable pub split : ℕ → Units → List Units
split sep [] = [] ∷ []
split sep (c ∷ cs) = extend_parts (c == sep) c (split sep cs)

unfoldable pub join : Units → List Units → Units
join sep [] = []
join sep (part ∷ []) = part
join sep (part ∷ next ∷ parts) = part ++ (sep ++ join sep (next ∷ parts))

abbrev pub split_lines : Units → List Units
split_lines text = split newline text

abbrev pub join_lines : List Units → Units
join_lines lines = join (newline ∷ []) lines

abbrev pub is_empty {ℓ} : {A : Type ℓ} → List A → Bool
is_empty [] = true
is_empty (x ∷ xs) = false
