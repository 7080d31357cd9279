-- ===== src/Markdown/Split/Prose.antt =====
-- shookie/src/slack/markdown-to-blocks.ts: the chunks of a long text are bounded and lose only white
-- space.
use mathlib.Core.List.{append_assoc, append-nil, reverse-cons, reverse-reverse}
use shookie.Prelude.{
  ℕ, ◌≤◌, Bool, true, false, List, [], ◌∷◌, ◌++◌, ◌≡◌, refl, sym, ◌∙◌, inl, inr, arith, Bool-cases,
  ap, not, leb, length, length-append, All, select, reverse,
}
use shookie.Markdown.Texts.{
  Units, newline, is_space, trim_start, trim, join, split_lines, join_lines, is_empty,
}
use shookie.Markdown.Split.{
  section_text_limit, text_overflows, add_line, text_chunks, split_long_text,
}
use shookie.Markdown.Split.Code.{join-split}

abbrev pub is_visible : ℕ → Bool
is_visible c = not (is_space c)

abbrev pub visible : Units → Units
visible cs = select is_visible cs

select-append : (p : ℕ → Bool) (xs ys : Units) → select p (xs ++ ys) ≡ select p xs ++ select p ys
select-append p [] ys = refl
select-append p (x ∷ xs) ys = elim (Bool-cases (p x)) [
  | inl kept ↦ rw kept (ap (λ zs. x ∷ zs) (select-append p xs ys))
  | inr lost ↦ rw lost (select-append p xs ys)
]

select-reverse : (p : ℕ → Bool) (xs : Units) → select p (reverse xs) ≡ reverse (select p xs)
select-reverse p [] = refl
select-reverse p (x ∷ xs) = elim (Bool-cases (p x)) [
  | inl kept ↦ simp (reverse-cons, select-append, select-reverse p xs, kept)
  | inr lost ↦ simp (reverse-cons, select-append, select-reverse p xs, lost, append-nil)
]

length-reverse : (xs : Units) → length (reverse xs) ≡ length xs
length-reverse [] = refl
length-reverse (x ∷ xs) =
    rw (reverse-cons x xs) (ground (arith, length-append (reverse xs) (x ∷ []), length-reverse xs))

visible-trim_start : (cs : Units) → visible (trim_start cs) ≡ visible cs
unfolding trim_start
visible-trim_start [] = refl
visible-trim_start (c ∷ cs) = elim (Bool-cases (is_space c)) [
  | inl blank ↦ rw blank (visible-trim_start cs)
  | inr ink ↦ rw ink (rw ink refl)
]

length-trim_start : (cs : Units) → length (trim_start cs) ≤ length cs
unfolding trim_start
length-trim_start [] = omega arith
length-trim_start (c ∷ cs) = ground (arith, length-trim_start cs)

visible-trim : (cs : Units) → visible (trim cs) ≡ visible cs
unfolding trim
visible-trim cs = simp (select-reverse, visible-trim_start, reverse-reverse)

length-trim : (cs : Units) → length (trim cs) ≤ length cs
unfolding trim
length-trim cs = ground (
  arith,
  length-reverse (trim_start (reverse (trim_start cs))),
  length-trim_start (reverse (trim_start cs)),
  length-reverse (trim_start cs),
  length-trim_start cs,
)

abbrev visible_parts : List Units → Units
visible_parts [] = []
visible_parts (part ∷ parts) = visible part ++ visible_parts parts

visible-join_lines : (parts : List Units) → visible (join_lines parts) ≡ visible_parts parts
unfolding join is_space
visible-join_lines [] = refl
visible-join_lines (part ∷ []) = sym (append-nil (visible part))
visible-join_lines (part ∷ next ∷ parts) =
    select-append is_visible part (newline ∷ join_lines (next ∷ parts))
    ∙ ap (λ cs. visible part ++ cs) (visible-join_lines (next ∷ parts))

visible-add_line :
    (current line : Units) → visible (add_line current line) ≡ visible current ++ visible line
unfolding is_space
visible-add_line [] line = refl
visible-add_line (c ∷ current) line = select-append is_visible (c ∷ current) (newline ∷ line)

is_empty-nil : (cs : Units) → is_empty cs ≡ true → cs ≡ []
is_empty-nil [] h = refl
is_empty-nil (c ∷ cs) h = cc

visible-text_chunks :
    (current : Units) (lines : List Units)
    → visible_parts (text_chunks current lines) ≡ visible current ++ visible_parts lines
unfolding text_chunks
visible-text_chunks current [] = elim (Bool-cases (is_empty (trim current))) [
  | inl blank ↦ rw blank (
      ap (λ cs. visible cs ++ []) (sym (is_empty-nil (trim current) blank))
      ∙ ap (λ cs. cs ++ []) (visible-trim current))
  | inr ink ↦ rw ink (ap (λ cs. cs ++ []) (visible-trim current))
]
visible-text_chunks current (line ∷ lines) = elim (Bool-cases (text_overflows current line)) [
  | inl full ↦ rw full (rw (visible-trim current, visible-text_chunks line lines) refl)
  | inr room ↦ rw room (
      visible-text_chunks (add_line current line) lines
      ∙ ap (λ cs. cs ++ visible_parts lines) (visible-add_line current line)
      ∙ append_assoc (visible current) (visible line) (visible_parts lines))
]

abbrev Fits : Units → Type 0
Fits chunk = length chunk ≤ section_text_limit

length-add_line :
    (current line : Units)
    → Fits line
    → text_overflows current line ≡ false
    → Fits (add_line current line)
length-add_line [] line l room = l
length-add_line (c ∷ current) line l room =
    ground (arith, room, length-append (c ∷ current) (newline ∷ line))

text_chunks-Fits :
    (current : Units) (lines : List Units)
    → Fits current
    → All Fits lines
    → All Fits (text_chunks current lines)
unfolding text_chunks
text_chunks-Fits current [] c l = elim (Bool-cases (is_empty (trim current))) [
  | inl blank ↦ rw blank tt
  | inr ink ↦ rw ink (ground (arith, c, length-trim current), tt)
]
text_chunks-Fits current (line ∷ lines) c l = elim (Bool-cases (text_overflows current line)) [
  | inl full ↦ rw full (ground (arith, c, length-trim current), text_chunks-Fits line lines l.0 l.1)
  | inr room ↦
      rw room
        (text_chunks-Fits (add_line current line) lines (length-add_line current line l.0 room) l.1)
]

-- The chunks of a text have its units, but for white space, in its order.
pub visible-split_long_text :
    (text : Units) → visible (join_lines (split_long_text text)) ≡ visible text
unfolding split_long_text join
visible-split_long_text text = elim (Bool-cases (leb (length text) section_text_limit)) [
  | inl short ↦ rw short refl
  | inr long ↦ rw long (
      visible-join_lines (text_chunks [] (split_lines text))
      ∙ visible-text_chunks [] (split_lines text)
      ∙ sym (visible-join_lines (split_lines text))
      ∙ ap visible (join-split newline text))
]

-- If none of its lines is longer than the limit, then no chunk is.
pub split_long_text-Fits :
    (text : Units)
    → All (λ line. length line ≤ section_text_limit) (split_lines text)
    → All (λ chunk. length chunk ≤ section_text_limit) (split_long_text text)
unfolding split_long_text join
split_long_text-Fits text l = elim (Bool-cases (leb (length text) section_text_limit)) [
  | inl short ↦ rw short (ground (arith, short), tt)
  | inr long ↦ rw long (text_chunks-Fits [] (split_lines text) (omega arith) l)
]
