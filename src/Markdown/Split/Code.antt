-- ===== src/Markdown/Split/Code.antt =====
-- shookie/src/slack/markdown-to-blocks.ts: the chunks of a long code are bounded and lose nothing.
use mathlib.Core.List.{append_assoc, append-nil}
use shookie.Prelude.{
  ℕ, ◌+◌, ◌≤◌, Bool, true, false, List, [], ◌∷◌, ◌++◌, ◌≡◌, refl, sym, ◌∙◌, subst, inl, inr, arith,
  Bool-cases, ap, leb, length, length-append, All, ◌==◌,
}
use shookie.Markdown.Texts.{
  Units, newline, split, join, split_lines, join_lines, is_empty, extend_parts,
}
use shookie.Markdown.Split.{code_limit, overflows, code_chunks, split_long_code}

extend_parts_nonempty :
    (b : Bool) (c : ℕ) (parts : List Units) → is_empty (extend_parts b c parts) ≡ false
extend_parts_nonempty true c parts = refl
extend_parts_nonempty false c [] = refl
extend_parts_nonempty false c (part ∷ parts) = refl

split_nonempty : (sep : ℕ) (text : Units) → is_empty (split sep text) ≡ false
unfolding split
split_nonempty sep [] = refl
split_nonempty sep (c ∷ cs) = extend_parts_nonempty (c == sep) c (split sep cs)

join-extend_parts :
    (sep c : ℕ) (parts : List Units)
    → is_empty parts ≡ false
    → join (sep ∷ []) (extend_parts (c == sep) c parts) ≡ c ∷ join (sep ∷ []) parts
unfolding join
join-extend_parts sep c [] h = cc
join-extend_parts sep c (part ∷ []) h = ground arith
join-extend_parts sep c (part ∷ next ∷ parts) h = ground arith

pub join-split : (sep : ℕ) (text : Units) → join (sep ∷ []) (split sep text) ≡ text
unfolding split join
join-split sep [] = refl
join-split sep (c ∷ cs) =
    join-extend_parts sep c (split sep cs) (split_nonempty sep cs)
    ∙ ap (λ cs. c ∷ cs) (join-split sep cs)

join-append :
    (sep : Units) (front back : List Units)
    → is_empty front ≡ false
    → is_empty back ≡ false
    → join sep (front ++ back) ≡ join sep front ++ (sep ++ join sep back)
unfolding join
join-append sep [] back f b = cc
join-append sep (part ∷ []) [] f b = cc
join-append sep (part ∷ []) (next ∷ back) f b = refl
join-append sep (part ∷ other ∷ front) back f b =
    simp (join-append sep (other ∷ front) back refl b, append_assoc)

snoc_nonempty :
    (current lines : List Units) (line : Units) → is_empty ((current ++ line ∷ []) ++ lines) ≡ false
snoc_nonempty [] lines line = refl
snoc_nonempty (first ∷ current) lines line = refl

overflows_nonempty :
    (current : List Units) (line : Units) → overflows current line ≡ true → is_empty current ≡ false
overflows_nonempty [] line h = ground (arith, h)
overflows_nonempty (first ∷ current) line h = refl

code_chunks_nonempty :
    (current lines : List Units)
    → is_empty (current ++ lines) ≡ false
    → is_empty (code_chunks current lines) ≡ false
unfolding code_chunks
code_chunks_nonempty [] [] h = cc
code_chunks_nonempty (line ∷ current) [] h = refl
code_chunks_nonempty current (line ∷ lines) h = elim (Bool-cases (overflows current line)) [
  | inl full ↦ rw full refl
  | inr room ↦
      rw room (code_chunks_nonempty (current ++ line ∷ []) lines (snoc_nonempty current lines line))
]

join-code_chunks :
    (current lines : List Units)
    → is_empty (current ++ lines) ≡ false
    → join_lines (code_chunks current lines) ≡ join_lines (current ++ lines)
unfolding code_chunks join
join-code_chunks [] [] h = cc
join-code_chunks (line ∷ current) [] h = simp append-nil
join-code_chunks current (line ∷ lines) h = elim (Bool-cases (overflows current line)) [
  | inl full ↦ rw full (
      let some_left = overflows_nonempty current line full in
      let rest = code_chunks_nonempty (line ∷ []) lines refl in
      rw
        (
          join-append (newline ∷ []) current (line ∷ lines) some_left refl,
          join-append (newline ∷ []) (join_lines current ∷ []) (code_chunks (line ∷ []) lines) refl
              rest,
          join-code_chunks (line ∷ []) lines refl,
        )
        refl)
  | inr room ↦ rw room (
      join-code_chunks (current ++ line ∷ []) lines (snoc_nonempty current lines line)
      ∙ ap join_lines (append_assoc current (line ∷ []) lines))
]

abbrev Fits : Units → Type 0
Fits chunk = length chunk ≤ code_limit

length-join-snoc :
    (current : List Units) (line : Units)
    → Fits line
    → overflows current line ≡ false
    → Fits (join_lines (current ++ line ∷ []))
unfolding join
length-join-snoc [] line l room = l
length-join-snoc (first ∷ current) line l room =
    let size : length (join_lines ((first ∷ current) ++ line ∷ []))
        ≡ length (join_lines (first ∷ current)) + length (newline ∷ line) =
      (ap length (join-append (newline ∷ []) (first ∷ current) (line ∷ []) refl refl)
        ∙ length-append (join_lines (first ∷ current)) (newline ∷ line)) in
    subst (λ n. n ≤ code_limit) (sym size) (ground (arith, room))

code_chunks-Fits :
    (current lines : List Units)
    → Fits (join_lines current)
    → All Fits lines
    → All Fits (code_chunks current lines)
unfolding code_chunks join
code_chunks-Fits [] [] c l = tt
code_chunks-Fits (first ∷ current) [] c l = (c, tt)
code_chunks-Fits current (line ∷ lines) c l = elim (Bool-cases (overflows current line)) [
  | inl full ↦ rw full (c, code_chunks-Fits (line ∷ []) lines l.0 l.1)
  | inr room ↦
      rw room
        (code_chunks-Fits (current ++ line ∷ []) lines (length-join-snoc current line l.0 room) l.1)
]

-- The chunks of a code, joined by newlines, are the code.
pub join_lines-split_long_code : (text : Units) → join_lines (split_long_code text) ≡ text
unfolding split_long_code join
join_lines-split_long_code text = elim (Bool-cases (leb (length text) code_limit)) [
  | inl short ↦ rw short refl
  | inr long ↦ rw long (
      join-code_chunks [] (split_lines text) (split_nonempty newline text)
      ∙ join-split newline text)
]

-- If none of its lines is longer than the limit, then no chunk is.
pub split_long_code-Fits :
    (text : Units)
    → All (λ line. length line ≤ code_limit) (split_lines text)
    → All (λ chunk. length chunk ≤ code_limit) (split_long_code text)
unfolding split_long_code join
split_long_code-Fits text l = elim (Bool-cases (leb (length text) code_limit)) [
  | inl short ↦ rw short (ground (arith, short), tt)
  | inr long ↦ rw long (code_chunks-Fits [] (split_lines text) (omega arith) l)
]
