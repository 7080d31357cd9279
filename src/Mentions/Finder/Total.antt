-- ===== src/Mentions/Finder/Total.antt =====
-- shookie/src/slack/mention-groups/parser.ts: the search for handles ends, and what it finds stands in
-- order, as the replacement needs it.
use shookie.Prelude.{
  ℕ, zero, suc, ◌+◌, ◌-◌, ◌≤◌, ◌<◌, String, Bool, Option, none, some, List, [], ◌∷◌, ◌++◌, ◌≡◌,
  refl, subst, inl, inr, arith, ap, Bool-cases, Option-cases, leb, ◌==◌, if◌then◌else◌, length,
  drop, select, map,
}
use shookie.Prelude.Text.{starts_with}
use shookie.Mentions.Parser.{Units, Occurrence, Group, create_plan, replace_from}
use shookie.Mentions.Parser.Kept.{InOrder, stretches, original, create_plan-stretches}
use shookie.Mentions.Finder.{
  Range, index_at, index_of, shift, tick_end, delimited_end, count_ticks, ticks, add_range, spans,
  backtick_spans, delimited_spans, match_length, candidates, Patterns, protected_ranges, is_plain,
  occurrence_at, find_plain, find_occurrences,
}

index_at-ge :
    (pattern : Units) (pos : ℕ) (cs : Units) (k : ℕ) → index_at pattern pos cs ≡ some k → pos ≤ k
unfolding index_at
index_at-ge pattern pos [] k h = cc
index_at-ge pattern pos (c ∷ cs) k h = elim (Bool-cases (starts_with pattern (c ∷ cs))) [
  | inl here ↦
      let same : some pos ≡ some k =
        (subst (λ b. (if b then some pos else index_at pattern (suc pos) cs) ≡ some k) here h) in
      ground (arith, same)
  | inr later ↦
      let rest =
        index_at-ge pattern (suc pos) cs k
          (subst (λ b. (if b then some pos else index_at pattern (suc pos) cs) ≡ some k) later h) in
      omega (arith, rest)
]

shift-gt :
    (n low : ℕ) (found : Option ℕ) (k : ℕ)
    → ((j : ℕ) → found ≡ some j → low ≤ j)
    → 0 < n
    → shift n found ≡ some k
    → low < k
shift-gt n low none k l p h = cc
shift-gt n low (some j) k l p h =
    let same : j + n ≡ k = ground (arith, h) in
    let least = l j refl in omega (arith, same, least, p)

add_range-some :
    (range : Range) (found : Option (List Range)) (ranges : List Range)
    → found ≡ some ranges
    → add_range range found ≡ some (range ∷ ranges)
add_range-some range none ranges h = cc
add_range-some range (some found) ranges h = cc

spans-some :
    (fuel size : ℕ) (open_from end_of : ℕ → Option ℕ) (cursor : ℕ)
    → ((from start : ℕ) → open_from from ≡ some start → from ≤ start)
    → ((start end : ℕ) → end_of start ≡ some end → start < end)
    → 0 < fuel
    → size < cursor + fuel
    → (ranges : List Range) × (spans fuel size open_from end_of cursor ≡ some ranges)
unfolding spans
spans-some zero size f g cursor a b p h = absurd (omega (arith, p))
spans-some (suc fuel) size f g cursor a b p h = elim (Bool-cases (leb size cursor)) [
  | inl done ↦ ([], rw (done, spans) refl)
  | inr more ↦ elim (Option-cases (f cursor)) [
    | inl nowhere ↦ ([], rw (more, spans, nowhere) refl)
    | inr (start, found) ↦ elim (Option-cases (g start)) [
      | inl unclosed ↦ ((start, size) ∷ [], rw (more, spans, found, unclosed) refl)
      | inr (end, closed) ↦
          let further = a cursor start found in
          let beyond = b start end closed in
          let inside : cursor < size = ground (arith, more) in
          let (ranges, rest) =
            spans-some fuel size f g end a b (omega (arith, h, inside))
              (omega (arith, h, further, beyond)) in
          (
            (start, end) ∷ ranges,
            rw (more, spans, found, closed)
                (add_range-some (start, end) (spans fuel size f g end) ranges rest),
          )
    ]
  ]
]

backtick_spans-some : (text : Units) → (ranges : List Range) × (backtick_spans text ≡ some ranges)
unfolding backtick_spans
backtick_spans-some text =
    spans-some (suc (length text)) (length text) (λ cursor. index_of (b'`' ∷ []) cursor text)
      (tick_end text) 0 (λ from start h. index_at-ge (b'`' ∷ []) from (drop from text) start h)
      (λ start end h.
        let run = suc (count_ticks (drop (suc start) text)) in
        shift-gt run start (index_of (ticks run) (start + run) text) end
          (λ j found.
            omega (arith, index_at-ge (ticks run) (start + run) (drop (start + run) text) j found))
          (omega arith) h)
      (omega arith) (omega arith)

delimited_spans-some : (text : Units) → (ranges : List Range) × (delimited_spans text ≡ some ranges)
unfolding delimited_spans
delimited_spans-some text =
    spans-some (suc (length text)) (length text) (λ cursor. index_of (b'<' ∷ []) cursor text)
      (delimited_end b'>' text) 0
      (λ from start h. index_at-ge (b'<' ∷ []) from (drop from text) start h)
      (λ start end h.
        shift-gt 1 start (index_of (b'>' ∷ []) (suc start) text) end
          (λ j found.
            omega (arith, index_at-ge (b'>' ∷ []) (suc start) (drop (suc start) text) j found))
          (omega arith) h)
      (omega arith) (omega arith)

-- Ranges one after the other, from an offset on.
abbrev Ordered : ℕ → List Range → Type 0
Ordered from [] = Unit
Ordered from (range ∷ ranges) = (from ≤ range.0) × (range.0 ≤ range.1) × Ordered range.1 ranges

Ordered-le :
    (low from : ℕ) (ranges : List Range) → low ≤ from → Ordered from ranges → Ordered low ranges
Ordered-le low from [] l o = tt
Ordered-le low from (range ∷ ranges) l o = (omega (arith, l, o.0), o.1, o.2)

candidates-Ordered : (pos skip : ℕ) (text : Units) → Ordered (pos + skip) (candidates pos skip text)
unfolding candidates
candidates-Ordered pos skip [] = tt
candidates-Ordered pos (suc skip) (c ∷ cs) =
    subst (λ from. Ordered from (candidates (suc pos) skip cs)) (omega arith)
      (candidates-Ordered (suc pos) skip cs)
candidates-Ordered pos zero (c ∷ cs) =
    let size = match_length (c ∷ cs) in
    let rest = candidates-Ordered (suc pos) (size - 1) cs in
    elim (Bool-cases (size == 0)) [
      | inl none_here ↦ rw none_here (
          Ordered-le (pos + 0) (suc pos + (size - 1)) (candidates (suc pos) (size - 1) cs)
            (omega arith) rest)
      | inr some_here ↦ rw some_here (
        omega arith,
        omega arith,
        Ordered-le (pos + size) (suc pos + (size - 1)) (candidates (suc pos) (size - 1) cs)
            (ground (arith, some_here)) rest,
      )
    ]

select-Ordered :
    (keep : Range → Bool) (from : ℕ) (ranges : List Range)
    → Ordered from ranges
    → Ordered from (select keep ranges)
select-Ordered keep from [] o = tt
select-Ordered keep from (range ∷ ranges) o = elim (Bool-cases (keep range)) [
  | inl kept ↦ rw kept (o.0, o.1, select-Ordered keep range.1 ranges o.2)
  | inr dropped ↦ rw dropped (
      select-Ordered keep from ranges
        (Ordered-le from range.1 ranges (omega (arith, o.0, o.1)) o.2))
]

module _ (p : Patterns) where
  occurrences-InOrder :
      (text : Units) (from : ℕ) (ranges : List Range)
      → Ordered from ranges
      → InOrder from (map (occurrence_at p text) ranges)
  occurrences-InOrder text from [] o = tt
  occurrences-InOrder text from (range ∷ ranges) o =
      (o.0, o.1, occurrences-InOrder text range.1 ranges o.2)

  -- The search for handles ends, and its occurrences stand in order.
  find_occurrences-InOrder :
      (text : Units) → (os : List Occurrence) × (find_occurrences p text ≡ some os) × InOrder 0 os
  unfolding find_occurrences
  find_occurrences-InOrder text =
      let (left, ticked) = backtick_spans-some text in
      let (right, delimited) = delimited_spans-some text in
      let ranges = left ++ right ++ p.matches text in
      let found : protected_ranges p text ≡ some ranges = rw (ticked, delimited) refl in
      (
        map (occurrence_at p text) (select (is_plain p text ranges) (candidates 0 0 text)),
        ap (find_plain p text) found,
        occurrences-InOrder text 0 (select (is_plain p text ranges) (candidates 0 0 text)) (
            select-Ordered (is_plain p text ranges) 0 (candidates 0 0 text)
              (candidates-Ordered 0 0 text)),
      )

  -- The search for handles in any text ends, and a plan for what it finds is the text with exactly those
  -- occurrences replaced whose group is active and has members: if what stands there replaced them, the
  -- result would be the text.
  pub find-create_plan :
      (units : String → Units) (text : Units) (by_handle : List (String × Group))
      → (os : List Occurrence) × (find_occurrences p text ≡ some os)
        × ((create_plan units text by_handle os).text
            ≡ replace_from 0 (stretches units by_handle os) text)
        × (replace_from 0 (map (original text) (stretches units by_handle os)) text ≡ text)
  find-create_plan units text by_handle =
      let (os, found, ordered) = find_occurrences-InOrder text in
      let (plan, back) = create_plan-stretches units text by_handle os ordered in
      (os, found, plan, back)
