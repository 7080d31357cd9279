-- ===== src/Mentions/Finder.antt =====
-- shookie/src/slack/mention-groups/parser.ts: `findMentionHandleOccurrences`. The offsets that are
-- protected are kept as the ranges that the source marks. The while loops go on fuel, more than the
-- length of the text; Mentions/Finder/Total shows that it suffices.
pub mod Total
use Prim.Native.String.{String}
use shookie.Prelude.{
  ℕ, zero, suc, ◌+◌, ◌-◌, Bool, true, false, not, Option, none, some, List, [], ◌∷◌, ◌++◌, ltb, leb,
  ◌==◌, ◌&&◌, ◌||◌, if◌then◌else◌, length, drop, select, map, get_elem?,
}
use shookie.Prelude.Text.{is_upper, is_lower, is_digit}
use shookie.Prelude.Text.{starts_with}
use shookie.Mentions.Parser.{Units, Occurrence, slice}

abbrev pub Range : Type 0
Range = ℕ × ℕ

-- `indexOf` of a pattern that is not empty
unfoldable pub index_at : Units → ℕ → Units → Option ℕ
index_at pattern pos [] = none
index_at pattern pos (c ∷ cs) =
    let rest = index_at pattern (suc pos) cs in
    if starts_with pattern (c ∷ cs) then some pos else rest

abbrev pub index_of : Units → ℕ → Units → Option ℕ
index_of pattern from text = index_at pattern from (drop from text)

abbrev pub shift : ℕ → Option ℕ → Option ℕ
shift n none = none
shift n (some k) = some (k + n)

abbrev pub count_ticks : Units → ℕ
count_ticks [] = 0
count_ticks (c ∷ cs) = let rest = count_ticks cs in if c == b'`' then suc rest else 0

abbrev pub ticks : ℕ → Units
ticks zero = []
ticks (suc n) = b'`' ∷ ticks n

-- Where the span ends that a run of backticks opens.
abbrev pub tick_end : Units → ℕ → Option ℕ
tick_end text open' =
    let run = suc (count_ticks (drop (suc open') text)) in
    shift run (index_of (ticks run) (open' + run) text)

abbrev pub delimited_end : ℕ → Units → ℕ → Option ℕ
delimited_end close text open' = shift 1 (index_of (close ∷ []) (suc open') text)

abbrev pub add_range : Range → Option (List Range) → Option (List Range)
add_range range none = none
add_range range (some ranges) = some (range ∷ ranges)

-- The loop of `markBacktickSpans` and of `markDelimitedSpans`: none if the fuel runs out.
unfoldable pub spans : ℕ → ℕ → (ℕ → Option ℕ) → (ℕ → Option ℕ) → ℕ → Option (List Range)
spans zero size open_from end_of cursor = none
spans (suc fuel) size open_from end_of cursor = elim (leb size cursor) [
  | true ↦ some []
  | false ↦ elim (open_from cursor) [
    | none ↦ some []
    | some start ↦ elim (end_of start) [
      | none ↦ some ((start, size) ∷ [])
      | some end ↦ add_range (start, end) (spans fuel size open_from end_of end)
    ]
  ]
]

unfoldable pub backtick_spans : Units → Option (List Range)
unfolding spans index_at
backtick_spans text =
    spans (suc (length text)) (length text) (λ cursor. index_of (b'`' ∷ []) cursor text)
      (tick_end text) 0

unfoldable pub delimited_spans : Units → Option (List Range)
unfolding spans index_at
delimited_spans text =
    spans (suc (length text)) (length text) (λ cursor. index_of (b'<' ∷ []) cursor text)
      (delimited_end b'>' text) 0

abbrev pub both_ranges : Option (List Range) → Option (List Range) → Option (List Range)
both_ranges none right = none
both_ranges (some left) none = none
both_ranges (some left) (some right) = some (left ++ right)

-- A range and an interval that is not empty have an offset in common.
abbrev pub meets : Range → ℕ → ℕ → Bool
meets range start end = ltb range.0 range.1 && ltb range.0 end && ltb start range.1

-- `hasProtectedOffset`
abbrev pub has_protected_offset : List Range → ℕ → ℕ → Bool
has_protected_offset [] start end = false
has_protected_offset (range ∷ ranges) start end =
    meets range start end || has_protected_offset ranges start end

abbrev pub is_letter : ℕ → Bool
is_letter c = is_upper c || is_lower c

abbrev pub is_handle_unit : ℕ → Bool
is_handle_unit c = is_letter c || is_digit c || c == b'_' || c == b'-'

abbrev pub handle_run : ℕ → Units → ℕ
handle_run zero cs = 0
handle_run (suc n) [] = 0
handle_run (suc n) (c ∷ cs) = let rest = handle_run n cs in if is_handle_unit c then suc rest else 0

-- /@([A-Za-z][A-Za-z0-9_-]{1,31})/ at the start of a text: the length of the match, or 0.
unfoldable pub match_length : Units → ℕ
match_length (c ∷ d ∷ cs) =
    let run = handle_run 31 cs in if c == b'@' && is_letter d && ltb 0 run then run + 2 else 0
match_length _ = 0

-- `matchAll`, at an offset, with the units that the last match still takes.
unfoldable pub candidates : ℕ → ℕ → Units → List Range
unfolding match_length
candidates pos skip [] = []
candidates pos (suc skip) (c ∷ cs) = candidates (suc pos) skip cs
candidates pos zero (c ∷ cs) =
    let size = match_length (c ∷ cs) in
    let rest = candidates (suc pos) (size - 1) cs in
    if size == 0 then rest else (pos, pos + size) ∷ rest

-- Unicode's letters and digits, `_` and `-`; JavaScript's `toLowerCase`; and the matches of the patterns
-- for URLs and mail addresses.
pub record Patterns : Type 0 where
  pub is_word : ℕ → Bool
  pub to_lower_case : Units → String
  pub matches : Units → List Range

module _ (p : Patterns) where
  abbrev pub protected_ranges : Units → Option (List Range)
  protected_ranges text =
      both_ranges (both_ranges (backtick_spans text) (delimited_spans text)) (some (p.matches text))

  abbrev pub is_joined : Option ℕ → Bool
  is_joined none = false
  is_joined (some c) = p.is_word c

  abbrev pub follows_at : Option ℕ → Bool
  follows_at none = false
  follows_at (some c) = c == b'@'

  abbrev pub previous : Units → ℕ → Option ℕ
  previous text zero = none
  previous text (suc n) = get_elem? text n

  abbrev pub is_plain : Units → List Range → Range → Bool
  is_plain text ranges range =
      not (has_protected_offset ranges range.0 range.1)
      && not (is_joined (previous text range.0) || follows_at (previous text range.0))
      && not (is_joined (get_elem? text range.1))

  abbrev pub occurrence_at : Units → Range → Occurrence
  occurrence_at text range = record {
    handle = p.to_lower_case (slice (suc range.0) range.1 text);
    raw = slice range.0 range.1 text;
    start = range.0;
    end = range.1;
  }

  abbrev pub find_plain : Units → Option (List Range) → Option (List Occurrence)
  find_plain text none = none
  find_plain text (some ranges) =
      some (map (occurrence_at text) (select (is_plain text ranges) (candidates 0 0 text)))

  -- `findMentionHandleOccurrences`
  unfoldable pub find_occurrences : Units → Option (List Occurrence)
  unfolding candidates backtick_spans delimited_spans
  find_occurrences text = find_plain text (protected_ranges text)
