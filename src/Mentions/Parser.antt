-- ===== src/Mentions/Parser.antt =====
-- shookie/src/slack/mention-groups/parser.ts: `createMentionReplacementPlan` and
-- `buildMentionGroupIndex`. A text is the list of its UTF-16 units, as `slice` counts them; the
-- occurrences of handles are an argument: Mentions/Finder finds them.
pub mod Kept
use Prim.Native.String.{String, ◌++◌ as text_append}
use shookie.Prelude.{
  ℕ, suc, ◌+◌, ◌-◌, Bool, true, false, Option, none, some, List, [], ◌∷◌, ◌++◌, ltb, not, ◌==◌,
  ◌&&◌, is_some, str_eq, if◌then◌else◌, length, take, drop, map,
}
use shookie.Prelude.Maps.{lookup, insert}

abbrev pub Units : Type 0
Units = List ℕ

pub record Occurrence : Type 0 where
  pub handle : String
  pub raw : Units
  pub start : ℕ
  pub end : ℕ

pub record Group : Type 0 where
  pub id : String
  pub handle : String
  pub aliases : List String
  pub member_user_ids : List String

abbrev pub set_aliases : Group → List String → List (String × Group) → List (String × Group)
set_aliases group [] by_handle = by_handle
set_aliases group (alias ∷ aliases) by_handle =
    set_aliases group aliases (insert alias group by_handle)

abbrev pub index_from : List Group → List (String × Group) → List (String × Group)
index_from [] by_handle = by_handle
index_from (group ∷ groups) by_handle =
    index_from groups (set_aliases group group.aliases (insert group.handle group by_handle))

-- `buildMentionGroupIndex`
unfoldable pub build_index : List Group → List (String × Group)
build_index groups = index_from groups []

-- `Set.add`: a member is put at the end unless it is there.
abbrev pub has : String → List String → Bool
has x [] = false
has x (y ∷ ys) = if str_eq y x then true else has x ys

unfoldable pub add : String → List String → List String
add x ys = if has x ys then ys else ys ++ x ∷ []

unfoldable pub add_all : List String → List String → List String
unfolding add
add_all [] ys = ys
add_all (x ∷ xs) ys = add_all xs (add x ys)

pub record Replacement : Type 0 where
  pub start : ℕ
  pub end : ℕ
  pub replacement : Units

-- The local variables of `createMentionReplacementPlan`.
pub record Progress : Type 0 where
  pub member_ids : List String
  pub seen_groups : List String
  pub unknown_handles : List (String × Units)
  pub empty_group_handles : List (String × Units)
  pub replacements : List Replacement
  pub matched : ℕ

-- `if (!map.has(key)) map.set(key, value)`
abbrev pub note_handle : String → Units → List (String × Units) → List (String × Units)
note_handle key raw m = if is_some (lookup key m) then m else insert key (drop 1 raw) m

abbrev join_mentions : List String → String
join_mentions [] = ""
join_mentions (id ∷ []) = text_append "<@" (text_append id ">")
join_mentions (id ∷ ids) = text_append "<@" (text_append id (text_append "> " (join_mentions ids)))

abbrev render_with : String → String → String
render_with handle mentions =
    if str_eq mentions ""
    then text_append "`@" (text_append handle "`")
    else text_append "`@" (text_append handle (text_append "`(" (text_append mentions ")")))

-- The handle, and the members that it stands for.
unfoldable pub render : String → List String → String
render handle members = render_with handle (join_mentions members)

-- `units` gives the UTF-16 units of a text.
module _ (units : String → Units) where
  abbrev pub match_group : Occurrence → Option Group → Progress → Progress
  match_group o none p = record p { unknown_handles = note_handle o.handle o.raw p.unknown_handles }
  match_group o (some group) p =
      let p' = record p { matched = suc p.matched; seen_groups = add group.handle p.seen_groups } in
      if length group.member_user_ids == 0
      then record p' { empty_group_handles = note_handle group.handle o.raw p'.empty_group_handles }
      else (let members = add_all group.member_user_ids [] in
          record p' {
            member_ids = add_all members p'.member_ids;
            replacements =
                p'.replacements
                ++ record {
                  start = o.start;
                  end = o.end;
                  replacement = units (render o.handle members);
                }
                  ∷ [];
          })

  -- The first loop.
  unfoldable pub match_all : List (String × Group) → List Occurrence → Progress → Progress
  unfolding add add_all
  match_all by_handle [] p = p
  match_all by_handle (o ∷ os) p =
      match_all by_handle os (match_group o (lookup o.handle by_handle) p)

-- `text.slice(from, to)`, empty if `to` is before `from`
abbrev pub slice : ℕ → ℕ → Units → Units
slice from to text = take (to - from) (drop from text)

-- The second loop, and the rest of the text behind it.
unfoldable pub replace_from : ℕ → List Replacement → Units → Units
replace_from cursor [] text = drop cursor text
replace_from cursor (r ∷ rs) text =
    slice cursor r.start text ++ r.replacement ++ replace_from r.end rs text

abbrev pub same_units : Units → Units → Bool
same_units [] [] = true
same_units (a ∷ left) (b ∷ right) = if a == b then same_units left right else false
same_units _ _ = false

abbrev pub nothing_yet : Progress
nothing_yet = record {
  member_ids = [];
  seen_groups = [];
  unknown_handles = [];
  empty_group_handles = [];
  replacements = [];
  matched = 0;
}

-- `MentionReplacementPlan`
pub record ReplacementPlan : Type 0 where
  pub text : Units
  pub changed : Bool
  pub matched_occurrence_count : ℕ
  pub group_handles : List String
  pub member_user_ids : List String
  pub unknown_handles : List Units
  pub empty_group_handles : List Units

abbrev value : String × Units → Units
value e = e.1

abbrev pub plan_of : Units → Progress → ReplacementPlan
plan_of text p =
    let output = replace_from 0 p.replacements text in
    record {
      text = output;
      changed = ltb 0 (length p.replacements) && not (same_units output text);
      matched_occurrence_count = p.matched;
      group_handles = p.seen_groups;
      member_user_ids = p.member_ids;
      unknown_handles = map value p.unknown_handles;
      empty_group_handles = map value p.empty_group_handles;
    }

-- `createMentionReplacementPlan`. Without replacements the loop's result is the text itself.
unfoldable pub create_plan :
    (String → Units) → Units → List (String × Group) → List Occurrence → ReplacementPlan
unfolding match_all replace_from
create_plan units text by_handle os = plan_of text (match_all units by_handle os nothing_yet)
