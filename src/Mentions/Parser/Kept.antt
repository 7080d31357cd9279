-- ===== src/Mentions/Parser/Kept.antt =====
-- shookie/src/slack/mention-groups/parser.ts: a plan changes a text at its occurrences only.
use Prim.Native.String.{String}
use shookie.Prelude.{
  ℕ, zero, suc, ◌-◌, ◌≤◌, Option, none, some, List, [], ◌∷◌, ◌++◌, ◌≡◌, refl, ap, sym, ◌∙◌, arith,
  ◌==◌, if◌then◌else◌, length, take, drop, map, Bool-cases, inl, inr,
}
use shookie.Prelude.Maps.{lookup}
use shookie.Mentions.Parser.{
  Units, Occurrence, Group, Replacement, Progress, match_group, match_all, slice, replace_from,
  create_plan, nothing_yet, render, add_all,
}

-- The stretches are in order, from `from` on.
abbrev pub Chain : ℕ → List Replacement → Type 0
Chain from [] = Unit
Chain from (r ∷ rs) = (from ≤ r.start) × (r.start ≤ r.end) × Chain r.end rs

abbrev pub InOrder : ℕ → List Occurrence → Type 0
InOrder from [] = Unit
InOrder from (o ∷ os) = (from ≤ o.start) × (o.start ≤ o.end) × InOrder o.end os

-- The stretch of the text itself, in place of what replaces it.
abbrev pub original : Units → Replacement → Replacement
original text r = record r { replacement = slice r.start r.end text }

append_assoc {ℓ} : {A : Type ℓ} (xs ys zs : List A) → (xs ++ ys) ++ zs ≡ xs ++ (ys ++ zs)
append_assoc [] ys zs = refl
append_assoc (x ∷ xs) ys zs = ap (λ l. x ∷ l) (append_assoc xs ys zs)

take-drop : (n : ℕ) (xs : Units) → take n xs ++ drop n xs ≡ xs
take-drop zero xs = refl
take-drop (suc n) [] = refl
take-drop (suc n) (x ∷ xs) = ap (λ l. x ∷ l) (take-drop n xs)

take_nil : (n : ℕ) → take {A = ℕ} n [] ≡ []
take_nil zero = refl
take_nil (suc n) = refl

slice-drop :
    (from to : ℕ) (text : Units) → from ≤ to → slice from to text ++ drop to text ≡ drop from text
slice-drop zero to text h =
    let all : to - 0 ≡ to = omega arith in
    ap (λ n. take n text ++ drop to text) all ∙ take-drop to text
slice-drop (suc from) zero text h = absurd (omega (arith, h))
slice-drop (suc from) (suc to) [] h =
    let less : suc to - suc from ≡ to - from = omega arith in
    ap (λ n. take n [] ++ []) less ∙ ap (λ l. l ++ []) (take_nil (to - from))
slice-drop (suc from) (suc to) (x ∷ text) h =
    let less : suc to - suc from ≡ to - from = omega arith in
    ap (λ n. take n (drop from text) ++ drop to text) less
    ∙ slice-drop from to text (omega (arith, h))

replace_from-original :
    (from : ℕ) (rs : List Replacement) (text : Units)
    → Chain from rs
    → replace_from from (map (original text) rs) text ≡ drop from text
unfolding replace_from
replace_from-original from [] text h = refl
replace_from-original from (r ∷ rs) text h =
    ap (λ l. slice from r.start text ++ slice r.start r.end text ++ l)
      (replace_from-original r.end rs text h.2)
    ∙ append_assoc (slice from r.start text) (slice r.start r.end text) (drop r.end text)
    ∙ ap (λ l. slice from r.start text ++ l) (slice-drop r.start r.end text h.1)
    ∙ slice-drop from r.start text h.0

Chain-le : (from later : ℕ) (rs : List Replacement) → from ≤ later → Chain later rs → Chain from rs
Chain-le from later [] h c = tt
Chain-le from later (r ∷ rs) h c = (omega (arith, h, c.0), c.1, c.2)

append_nil : (rs : List Replacement) → rs ++ [] ≡ rs
append_nil [] = refl
append_nil (r ∷ rs) = ap (λ l. r ∷ l) (append_nil rs)

module _ (units : String → Units) where
  -- What stands in place of an occurrence: nothing else, unless its group is active and has members.
  abbrev pub stretch : Occurrence → Option Group → List Replacement
  stretch o none = []
  stretch o (some group) =
      if length group.member_user_ids == 0
      then []
      else record {
        start = o.start;
        end = o.end;
        replacement = units (render o.handle (add_all group.member_user_ids []));
      }
        ∷ []

  abbrev pub stretches : List (String × Group) → List Occurrence → List Replacement
  stretches by_handle [] = []
  stretches by_handle (o ∷ os) = stretch o (lookup o.handle by_handle) ++ stretches by_handle os

  match_group-stretch :
      (o : Occurrence) (g : Option Group) (p : Progress)
      → (match_group units o g p).replacements ≡ p.replacements ++ stretch o g
  match_group-stretch o none p = sym (append_nil p.replacements)
  match_group-stretch o (some group) p = elim (Bool-cases (length group.member_user_ids == 0)) [
    | inl nobody ↦ rw nobody (sym (append_nil p.replacements))
    | inr members ↦ rw members refl
  ]

  match_all-stretches :
      (by_handle : List (String × Group)) (os : List Occurrence) (p : Progress)
      → (match_all units by_handle os p).replacements ≡ p.replacements ++ stretches by_handle os
  unfolding match_all
  match_all-stretches by_handle [] p = sym (append_nil p.replacements)
  match_all-stretches by_handle (o ∷ os) p =
      match_all-stretches by_handle os (match_group units o (lookup o.handle by_handle) p)
      ∙ ap (λ l. l ++ stretches by_handle os) (match_group-stretch o (lookup o.handle by_handle) p)
      ∙ append_assoc p.replacements (stretch o (lookup o.handle by_handle)) (stretches by_handle os)

  stretch-Chain :
      (from : ℕ) (o : Occurrence) (g : Option Group) (rest : List Replacement)
      → from ≤ o.start
      → o.start ≤ o.end
      → Chain o.end rest
      → Chain from (stretch o g ++ rest)
  stretch-Chain from o none rest h k c = Chain-le from o.end rest (omega (arith, h, k)) c
  stretch-Chain from o (some group) rest h k c =
      elim (Bool-cases (length group.member_user_ids == 0)) [
        | inl nobody ↦ rw nobody (Chain-le from o.end rest (omega (arith, h, k)) c)
        | inr members ↦ rw members (h, k, c)
      ]

  stretches-Chain :
      (by_handle : List (String × Group)) (os : List Occurrence) (from : ℕ)
      → InOrder from os
      → Chain from (stretches by_handle os)
  stretches-Chain by_handle [] from h = tt
  stretches-Chain by_handle (o ∷ os) from h =
      stretch-Chain from o (lookup o.handle by_handle) (stretches by_handle os) h.0 h.1
        (stretches-Chain by_handle os o.end h.2)

  -- For occurrences that stand in order, a plan's text is the message with exactly those occurrences
  -- replaced whose group is active and has members: if what stands there replaced them, the result
  -- would be the message.
  pub create_plan-stretches :
      (text : Units) (by_handle : List (String × Group)) (os : List Occurrence)
      → InOrder 0 os
      → ((create_plan units text by_handle os).text ≡ replace_from 0 (stretches by_handle os) text)
        × (replace_from 0 (map (original text) (stretches by_handle os)) text ≡ text)
  unfolding create_plan
  create_plan-stretches text by_handle os h = (
    ap (λ rs. replace_from 0 rs text) (match_all-stretches by_handle os nothing_yet),
    replace_from-original 0 (stretches by_handle os) text (stretches-Chain by_handle os 0 h),
  )
