-- ===== src/Relay/Outbox/Find.antt =====
-- Following one row of the outbox, by its id, through the updates.
use shookie.Prelude.{
  ℕ, ◌≡◌, refl, Bool, true, false, Option, none, some, List, [], ◌∷◌, ◌++◌, map, arith, All, select,
  ◌==◌, if◌then◌else◌, Bool-cases, subst, inl, inr,
}
use shookie.Relay.Outbox.{Row, has_id}
use shookie.Relay.Outbox.Invariant.{IsUpdate, Unique, has_id-select}

unfoldable pub find_row : ℕ → List Row → Option Row
find_row i [] = none
find_row i (r ∷ rows) = if r.id == i then some r else find_row i rows

abbrev pub after : (Row → Row) → Option Row → Option Row
after f none = none
after f (some r) = some (f r)

pub find_row-map :
    (f : Row → Row) (u : IsUpdate f) (i : ℕ) (rows : List Row)
    → find_row i (map f rows) ≡ after f (find_row i rows)
unfolding find_row
find_row-map f u i [] = refl
find_row-map f u i (r ∷ rows) = ground (arith, u.same_id r, find_row-map f u i rows)

pub find_row-select :
    (p : Row → Bool) (i : ℕ) (rows : List Row) (r : Row)
    → find_row i rows ≡ some r
    → p r ≡ true
    → find_row i (select p rows) ≡ some r
unfolding find_row
find_row-select p i [] r e h = cc
find_row-select p i (s ∷ rows) r e h = ground (arith, find_row-select p i rows r)

find_row-none : (i : ℕ) (rows : List Row) → has_id i rows ≡ false → find_row i rows ≡ none
unfolding find_row has_id
find_row-none i [] h = refl
find_row-none i (s ∷ rows) h = ground (arith, find_row-none i rows)

pub find_row-append :
    (i : ℕ) (rows more : List Row) (r : Row)
    → find_row i rows ≡ some r
    → find_row i (rows ++ more) ≡ some r
unfolding find_row
find_row-append i [] more r e = cc
find_row-append i (s ∷ rows) more r e = ground (arith, find_row-append i rows more r)

pub find_row-id : (i : ℕ) (rows : List Row) (r : Row) → find_row i rows ≡ some r → r.id ≡ i
unfolding find_row
find_row-id i [] r e = cc
find_row-id i (s ∷ rows) r e = ground (arith, find_row-id i rows r)

pub All-find_row :
    (P : Row → Type 0) (i : ℕ) (rows : List Row) (r : Row)
    → All P rows
    → find_row i rows ≡ some r
    → P r
unfolding find_row
All-find_row P i [] r a e = cc
All-find_row P i (s ∷ rows) r a e = elim (Bool-cases (s.id == i)) [
  | inl h ↦ subst P (ground arith) a.0
  | inr h ↦ All-find_row P i rows r a.1 (ground arith)
]

pub find_row-select_out :
    (p : Row → Bool) (i : ℕ) (rows : List Row) (r : Row)
    → Unique rows
    → find_row i rows ≡ some r
    → p r ≡ false
    → find_row i (select p rows) ≡ none
unfolding find_row
find_row-select_out p i [] r u e h = refl
find_row-select_out p i (s ∷ rows) r u e h = elim (Bool-cases (s.id == i)) [
  | inl q ↦ ground (arith, find_row-none i (select p rows), has_id-select p i rows)
  | inr q ↦ ground (arith, find_row-select_out p i rows r u.2)
]
