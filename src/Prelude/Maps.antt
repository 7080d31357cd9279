-- ===== src/Prelude/Maps.antt =====
-- A JavaScript `Map` with text keys, as the list of its entries in insertion order.
use Prim.Native.Nat.{ℕ, suc, ◌+◌, ◌≤◌}
use Prim.Native.String.{String}
use mathlib.Core.Path.{◌≡◌, refl}
use mathlib.Core.Bool.{Bool, true, false}
use mathlib.Core.List.{List, [], ◌∷◌, ◌++◌}
use mathlib.Core.Option.{Option, none, some}
use native.Mathlib.Omega.{arith}
use text.Mathlib.Text.{◌==◌ as str_eq}
use text.Mathlib.TextEquality.{eq_iff}
use shookie.Prelude.Tests.{if◌then◌else◌}
use shookie.Prelude.Lists.{length, select}

module _ {ℓ} {V : Type ℓ} where
  -- `map.get(key)`
  unfoldable pub lookup : String → List (String × V) → Option V
  lookup key [] = none
  lookup key (e ∷ entries) = if str_eq e.0 key then some e.1 else lookup key entries

  -- `map.set(k, v)`: in place for a known key, at the end for a new one.
  unfoldable pub insert : String → V → List (String × V) → List (String × V)
  insert key value [] = (key, value) ∷ []
  insert key value (e ∷ entries) =
      if str_eq e.0 key then (e.0, value) ∷ entries else e ∷ insert key value entries

  -- `map.delete(k)`
  unfoldable pub erase : String → List (String × V) → List (String × V)
  erase k [] = []
  erase k ((j, w) ∷ m) = if str_eq j k then m else (j, w) ∷ erase k m

  -- No key stands twice, as in every `Map`.
  abbrev pub Distinct : List (String × V) → Type ℓ
  Distinct [] = Unit
  Distinct ((j, w) ∷ m) = (lookup j m ≡ none) × Distinct m

module _ {ℓ} {V : Type ℓ} where
  -- Reading back at any key after `map.set`.
  pub lookup-insert :
      (key other : String) (value : V) (entries : List (String × V))
      → lookup other (insert key value entries)
        ≡ (if str_eq key other then some value else lookup other entries)
  unfolding insert lookup
  lookup-insert key other value [] = refl
  lookup-insert key other value (e ∷ entries) = ground (
    arith,
    lookup-insert key other value entries,
    eq_iff e.0 other,
    eq_iff e.0 key,
    eq_iff key other,
  )

  pub lookup-erase_ne :
      (k j : String) (m : List (String × V))
      → str_eq k j ≡ false
      → lookup j (erase k m) ≡ lookup j m
  unfolding lookup erase
  lookup-erase_ne k j [] h = refl
  lookup-erase_ne k j ((i, w) ∷ m) h =
      ground (arith, eq_iff k j, eq_iff i k, eq_iff i j, lookup-erase_ne k j m h)

  pub lookup-erase_self :
      (k : String) (m : List (String × V)) → Distinct m → lookup k (erase k m) ≡ none
  unfolding lookup erase
  lookup-erase_self k [] d = refl
  lookup-erase_self k ((i, w) ∷ m) d = ground (arith, eq_iff i k, lookup-erase_self k m d.1)

  pub lookup-erase-none :
      (k j : String) (m : List (String × V)) → lookup j m ≡ none → lookup j (erase k m) ≡ none
  unfolding lookup erase
  lookup-erase-none k j [] h = refl
  lookup-erase-none k j ((i, w) ∷ m) h =
      ground (arith, eq_iff k j, eq_iff i k, eq_iff i j, lookup-erase-none k j m)

  pub erase-Distinct : (k : String) (m : List (String × V)) → Distinct m → Distinct (erase k m)
  unfolding erase
  erase-Distinct k [] d = tt
  erase-Distinct k ((i, w) ∷ m) d =
      ground (arith, erase-Distinct k m d.1, lookup-erase-none k i m d.0)

  pub insert-Distinct :
      (k : String) (v : V) (m : List (String × V)) → Distinct m → Distinct (insert k v m)
  unfolding insert lookup
  insert-Distinct k v [] d = (refl, tt)
  insert-Distinct k v ((i, w) ∷ m) d =
      ground (arith, insert-Distinct k v m d.1, lookup-insert k i v m, eq_iff i k, eq_iff k i)

  pub length-erase-le : (k : String) (m : List (String × V)) → length (erase k m) ≤ length m
  unfolding erase
  length-erase-le k [] = omega arith
  length-erase-le k ((i, w) ∷ m) = ground (arith, length-erase-le k m)

  pub length-insert-le :
      (k : String) (v : V) (m : List (String × V)) → length (insert k v m) ≤ length m + 1
  unfolding insert
  length-insert-le k v [] = omega arith
  length-insert-le k v ((i, w) ∷ m) = ground (arith, length-insert-le k v m)

  pub insert_new :
      (k : String) (v : V) (m : List (String × V))
      → lookup k m ≡ none
      → insert k v m ≡ m ++ (k, v) ∷ []
  unfolding insert lookup
  insert_new k v [] h = refl
  insert_new k v ((i, w) ∷ m) h = ground (arith, insert_new k v m)

  pub lookup-select-none :
      (p : String × V → Bool) (k : String) (m : List (String × V))
      → lookup k m ≡ none
      → lookup k (select p m) ≡ none
  unfolding lookup
  lookup-select-none p k [] h = refl
  lookup-select-none p k ((i, w) ∷ m) h = ground (arith, lookup-select-none p k m)

  pub select-Distinct :
      (p : String × V → Bool) (m : List (String × V)) → Distinct m → Distinct (select p m)
  select-Distinct p [] d = tt
  select-Distinct p ((i, w) ∷ m) d =
      ground (arith, select-Distinct p m d.1, lookup-select-none p i m d.0)

  pub lookup-erase :
      (k j : String) (m : List (String × V))
      → Distinct m
      → lookup j (erase k m) ≡ (if str_eq k j then none else lookup j m)
  lookup-erase k j m d = ground (arith, eq_iff k j, lookup-erase_self k m d, lookup-erase_ne k j m)

  pub length-erase-some :
      (k : String) (m : List (String × V)) {v : V}
      → lookup k m ≡ some v
      → suc (length (erase k m)) ≡ length m
  unfolding erase lookup
  length-erase-some k [] h = cc
  length-erase-some k ((i, w) ∷ m) {v} h = ground (arith, length-erase-some k m {v = v})

abbrev pub one : Bool → ℕ
one true = 1
one false = 0

module _ {ℓ} {V : Type ℓ} where
  -- How many values pass a test.
  abbrev pub count : (V → Bool) → List (String × V) → ℕ
  count p [] = 0
  count p (e ∷ m) = one (p e.1) + count p m

  pub count-insert-none :
      (p : V → Bool) (k : String) (v : V) (m : List (String × V))
      → lookup k m ≡ none
      → count p (insert k v m) ≡ count p m + one (p v)
  unfolding insert lookup
  count-insert-none p k v [] h = omega arith
  count-insert-none p k v ((i, w) ∷ m) h = ground (arith, count-insert-none p k v m)

  pub count-insert-some :
      (p : V → Bool) (k : String) (v : V) (m : List (String × V)) {w : V}
      → lookup k m ≡ some w
      → count p (insert k v m) + one (p w) ≡ count p m + one (p v)
  unfolding insert lookup
  count-insert-some p k v [] h = cc
  count-insert-some p k v ((i, u) ∷ m) {w} h = ground (arith, count-insert-some p k v m {w = w})

  pub count-erase-some :
      (p : V → Bool) (k : String) (m : List (String × V)) {w : V}
      → lookup k m ≡ some w
      → count p (erase k m) + one (p w) ≡ count p m
  unfolding erase lookup
  count-erase-some p k [] h = cc
  count-erase-some p k ((i, u) ∷ m) {w} h = ground (arith, count-erase-some p k m {w = w})

  pub length-insert-none :
      (k : String) (v : V) (m : List (String × V))
      → lookup k m ≡ none
      → length (insert k v m) ≡ length m + 1
  unfolding insert lookup
  length-insert-none k v [] h = omega arith
  length-insert-none k v ((i, w) ∷ m) h = ground (arith, length-insert-none k v m)

  pub length-insert-some :
      (k : String) (v : V) (m : List (String × V)) {w : V}
      → lookup k m ≡ some w
      → length (insert k v m) ≡ length m
  unfolding insert lookup
  length-insert-some k v [] h = cc
  length-insert-some k v ((i, u) ∷ m) {w} h = ground (arith, length-insert-some k v m {w = w})
