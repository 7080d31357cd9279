-- ===== src/Mentions/Catalog/Names.antt =====
-- shookie/src/slack/mention-groups/radar-client.ts and parser.ts: in a catalog that passes the schema's
-- refinements, every handle and alias finds its group.
use shookie.Prelude.{
  String, true, false, Option, none, some, List, [], ◌∷◌, ◌≡◌, ◌⊎◌, refl, sym, ◌∙◌, ap, subst, inl,
  inr, arith, Bool-cases, str_eq, eq_iff, if◌then◌else◌, map, All,
}
use shookie.Prelude.Maps.{lookup, insert, lookup-insert}
use shookie.Mentions.Parser.{Group, has, set_aliases, index_from, build_index}
use shookie.Mentions.Catalog.{
  no_duplicates, collides, own_handles, have_owners, id_of, is_valid_catalog,
}

abbrev pub names : Group → List String
names g = g.handle ∷ g.aliases

abbrev pub Member : Group → List Group → Type 0
Member g [] = ⊥
Member g (q ∷ groups) = (q ≡ g) ⊎ Member g groups

lookup-set_aliases :
    (name : String) (g : Group) (aliases : List String) (m : List (String × Group))
    → lookup name (set_aliases g aliases m) ≡ (if has name aliases then some g else lookup name m)
lookup-set_aliases name g [] m = refl
lookup-set_aliases name g (alias ∷ aliases) m =
    ground
      (arith, lookup-set_aliases name g aliases (insert alias g m), lookup-insert alias name g m)

-- The index of one more group.
abbrev put_names : Group → List (String × Group) → List (String × Group)
put_names g m = set_aliases g g.aliases (insert g.handle g m)

lookup-put_names :
    (name : String) (g : Group) (m : List (String × Group))
    → lookup name (put_names g m) ≡ (if has name (names g) then some g else lookup name m)
lookup-put_names name g m = ground (
  arith,
  lookup-set_aliases name g g.aliases (insert g.handle g m),
  lookup-insert g.handle name g m,
)

lookup-index_from :
    (name : String) (groups : List Group) (m : List (String × Group))
    → All (λ g. has name (names g) ≡ false) groups
    → lookup name (index_from groups m) ≡ lookup name m
lookup-index_from name [] m a = refl
lookup-index_from name (g ∷ groups) m a =
    ground
      (arith, lookup-index_from name groups (put_names g m) a.1, lookup-put_names name g m, a.0)

lookup-own_handles :
    (name id : String) (handles : List String) (owners : List (String × String))
    → lookup name (own_handles id handles owners).1
      ≡ (if has name handles then some id else lookup name owners)
lookup-own_handles name id [] owners = refl
lookup-own_handles name id (handle ∷ handles) owners = ground (
  arith,
  lookup-own_handles name id handles (insert handle id owners),
  lookup-insert handle name id owners,
)

own_first :
    {id owner : String} (found : Option String)
    → found ≡ some owner
    → str_eq owner "" ≡ false
    → collides id found ≡ false
    → owner ≡ id
own_first none o e c = cc
own_first {id} {owner} (some x) o e c =
    let same : x ≡ owner = cc in ground (arith, c, e, same, eq_iff x id)

still_owned :
    (name owner : String) (g : Group) (owners : List (String × String))
    → (has name (names g) ≡ true → owner ≡ g.id)
    → lookup name owners ≡ some owner
    → lookup name (own_handles g.id (names g) owners).1 ≡ some owner
still_owned name owner g owners first o = elim (Bool-cases (has name (names g))) [
  | inl there ↦
      lookup-own_handles name g.id (names g) owners
      ∙ subst (λ b. (if b then some g.id else lookup name owners) ≡ some owner) (sym there)
          (ap some (sym (first there)))
  | inr absent ↦
      lookup-own_handles name g.id (names g) owners
      ∙ subst (λ b. (if b then some g.id else lookup name owners) ≡ some owner) (sym absent) o
]

-- A name that has an owner is only taken by a group of that id.
own_handles-free :
    (name id owner : String) (handles : List String) (owners : List (String × String))
    → (own_handles id handles owners).0 ≡ true
    → has name handles ≡ true
    → lookup name owners ≡ some owner
    → str_eq owner "" ≡ false
    → owner ≡ id
own_handles-free name id owner [] owners f h o e = cc
own_handles-free name id owner (handle ∷ handles) owners f h o e =
    elim (Bool-cases (str_eq handle name)) [
      | inl same ↦
          let key : handle ≡ name = ground (arith, same, eq_iff handle name) in
          let here : lookup handle owners ≡ some owner =
            (subst (λ k. lookup k owners ≡ some owner) (sym key) o) in
          own_first (lookup handle owners) here e (ground (arith, f))
      | inr other ↦
          own_handles-free name id owner handles (insert handle id owners) (ground (arith, f))
            (ground (arith, h, other))
            (lookup-insert handle name id owners
              ∙ subst (λ b. (if b then some id else lookup name owners) ≡ some owner) (sym other) o)
            e
    ]

-- Each group of an owned name has the owner's id.
have_owners-same :
    (name owner : String) (groups : List Group) (owners : List (String × String))
    → have_owners groups owners ≡ true
    → lookup name owners ≡ some owner
    → str_eq owner "" ≡ false
    → All (λ g. has name (names g) ≡ true → owner ≡ g.id) groups
have_owners-same name owner [] owners f o e = tt
have_owners-same name owner (g ∷ groups) owners f o e =
    let first : has name (names g) ≡ true → owner ≡ g.id =
      (λ h. own_handles-free name g.id owner (names g) owners (ground (arith, f)) h o e) in
    (
      first,
      have_owners-same name owner groups (own_handles g.id (names g) owners).1 (ground (arith, f))
          (still_owned name owner g owners first o) e,
    )

has_no_id :
    (g : Group) (groups : List Group)
    → has g.id (map id_of groups) ≡ false
    → All (λ q. str_eq q.id g.id ≡ false) groups
has_no_id g [] h = tt
has_no_id g (q ∷ groups) h = (ground (arith, h), has_no_id g groups (ground (arith, h)))

apart :
    (name : String) (g : Group) (groups : List Group)
    → All (λ q. has name (names q) ≡ true → g.id ≡ q.id) groups
    → All (λ q. str_eq q.id g.id ≡ false) groups
    → All (λ q. has name (names q) ≡ false) groups
apart name g [] s d = tt
apart name g (q ∷ groups) s d = (
  elim (Bool-cases (has name (names q))) [
    | inl there ↦ (let same = s.0 there in ground (arith, there, same, d.0, eq_iff q.id g.id))
    | inr absent ↦ absent
  ],
  apart name g groups s.1 d.1,
)

lookup-found :
    (name : String) (g : Group) (groups : List Group) (m : List (String × Group))
    (owners : List (String × String))
    → have_owners groups owners ≡ true
    → no_duplicates (map id_of groups) ≡ true
    → All (λ q. str_eq q.id "" ≡ false) groups
    → Member g groups
    → has name (names g) ≡ true
    → lookup name (index_from groups m) ≡ some g
lookup-found name g [] m owners f n e i h = absurd i
lookup-found name g (q ∷ groups) m owners f n e (inr i) h =
    lookup-found name g groups (put_names q m) (own_handles q.id (names q) owners).1
      (ground (arith, f)) (ground (arith, n)) e.1 i h
lookup-found name g (q ∷ groups) m owners f n e (inl i) h =
    let h' : has name (names q) ≡ true = subst (λ x. has name (names x) ≡ true) (sym i) h in
    let owned : lookup name (own_handles q.id (names q) owners).1 ≡ some q.id =
      (lookup-own_handles name q.id (names q) owners
        ∙ subst (λ b. (if b then some q.id else lookup name owners) ≡ some q.id) (sym h') refl) in
    let same =
      have_owners-same name q.id groups (own_handles q.id (names q) owners).1 (ground (arith, f))
        owned e.0 in
    let others = apart name q groups same (has_no_id q groups (ground (arith, n))) in
    lookup-index_from name groups (put_names q m) others
    ∙ lookup-put_names name q m
    ∙ subst (λ b. (if b then some q else lookup name m) ≡ some g) (sym h') (ap some i)

-- In a catalog that the refinements let through, and whose groups have ids, every handle and every alias
-- of a group finds that group in the index, and no other.
pub lookup-build_index :
    (name : String) (g : Group) (groups : List Group)
    → is_valid_catalog groups ≡ true
    → All (λ q. str_eq q.id "" ≡ false) groups
    → Member g groups
    → has name (names g) ≡ true
    → lookup name (build_index groups) ≡ some g
unfolding is_valid_catalog build_index
lookup-build_index name g groups v e i h =
    lookup-found name g groups [] [] (ground (arith, v)) (ground (arith, v)) e i h
