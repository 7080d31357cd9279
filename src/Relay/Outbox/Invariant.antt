-- ===== src/Relay/Outbox/Invariant.antt =====
-- The outbox in good order, and which updates keep it so.
use shookie.Prelude.{
  ℕ, suc, ◌<◌, ◌≡◌, refl, ◌≢◌, inl, inr, Bool, true, false, none, List, [], ◌∷◌, ◌++◌, map, arith,
  All, All-append, All-select, All-imp, select, is_some, eq_iff, if◌then◌else◌, Bool-cases,
}
use shookie.Relay.Outbox.{
  Metadata, delivering, delivered, Row, Table, has_event, same_event, has_id, fresh_row, enqueue,
}

-- A row is leased, by a token and until a time, exactly while it is being delivered, and has a
-- delivery time exactly once it was delivered.
pub record RowInv (r : Row) : Type 0 where
  pub leased :
      r.status ≡ delivering → (is_some r.claim_token ≡ true) × (is_some r.lease_until ≡ true)
  pub released : r.status ≢ delivering → (r.claim_token ≡ none) × (r.lease_until ≡ none)
  pub dated : r.status ≡ delivered → is_some r.delivered_at ≡ true
  pub undated : r.status ≢ delivered → r.delivered_at ≡ none

abbrev pub Unique : List Row → Type 0
Unique [] = Unit
Unique (r ∷ rows) = (has_id r.id rows ≡ false) × (has_event r.metadata rows ≡ false) × Unique rows

pub record IsConsistent (t : Table) : Type 0 where
  pub rows_ok : All RowInv t.rows
  pub numbered : All (λ r. r.id < t.next_id) t.rows
  pub unique : Unique t.rows

-- An update of rows one by one that keeps their ids and their events.
pub record IsUpdate (f : Row → Row) : Type 0 where
  pub same_id : (r : Row) → (f r).id ≡ r.id
  pub same_event : (r : Row) → (f r).metadata ≡ r.metadata

module _ (f : Row → Row) (u : IsUpdate f) where
  has_id-map : (i : ℕ) (rows : List Row) → has_id i (map f rows) ≡ has_id i rows
  unfolding has_id
  has_id-map i [] = refl
  has_id-map i (r ∷ rows) = ground (arith, has_id-map i rows, u.same_id r)

  has_event-map : (m : Metadata) (rows : List Row) → has_event m (map f rows) ≡ has_event m rows
  unfolding has_event
  has_event-map m [] = refl
  has_event-map m (r ∷ rows) = ground (arith, has_event-map m rows, u.same_event r)

  map-Unique : (rows : List Row) → Unique rows → Unique (map f rows)
  map-Unique [] v = tt
  map-Unique (r ∷ rows) v = ground (
    arith,
    u.same_id r,
    u.same_event r,
    has_id-map r.id rows,
    has_event-map r.metadata rows,
    map-Unique rows v.2,
  )

  map-RowInv : (rows : List Row) → All (λ r. RowInv (f r)) rows → All RowInv (map f rows)
  map-RowInv [] v = tt
  map-RowInv (r ∷ rows) v = (v.0, map-RowInv rows v.1)

  map-numbered :
      (n : ℕ) (rows : List Row) → All (λ r. r.id < n) rows → All (λ r. r.id < n) (map f rows)
  map-numbered n [] v = tt
  map-numbered n (r ∷ rows) v = (rw (u.same_id r) v.0, map-numbered n rows v.1)

  pub map-IsConsistent :
      (t : Table)
      → IsConsistent t
      → All (λ r. RowInv (f r)) t.rows
      → IsConsistent (record t { rows = map f t.rows })
  map-IsConsistent t v k = record {
    rows_ok = map-RowInv t.rows k;
    numbered = map-numbered t.next_id t.rows v.numbered;
    unique = map-Unique t.rows v.unique;
  }

-- An update of the rows that pass a test.
pub where-IsConsistent :
    (p : Row → Bool) (f : Row → Row) (t : Table)
    → ((r : Row) → (f r).id ≡ r.id)
    → ((r : Row) → (f r).metadata ≡ r.metadata)
    → ((r : Row) → p r ≡ true → RowInv r → RowInv (f r))
    → IsConsistent t
    → IsConsistent (record t { rows = map (λ r. if p r then f r else r) t.rows })
where-IsConsistent p f t i m k v =
    map-IsConsistent (λ r. if p r then f r else r)
      (record { same_id = λ r. ground (arith, i r); same_event = λ r. ground (arith, m r) }) t v
      (All-imp RowInv (λ r. RowInv (if p r then f r else r)) t.rows
        (λ r w. elim (Bool-cases (p r)) [ inl h ↦ rw h (k r h w) | inr h ↦ rw h w ]) v.rows_ok)

module _ (p : Row → Bool) where
  pub has_id-select :
      (i : ℕ) (rows : List Row) → has_id i rows ≡ false → has_id i (select p rows) ≡ false
  unfolding has_id
  has_id-select i [] h = refl
  has_id-select i (r ∷ rows) h = ground (arith, has_id-select i rows)

  has_event-select :
      (m : Metadata) (rows : List Row)
      → has_event m rows ≡ false
      → has_event m (select p rows) ≡ false
  unfolding has_event
  has_event-select m [] h = refl
  has_event-select m (r ∷ rows) h = ground (arith, has_event-select m rows)

  select-Unique : (rows : List Row) → Unique rows → Unique (select p rows)
  select-Unique [] v = tt
  select-Unique (r ∷ rows) v =
      ground
        (arith, has_id-select r.id rows, has_event-select r.metadata rows, select-Unique rows v.2)

  pub select-IsConsistent :
      (t : Table) → IsConsistent t → IsConsistent (record t { rows = select p t.rows })
  select-IsConsistent t v = record {
    rows_ok = All-select RowInv p t.rows v.rows_ok;
    numbered = All-select (λ r. r.id < t.next_id) p t.rows v.numbered;
    unique = select-Unique t.rows v.unique;
  }

numbered-suc : (n : ℕ) (rows : List Row) → All (λ r. r.id < n) rows → All (λ r. r.id < suc n) rows
numbered-suc n [] v = tt
numbered-suc n (r ∷ rows) v = (omega arith, numbered-suc n rows v.1)

fresh_id : (n : ℕ) (rows : List Row) → All (λ r. r.id < n) rows → has_id n rows ≡ false
unfolding has_id
fresh_id n [] v = refl
fresh_id n (r ∷ rows) v = ground (arith, fresh_id n rows v.1)

has_id-snoc :
    (i : ℕ) (rows : List Row) (s : Row)
    → has_id i rows ≡ false
    → i ≢ s.id
    → has_id i (rows ++ s ∷ []) ≡ false
unfolding has_id
has_id-snoc i [] s h n = ground arith
has_id-snoc i (r ∷ rows) s h n = ground (arith, has_id-snoc i rows s)

same_event-sym :
    (m : Metadata) (r s : Row)
    → s.metadata ≡ m
    → same_event m r ≡ false
    → same_event r.metadata s ≡ false
same_event-sym m r s e h = ground (
  arith,
  eq_iff m.team_id r.metadata.team_id,
  eq_iff m.app_id r.metadata.app_id,
  eq_iff m.event_id r.metadata.event_id,
  eq_iff r.metadata.team_id m.team_id,
  eq_iff r.metadata.app_id m.app_id,
  eq_iff r.metadata.event_id m.event_id,
)

has_event-snoc :
    (m : Metadata) (rows : List Row) (s : Row)
    → has_event m rows ≡ false
    → same_event m s ≡ false
    → has_event m (rows ++ s ∷ []) ≡ false
unfolding has_event
has_event-snoc m [] s h n = ground arith
has_event-snoc m (r ∷ rows) s h n = ground (arith, has_event-snoc m rows s)

snoc-Unique :
    (rows : List Row) (s : Row)
    → All (λ r. r.id < s.id) rows
    → has_event s.metadata rows ≡ false
    → Unique rows
    → Unique (rows ++ s ∷ [])
unfolding has_event has_id
snoc-Unique [] s n h v = (refl, refl, tt)
snoc-Unique (r ∷ rows) s n h v = (
  has_id-snoc r.id rows s v.0 (omega arith),
  has_event-snoc r.metadata rows s v.1 (same_event-sym s.metadata r s refl (ground arith)),
  snoc-Unique rows s n.1 (ground arith) v.2,
)

pub enqueue-IsConsistent :
    (now : ℕ) (m : Metadata) (t : Table) → IsConsistent t → IsConsistent (enqueue now m t).0
unfolding enqueue
enqueue-IsConsistent now m t v = elim (Bool-cases (has_event m t.rows)) [
  | inl h ↦ rw h (record {
    rows_ok = v.rows_ok;
    numbered = numbered-suc t.next_id t.rows v.numbered;
    unique = v.unique;
  })
  | inr h ↦ rw h (record {
    rows_ok = All-append RowInv t.rows _ v.rows_ok (ground arith, tt);
    numbered =
        All-append (λ r. r.id < suc t.next_id) t.rows _ (numbered-suc t.next_id t.rows v.numbered)
          (omega arith, tt);
    unique = snoc-Unique t.rows (fresh_row now t.next_id m) v.numbered h v.unique;
  })
]
