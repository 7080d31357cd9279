-- ===== src/Relay/Outbox/Fence.antt =====
-- Outcome updates under a claim token: what the holder's does, and what a stale one does.
use shookie.Prelude.{
  ℕ, ◌≡◌, refl, ◌∙◌, Bool, true, false, Option, some, List, [], ◌∷◌, map, String, arith, ◌==◌,
  select, length, All, if◌then◌else◌, Bool-cases, inl, inr,
}
use shookie.Relay.Outbox.{Row, Table, has_id}
use shookie.Relay.Outbox.Outcomes.{
  Detail, Undelivered, holds, update_where, mark_delivered, delivered_row, defer, deferred_row,
  finish, finished_row,
}
use shookie.Relay.Outbox.Invariant.{IsConsistent, Unique}
use shookie.Relay.Outbox.Find.{find_row}
use shookie.Relay.Outbox.Follow.{find_where}

holds-id : (id : ℕ) (token : String) (r : Row) → holds id token r ≡ true → r.id ≡ id
unfolding holds
holds-id id token r h = ground arith

absent_unheld :
    (id : ℕ) (token : String) (rows : List Row)
    → has_id id rows ≡ false
    → All (λ s. holds id token s ≡ false) rows
unfolding has_id
absent_unheld id token [] h = tt
absent_unheld id token (s ∷ rows) h =
    (ground (arith, holds-id id token s), absent_unheld id token rows (ground arith))

module _ (p : Row → Bool) where
  select_none : (rows : List Row) → All (λ s. p s ≡ false) rows → select p rows ≡ []
  select_none [] a = refl
  select_none (s ∷ rows) a = ground (arith, select_none rows a.1)

  map_unmet :
      (f : Row → Row) (rows : List Row)
      → All (λ s. p s ≡ false) rows
      → map (λ s. if p s then f s else s) rows ≡ rows
  map_unmet f [] a = refl
  map_unmet f (s ∷ rows) a = ground (arith, map_unmet f rows a.1)

held_once :
    (id : ℕ) (token : String) (rows : List Row) (r : Row)
    → Unique rows
    → find_row id rows ≡ some r
    → holds id token r ≡ true
    → length (select (holds id token) rows) ≡ 1
unfolding find_row
held_once id token [] r u e h = cc
held_once id token (s ∷ rows) r u e h = elim (Bool-cases (s.id == id)) [
  | inl q ↦
      ground (arith, select_none (holds id token) rows (absent_unheld id token rows (ground arith)))
  | inr q ↦ ground (arith, held_once id token rows r u.2, holds-id id token s)
]

unheld :
    (id : ℕ) (token : String) (rows : List Row)
    → Unique rows
    → ((r : Row) → find_row id rows ≡ some r → holds id token r ≡ false)
    → All (λ s. holds id token s ≡ false) rows
unfolding find_row
unheld id token [] u h = tt
unheld id token (s ∷ rows) u h = elim (Bool-cases (s.id == id)) [
  | inl q ↦ (h s (ground arith), absent_unheld id token rows (ground arith))
  | inr q ↦
      (ground (arith, holds-id id token s), unheld id token rows u.2 (λ r e. h r (ground arith)))
]

-- An outcome reported under a token that the row is not leased to (the row may be gone, or leased
-- anew under another token) returns false and changes nothing, whichever outcome it is.
pub stale_outcome :
    (now id : ℕ) (token : String) (t : Table)
    → IsConsistent t
    → ((r : Row) → find_row id t.rows ≡ some r → holds id token r ≡ false)
    → ((code : Option ℕ) → mark_delivered now id token code t ≡ (t, false))
      × ((delay_ms : ℕ) (d : Detail) (c : Bool) → defer now id token delay_ms d c t ≡ (t, false))
      × ((s : Undelivered) (d : Detail) → finish now id token s d t ≡ (t, false))
unfolding mark_delivered defer finish
stale_outcome now id token t v h = (
  λ code. nothing (delivered_row now code),
  λ delay_ms d c. nothing (deferred_row now delay_ms d c),
  λ s d. nothing (finished_row now s d),
)
  where
    nothing : (f : Row → Row) → update_where (holds id token) f t ≡ (t, false)
    nothing f = ground (
      arith,
      map_unmet (holds id token) f t.rows (unheld id token t.rows v.unique h),
      select_none (holds id token) t.rows (unheld id token t.rows v.unique h),
    )

-- An outcome reported by the holder of the row's lease returns true and is what the row then shows,
-- whichever outcome it is.
pub held_outcome :
    (now id : ℕ) (token : String) (t : Table) (r : Row)
    → IsConsistent t
    → find_row id t.rows ≡ some r
    → holds id token r ≡ true
    → ((code : Option ℕ)
        → ((mark_delivered now id token code t).1 ≡ true)
          × (find_row id (mark_delivered now id token code t).0.rows
              ≡ some (delivered_row now code r)))
      × ((delay_ms : ℕ) (d : Detail) (c : Bool)
          → ((defer now id token delay_ms d c t).1 ≡ true)
            × (find_row id (defer now id token delay_ms d c t).0.rows
                ≡ some (deferred_row now delay_ms d c r)))
      × ((s : Undelivered) (d : Detail)
          → ((finish now id token s d t).1 ≡ true)
            × (find_row id (finish now id token s d t).0.rows ≡ some (finished_row now s d r)))
unfolding mark_delivered defer finish
held_outcome now id token t r v e h = (
  λ code. (once, shown (delivered_row now code) (λ s. refl) (λ s. refl)),
  λ delay_ms d c. (once, shown (deferred_row now delay_ms d c) (λ s. refl) (λ s. refl)),
  λ s d. (once, shown (finished_row now s d) (λ s'. refl) (λ s'. refl)),
)
  where
    once : (length (select (holds id token) t.rows) == 1) ≡ true
    once = ground (arith, held_once id token t.rows r v.unique e h)

    shown :
        (f : Row → Row)
        → ((s : Row) → (f s).id ≡ s.id)
        → ((s : Row) → (f s).metadata ≡ s.metadata)
        → find_row id (update_where (holds id token) f t).0.rows ≡ some (f r)
    shown f i m = find_where id r t e (holds id token) f i m ∙ rw h refl
