-- ===== src/Relay/Outbox/Claims.antt =====
-- What a claim takes of the outbox.
use shookie.Prelude.{
  ℕ, suc, zero, ◌≡◌, refl, ◌≢◌, inl, inr, Bool, true, false, List, [], ◌∷◌, String, arith, All,
  All-zip, All-imp, select, Bool-cases, take,
}
use shookie.Relay.Outbox.{
  Row, Table, has_id, claim, claim_row, claimed_row, due_rows, is_due, sort_rows, insert_row,
  before,
}
use shookie.Relay.Outbox.Invariant.{RowInv, IsConsistent, map-IsConsistent, Unique, has_id-select}

ids_differ : (i : ℕ) (rows : List Row) → has_id i rows ≡ false → All (λ s. s.id ≢ i) rows
unfolding has_id
ids_differ i [] h = tt
ids_differ i (r ∷ rows) h = (ground arith, ids_differ i rows (ground arith))

-- With unique ids, a row whose id is among the selected ones was selected itself.
selected_of_id :
    (p : Row → Bool) (rows : List Row)
    → Unique rows
    → All (λ r. has_id r.id (select p rows) ≡ true → p r ≡ true) rows
unfolding has_id
selected_of_id p [] u = tt
selected_of_id p (r ∷ rows) u = (
  λ h. ground (arith, has_id-select p r.id rows u.0),
  All-zip (λ s. s.id ≢ r.id) (λ s. has_id s.id (select p rows) ≡ true → p s ≡ true)
      (λ s. has_id s.id (select p (r ∷ rows)) ≡ true → p s ≡ true) rows
      (λ s n f h. f (ground arith)) (ids_differ r.id rows u.0) (selected_of_id p rows u.2),
)

module _ (le : Row → Row → Bool) where
  has_id-insert_row :
      (i : ℕ) (r : Row) (rows : List Row) → has_id i (insert_row le r rows) ≡ has_id i (r ∷ rows)
  unfolding has_id insert_row
  has_id-insert_row i r [] = refl
  has_id-insert_row i r (s ∷ rows) = ground (arith, has_id-insert_row i r rows)

  has_id-sort_rows : (i : ℕ) (rows : List Row) → has_id i (sort_rows le rows) ≡ has_id i rows
  unfolding has_id sort_rows
  has_id-sort_rows i [] = refl
  has_id-sort_rows i (r ∷ rows) =
      ground (arith, has_id-insert_row i r (sort_rows le rows), has_id-sort_rows i rows)

has_id-take : (i n : ℕ) (rows : List Row) → has_id i (take n rows) ≡ true → has_id i rows ≡ true
unfolding has_id
has_id-take i zero rows h = absurd (ground arith)
has_id-take i (suc n) [] h = h
has_id-take i (suc n) (r ∷ rows) h = ground (arith, has_id-take i n rows)

-- With unique ids, every row that a claim leases was due: it was pending and its time had come, or
-- its last claim's lease had run out.
pub due_of_claimed :
    (now limit : ℕ) (rows : List Row)
    → Unique rows
    → All (λ r. has_id r.id (due_rows now limit rows) ≡ true → is_due now r ≡ true) rows
unfolding due_rows
due_of_claimed now limit rows u =
    All-imp (λ r. has_id r.id (select (is_due now) rows) ≡ true → is_due now r ≡ true)
      (λ r. has_id r.id (due_rows now limit rows) ≡ true → is_due now r ≡ true) rows
      (λ r f h. f (
        ground (
          arith,
          has_id-sort_rows before r.id (select (is_due now) rows),
          has_id-take r.id limit (sort_rows before (select (is_due now) rows)),
        )))
      (selected_of_id (is_due now) rows u)

due_row-RowInv :
    (now at lease_ms : ℕ) (token : String) (r : Row)
    → is_due at r ≡ true
    → RowInv r
    → RowInv (claimed_row now lease_ms token r)
unfolding is_due
due_row-RowInv now at lease_ms token r h v = ground arith

pub claim-IsConsistent :
    (now limit lease_ms : ℕ) (token : String) (t : Table)
    → IsConsistent t
    → IsConsistent (claim now limit lease_ms token t).0
unfolding claim claim_row
claim-IsConsistent now limit lease_ms token t v =
    map-IsConsistent (claim_row now lease_ms token due)
      (record { same_id = λ r. ground arith; same_event = λ r. ground arith }) t v
      (All-zip RowInv (λ r. has_id r.id due ≡ true → is_due now r ≡ true)
        (λ r. RowInv (claim_row now lease_ms token due r)) t.rows
        (λ r w d. elim (Bool-cases (has_id r.id due)) [
          | inl h ↦ rw h (due_row-RowInv now now lease_ms token r (d h) w)
          | inr h ↦ rw h w
        ])
        v.rows_ok (due_of_claimed now limit t.rows v.unique))
  where
    due : List Row
    due = due_rows now limit t.rows
