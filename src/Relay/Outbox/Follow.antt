-- ===== src/Relay/Outbox/Follow.antt =====
-- What each kind of update makes of one row of the outbox.
use shookie.Prelude.{
  ℕ, ◌≡◌, ap, ◌∙◌, inl, inr, Bool, true, some, List, map, String, arith, Bool-cases, if◌then◌else◌,
}
use shookie.Relay.Outbox.{
  Metadata, Row, Table, enqueue, claim, claim_row, due_rows, has_id, has_event, is_due,
}
use shookie.Relay.Outbox.Invariant.{IsUpdate, Unique}
use shookie.Relay.Outbox.Claims.{due_of_claimed}
use shookie.Relay.Outbox.Find.{find_row, after, find_row-map, find_row-append, All-find_row}

where-IsUpdate :
    (p : Row → Bool) (f : Row → Row)
    → ((r : Row) → (f r).id ≡ r.id)
    → ((r : Row) → (f r).metadata ≡ r.metadata)
    → IsUpdate (λ r. if p r then f r else r)
where-IsUpdate p f i m = record {
  same_id = λ r. ground (arith, i r);
  same_event = λ r. ground (arith, m r);
}

claim-IsUpdate :
    (now lease_ms : ℕ) (token : String) (due : List Row)
    → IsUpdate (claim_row now lease_ms token due)
unfolding claim_row
claim-IsUpdate now lease_ms token due = record {
  same_id = λ r. ground arith;
  same_event = λ r. ground arith;
}

module _ (id : ℕ) (r : Row) (t : Table) (found : find_row id t.rows ≡ some r) where
  pub find_where :
      (p : Row → Bool) (f : Row → Row)
      → ((s : Row) → (f s).id ≡ s.id)
      → ((s : Row) → (f s).metadata ≡ s.metadata)
      → find_row id (map (λ s. if p s then f s else s) t.rows) ≡ some (if p r then f r else r)
  find_where p f i m =
      find_row-map _ (where-IsUpdate p f i m) id t.rows
      ∙ ap (after (λ s. if p s then f s else s)) found

  pub find_claim :
      (now limit lease_ms : ℕ) (token : String)
      → find_row id (claim now limit lease_ms token t).0.rows
        ≡ some (claim_row now lease_ms token (due_rows now limit t.rows) r)
  unfolding claim
  find_claim now limit lease_ms token =
      find_row-map _ (claim-IsUpdate now lease_ms token (due_rows now limit t.rows)) id t.rows
      ∙ ap (after (claim_row now lease_ms token (due_rows now limit t.rows))) found

  pub claimed-is_due :
      (now limit : ℕ)
      → Unique t.rows
      → has_id r.id (due_rows now limit t.rows) ≡ true
      → is_due now r ≡ true
  claimed-is_due now limit u =
      All-find_row (λ s. has_id s.id (due_rows now limit t.rows) ≡ true → is_due now s ≡ true) id
        t.rows r (due_of_claimed now limit t.rows u) found

  pub find_enqueue : (now : ℕ) (m : Metadata) → find_row id (enqueue now m t).0.rows ≡ some r
  unfolding enqueue
  find_enqueue now m = elim (Bool-cases (has_event m t.rows)) [
    | inl h ↦ rw h found
    | inr h ↦ rw h (find_row-append id t.rows _ r found)
  ]
