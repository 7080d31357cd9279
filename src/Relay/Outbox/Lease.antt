-- ===== src/Relay/Outbox/Lease.antt =====
-- What a lease on a row is worth to the worker that holds it.
use shookie.Prelude.{
  ℕ, ◌<◌, ◌≡◌, refl, ap, ◌∙◌, ◌≢◌, Bool, true, false, Option, some, List, String, arith, not, ◌&&◌,
  ◌+◌, eq_iff,
}
use shookie.Relay.Outbox.{
  Metadata, delivering, Row, Table, enqueue, claim, claim_row, claimed_row, due_rows, has_id,
  is_due,
}
use shookie.Relay.Outbox.Outcomes.{
  Detail, Undelivered, holds, mark_delivered, delivered_row, defer, deferred_row, finish,
  finished_row,
}
use shookie.Relay.Outbox.Upkeep.{
  Retention, can_requeue, requeued_row, requeue_parked, is_expired, expired_row, expire,
  is_outdated, delete_outdated,
}
use shookie.Relay.Outbox.Invariant.{IsConsistent}
use shookie.Relay.Outbox.Follow.{find_enqueue, find_where, find_claim, claimed-is_due}
use shookie.Relay.Outbox.Fence.{held_outcome}
use shookie.Relay.Outbox.Steps
use shookie.Relay.Outbox.Steps.{Step, Step-IsConsistent}
use shookie.Relay.Outbox.Find.{find_row, find_row-select, find_row-id}

-- The row is leased to the token until the time.
pub record IsLeased (token : String) (lease : ℕ) (r : Row) : Type 0 where
  pub delivering_now : r.status ≡ delivering
  pub held : r.claim_token ≡ some token
  pub until : r.lease_until ≡ some lease

-- What the others may do: claims made before the lease has run out, outcomes reported under other
-- tokens, and any insertion, recovery or retention.
pub data Foreign (token : String) (lease : ℕ) (t : Table) : Table → Type 0 where
  enqueues : (now : ℕ) (m : Metadata) → Foreign token lease t (enqueue now m t).0
  claims :
      (now limit lease_ms : ℕ) (other : String)
      → now < lease
      → Foreign token lease t (claim now limit lease_ms other t).0
  delivers :
      (now id : ℕ) (other : String) (code : Option ℕ)
      → other ≢ token
      → Foreign token lease t (mark_delivered now id other code t).0
  defers :
      (now id : ℕ) (other : String) (delay_ms : ℕ) (d : Detail) (c : Bool)
      → other ≢ token
      → Foreign token lease t (defer now id other delay_ms d c t).0
  finishes :
      (now id : ℕ) (other : String) (s : Undelivered) (d : Detail)
      → other ≢ token
      → Foreign token lease t (finish now id other s d t).0
  requeues : (now : ℕ) → Foreign token lease t (requeue_parked now t).0
  expires :
      (now : ℕ) (k : Retention) (chosen : ℕ → Bool)
      → Foreign token lease t (expire now k chosen t).0
  deletes :
      (now : ℕ) (k : Retention) (chosen : ℕ → Bool)
      → Foreign token lease t (delete_outdated now k chosen t).0

pub data Others (token : String) (lease : ℕ) (t : Table) : Table → Type 0 where
  here : Others token lease t t
  next : {u v : Table} → Others token lease t u → Foreign token lease u v → Others token lease t v

Foreign-Step : {token : String} {lease : ℕ} {t u : Table} → Foreign token lease t u → Step t u
Foreign-Step (enqueues now m) = Steps.enqueues now m
Foreign-Step (claims now limit lease_ms other h) = Steps.claims now limit lease_ms other
Foreign-Step (delivers now id other code h) = Steps.delivers now id other code
Foreign-Step (defers now id other delay_ms d c h) = Steps.defers now id other delay_ms d c
Foreign-Step (finishes now id other s d h) = Steps.finishes now id other s d
Foreign-Step (requeues now) = Steps.requeues now
Foreign-Step (expires now k chosen) = Steps.expires now k chosen
Foreign-Step (deletes now k chosen) = Steps.deletes now k chosen

not_holds :
    (id : ℕ) (other token : String) (lease : ℕ) (r : Row)
    → IsLeased token lease r
    → other ≢ token
    → holds id other r ≡ false
unfolding holds
not_holds id other token lease r l n = ground (arith, eq_iff token other)

not_due :
    (now lease : ℕ) (token : String) (r : Row)
    → IsLeased token lease r
    → now < lease
    → is_due now r ≡ false
unfolding is_due
not_due now lease token r l h = ground arith

unclaimed :
    (now lease_ms : ℕ) (token : String) (due : List Row) (r : Row)
    → has_id r.id due ≡ false
    → claim_row now lease_ms token due r ≡ r
unfolding claim_row
unclaimed now lease_ms token due r h = ground arith

Foreign-row :
    (token : String) (lease id : ℕ) (r : Row) {t u : Table}
    → Foreign token lease t u
    → IsConsistent t
    → IsLeased token lease r
    → find_row id t.rows ≡ some r
    → find_row id u.rows ≡ some r
unfolding enqueue mark_delivered defer finish requeue_parked expire delete_outdated can_requeue
    is_expired is_outdated
Foreign-row token lease id r {t} (enqueues now m) v l e = find_enqueue id r t e now m
Foreign-row token lease id r {t} (claims now limit lease_ms other h) v l e =
    find_claim id r t e now limit lease_ms other
    ∙ ap some (
        unclaimed now lease_ms other _ r (
          ground
            (arith, claimed-is_due id r t e now limit v.unique, not_due now lease token r l h)))
Foreign-row token lease id r {t} (delivers now i other code n) v l e =
    find_where id r t e (holds i other) (delivered_row now code) (λ s. refl) (λ s. refl)
    ∙ ground (arith, not_holds i other token lease r l n)
Foreign-row token lease id r {t} (defers now i other delay_ms d c n) v l e =
    find_where id r t e (holds i other) (deferred_row now delay_ms d c) (λ s. refl) (λ s. refl)
    ∙ ground (arith, not_holds i other token lease r l n)
Foreign-row token lease id r {t} (finishes now i other s d n) v l e =
    find_where id r t e (holds i other) (finished_row now s d) (λ s. refl) (λ s. refl)
    ∙ ground (arith, not_holds i other token lease r l n)
Foreign-row token lease id r {t} (requeues now) v l e =
    find_where id r t e can_requeue (requeued_row now) (λ s. refl) (λ s. refl) ∙ ground arith
Foreign-row token lease id r {t} (expires now k chosen) v l e =
    find_where id r t e (λ s. is_expired now k s && chosen s.id) (expired_row now) (λ s. refl)
      (λ s. refl)
    ∙ ground arith
Foreign-row token lease id r {t} (deletes now k chosen) v l e =
    find_row-select (λ s. not (is_outdated now k s && chosen s.id)) id t.rows r e (ground arith)

Others-row :
    (token : String) (lease id : ℕ) (r : Row) {t u : Table}
    → Others token lease t u
    → IsConsistent t
    → IsLeased token lease r
    → find_row id t.rows ≡ some r
    → (find_row id u.rows ≡ some r) × IsConsistent u
Others-row token lease id r here v l e = (e, v)
Others-row token lease id r (next p f) v l e =
    let (e', v') = Others-row token lease id r p v l e in
    (Foreign-row token lease id r f v' l e', Step-IsConsistent (Foreign-Step f) v')

leased-holds :
    (id lease : ℕ) (token : String) (r : Row)
    → r.id ≡ id
    → IsLeased token lease r
    → holds id token r ≡ true
unfolding holds
leased-holds id lease token r e l = ground (arith, eq_iff token token)

-- Until its lease runs out a claimed row belongs to the claim's token: whatever the other workers,
-- the recovery and the retention do before then, in any order, the row is unchanged, and the
-- holder's report of a delivery is then accepted and recorded.
pub lease_exclusive :
    (token : String) (lease id now : ℕ) (r : Row) {t u : Table} (code : Option ℕ)
    → IsConsistent t
    → find_row id t.rows ≡ some r
    → IsLeased token lease r
    → Others token lease t u
    → (find_row id u.rows ≡ some r)
      × ((mark_delivered now id token code u).1 ≡ true)
      × (find_row id (mark_delivered now id token code u).0.rows ≡ some (delivered_row now code r))
lease_exclusive token lease id now r {t} {u} code v e l p =
    let (e', v') = Others-row token lease id r p v l e in
    let (done, shown) =
      (held_outcome now id token u r v' e'
          (leased-holds id lease token r (find_row-id id t.rows r e) l)).0
        code in
    (e', done, shown)

-- A claim gives a row that was due to its token: the row is then leased until the lease time from
-- the claim, with one more attempt, and before that time nobody can claim it again.
pub claim-IsLeased :
    (now limit lease_ms id later : ℕ) (token : String) (t : Table) (r : Row)
    → IsConsistent t
    → find_row id t.rows ≡ some r
    → has_id r.id (due_rows now limit t.rows) ≡ true
    → (is_due now r ≡ true)
      × (s : Row) × (find_row id (claim now limit lease_ms token t).0.rows ≡ some s)
      × IsLeased token (now + lease_ms) s
      × (s.attempts ≡ r.attempts + 1)
      × (later < now + lease_ms → is_due later s ≡ false)
unfolding claim_row
claim-IsLeased now limit lease_ms id later token t r v e h = (
  claimed-is_due id r t e now limit v.unique h,
  claimed_row now lease_ms token r,
  find_claim id r t e now limit lease_ms token ∙ rw h refl,
  ground arith,
  refl,
  not_due later (now + lease_ms) token (claimed_row now lease_ms token r) (ground arith),
)
