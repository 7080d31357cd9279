-- ===== src/Relay/Outbox/Steps.antt =====
-- The transactions on the outbox in any order, from any number of workers, and what they keep.
use shookie.Prelude.{ℕ, refl, Bool, Option, String, arith, not, ◌&&◌}
use shookie.Relay.Outbox.{Metadata, Table, enqueue, claim}
use shookie.Relay.Outbox.Outcomes.{
  Detail, Undelivered, as_failed, as_parked, holds, mark_delivered, delivered_row, defer,
  deferred_row, finish, finished_row,
}
use shookie.Relay.Outbox.Upkeep.{
  Retention, can_requeue, requeued_row, requeue_parked, is_expired, expired_row, expire,
  is_outdated, delete_outdated,
}
use shookie.Relay.Outbox.Invariant.{
  IsConsistent, where-IsConsistent, select-IsConsistent, enqueue-IsConsistent,
}
use shookie.Relay.Outbox.Claims.{claim-IsConsistent}

-- One transaction.
pub data Step (t : Table) : Table → Type 0 where
  enqueues : (now : ℕ) (m : Metadata) → Step t (enqueue now m t).0
  claims : (now limit lease_ms : ℕ) (token : String) → Step t (claim now limit lease_ms token t).0
  delivers :
      (now id : ℕ) (token : String) (code : Option ℕ)
      → Step t (mark_delivered now id token code t).0
  defers :
      (now id : ℕ) (token : String) (delay_ms : ℕ) (d : Detail) (count_attempt : Bool)
      → Step t (defer now id token delay_ms d count_attempt t).0
  finishes :
      (now id : ℕ) (token : String) (s : Undelivered) (d : Detail)
      → Step t (finish now id token s d t).0
  requeues : (now : ℕ) → Step t (requeue_parked now t).0
  expires : (now : ℕ) (k : Retention) (chosen : ℕ → Bool) → Step t (expire now k chosen t).0
  deletes :
      (now : ℕ) (k : Retention) (chosen : ℕ → Bool) → Step t (delete_outdated now k chosen t).0

pub data Reach (t : Table) : Table → Type 0 where
  here : Reach t t
  next : {u v : Table} → Reach t u → Step u v → Reach t v

pub Step-IsConsistent : {t u : Table} → Step t u → IsConsistent t → IsConsistent u
unfolding mark_delivered defer finish requeue_parked expire delete_outdated
Step-IsConsistent {t} (enqueues now m) v = enqueue-IsConsistent now m t v
Step-IsConsistent {t} (claims now limit lease_ms token) v =
    claim-IsConsistent now limit lease_ms token t v
Step-IsConsistent {t} (delivers now id token code) v =
    where-IsConsistent (holds id token) (delivered_row now code) t (λ r. refl) (λ r. refl)
      (λ r h w. ground arith) v
Step-IsConsistent {t} (defers now id token delay_ms d c) v =
    where-IsConsistent (holds id token) (deferred_row now delay_ms d c) t (λ r. refl) (λ r. refl)
      (λ r h w. ground arith) v
Step-IsConsistent {t} (finishes now id token as_failed d) v =
    where-IsConsistent (holds id token) (finished_row now as_failed d) t (λ r. refl) (λ r. refl)
      (λ r h w. ground arith) v
Step-IsConsistent {t} (finishes now id token as_parked d) v =
    where-IsConsistent (holds id token) (finished_row now as_parked d) t (λ r. refl) (λ r. refl)
      (λ r h w. ground arith) v
Step-IsConsistent {t} (requeues now) v =
    where-IsConsistent can_requeue (requeued_row now) t (λ r. refl) (λ r. refl)
      (λ r h w. ground arith) v
Step-IsConsistent {t} (expires now k chosen) v =
    where-IsConsistent (λ r. is_expired now k r && chosen r.id) (expired_row now) t (λ r. refl)
      (λ r. refl) (λ r h w. ground arith) v
Step-IsConsistent {t} (deletes now k chosen) v =
    select-IsConsistent (λ r. not (is_outdated now k r && chosen r.id)) t v

-- Whatever transactions run and in whatever order, no two rows of the outbox share an id or an event,
-- a row is leased exactly while it is being delivered, and it has a delivery time exactly if it was
-- delivered.
pub Reach-IsConsistent : {t u : Table} → Reach t u → IsConsistent t → IsConsistent u
Reach-IsConsistent here v = v
Reach-IsConsistent (next p s) v = Step-IsConsistent s (Reach-IsConsistent p v)
