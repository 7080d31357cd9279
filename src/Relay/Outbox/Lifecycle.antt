-- ===== src/Relay/Outbox/Lifecycle.antt =====
-- The life of one row of the outbox.
use shookie.Prelude.{
  ℕ, ◌≡◌, refl, ap, ◌∙◌, ◌⊎◌, inl, inr, Bool, true, false, none, some, map, String, arith, not,
  ◌&&◌, Bool-cases, eq_iff, if◌then◌else◌,
}
use shookie.Relay.Outbox.{
  Status, pending, delivering, delivered, failed, parked, Row, Table, claim_row, claimed_row,
  due_rows, has_id, is_due,
}
use shookie.Relay.Outbox.Outcomes.{
  Undelivered, as_failed, as_parked, holds, mark_delivered, delivered_row, defer, deferred_row,
  finish, finished_row, final_status,
}
use shookie.Relay.Outbox.Upkeep.{
  Retention, can_requeue, requeued_row, requeue_parked, is_expired, expired_row, expire,
  is_outdated, delete_outdated, retry_after_excessive,
}
use shookie.Relay.Outbox.Invariant.{IsConsistent}
use shookie.Relay.Outbox.Steps.{
  Step, Reach, here, next, enqueues, claims, delivers, defers, finishes, requeues, expires, deletes,
  Reach-IsConsistent,
}
use shookie.Relay.Outbox.Find.{find_row, find_row-select, find_row-select_out}
use shookie.Relay.Outbox.Follow.{find_enqueue, find_where, find_claim, claimed-is_due}

-- The changes of status that the relay makes.
abbrev pub may_become : Status → Status → Bool
may_become pending delivering = true
may_become pending failed = true
may_become delivering delivering = true
may_become delivering delivered = true
may_become delivering pending = true
may_become delivering failed = true
may_become delivering parked = true
may_become parked pending = true
may_become _ _ = false

-- The row is unchanged, or changed along an edge, and still the same event.
pub record Moves (r s : Row) : Type 0 where
  pub same_event : s.metadata ≡ r.metadata
  pub along : (s ≡ r) ⊎ (may_become r.status s.status ≡ true)

stays : (r : Row) → Moves r r
stays r = record { same_event = refl; along = inl refl }

-- A conditional update moves every row as it moves those that pass the test.
Moves-where :
    (p : Row → Bool) (f : Row → Row) (r : Row)
    → (p r ≡ true → Moves r (f r))
    → Moves r (if p r then f r else r)
Moves-where p f r h = elim (Bool-cases (p r)) [ inl e ↦ rw e (h e) | inr e ↦ rw e (stays r) ]

holds-delivering :
    (id : ℕ) (token : String) (r : Row) → holds id token r ≡ true → r.status ≡ delivering
unfolding holds
holds-delivering id token r h = ground arith

claimed-Moves :
    (now at lease_ms : ℕ) (token : String) (r : Row)
    → is_due at r ≡ true
    → Moves r (claimed_row now lease_ms token r)
unfolding is_due
claimed-Moves now at lease_ms token r h = record { same_event = refl; along = inr (ground arith) }

may_end : (s : Undelivered) → may_become delivering (final_status s) ≡ true
may_end as_failed = refl
may_end as_parked = refl

-- The row is gone and had reached its end, or it has moved.
abbrev pub Fate : ℕ → Row → Table → Type 0
Fate id r u =
    ((find_row id u.rows ≡ none) × ((r.status ≡ delivered) ⊎ (r.status ≡ failed)))
    ⊎ ((s : Row) × (find_row id u.rows ≡ some s) × Moves r s)

module _ (id : ℕ) (r : Row) (t : Table) (found : find_row id t.rows ≡ some r) where
  where-Fate :
      (p : Row → Bool) (f : Row → Row)
      → ((s : Row) → (f s).id ≡ s.id)
      → ((s : Row) → (f s).metadata ≡ s.metadata)
      → (p r ≡ true → Moves r (f r))
      → Fate id r (record t { rows = map (λ s. if p s then f s else s) t.rows })
  where-Fate p f i m h =
      inr ((if p r then f r else r), find_where id r t found p f i m, Moves-where p f r h)

  delete-Fate :
      (now : ℕ) (k : Retention) (chosen : ℕ → Bool)
      → IsConsistent t
      → Fate id r (delete_outdated now k chosen t).0
  unfolding delete_outdated
  delete-Fate now k chosen v = elim (Bool-cases (is_outdated now k r && chosen r.id)) [
    | inl h ↦ inl (
      find_row-select_out (λ s. not (is_outdated now k s && chosen s.id)) id t.rows r v.unique found
          (rw h refl),
      ground arith,
    )
    | inr h ↦ inr (
      r,
      find_row-select (λ s. not (is_outdated now k s && chosen s.id)) id t.rows r found (rw h refl),
      stays r,
    )
  ]

claim_row-Moves :
    (id : ℕ) (r : Row) (t : Table)
    → find_row id t.rows ≡ some r
    → (now limit lease_ms : ℕ) (token : String) → IsConsistent t
    → Moves r (claim_row now lease_ms token (due_rows now limit t.rows) r)
unfolding claim_row
claim_row-Moves id r t e now limit lease_ms token v =
    elim (Bool-cases (has_id r.id (due_rows now limit t.rows))) [
      | inl h ↦
          rw h
            (claimed-Moves now now lease_ms token r (claimed-is_due id r t e now limit v.unique h))
      | inr h ↦ rw h (stays r)
    ]

-- In one transaction a row of the outbox stays as it is, or changes status along an edge of the
-- relay's state machine and remains the same event, or is removed; only a delivered row or a failed
-- one is ever removed.
pub Step-Fate :
    {t u : Table} (id : ℕ) (r : Row)
    → Step t u
    → IsConsistent t
    → find_row id t.rows ≡ some r
    → Fate id r u
unfolding mark_delivered defer finish requeue_parked expire
Step-Fate {t} id r (enqueues now m) v e = inr (r, find_enqueue id r t e now m, stays r)
Step-Fate {t} id r (claims now limit lease_ms token) v e = inr (
  claim_row now lease_ms token (due_rows now limit t.rows) r,
  find_claim id r t e now limit lease_ms token,
  claim_row-Moves id r t e now limit lease_ms token v,
)
Step-Fate {t} id r (delivers now i token code) v e =
    where-Fate id r t e (holds i token) (delivered_row now code) (λ s. refl) (λ s. refl)
      (λ h. record {
        same_event = refl;
        along = inr (ground (arith, holds-delivering i token r h));
      })
Step-Fate {t} id r (defers now i token delay_ms d c) v e =
    where-Fate id r t e (holds i token) (deferred_row now delay_ms d c) (λ s. refl) (λ s. refl)
      (λ h. record {
        same_event = refl;
        along = inr (ground (arith, holds-delivering i token r h));
      })
Step-Fate {t} id r (finishes now i token s d) v e =
    where-Fate id r t e (holds i token) (finished_row now s d) (λ s'. refl) (λ s'. refl)
      (λ h. record {
        same_event = refl;
        along = inr (ground (arith, holds-delivering i token r h, may_end s));
      })
Step-Fate {t} id r (requeues now) v e =
    where-Fate id r t e can_requeue (requeued_row now) (λ s. refl) (λ s. refl)
      (λ h. record { same_event = refl; along = inr (unfold can_requeue in ground arith) })
Step-Fate {t} id r (expires now k chosen) v e =
    where-Fate id r t e (λ s. is_expired now k s && chosen s.id) (expired_row now) (λ s. refl)
      (λ s. refl)
      (λ h. record { same_event = refl; along = inr (unfold is_expired in ground arith) })
Step-Fate {t} id r (deletes now k chosen) v e = delete-Fate id r t e now k chosen v

-- A row set aside because Radar asked for a longer wait than is allowed.
abbrev pub IsExcessive : Row → Type 0
IsExcessive r = (r.status ≡ parked) × (r.last_error ≡ some retry_after_excessive)

kept_aside :
    (id : ℕ) (token : String) (now : ℕ) (k : Retention) (r : Row)
    → IsExcessive r
    → (holds id token r ≡ false)
      × (can_requeue r ≡ false)
      × (is_expired now k r ≡ false)
      × (is_outdated now k r ≡ false)
      × (is_due now r ≡ false)
unfolding holds can_requeue is_expired is_outdated is_due
kept_aside id token now k r x = ground (arith, eq_iff retry_after_excessive retry_after_excessive)

abbrev no_retention : Retention
no_retention = record { delivered_ms = 0; failed_ms = 0; max_pending_age_ms = 0 }

Step-excessive :
    {t u : Table} (id : ℕ) (r : Row)
    → Step t u
    → IsConsistent t
    → IsExcessive r
    → find_row id t.rows ≡ some r
    → find_row id u.rows ≡ some r
unfolding mark_delivered defer finish requeue_parked expire delete_outdated
Step-excessive {t} id r (enqueues now m) v x e = find_enqueue id r t e now m
Step-excessive {t} id r (claims now limit lease_ms token) v x e =
    find_claim id r t e now limit lease_ms token
    ∙ ap some (
        unfold claim_row in
        ground (
          arith,
          claimed-is_due id r t e now limit v.unique,
          kept_aside id token now no_retention r x,
        ))
Step-excessive {t} id r (delivers now i token code) v x e =
    find_where id r t e (holds i token) (delivered_row now code) (λ s. refl) (λ s. refl)
    ∙ ground (arith, kept_aside i token now no_retention r x)
Step-excessive {t} id r (defers now i token delay_ms d c) v x e =
    find_where id r t e (holds i token) (deferred_row now delay_ms d c) (λ s. refl) (λ s. refl)
    ∙ ground (arith, kept_aside i token now no_retention r x)
Step-excessive {t} id r (finishes now i token s d) v x e =
    find_where id r t e (holds i token) (finished_row now s d) (λ s'. refl) (λ s'. refl)
    ∙ ground (arith, kept_aside i token now no_retention r x)
Step-excessive {t} id r (requeues now) v x e =
    find_where id r t e can_requeue (requeued_row now) (λ s. refl) (λ s. refl)
    ∙ ground (arith, kept_aside id "" now no_retention r x)
Step-excessive {t} id r (expires now k chosen) v x e =
    find_where id r t e (λ s. is_expired now k s && chosen s.id) (expired_row now) (λ s. refl)
      (λ s. refl)
    ∙ ground (arith, kept_aside id "" now k r x)
Step-excessive {t} id r (deletes now k chosen) v x e =
    find_row-select (λ s. not (is_outdated now k s && chosen s.id)) id t.rows r e
      (ground (arith, kept_aside id "" now k r x))

-- A row that was parked for an excessive Retry-After stays in the outbox unchanged, whatever
-- transactions follow: neither a restart nor the retention ever retries or removes it.
pub Reach-excessive :
    {t u : Table} (id : ℕ) (r : Row)
    → Reach t u
    → IsConsistent t
    → IsExcessive r
    → find_row id t.rows ≡ some r
    → find_row id u.rows ≡ some r
Reach-excessive id r here v x e = e
Reach-excessive id r (next p s) v x e =
    Step-excessive id r s (Reach-IsConsistent p v) x (Reach-excessive id r p v x e)
