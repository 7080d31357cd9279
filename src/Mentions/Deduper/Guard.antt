-- ===== src/Mentions/Deduper/Guard.antt =====
-- shookie/src/slack/mention-groups/event-deduper.ts: no event and no message is claimed twice.
use shookie.Prelude.{
  ℕ, ◌+◌, ◌≤◌, ◌<◌, String, true, false, none, some, List, [], ◌∷◌, ◌≡◌, arith, Bool-cases, inl,
  inr, str_eq, eq_iff, ◌||◌, is_some, if◌then◌else◌, length, select,
}
use shookie.Prelude.Maps.{lookup, insert, lookup-insert, length-insert-le}
use shookie.Mentions.Deduper.{
  Deduper, remove_expired, trim, claim_event, event_key, target_key, is_unexpired,
}

-- How many entries stand behind a key's.
abbrev pub later : String → List (String × ℕ) → ℕ
later k [] = 0
later k (e ∷ m) = if str_eq e.0 k then length m else later k m

-- The key is in the map until `expires`, with at most `n` entries behind it.
abbrev pub Held : String → ℕ → ℕ → List (String × ℕ) → Type 0
Held k expires n m = (lookup k m ≡ some expires) × (later k m ≤ n)

select-length : (now : ℕ) (m : List (String × ℕ)) → length (select (is_unexpired now) m) ≤ length m
select-length now [] = omega arith
select-length now (e ∷ m) = ground (arith, select-length now m)

pub select-Held :
    (now : ℕ) (k : String) (expires n : ℕ) (m : List (String × ℕ))
    → now < expires
    → Held k expires n m
    → Held k expires n (select (is_unexpired now) m)
unfolding lookup
select-Held now k expires n [] h g = ground (arith, g)
select-Held now k expires n (e ∷ m) h g =
    ground (arith, g, select-Held now k expires n m h, select-length now m)

pub later-insert :
    (k j : String) (v : ℕ) (m : List (String × ℕ))
    → is_some (lookup k m) ≡ true
    → later k (insert j v m) ≤ later k m + 1
unfolding insert lookup
later-insert k j v [] h = ground (arith, h)
later-insert k j v (e ∷ m) h =
    ground (arith, h, eq_iff e.0 j, eq_iff e.0 k, later-insert k j v m, length-insert-le j v m)

pub trim-Held :
    (bound : ℕ) (k : String) (expires n : ℕ) (m : List (String × ℕ))
    → n < bound
    → Held k expires n m
    → Held k expires n (trim bound m)
unfolding trim lookup
trim-Held bound k expires n [] h g = g
trim-Held bound k expires n (e ∷ m) h g = ground (arith, g, trim-Held bound k expires n m h)

pub insert-Held :
    (j k : String) (v expires n : ℕ) (m : List (String × ℕ))
    → str_eq j k ≡ false
    → Held k expires n m
    → Held k expires (n + 1) (insert j v m)
insert-Held j k v expires n m h g = ground (arith, g, lookup-insert j k v m, later-insert k j v m)

-- A key that is put in at the end of the map has no entry behind it.
pub insert_last :
    (k : String) (v : ℕ) (m : List (String × ℕ)) → lookup k m ≡ none → Held k v 0 (insert k v m)
unfolding insert lookup
insert_last k v [] h = ground (arith, eq_iff k k)
insert_last k v (e ∷ m) h = ground (arith, h, eq_iff e.0 k, insert_last k v m)

refused_when :
    (now : ℕ) (e m : String) (d : Deduper)
    → (is_some (lookup (event_key e) (remove_expired now d).seen)
        || is_some (lookup (target_key m) (remove_expired now d).seen))
      ≡ true
    → (claim_event now e m d).1 ≡ false
unfolding claim_event
refused_when now e m d h = ground (arith, h)

-- One more claim leaves a key that is held in the map, two places further from the end at most.
pub claim_event-Held :
    (now : ℕ) (e m k : String) (expires n : ℕ) (d : Deduper)
    → now < expires
    → n + 2 < d.max_keys
    → Held k expires n d.seen
    → Held k expires (n + 2) (claim_event now e m d).0.seen
unfolding claim_event remove_expired
claim_event-Held now e m k expires n d early room held =
    let seen = select (is_unexpired now) d.seen in
    let held' : Held k expires n seen = select-Held now k expires n d.seen early held in
    elim (Bool-cases
      (is_some (lookup (event_key e) seen) || is_some (lookup (target_key m) seen))) [
        | inl known ↦ rw known (ground (arith, held'))
        | inr new ↦ rw new (
            trim-Held d.max_keys k expires (n + 2) _ room (
              ground (
                arith,
                new,
                held',
                eq_iff (event_key e) k,
                eq_iff (target_key m) k,
                insert-Held (event_key e) k (now + d.ttl_ms) expires n seen,
                insert-Held (target_key m) k (now + d.ttl_ms) expires (n + 1)
                    (insert (event_key e) (now + d.ttl_ms) seen),
              )))
      ]
