-- ===== src/Mentions/Deduper/Once.antt =====
-- shookie/src/slack/mention-groups/event-deduper.ts: what `claim` answers, now and later.
use shookie.Prelude.{
  ℕ, ◌+◌, ◌*◌, ◌≤◌, ◌<◌, String, true, false, Option, none, some, List, [], ◌∷◌, ◌≡◌, ◌↔◌, refl,
  arith, Bool-cases, Option-cases, inl, inr, str_eq, eq_iff, leb, ◌||◌, is_some, if◌then◌else◌,
  length, select, All, length-select-le,
}
use shookie.Prelude.Maps.{
  lookup, insert, lookup-insert, Distinct, insert-Distinct, select-Distinct, lookup-select-none,
}
use shookie.Mentions.Deduper.{
  Deduper, remove_expired, trim, claim_event, event_key, target_key, is_unexpired, note_keys,
}
use shookie.Mentions.Deduper.Guard.{
  Held, later-insert, insert_last, trim-Held, claim_event-Held, select-Held,
}

-- A later event that is handed to `claim`.
pub record Delivery : Type 0 where
  pub at : ℕ
  pub event_id : String
  pub message_key : String

abbrev pub claim_all : List Delivery → Deduper → Deduper
claim_all [] d = d
claim_all (c ∷ cs) d = claim_all cs (claim_event c.at c.event_id c.message_key d).0

claim_event-max_keys :
    (now : ℕ) (e m : String) (d : Deduper) → (claim_event now e m d).0.max_keys ≡ d.max_keys
unfolding claim_event remove_expired
claim_event-max_keys now e m d = ground arith

claim_all-Held :
    (cs : List Delivery) (k : String) (expires n : ℕ) (d : Deduper)
    → All (λ c. c.at < expires) cs
    → n + 2 * length cs < d.max_keys
    → Held k expires n d.seen
    → (x : ℕ) × Held k expires x (claim_all cs d).seen
claim_all-Held [] k expires n d early room held = (n, held)
claim_all-Held (c ∷ cs) k expires n d early room held =
    claim_all-Held cs k expires (n + 2) (claim_event c.at c.event_id c.message_key d).0 early.1
      (omega (arith, room, claim_event-max_keys c.at c.event_id c.message_key d))
      (claim_event-Held c.at c.event_id c.message_key k expires n d early.0 (omega (arith, room))
        held)

-- Another key, with the same time, moves a key at most one place from the end.
insert-Held_same :
    (j k : String) (v n : ℕ) (m : List (String × ℕ))
    → Held k v n m
    → Held k v (n + 1) (insert j v m)
insert-Held_same j k v n m g = ground (arith, g, lookup-insert j k v m, later-insert k j v m)

note_keys-Held :
    (v : ℕ) (e m : String) (seen : List (String × ℕ))
    → lookup (event_key e) seen ≡ none
    → lookup (target_key m) seen ≡ none
    → Held (event_key e) v 1 (note_keys v e m seen) × Held (target_key m) v 1 (note_keys v e m seen)
note_keys-Held v e m seen h g =
    let first : Held (event_key e) v 0 (insert (event_key e) v seen) =
      insert_last (event_key e) v seen h in
    (
      insert-Held_same (target_key m) (event_key e) v 0 _ first,
      elim (Bool-cases (str_eq (event_key e) (target_key m))) [
        | inl same ↦ ground (
          arith,
          first,
          same,
          eq_iff (event_key e) (target_key m),
          insert-Held_same (target_key m) (target_key m) v 0 (insert (event_key e) v seen),
        )
        | inr ne ↦ ground (
          arith,
          g,
          ne,
          lookup-insert (event_key e) (target_key m) v seen,
          insert_last (target_key m) v (insert (event_key e) v seen),
        )
      ],
    )

accepted-Held :
    (now : ℕ) (e m : String) (d : Deduper)
    → 2 ≤ d.max_keys
    → (claim_event now e m d).1 ≡ true
    → Held (event_key e) (now + d.ttl_ms) 1 (claim_event now e m d).0.seen
      × Held (target_key m) (now + d.ttl_ms) 1 (claim_event now e m d).0.seen
unfolding claim_event remove_expired
accepted-Held now e m d room h =
    let seen = select (is_unexpired now) d.seen in
    let v = now + d.ttl_ms in
    elim (Bool-cases
      (is_some (lookup (event_key e) seen) || is_some (lookup (target_key m) seen))) [
        | inl known ↦ absurd (ground (arith, h, known))
        | inr new ↦
            let noted : Held (event_key e) v 1 (note_keys v e m seen)
                × Held (target_key m) v 1 (note_keys v e m seen) =
              note_keys-Held v e m seen (ground (arith, new)) (ground (arith, new)) in
            rw new (
              trim-Held d.max_keys (event_key e) v 1 _ room noted.0,
              trim-Held d.max_keys (target_key m) v 1 _ room noted.1,
            )
      ]

Held-refuses :
    (now : ℕ) (k e m : String) (expires n : ℕ) (d : Deduper)
    → now < expires
    → Held k expires n d.seen
    → (str_eq (event_key e) k || str_eq (target_key m) k) ≡ true
    → (claim_event now e m d).1 ≡ false
unfolding claim_event remove_expired
Held-refuses now k e m expires n d early held same = ground (
  arith,
  same,
  eq_iff (event_key e) k,
  eq_iff (target_key m) k,
  select-Held now k expires n d.seen early held,
)

-- Once an event has been claimed, no event of the same id and none of the same message is claimed
-- before the time to live has passed, if at most so many others were handed in between that their keys
-- fit in the map beside its two.
pub claim_once :
    (now at : ℕ) (e m other : String) (between : List Delivery) (d : Deduper)
    → 2 * length between + 2 ≤ d.max_keys
    → All (λ c. c.at < now + d.ttl_ms) between
    → at < now + d.ttl_ms
    → (claim_event now e m d).1 ≡ true
    → ((claim_event at e other (claim_all between (claim_event now e m d).0)).1 ≡ false)
      × ((claim_event at other m (claim_all between (claim_event now e m d).0)).1 ≡ false)
claim_once now at e m other between d room early soon h =
    let (held_event, held_target) = accepted-Held now e m d (omega (arith, room)) h in
    let d' = (claim_event now e m d).0 in
    let room' : 1 + 2 * length between < d'.max_keys =
      omega (arith, room, claim_event-max_keys now e m d) in
    let (x, kept_event) = claim_all-Held between (event_key e) _ 1 d' early room' held_event in
    let (y, kept_target) = claim_all-Held between (target_key m) _ 1 d' early room' held_target in
    (
      Held-refuses at (event_key e) e other _ x (claim_all between d') soon kept_event
          (ground (arith, eq_iff (event_key e) (event_key e))),
      Held-refuses at (target_key m) other m _ y (claim_all between d') soon kept_target
          (ground (arith, eq_iff (target_key m) (target_key m))),
    )

-- No entry of the key is unexpired.
abbrev pub Unclaimed : ℕ → String → Deduper → Type 0
Unclaimed now k d = (expires : ℕ) → lookup k d.seen ≡ some expires → expires ≤ now

abbrev unexpired : ℕ → Option ℕ → Option ℕ
unexpired now none = none
unexpired now (some expires) = if leb expires now then none else some expires

lookup-select-unexpired :
    (now : ℕ) (k : String) (m : List (String × ℕ))
    → Distinct m
    → lookup k (select (is_unexpired now) m) ≡ unexpired now (lookup k m)
unfolding lookup
lookup-select-unexpired now k [] d = refl
lookup-select-unexpired now k (e ∷ m) d = ground (
  arith,
  d,
  eq_iff e.0 k,
  lookup-select-unexpired now k m d.1,
  lookup-select-none (is_unexpired now) k m,
)

Unclaimed-iff :
    (now : ℕ) (k : String) (d : Deduper)
    → Distinct d.seen
    → is_some (lookup k (remove_expired now d).seen) ≡ false ↔ Unclaimed now k d
unfolding remove_expired
Unclaimed-iff now k d keys =
    let kept = lookup-select-unexpired now k d.seen keys in
    (
      λ h expires e. ground (arith, h, e, kept),
      λ u. elim (Option-cases (lookup k d.seen)) [
        | inl absent ↦ ground (arith, absent, kept)
        | inr (expires, found) ↦ ground (arith, found, kept, u expires found)
      ],
    )

trim-Distinct : (bound : ℕ) (m : List (String × ℕ)) → Distinct m → Distinct (trim bound m)
unfolding trim
trim-Distinct bound [] d = d
trim-Distinct bound (e ∷ m) d = ground (arith, trim-Distinct bound m d.1)

length-trim : (bound : ℕ) (m : List (String × ℕ)) → length (trim bound m) ≤ bound
unfolding trim
length-trim bound [] = omega arith
length-trim bound (e ∷ m) = ground (arith, length-trim bound m)

-- The keys stand once each, and there are at most as many as may be.
pub record WellFormed (d : Deduper) : Type 0 where
  pub distinct : Distinct d.seen
  pub bounded : length d.seen ≤ d.max_keys

claim_event-WellFormed :
    (now : ℕ) (e m : String) (d : Deduper) → WellFormed d → WellFormed (claim_event now e m d).0
unfolding claim_event remove_expired
claim_event-WellFormed now e m d w =
    let seen = select (is_unexpired now) d.seen in
    let distinct : Distinct seen = select-Distinct (is_unexpired now) d.seen w.distinct in
    elim (Bool-cases
      (is_some (lookup (event_key e) seen) || is_some (lookup (target_key m) seen))) [
        | inl known ↦ rw known (record {
          distinct = distinct;
          bounded = omega (arith, w.bounded, length-select-le (is_unexpired now) d.seen);
        })
        | inr new ↦ rw new (record {
          distinct = trim-Distinct d.max_keys _ (
              insert-Distinct (target_key m) (now + d.ttl_ms) _
                (insert-Distinct (event_key e) (now + d.ttl_ms) seen distinct));
          bounded = length-trim d.max_keys _;
        })
      ]

claim_event-answer :
    (now : ℕ) (e m : String) (d : Deduper)
    → ((claim_event now e m d).1 ≡ true
        → (is_some (lookup (event_key e) (remove_expired now d).seen) ≡ false)
          × (is_some (lookup (target_key m) (remove_expired now d).seen) ≡ false))
      × (is_some (lookup (event_key e) (remove_expired now d).seen) ≡ false
          → is_some (lookup (target_key m) (remove_expired now d).seen) ≡ false
          → (claim_event now e m d).1 ≡ true)
unfolding claim_event
claim_event-answer now e m d = (λ h. ground (arith, h), λ h g. ground (arith, h, g))

-- An event is claimed exactly if neither its id nor its message has an entry that has not expired; and
-- the guard stays in order, with at most as many keys as may be.
pub claim_event_iff :
    (now : ℕ) (e m : String) (d : Deduper)
    → WellFormed d
    → ((claim_event now e m d).1 ≡ true
        ↔ Unclaimed now (event_key e) d × Unclaimed now (target_key m) d)
      × WellFormed (claim_event now e m d).0
claim_event_iff now e m d w =
    let (answer_of, free_of) = claim_event-answer now e m d in
    let (event_to, event_from) = Unclaimed-iff now (event_key e) d w.distinct in
    let (target_to, target_from) = Unclaimed-iff now (target_key m) d w.distinct in
    (
      (
        λ h. (event_to (answer_of h).0, target_to (answer_of h).1),
        λ u. free_of (event_from u.0) (target_from u.1),
      ),
      claim_event-WellFormed now e m d w,
    )
