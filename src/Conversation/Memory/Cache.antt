-- ===== src/Conversation/Memory/Cache.antt =====
-- What `InMemoryConversationStore` keeps and returns.
use shookie.Prelude.{
  ℕ, ◌+◌, ◌-◌, ◌≤◌, ◌<◌, ◌≡◌, refl, ◌≢◌, ◌⊎◌, inl, String, Option, none, some, Bool, List, [], ◌∷◌,
  ◌++◌, arith, length, select, All, length-drop, All-append, length-select-le, eq_iff, leb,
  if◌then◌else◌,
}
use shookie.Prelude.Maps.{
  lookup, insert, erase, Distinct, insert-Distinct, erase-Distinct, select-Distinct, lookup-insert,
  lookup-erase, length-erase-le, length-insert-le, lookup-erase_self, insert_new, length-erase-some,
}
use shookie.Conversation.Memory.{
  Message, Entry, Store, is_fresh, prune, get, slice_last, evict, set_messages, clear, reread,
}

-- The entry that a lookup finds at a time, if it has not run out.
abbrev pub unexpired : ℕ → Option Entry → Option (List Message)
unexpired now none = none
unexpired now (some entry) = if leb entry.expires now then none else some entry.messages

abbrev IsShort : ℕ → String × Entry → Type 0
IsShort bound (key, entry) = length entry.messages ≤ bound

pub record Inv (s : Store) : Type 0 where
  pub distinct : Distinct s.conversations
  pub bounded : length s.conversations ≤ s.max_sessions
  pub short : All (IsShort s.max_messages) s.conversations

lookup-fresh :
    (now : ℕ) (k : String) (m : List (String × Entry))
    → Distinct m
    → lookup k (select (is_fresh now) m) ≡ elim (lookup k m) [
      | none ↦ none
      | some entry ↦ if leb entry.expires now then none else some entry
    ]
unfolding lookup
lookup-fresh now k [] d = refl
lookup-fresh now k ((j, e) ∷ m) d = ground (arith, lookup-fresh now k m d.1, eq_iff j k)

-- `get` returns the messages stored for the session exactly while they have not run out.
pub get_lem :
    (now : ℕ) (k : String) (s : Store)
    → Distinct s.conversations
    → (get now k s).1 ≡ unexpired now (lookup k s.conversations)
unfolding get
get_lem now k s d = ground (arith, lookup-fresh now k s.conversations d)

length-evict : (bound : ℕ) (m : List (String × Entry)) → length (evict bound m) ≤ bound
unfolding evict
length-evict bound [] = omega arith
length-evict bound (e ∷ m) = ground (arith, length-evict bound m)

evict-Distinct : (bound : ℕ) (m : List (String × Entry)) → Distinct m → Distinct (evict bound m)
unfolding evict
evict-Distinct bound [] d = d
evict-Distinct bound (e ∷ m) d = ground (arith, evict-Distinct bound m d.1)

evict-All :
    (P : String × Entry → Type 0) (bound : ℕ) (m : List (String × Entry))
    → All P m
    → All P (evict bound m)
unfolding evict
evict-All P bound [] d = d
evict-All P bound (e ∷ m) d = ground (arith, evict-All P bound m d.1)

select-All :
    (P : String × Entry → Type 0) (p : String × Entry → Bool) (m : List (String × Entry))
    → All P m
    → All P (select p m)
select-All P p [] d = d
select-All P p (e ∷ m) d = ground (arith, select-All P p m d.1)

erase-All :
    (P : String × Entry → Type 0) (k : String) (m : List (String × Entry))
    → All P m
    → All P (erase k m)
unfolding erase
erase-All P k [] d = d
erase-All P k ((j, e) ∷ m) d = ground (arith, erase-All P k m d.1)

-- At a new key, `insert` puts the entry last.
insert-All :
    (P : String × Entry → Type 0) (k : String) (e : Entry) (m : List (String × Entry))
    → lookup k m ≡ none
    → All P m
    → P (k, e)
    → All P (insert k e m)
insert-All P k e m n d h = rw (insert_new k e m n) (All-append P m ((k, e) ∷ []) d (h, tt))

length-slice_last :
    (bound : ℕ) (ms : List Message) → 0 < bound → length (slice_last bound ms) ≤ bound
unfolding slice_last
length-slice_last bound ms h = ground (arith, length-drop (length ms - bound) ms)

lookup-evict_cases :
    (bound : ℕ) (k : String) (m : List (String × Entry))
    → Distinct m
    → (lookup k (evict bound m) ≡ none) ⊎ (lookup k (evict bound m) ≡ lookup k m)
unfolding evict lookup
lookup-evict_cases bound k [] d = inl refl
lookup-evict_cases bound k ((j, e) ∷ m) d =
    ground (arith, eq_iff j k, lookup-evict_cases bound k m d.1)

lookup-snoc :
    (k : String) (e : Entry) (m : List (String × Entry))
    → lookup k m ≡ none
    → lookup k (m ++ (k, e) ∷ []) ≡ some e
unfolding lookup
lookup-snoc k e [] n = ground (arith, eq_iff k k)
lookup-snoc k e ((j, f) ∷ m) n = ground (arith, lookup-snoc k e m)

lookup-evict_last :
    (bound : ℕ) (k : String) (e : Entry) (m : List (String × Entry))
    → lookup k m ≡ none
    → 0 < bound
    → lookup k (evict bound (m ++ (k, e) ∷ [])) ≡ some e
unfolding evict lookup
lookup-evict_last bound k e [] n h = ground (arith, eq_iff k k)
lookup-evict_last bound k e ((j, f) ∷ m) n h =
    ground (arith, lookup-snoc k e m, lookup-evict_last bound k e m)

stored : ℕ → List Message → Store → Entry
stored now ms s = record { messages = slice_last s.max_messages ms; expires = now + s.ttl_ms }

-- The entries of `set` before eviction.
abbrev remaining : ℕ → String → Store → List (String × Entry)
remaining now k s = erase k (select (is_fresh now) s.conversations)

remaining-lookup :
    (now : ℕ) (k : String) (s : Store)
    → Distinct s.conversations
    → lookup k (remaining now k s) ≡ none
remaining-lookup now k s d =
    lookup-erase_self k _ (select-Distinct (is_fresh now) s.conversations d)

remaining-Distinct :
    (now : ℕ) (k : String) (s : Store) → Distinct s.conversations → Distinct (remaining now k s)
remaining-Distinct now k s d = erase-Distinct k _ (select-Distinct (is_fresh now) s.conversations d)

IsShort-lookup :
    (b : ℕ) (k : String) (e : Entry) (m : List (String × Entry))
    → All (IsShort b) m
    → lookup k m ≡ some e
    → IsShort b (k, e)
unfolding lookup
IsShort-lookup b k e [] a h = cc
IsShort-lookup b k e ((j, f) ∷ m) a h = ground (arith, IsShort-lookup b k e m a.1)

prune-Inv : (now : ℕ) (s : Store) → Inv s → Inv (prune now s)
unfolding prune
prune-Inv now s v = record {
  distinct = select-Distinct (is_fresh now) s.conversations v.distinct;
  bounded = omega (arith, length-select-le (is_fresh now) s.conversations, v.bounded);
  short = select-All (IsShort s.max_messages) (is_fresh now) s.conversations v.short;
}

reread-Inv :
    (k : String) (s : Store) (o : Option Entry)
    → lookup k s.conversations ≡ o
    → Inv s
    → Inv (reread k s o).0
reread-Inv k s none e v = v
reread-Inv k s (some entry) e v = record {
  distinct = insert-Distinct k entry _ (erase-Distinct k s.conversations v.distinct);
  bounded = omega (
    arith,
    length-insert-le k entry (erase k s.conversations),
    length-erase-some k s.conversations e,
    v.bounded,
  );
  short =
      insert-All (IsShort s.max_messages) k entry _ (lookup-erase_self k s.conversations v.distinct)
        (erase-All (IsShort s.max_messages) k s.conversations v.short)
        (IsShort-lookup s.max_messages k entry s.conversations v.short e);
}

set_messages-Inv :
    (now : ℕ) (k : String) (ms : List Message) (s : Store)
    → 0 < s.max_messages
    → Inv s
    → Inv (set_messages now k ms s)
unfolding set_messages
set_messages-Inv now k ms s positive v = record {
  distinct = evict-Distinct s.max_sessions _ (
      insert-Distinct k
        (record { messages = slice_last s.max_messages ms; expires = now + s.ttl_ms }) _
        (remaining-Distinct now k s v.distinct));
  bounded = length-evict s.max_sessions _;
  short = evict-All (IsShort s.max_messages) s.max_sessions _ (
      insert-All (IsShort s.max_messages) k _ (remaining now k s)
        (remaining-lookup now k s v.distinct)
        (erase-All (IsShort s.max_messages) k _ (prune-Inv now s v).short)
        (length-slice_last s.max_messages ms positive));
}

clear-Inv : (k : String) (s : Store) → Inv s → Inv (clear k s)
unfolding clear
clear-Inv k s v = record {
  distinct = erase-Distinct k s.conversations v.distinct;
  bounded = omega (arith, length-erase-le k s.conversations, v.bounded);
  short = erase-All (IsShort s.max_messages) k s.conversations v.short;
}

-- If `maxMessages` is not 0, `get`, `set` and `clear` keep the cache well formed: no session twice, at
-- most `maxSessions` sessions, and at most `maxMessages` messages in each.
pub store-Inv :
    (now : ℕ) (k : String) (ms : List Message) (s : Store)
    → 0 < s.max_messages
    → Inv s
    → Inv (get now k s).0 × Inv (set_messages now k ms s) × Inv (clear k s)
unfolding get
store-Inv now k ms s positive v = (
  reread-Inv k (prune now s) (lookup k (prune now s).conversations) refl (prune-Inv now s v),
  set_messages-Inv now k ms s positive v,
  clear-Inv k s v,
)

set_messages_conversations :
    (now : ℕ) (k : String) (ms : List Message) (s : Store)
    → (set_messages now k ms s).conversations
      ≡ evict s.max_sessions (insert k (stored now ms s) (remaining now k s))
unfolding set_messages stored
set_messages_conversations now k ms s = refl

lookup-set_self :
    (now : ℕ) (k : String) (ms : List Message) (s : Store)
    → Distinct s.conversations
    → 0 < s.max_sessions
    → lookup k (set_messages now k ms s).conversations ≡ some (stored now ms s)
lookup-set_self now k ms s d h =
    rw
      (
        set_messages_conversations now k ms s,
        insert_new k (stored now ms s) _ (remaining-lookup now k s d),
      )
      (lookup-evict_last s.max_sessions k (stored now ms s) _ (remaining-lookup now k s d) h)

set_messages-Distinct :
    (now : ℕ) (k : String) (ms : List Message) (s : Store)
    → Distinct s.conversations
    → Distinct (set_messages now k ms s).conversations
set_messages-Distinct now k ms s d = rw (set_messages_conversations now k ms s) (
    evict-Distinct s.max_sessions _
      (insert-Distinct k (stored now ms s) _ (remaining-Distinct now k s d)))

lookup-set_ne :
    (now : ℕ) (k j : String) (ms : List Message) (s : Store)
    → Distinct s.conversations
    → k ≢ j
    → (lookup j (set_messages now k ms s).conversations ≡ none)
      ⊎ (lookup j (set_messages now k ms s).conversations
          ≡ lookup j (select (is_fresh now) s.conversations))
lookup-set_ne now k j ms s d n = ground (
  arith,
  set_messages_conversations now k ms s,
  eq_iff k j,
  lookup-evict_cases s.max_sessions j (insert k (stored now ms s) (remaining now k s))
      (insert-Distinct k (stored now ms s) _ (remaining-Distinct now k s d)),
  lookup-insert k j (stored now ms s) (remaining now k s),
  lookup-erase k j (select (is_fresh now) s.conversations)
      (select-Distinct (is_fresh now) s.conversations d),
)

-- What was stored is returned until it runs out: the newest `maxMessages` messages.
pub get-set_messages :
    (now t : ℕ) (k : String) (ms : List Message) (s : Store)
    → Distinct s.conversations
    → 0 < s.max_sessions
    → t < now + s.ttl_ms
    → (get t k (set_messages now k ms s)).1 ≡ some (slice_last s.max_messages ms)
unfolding stored
get-set_messages now t k ms s d h l = ground (
  arith,
  get_lem t k (set_messages now k ms s) (set_messages-Distinct now k ms s d),
  lookup-set_self now k ms s d h,
)

-- Another session's messages are returned unchanged after a `set`, or not at all if it was evicted.
pub get-set_messages_ne :
    (now t : ℕ) (k j : String) (ms : List Message) (s : Store)
    → Distinct s.conversations
    → k ≢ j
    → now ≤ t
    → ((get t j (set_messages now k ms s)).1 ≡ none)
      ⊎ ((get t j (set_messages now k ms s)).1 ≡ (get t j s).1)
get-set_messages_ne now t k j ms s d n l = ground (
  arith,
  get_lem t j (set_messages now k ms s) (set_messages-Distinct now k ms s d),
  get_lem t j s d,
  lookup-fresh now j s.conversations d,
  lookup-set_ne now k j ms s d n,
)
