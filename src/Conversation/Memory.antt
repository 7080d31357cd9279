-- ===== src/Conversation/Memory.antt =====
-- shookie/src/services/memory: the bounds of limits.ts, `InMemoryConversationStore` and
-- `budgetMessages` of in-memory.ts. The clock is an argument of each call, the same for every entry
-- that one call looks at. `len` counts the bytes of a text in UTF-8, as `Buffer.byteLength` does.
pub mod Budget
pub mod Cache
use Prim.Native.String.{len}
use shookie.Prelude.{
  ℕ, zero, suc, ◌+◌, ◌-◌, ◌*◌, String, Bool, true, false, Option, none, some, List, [], ◌∷◌, ◌++◌,
  reverse, ltb, leb, not, if◌then◌else◌, length, drop, select, ◌==◌,
}
use shookie.Prelude.Maps.{lookup, insert, erase}

abbrev pub input_bytes : ℕ
input_bytes = 16000

abbrev pub context_bytes : ℕ
context_bytes = 48000

abbrev pub recent_turns : ℕ
recent_turns = 15

abbrev pub cache_sessions : ℕ
cache_sessions = 256

abbrev pub cache_ttl_ms : ℕ
cache_ttl_ms = 15 * 60000

abbrev pub active_runs : ℕ
active_runs = 4

abbrev pub admitted_runs : ℕ
admitted_runs = 64

abbrev pub per_thread_runs : ℕ
per_thread_runs = 8

pub data Role : Type 0 where
  user assistant : Role

pub record Message : Type 0 where
  pub role : Role
  pub content : String

pub record Entry : Type 0 where
  pub messages : List Message
  pub expires : ℕ

pub record Store : Type 0 where
  pub conversations : List (String × Entry)
  pub max_messages : ℕ
  pub max_sessions : ℕ
  pub ttl_ms : ℕ

-- The store that the constructor builds from its default arguments.
unfoldable pub default_store : Store
default_store = record {
  conversations = [];
  max_messages = recent_turns * 2;
  max_sessions = cache_sessions;
  ttl_ms = cache_ttl_ms;
}

abbrev is_fresh : ℕ → String × Entry → Bool
is_fresh now (key, entry) = not (leb entry.expires now)

unfoldable pub prune : ℕ → Store → Store
prune now s = record s { conversations = select (is_fresh now) s.conversations }

abbrev reread : String → Store → Option Entry → Store × Option (List Message)
reread k s none = (s, none)
reread k s (some entry) =
    (record s { conversations = insert k entry (erase k s.conversations) }, some entry.messages)

unfoldable pub get : ℕ → String → Store → Store × Option (List Message)
unfolding prune
get now k s = let s' = prune now s in reread k s' (lookup k s'.conversations)

-- `messages.slice(-n)`, which is the whole list for n = 0.
unfoldable pub slice_last : ℕ → List Message → List Message
slice_last n ms = if n == 0 then ms else drop (length ms - n) ms

-- The `while` loop of `set`: the oldest entries go until the size fits.
unfoldable pub evict : ℕ → List (String × Entry) → List (String × Entry)
evict bound [] = []
evict bound (e ∷ m) = elim (ltb bound (length (e ∷ m))) [ true ↦ evict bound m | false ↦ e ∷ m ]

unfoldable pub set_messages : ℕ → String → List Message → Store → Store
unfolding prune slice_last evict
set_messages now k ms s =
    let s' = prune now s in
    let entry : Entry = record {
      messages = slice_last s.max_messages ms;
      expires = now + s.ttl_ms;
    } in
    record s' { conversations = evict s.max_sessions (insert k entry (erase k s'.conversations)) }

unfoldable pub clear : String → Store → Store
clear k s = record s { conversations = erase k s.conversations }

pub data Budgeted : Type 0 where
  ok : List Message → Budgeted
  input_too_large : Budgeted

-- The loop of `budgetMessages`, over the history reversed: it takes whole pairs from the end while
-- they fit, and puts each in front of those taken before.
unfoldable pub select_pairs : ℕ → List Message → List Message → List Message
select_pairs remaining (b ∷ a ∷ older) selected =
    let size = len a.content + len b.content in
    let rest = select_pairs (remaining - size) older (a ∷ b ∷ selected) in
    if ltb remaining size then selected else rest
select_pairs remaining _ selected = selected

unfoldable pub budget_messages : List Message → String → Budgeted
unfolding select_pairs
budget_messages history current =
    if ltb input_bytes (len current)
    then input_too_large
    else ok (
        select_pairs (context_bytes - len current) (reverse history) []
        ++ record { role = user; content = current } ∷ [])
