-- ===== src/Mentions/Deduper.antt =====
-- shookie/src/slack/mention-groups/event-deduper.ts: `MentionEventDeduper`. The clock is an argument
-- of `claim`.
pub mod Guard
pub mod Once
use Prim.Native.String.{◌++◌ as text_append}
use shookie.Prelude.{
  ℕ, ◌+◌, ◌*◌, String, Bool, true, false, Option, none, some, List, [], ◌∷◌, ltb, leb, ◌||◌, not,
  is_some, if◌then◌else◌, length, select,
}
use shookie.Prelude.Maps.{lookup, insert}

abbrev default_ttl_ms : ℕ
default_ttl_ms = 15 * 60 * 1000

abbrev default_max_keys : ℕ
default_max_keys = 20000

pub record Deduper : Type 0 where
  pub seen : List (String × ℕ)
  pub ttl_ms : ℕ
  pub max_keys : ℕ

-- The deduper that the constructor builds from its default arguments.
unfoldable pub default_deduper : Deduper
default_deduper = record { seen = []; ttl_ms = default_ttl_ms; max_keys = default_max_keys }

abbrev pub event_key : String → String
event_key event_id = text_append "event:" event_id

abbrev pub target_key : String → String
target_key message_key = text_append "message:" message_key

abbrev pub is_unexpired : ℕ → String × ℕ → Bool
is_unexpired now e = not (leb e.1 now)

unfoldable pub remove_expired : ℕ → Deduper → Deduper
remove_expired now d = record d { seen = select (is_unexpired now) d.seen }

-- `trimToLimit`: the oldest keys go until the size fits. It stops early at an empty key, which is
-- never put in.
unfoldable pub trim : ℕ → List (String × ℕ) → List (String × ℕ)
trim bound [] = []
trim bound (e ∷ seen) = elim (ltb bound (length (e ∷ seen))) [
  | true ↦ trim bound seen
  | false ↦ e ∷ seen
]

abbrev pub note_keys : ℕ → String → String → List (String × ℕ) → List (String × ℕ)
note_keys expires_at event_id message_key seen =
    insert (target_key message_key) expires_at (insert (event_key event_id) expires_at seen)

unfoldable pub claim_event : ℕ → String → String → Deduper → Deduper × Bool
unfolding remove_expired trim
claim_event now event_id message_key d =
    let d' = remove_expired now d in
    if is_some (lookup (event_key event_id) d'.seen)
      || is_some (lookup (target_key message_key) d'.seen)
    then (d', false)
    else (
      record d' {
        seen = trim d'.max_keys (note_keys (now + d'.ttl_ms) event_id message_key d'.seen);
      },
      true,
    )
