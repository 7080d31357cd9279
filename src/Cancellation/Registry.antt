-- ===== src/Cancellation/Registry.antt =====
-- shookie/src/cancellation/request-registry.ts: `CancellationRegistry`. Controls are objects that the
-- registry shares with the runtime: the store holds them, and an entry names one by its index, so
-- that `entry.control === control` compares indices.
pub mod Requester
pub mod Upkeep
use shookie.Prelude.{
  ℕ, String, Bool, true, false, Option, none, some, List, ◌&&◌, ◌||◌, ◌==◌, str_eq, given_other,
  not, is_some, if◌then◌else◌, get_elem?, set,
}
use shookie.Prelude.Maps.{lookup, insert, erase}
use shookie.Cancellation.Control.{Control, cancel}

pub record CancellationOwner : Type 0 where
  pub request_id : String
  pub team_id : String
  pub channel : String
  pub thread_ts : String
  pub user_id : String

pub record TrustedCancellationAction : Type 0 where
  pub request_id : String
  pub user_id : String
  pub team_id : String
  pub channel : String
  pub message_ts : String
  pub thread_ts : Option String

pub record Entry : Type 0 where
  pub owner : CancellationOwner
  pub control : ℕ
  pub message_ts : Option String

pub record World : Type 0 where
  pub entries : List (String × Entry)
  pub controls : List Control

pub data Answer : Type 0 where
  accepted unavailable : Answer

-- `throw new Error(…)` in `register` and `bindMessage`; nothing was changed.
pub data Result : Type 0 where
  ok : World → Result
  incomplete_identity already_registered invalid_binding : Result

abbrev is_empty : String → Bool
is_empty s = str_eq s ""

abbrev is_incomplete : CancellationOwner → Bool
is_incomplete o =
    is_empty o.request_id
    || is_empty o.team_id
    || is_empty o.channel
    || is_empty o.thread_ts
    || is_empty o.user_id

unfoldable pub register : CancellationOwner → ℕ → World → Result
register owner control w =
    if is_incomplete owner
    then incomplete_identity
    else if is_some (lookup owner.request_id w.entries)
    then already_registered
    else ok (record w {
      entries =
          insert owner.request_id (record { owner = owner; control = control; message_ts = none })
            w.entries;
    })

abbrev bind_entry : String → ℕ → String → World → Option Entry → Result
bind_entry request_id control message_ts w none = invalid_binding
bind_entry request_id control message_ts w (some entry) =
    if not (entry.control == control) || is_some entry.message_ts || is_empty message_ts
    then invalid_binding
    else ok (record w {
      entries = insert request_id (record entry { message_ts = some message_ts }) w.entries;
    })

unfoldable pub bind_message : String → ℕ → String → World → Result
bind_message request_id control message_ts w =
    bind_entry request_id control message_ts w (lookup request_id w.entries)

abbrev is_foreign : TrustedCancellationAction → Entry → String → Bool
is_foreign a entry message_ts =
    not (str_eq a.user_id entry.owner.user_id)
    || not (str_eq a.team_id entry.owner.team_id)
    || not (str_eq a.channel entry.owner.channel)
    || not (str_eq a.message_ts message_ts)
    || given_other a.thread_ts entry.owner.thread_ts

-- `control.cancel()`, which may also stop the control by its deadline and then returns false. A
-- dangling index cannot arise in the source; the model answers "unavailable".
abbrev cancel_control : ℕ → ℕ → World → Option Control → World × Answer
cancel_control now i w none = (w, unavailable)
cancel_control now i w (some c) =
    let (c', success) = cancel now c in
    (record w { controls = set w.controls i c' }, if success then accepted else unavailable)

abbrev cancel_entry : ℕ → TrustedCancellationAction → World → Option Entry → World × Answer
cancel_entry now a w none = (w, unavailable)
cancel_entry now a w (some entry) = elim entry.message_ts [
  | none ↦ (w, unavailable)
  | some message_ts ↦
      if is_foreign a entry message_ts
      then (w, unavailable)
      else cancel_control now entry.control w (get_elem? w.controls entry.control)
]

unfoldable pub cancel_request : ℕ → TrustedCancellationAction → World → World × Answer
cancel_request now a w = cancel_entry now a w (lookup a.request_id w.entries)

abbrev is_own : ℕ → Option Entry → Bool
is_own control none = false
is_own control (some entry) = entry.control == control

unfoldable pub remove : String → ℕ → World → World
remove request_id control w =
    if is_own control (lookup request_id w.entries)
    then record w { entries = erase request_id w.entries }
    else w
