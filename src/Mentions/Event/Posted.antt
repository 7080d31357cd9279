-- ===== src/Mentions/Event/Posted.antt =====
-- shookie/src/slack/mention-groups/event.ts: what is taken from an event.
use shookie.Prelude.{
  ℕ, ◌≤◌, String, Bool, true, false, Option, none, some, ◌≡◌, ◌≢◌, ◌⊎◌, refl, subst, inl, inr,
  arith, Bool-cases, str_eq, eq_iff, ◌&&◌, if◌then◌else◌, length,
}
use shookie.Prelude.Text.{codes}
use shookie.Prelude.Value.{
  Value, undefined, null, bool, number, str, array, obj, Fields, get_field, text_of, is_truthy,
}
use shookie.Mentions.Event.{
  MessageEvent, is_team_id, is_channel_id, is_user_id, is_timestamp, is_human_message, has_format,
  passes, or_empty, or_given, nonempty, is_channel_type, parts_of, is_accepted, event_of, fields_of,
  extract_fields, extract_message,
}
use shookie.Mentions.Event.Formats.{
  IsId, IsTime, is_team_id-IsId, is_channel_id-IsId, is_user_id-IsId, is_timestamp-IsTime,
  is_text-str, is_true_bool, is_open_subtype_lem,
}

-- A message that a person has just written, in a channel of the workspace.
pub record IsHuman (event : Fields) : Type 0 where
  pub message : get_field "type" event ≡ str "message"
  pub shown : get_field "hidden" event ≢ bool true
  pub no_bot : is_truthy (get_field "bot_id" event) ≡ false
  pub no_app : is_truthy (get_field "app_id" event) ≡ false
  pub unedited : is_truthy (get_field "edited" event) ≡ false
  pub new : (get_field "subtype" event ≡ undefined) ⊎ (get_field "subtype" event ≡ str "me_message")

-- The texts are those of the event, and of the formats of their kinds.
pub record IsPosted (body event : Fields) (e : MessageEvent) : Type 0 where
  pub team : IsId b'T' b'T' e.team_id
  pub team_text :
      (get_field "team" event ≡ str e.team_id) ⊎ (get_field "team_id" body ≡ str e.team_id)
  pub channel : IsId b'C' b'G' e.channel_id × (get_field "channel" event ≡ str e.channel_id)
  pub user :
      IsId b'U' b'W' e.user_id
      × (length (codes e.user_id) ≤ 21)
      × (get_field "user" event ≡ str e.user_id)
  pub ts : IsTime e.message_ts × (get_field "ts" event ≡ str e.message_ts)
  pub text : get_field "text" event ≡ str e.text
  pub thread :
      (e.thread_ts ≡ none)
      ⊎ ((t : String) × (e.thread_ts ≡ some t) × IsTime t × (get_field "thread_ts" event ≡ str t))
  pub own_team : (t : String) → get_field "user_team" event ≡ str t → (t ≡ "") ⊎ (t ≡ e.team_id)
  pub kind :
      (t : String)
      → get_field "channel_type" event ≡ str t
      → (t ≡ "") ⊎ ((t ≡ "channel") ⊎ (t ≡ "group"))

text_of-str : (v : Value) (t : String) → text_of v ≡ some t → v ≡ str t
text_of-str (str s) t h = cc
text_of-str undefined t h = cc
text_of-str null t h = cc
text_of-str (bool b) t h = cc
text_of-str (number n) t h = cc
text_of-str (array items) t h = cc
text_of-str (obj fields) t h = cc

has_format-some :
    (p : String → Bool) (o : Option String)
    → has_format p o ≡ true
    → (o ≡ some (or_empty o)) × (p (or_empty o) ≡ true)
has_format-some p none h = cc
has_format-some p (some t) h = (refl, h)

is_given_text : (o : Option String) → has_format (λ t. true) o ≡ true → o ≡ some (or_empty o)
is_given_text o h = (has_format-some (λ t. true) o h).0

or_given-str :
    (v w : Value) (t : String)
    → or_given (text_of v) (text_of w) ≡ some t
    → (v ≡ str t) ⊎ (w ≡ str t)
or_given-str (str s) w t h = inl (cc)
or_given-str undefined w t h = inr (text_of-str w t h)
or_given-str null w t h = inr (text_of-str w t h)
or_given-str (bool b) w t h = inr (text_of-str w t h)
or_given-str (number n) w t h = inr (text_of-str w t h)
or_given-str (array items) w t h = inr (text_of-str w t h)
or_given-str (obj fields) w t h = inr (text_of-str w t h)

passes-thread :
    (v : Value) (o : Option String)
    → text_of v ≡ o
    → passes is_timestamp o ≡ true
    → (nonempty o ≡ none) ⊎ ((t : String) × (nonempty o ≡ some t) × IsTime t × (v ≡ str t))
passes-thread v none e h = inl refl
passes-thread v (some t) e h = elim (Bool-cases (str_eq t "")) [
  | inl empty ↦ inl (rw empty refl)
  | inr given ↦
      inr (t, rw given refl, is_timestamp-IsTime t (ground (arith, h, given)), text_of-str v t e)
]

passes-str :
    (p : String → Bool) (v : Value) (t : String)
    → passes p (text_of v) ≡ true
    → v ≡ str t
    → (t ≡ "") ⊎ (p t ≡ true)
passes-str p v t h e =
    let passed : passes p (some t) ≡ true = subst (λ x. passes p (text_of x) ≡ true) e h in
    elim (Bool-cases (str_eq t "")) [
      | inl empty ↦ inl (ground (arith, empty, eq_iff t ""))
      | inr given ↦ inr (ground (arith, passed, given))
    ]

is_human_message-IsHuman : (event : Fields) → is_human_message event ≡ true → IsHuman event
unfolding is_human_message
is_human_message-IsHuman event h = record {
  message = is_text-str (get_field "type" event) "message" (ground (arith, h));
  shown = is_true_bool (get_field "hidden" event) (ground (arith, h));
  no_bot = ground (arith, h);
  no_app = ground (arith, h);
  unedited = ground (arith, h);
  new = is_open_subtype_lem (get_field "subtype" event) (ground (arith, h));
}

module _ (units : String → ℕ) where
  is_accepted-IsPosted :
      (body event : Fields)
      → is_accepted (parts_of body event) ≡ true
      → IsPosted body event (event_of units (parts_of body event))
  unfolding is_accepted parts_of
  is_accepted-IsPosted body event h =
      let p = parts_of body event in
      let (team_text, team) = has_format-some is_team_id p.team (ground (arith, h)) in
      let (channel_text, channel) = has_format-some is_channel_id p.channel (ground (arith, h)) in
      let (user_text, user) = has_format-some is_user_id p.user (ground (arith, h)) in
      let (ts_text, ts) = has_format-some is_timestamp p.ts (ground (arith, h)) in
      record {
        team = is_team_id-IsId (or_empty p.team) team;
        team_text = or_given-str (get_field "team" event) (get_field "team_id" body) _ team_text;
        channel = (
          is_channel_id-IsId (or_empty p.channel) channel,
          text_of-str (get_field "channel" event) _ channel_text,
        );
        user = (
          (is_user_id-IsId (or_empty p.user) user).0,
          (is_user_id-IsId (or_empty p.user) user).1,
          text_of-str (get_field "user" event) _ user_text,
        );
        ts = (is_timestamp-IsTime (or_empty p.ts) ts, text_of-str (get_field "ts" event) _ ts_text);
        text = text_of-str (get_field "text" event) _ (is_given_text p.text (ground (arith, h)));
        thread = passes-thread (get_field "thread_ts" event) p.thread refl (ground (arith, h));
        own_team = λ t e.
            elim (passes-str (str_eq (or_empty p.team)) (get_field "user_team" event) t
              (ground (arith, h)) e) [
                | inl empty ↦ inl empty
                | inr same ↦ inr (ground (arith, same, eq_iff (or_empty p.team) t))
              ];
        kind = λ t e.
            elim (passes-str is_channel_type (get_field "channel_type" event) t (ground (arith, h))
              e) [
                | inl empty ↦ inl empty
                | inr known ↦ inr (ground (arith, known, eq_iff t "channel", eq_iff t "group"))
              ];
      }

  if_some :
      (b : Bool) (x e : MessageEvent) → (if b then some x else none) ≡ some e → (b ≡ true) × (x ≡ e)
  if_some true x e h = (refl, cc)
  if_some false x e h = cc

  -- The event's fields and the envelope's, from which it was taken.
  abbrev Taken : Option Fields → Option Fields → MessageEvent → Type 0
  Taken body event e =
      (b : Fields) × (body ≡ some b)
      × ((f : Fields) × (event ≡ some f) × IsHuman f × IsPosted b f e)

  extract_fields-Taken :
      (body event : Option Fields) (e : MessageEvent)
      → extract_fields units body event ≡ some e
      → Taken body event e
  extract_fields-Taken none event e h = cc
  extract_fields-Taken (some body) none e h = cc
  extract_fields-Taken (some body) (some event) e h =
      let (both, same) =
        if_some (is_human_message event && is_accepted (parts_of body event))
          (event_of units (parts_of body event)) e h in
      (
        body,
        refl,
        (
          event,
          refl,
          is_human_message-IsHuman event (ground (arith, both)),
          subst (IsPosted body event) same (is_accepted-IsPosted body event (ground (arith, both))),
        ),
      )

  -- What is taken from an event is a new message: not hidden, of no bot and no app, not edited, of no
  -- subtype but that of /me. Its channel, user, time, text and thread are the event's texts and its team
  -- the event's or the envelope's, of the formats of their kinds; its author is of that team if the
  -- event tells, and its channel a public or a private one if the event tells.
  pub extract_message-IsPosted :
      (body event : Value) (e : MessageEvent)
      → extract_message units body event ≡ some e
      → (b : Fields) × (fields_of body ≡ some b)
        × ((f : Fields) × (fields_of event ≡ some f) × IsHuman f × IsPosted b f e)
  unfolding extract_message
  extract_message-IsPosted body event e h =
      extract_fields-Taken (fields_of body) (fields_of event) e h
