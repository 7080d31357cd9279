-- ===== src/Mentions/Event/Formats.antt =====
-- shookie/src/slack/mention-groups/event.ts: the formats that its regular expressions describe, and the
-- values that its guards let through.
use shookie.Prelude.{
  ℕ, ◌≤◌, String, Bool, true, false, List, [], ◌∷◌, ◌++◌, ◌≡◌, ◌≢◌, ◌⊎◌, refl, inl, inr, arith, ap,
  length, All, ◌==◌, ◌||◌, leb, eq_iff,
}
use shookie.Prelude.Text.{codes, is_digit, is_id_unit, all_of}
use shookie.Prelude.Value.{Value, undefined, null, bool, number, str, array, obj, is_text}
use shookie.Mentions.Event.{
  is_team_id, is_channel_id, is_user_id, is_timestamp, is_id_codes, before_dot, after_dot,
  is_digits, is_true, is_open_subtype,
}

-- [0-9]
abbrev IsDigit : ℕ → Type 0
IsDigit c = (b'0' ≤ c) × (c ≤ b'9')

-- [A-Z0-9]
abbrev IsIdUnit : ℕ → Type 0
IsIdUnit c = IsDigit c ⊎ ((b'A' ≤ c) × (c ≤ b'Z'))

-- /^[ab][A-Z0-9]{2,}$/ for the first units a and b.
pub record IsId (a b : ℕ) (id : String) : Type 0 where
  pub first : ℕ
  pub rest : List ℕ
  pub units : codes id ≡ first ∷ rest
  pub known : (first ≡ a) ⊎ (first ≡ b)
  pub each : All IsIdUnit rest
  pub long : 2 ≤ length rest

-- /^\d{1,20}$/
abbrev AreDigits : List ℕ → Type 0
AreDigits cs = All IsDigit cs × (1 ≤ length cs) × (length cs ≤ 20)

-- /^\d{1,20}\.\d{1,20}$/
pub record IsTime (ts : String) : Type 0 where
  pub seconds : List ℕ
  pub fraction : List ℕ
  pub units : codes ts ≡ seconds ++ b'.' ∷ fraction
  pub digits : AreDigits seconds × AreDigits fraction

all_of-IsIdUnit : (cs : List ℕ) → all_of is_id_unit cs ≡ true → All IsIdUnit cs
unfolding all_of
all_of-IsIdUnit [] h = tt
all_of-IsIdUnit (c ∷ cs) h = (ground (arith, h), all_of-IsIdUnit cs (ground (arith, h)))

all_of-IsDigit : (cs : List ℕ) → all_of is_digit cs ≡ true → All IsDigit cs
unfolding all_of
all_of-IsDigit [] h = tt
all_of-IsDigit (c ∷ cs) h = (ground (arith, h), all_of-IsDigit cs (ground (arith, h)))

is_id_codes-IsId :
    (a b : ℕ) (first : ℕ → Bool) (id : String) (cs : List ℕ)
    → ((c : ℕ) → first c ≡ true → (c ≡ a) ⊎ (c ≡ b))
    → codes id ≡ cs
    → is_id_codes first cs ≡ true
    → IsId a b id
is_id_codes-IsId a b first id [] known e h = cc
is_id_codes-IsId a b first id (c ∷ cs) known e h = record {
  first = c;
  rest = cs;
  units = e;
  known = known c (ground (arith, h));
  each = all_of-IsIdUnit cs (ground (arith, h));
  long = ground (arith, h);
}

pub is_team_id-IsId : (id : String) → is_team_id id ≡ true → IsId b'T' b'T' id
unfolding is_team_id
is_team_id-IsId id h =
    is_id_codes-IsId b'T' b'T' (λ c. c == b'T') id (codes id) (λ c e. ground (arith, e)) refl h

pub is_channel_id-IsId : (id : String) → is_channel_id id ≡ true → IsId b'C' b'G' id
unfolding is_channel_id
is_channel_id-IsId id h =
    is_id_codes-IsId b'C' b'G' (λ c. c == b'C' || c == b'G') id (codes id)
      (λ c e. ground (arith, e)) refl h

pub is_user_id-IsId :
    (id : String) → is_user_id id ≡ true → IsId b'U' b'W' id × (length (codes id) ≤ 21)
unfolding is_user_id
is_user_id-IsId id h = (
  is_id_codes-IsId b'U' b'W' (λ c. c == b'U' || c == b'W') id (codes id) (λ c e. ground (arith, e))
      refl (ground (arith, h)),
  ground (arith, h),
)

dotted :
    (cs : List ℕ) → leb 1 (length (after_dot cs)) ≡ true → cs ≡ before_dot cs ++ b'.' ∷ after_dot cs
dotted [] h = ground (arith, h)
dotted (c ∷ cs) h = ground (arith, h, dotted cs)

is_digits-AreDigits : (cs : List ℕ) → is_digits cs ≡ true → AreDigits cs
is_digits-AreDigits cs h =
    (all_of-IsDigit cs (ground (arith, h)), ground (arith, h), ground (arith, h))

pub is_timestamp-IsTime : (ts : String) → is_timestamp ts ≡ true → IsTime ts
unfolding is_timestamp
is_timestamp-IsTime ts h = record {
  seconds = before_dot (codes ts);
  fraction = after_dot (codes ts);
  units = dotted (codes ts) (ground (arith, h));
  digits = (
    is_digits-AreDigits (before_dot (codes ts)) (ground (arith, h)),
    is_digits-AreDigits (after_dot (codes ts)) (ground (arith, h)),
  );
}

pub is_text-str : (v : Value) (t : String) → is_text v t ≡ true → v ≡ str t
is_text-str (str s) t h = ap str (ground (arith, h, eq_iff s t))
is_text-str undefined t h = cc
is_text-str null t h = cc
is_text-str (bool b) t h = cc
is_text-str (number n) t h = cc
is_text-str (array items) t h = cc
is_text-str (obj fields) t h = cc

pub is_true_bool : (v : Value) → is_true v ≡ false → v ≢ bool true
is_true_bool v h e = ground (arith, h, e)

pub is_open_subtype_lem :
    (v : Value) → is_open_subtype v ≡ true → (v ≡ undefined) ⊎ (v ≡ str "me_message")
is_open_subtype_lem undefined h = inl refl
is_open_subtype_lem (str s) h = inr (ap str (ground (arith, h, eq_iff s "me_message")))
is_open_subtype_lem null h = cc
is_open_subtype_lem (bool b) h = cc
is_open_subtype_lem (number n) h = cc
is_open_subtype_lem (array items) h = cc
is_open_subtype_lem (obj fields) h = cc
