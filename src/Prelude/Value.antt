-- ===== src/Prelude/Value.antt =====
-- Values that come from JSON, and what JavaScript finds under a key. Numbers are not looked into.
use Prim.Native.Nat.{ℕ, zero, suc}
use Prim.Native.String.{String}
use mathlib.Core.Bool.{Bool, true, false}
use mathlib.Core.Option.{Option, none, some}
use text.Mathlib.Text.{◌==◌ as str_eq}
use shookie.Prelude.Tests.{if◌then◌else◌}

mutual
  pub data Value : Type 0 where
    undefined null : Value
    bool : Bool → Value
    number : ℕ → Value
    str : String → Value
    array : Items → Value
    obj : Fields → Value

  pub data Items : Type 0 where
    nil : Items
    cons : Value → Items → Items

  pub data Fields : Type 0 where
    end : Fields
    field : String → Value → Fields → Fields

-- `record[key]`
unfoldable pub get_field : String → Fields → Value
get_field key end = undefined
get_field key (field k v fields) = if str_eq k key then v else get_field key fields

-- `typeof value === "string" ? value : null`
abbrev pub text_of : Value → Option String
text_of (str t) = some t
text_of _ = none

-- `value === t` for a text t
abbrev pub is_text : Value → String → Bool
is_text (str s) t = str_eq s t
is_text _ t = false

-- `value === undefined || value === null`
abbrev pub is_nullish : Value → Bool
is_nullish undefined = true
is_nullish null = true
is_nullish _ = false

-- `Boolean(value)`; numbers are truthy but for 0.
abbrev pub is_truthy : Value → Bool
is_truthy undefined = false
is_truthy null = false
is_truthy (bool b) = b
is_truthy (number n) = elim n [ zero ↦ false | suc m ↦ true ]
is_truthy (str t) = if str_eq t "" then false else true
is_truthy _ = true
