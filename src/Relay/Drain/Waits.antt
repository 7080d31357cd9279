-- ===== src/Relay/Drain/Waits.antt =====
-- shookie/src/slack/message-relay/drain.ts: the wait for which a Retry-After header asks, described apart
-- from the code that reads it.
use shookie.Prelude.{
  ℕ, ◌+◌, ◌-◌, ◌*◌, ◌^◌, ◌≤◌, ◌≡◌, ◌⊎◌, inl, inr, refl, String, true, false, Option, none, some,
  List, [], ◌∷◌, arith, All, length, Bool-cases, Option-cases, ap, ◌∙◌, sym,
}
use native.Mathlib.Nat.{pow-succ'}
use native.Mathlib.Numerals.{unary_clauses}
use shookie.Relay.Drain.{
  codes, all_digits, digits_value, is_delta_seconds, parse_retry_after, or_default,
}

-- The number that decimal digits write.
abbrev decimal : List ℕ → ℕ
decimal [] = 0
decimal (c ∷ cs) = (c - b'0') * 10 ^ length cs + decimal cs

abbrev IsDigit : ℕ → Type 0
IsDigit c = (b'0' ≤ c) × (c ≤ b'9')

-- One to nine decimal digits.
abbrev IsSeconds : List ℕ → Type 0
IsSeconds cs = All IsDigit cs × (1 ≤ length cs) × (length cs ≤ 9)

shift_digit : (acc d p rest : ℕ) → (acc * 10 + d) * p + rest ≡ acc * (10 * p) + (d * p + rest)
shift_digit acc d p rest = grind arith

digits_value-decimal :
    (acc : ℕ) (cs : List ℕ) → digits_value acc cs ≡ acc * 10 ^ length cs + decimal cs
unfolding digits_value
digits_value-decimal acc [] = simp unary_clauses (omega arith)
digits_value-decimal acc (c ∷ cs) =
    digits_value-decimal (acc * 10 + (c - b'0')) cs
    ∙ shift_digit acc (c - b'0') (10 ^ length cs) (decimal cs)
    ∙ ap (λ p. acc * p + ((c - b'0') * 10 ^ length cs + decimal cs))
        (sym (pow-succ' 10 (length cs)))

all_digits-All : (cs : List ℕ) → all_digits cs ≡ true → All IsDigit cs
unfolding all_digits
all_digits-All [] h = tt
all_digits-All (c ∷ cs) h = (ground (arith, h), all_digits-All cs (ground (arith, h)))

All-all_digits : (cs : List ℕ) → All IsDigit cs → all_digits cs ≡ true
unfolding all_digits
All-all_digits [] h = refl
All-all_digits (c ∷ cs) h = ground (arith, h.0, All-all_digits cs h.1)

IsSeconds-when : (cs : List ℕ) → is_delta_seconds cs ≡ true → IsSeconds cs
unfolding is_delta_seconds
IsSeconds-when cs h = (all_digits-All cs (ground (arith, h)), ground (arith, h), ground (arith, h))

IsSeconds-unless : (cs : List ℕ) → is_delta_seconds cs ≡ false → ¬ IsSeconds cs
unfolding is_delta_seconds
IsSeconds-unless cs h s = ground (arith, h, All-all_digits cs s.0, s.1)

module _ (trim : String → String) (parse_date : String → Option ℕ) (show_status : ℕ → String) where
  -- So many milliseconds: a thousand for each second of a header of digits, the time until the date of
  -- another header, and a minute without either.
  abbrev pub Asks : Option String → ℕ → ℕ → Type 0
  Asks none now wait = wait ≡ 60000
  Asks (some header) now wait =
      (IsSeconds (codes (trim header)) × (wait ≡ decimal (codes (trim header)) * 1000))
      ⊎ (¬ IsSeconds (codes (trim header))
          × (((parse_date (trim header) ≡ none) × (wait ≡ 60000))
              ⊎ ((date : ℕ) × (parse_date (trim header) ≡ some date) × (wait ≡ date - now))))

  pub parse_retry_after-Asks :
      (header : Option String) (now : ℕ)
      → Asks header now (or_default (parse_retry_after trim parse_date show_status header now))
  unfolding parse_retry_after
  parse_retry_after-Asks none now = refl
  parse_retry_after-Asks (some header) now =
      let cs = codes (trim header) in
      elim (Bool-cases (is_delta_seconds cs)) [
        | inl seconds ↦
            inl (IsSeconds-when cs seconds, rw seconds (omega (arith, digits_value-decimal 0 cs)))
        | inr other ↦ inr (
          IsSeconds-unless cs other,
          elim (Option-cases (parse_date (trim header))) [
            | inl junk ↦ inl (junk, rw (other, junk) refl)
            | inr (date, found) ↦ inr (date, found, rw (other, found) refl)
          ],
        )
      ]
