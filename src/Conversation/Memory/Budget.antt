-- ===== src/Conversation/Memory/Budget.antt =====
-- What `budgetMessages` keeps of a history.
use Prim.Native.String.{len}
use mathlib.Core.List.{append-nil, reverse-reverse, append_assoc, reverse-cons}
use shookie.Prelude.{
  ℕ, ◌+◌, ◌-◌, ◌≤◌, ◌<◌, ◌≡◌, refl, sym, ◌∙◌, String, List, [], ◌∷◌, ◌++◌, reverse, arith,
  Bool-cases, inl, inr, ltb, subst,
}
use shookie.Conversation.Memory.{
  Message, user, ok, input_too_large, input_bytes, context_bytes, select_pairs, budget_messages,
}

-- The bytes of a dialogue.
abbrev pub bytes : List Message → ℕ
bytes [] = 0
bytes (m ∷ ms) = len m.content + bytes ms

abbrev pub Pairs : List Message → Type 0
Pairs [] = Unit
Pairs (a ∷ []) = ⊥
Pairs (a ∷ b ∷ ms) = Pairs ms

-- The pair of messages that stands last, if there is one, has more bytes than `room`.
abbrev pub NoRoom : ℕ → List Message → Type 0
NoRoom room (b ∷ a ∷ older) = room < len a.content + len b.content
NoRoom room _ = Unit

-- `kept` is what the loop takes of `newest_first`.
record Taken (room : ℕ) (newest_first selected result : List Message) : Type 0 where
  kept : List Message
  older : List Message
  split : reverse newest_first ≡ reverse older ++ kept
  result_eq : result ≡ kept ++ selected
  paired : Pairs kept
  fits : bytes kept ≤ room
  maximal : NoRoom (room - bytes kept) older

bytes-append : (xs ys : List Message) → bytes (xs ++ ys) ≡ bytes xs + bytes ys
bytes-append [] ys = omega arith
bytes-append (x ∷ xs) ys = omega (arith, bytes-append xs ys)

Pairs-snoc : (ms : List Message) (a b : Message) → Pairs ms → Pairs (ms ++ a ∷ b ∷ [])
Pairs-snoc [] a b p = tt
Pairs-snoc (m ∷ []) a b p = absurd p
Pairs-snoc (m ∷ n ∷ ms) a b p = Pairs-snoc ms a b p

reverse-pair :
    (a b : Message) (older : List Message) → reverse (b ∷ a ∷ older) ≡ reverse older ++ a ∷ b ∷ []
reverse-pair a b older = simp (reverse-cons, append_assoc)

Taken-cons :
    (room : ℕ) (a b : Message) (older selected result : List Message)
    → len a.content + len b.content ≤ room
    → Taken (room - (len a.content + len b.content)) older (a ∷ b ∷ selected) result
    → Taken room (b ∷ a ∷ older) selected result
Taken-cons room a b older selected result h t = record {
  kept = t.kept ++ a ∷ b ∷ [];
  older = t.older;
  split = simp (reverse-pair, t.split, append_assoc);
  result_eq = simp append_assoc t.result_eq;
  paired = Pairs-snoc t.kept a b t.paired;
  fits = omega (arith, bytes-append t.kept (a ∷ b ∷ []), t.fits);
  maximal = subst (λ n. NoRoom n t.older) room_eq t.maximal;
}
  where
    room_eq :
        room - (len a.content + len b.content) - bytes t.kept ≡ room - bytes (t.kept ++ a ∷ b ∷ [])
    room_eq = omega (arith, bytes-append t.kept (a ∷ b ∷ []))

select_pairs-Taken :
    (room : ℕ) (l selected : List Message) → Taken room l selected (select_pairs room l selected)
unfolding select_pairs
select_pairs-Taken room [] selected = record {
  kept = [];
  older = [];
  split = refl;
  result_eq = refl;
  paired = tt;
  fits = omega arith;
  maximal = tt;
}
select_pairs-Taken room (b ∷ []) selected = record {
  kept = [];
  older = b ∷ [];
  split = refl;
  result_eq = refl;
  paired = tt;
  fits = omega arith;
  maximal = tt;
}
select_pairs-Taken room (b ∷ a ∷ older) selected =
    elim (Bool-cases (ltb room (len a.content + len b.content))) [
      | inl h ↦ rw h (record {
        kept = [];
        older = b ∷ a ∷ older;
        split = sym (append-nil _);
        result_eq = refl;
        paired = tt;
        fits = omega arith;
        maximal = ground arith;
      })
      | inr h ↦ rw h (
          Taken-cons room a b older selected _ (ground arith)
            (select_pairs-Taken (room - (len a.content + len b.content)) older (a ∷ b ∷ selected)))
    ]

-- `result` is a bounded window on `history` with the input behind it.
pub record IsBudgeted (history : List Message) (current : String) (result : List Message)
    : Type 0 where
  pub kept : List Message
  pub dropped : List Message
  pub suffix : history ≡ dropped ++ kept
  pub appended : result ≡ kept ++ record { role = user; content = current } ∷ []
  pub whole : Pairs kept
  pub bounded : bytes result ≤ context_bytes
  pub greedy : NoRoom (context_bytes - bytes result) (reverse dropped)

window : List Message → String → List Message
window history current =
    select_pairs (context_bytes - len current) (reverse history) []
    ++ record { role = user; content = current } ∷ []

window-IsBudgeted :
    (history : List Message) (current : String)
    → len current ≤ input_bytes
    → IsBudgeted history current (window history current)
unfolding window
window-IsBudgeted history current h = record {
  kept = taken.kept;
  dropped = reverse taken.older;
  suffix = sym (reverse-reverse history) ∙ taken.split;
  appended = rw (taken.result_eq, append-nil) refl;
  whole = taken.paired;
  bounded = omega (arith, size, taken.fits);
  greedy = rw reverse-reverse (subst (λ n. NoRoom n taken.older) room_eq taken.maximal);
}
  where
    taken :
        Taken
          (context_bytes - len current)
          (reverse history)
          []
          (select_pairs (context_bytes - len current) (reverse history) [])
    taken = select_pairs-Taken (context_bytes - len current) (reverse history) []

    size : bytes (window history current) ≡ bytes taken.kept + len current
    size =
        rw (taken.result_eq, append-nil)
          (omega (arith, bytes-append taken.kept (record { role = user; content = current } ∷ [])))

    room_eq :
        context_bytes - len current - bytes taken.kept
        ≡ context_bytes - bytes (window history current)
    room_eq = omega (arith, size)

-- An input beyond its bound is refused. Any other is put behind the newest complete turns of the
-- history, unchanged and in their order; the result fits the context, and the newest pair that was
-- left out would not have fitted.
pub budget_messages_lem :
    (history : List Message) (current : String)
    → (input_bytes < len current → budget_messages history current ≡ input_too_large)
      × (len current ≤ input_bytes
          → (result : List Message) × (budget_messages history current ≡ ok result)
            × IsBudgeted history current result)
unfolding budget_messages window
budget_messages_lem history current = (
  λ h. ground arith,
  λ h. (window history current, ground arith, window-IsBudgeted history current h),
)
