-- ===== src/Cancellation/Registry/Requester.antt =====
-- Who can stop a conversation through the registry.
use shookie.Prelude.{
  ℕ, String, ◌≡◌, refl, ◌≢◌, ◌↔◌, ◌⊎◌, inl, inr, true, false, Option, none, some, arith, eq_iff,
  Bool-cases, Option-cases, get_elem?, get_elem?-set_self, get_elem?-set_ne, given_other,
}
use shookie.Prelude.Maps.{lookup}
use shookie.Cancellation.Control.{Control, cancel}
use shookie.Cancellation.Registry.{
  TrustedCancellationAction, Entry, World, accepted, unavailable, cancel_request, is_foreign,
  cancel_control,
}

-- The action comes from the requester, and from the message that the server itself posted for the
-- request, in the same team, channel and (where Slack names one) thread.
pub record IsRequester (a : TrustedCancellationAction) (entry : Entry) : Type 0 where
  pub user : a.user_id ≡ entry.owner.user_id
  pub team : a.team_id ≡ entry.owner.team_id
  pub channel : a.channel ≡ entry.owner.channel
  pub message : entry.message_ts ≡ some a.message_ts
  pub thread : (a.thread_ts ≡ none) ⊎ (a.thread_ts ≡ some entry.owner.thread_ts)

given_other_cases :
    (o : Option String) (t : String) → given_other o t ≡ false → (o ≡ none) ⊎ (o ≡ some t)
given_other_cases none t h = inl refl
given_other_cases (some v) t h = inr (ground (arith, eq_iff v t))

given_other-same :
    (o : Option String) (t : String) → (o ≡ none) ⊎ (o ≡ some t) → given_other o t ≡ false
given_other-same none t h = refl
given_other-same (some v) t (inl h) = cc
given_other-same (some v) t (inr h) = ground (arith, eq_iff v t)

IsRequester-of :
    (a : TrustedCancellationAction) (entry : Entry) (ts : String)
    → entry.message_ts ≡ some ts
    → is_foreign a entry ts ≡ false
    → IsRequester a entry
IsRequester-of a entry ts e h = ground (
  arith,
  eq_iff a.user_id entry.owner.user_id,
  eq_iff a.team_id entry.owner.team_id,
  eq_iff a.channel entry.owner.channel,
  eq_iff a.message_ts ts,
  given_other_cases a.thread_ts entry.owner.thread_ts,
)

not_foreign_of :
    (a : TrustedCancellationAction) (entry : Entry) (ts : String)
    → entry.message_ts ≡ some ts
    → IsRequester a entry
    → is_foreign a entry ts ≡ false
not_foreign_of a entry ts e r = ground (
  arith,
  eq_iff a.user_id entry.owner.user_id,
  eq_iff a.team_id entry.owner.team_id,
  eq_iff a.channel entry.owner.channel,
  eq_iff a.message_ts ts,
  given_other-same a.thread_ts entry.owner.thread_ts r.thread,
)

-- What `cancel` does for a foreign or unbound action, and for the requester's.
foreign_lem :
    (now : ℕ) (a : TrustedCancellationAction) (w : World) (entry : Entry)
    → lookup a.request_id w.entries ≡ some entry
    → ¬ IsRequester a entry
    → cancel_request now a w ≡ (w, unavailable)
unfolding cancel_request
foreign_lem now a w entry e n = elim (Option-cases entry.message_ts) [
  | inl m ↦ ground arith
  | inr (ts, m) ↦ elim (Bool-cases (is_foreign a entry ts)) [
    | inl f ↦ ground arith
    | inr f ↦ absurd (n (IsRequester-of a entry ts m f))
  ]
]

requester_lem :
    (now : ℕ) (a : TrustedCancellationAction) (w : World) (entry : Entry) (c : Control)
    → lookup a.request_id w.entries ≡ some entry
    → get_elem? w.controls entry.control ≡ some c
    → IsRequester a entry
    → cancel_request now a w ≡ cancel_control now entry.control w (some c)
unfolding cancel_request
requester_lem now a w entry c e g r =
    ground (arith, not_foreign_of a entry a.message_ts r.message r)

IsRequester-dec :
    (a : TrustedCancellationAction) (entry : Entry) → IsRequester a entry ⊎ (¬ IsRequester a entry)
IsRequester-dec a entry = elim (Option-cases entry.message_ts) [
  | inl m ↦ inr (λ r. ground arith)
  | inr (ts, m) ↦ elim (Bool-cases (is_foreign a entry ts)) [
    | inl f ↦ inr (λ r. ground (arith, not_foreign_of a entry ts m r))
    | inr f ↦ inl (IsRequester-of a entry ts m f)
  ]
]

-- With the entry and its control at hand, a request is accepted exactly if its requester asks and
-- the control can still be cancelled; then that control is cancelled. Any other action is answered
-- "unavailable", and one that is not the requester's leaves everything as it was.
pub cancel_request_iff :
    (now : ℕ) (a : TrustedCancellationAction) (w : World) (entry : Entry) (c : Control)
    → lookup a.request_id w.entries ≡ some entry
    → get_elem? w.controls entry.control ≡ some c
    → (((cancel_request now a w).1 ≡ accepted) ↔ (IsRequester a entry × ((cancel now c).1 ≡ true)))
      × ((cancel_request now a w).1 ≡ accepted
          → get_elem? (cancel_request now a w).0.controls entry.control ≡ some (cancel now c).0)
      × (¬ IsRequester a entry → cancel_request now a w ≡ (w, unavailable))
cancel_request_iff now a w entry c e f = elim (IsRequester-dec a entry) [
  | inl r ↦ (
    (
      λ h. (r, ground (arith, requester_lem now a w entry c e f r)),
      λ h. ground (arith, requester_lem now a w entry c e f r),
    ),
    λ h.
        rw (requester_lem now a w entry c e f r)
          (get_elem?-set_self w.controls entry.control (cancel now c).0 c f),
    λ h. absurd (h r),
  )
  | inr n ↦ (
    (λ h. ground (arith, foreign_lem now a w entry e n), λ h. absurd (n h.0)),
    λ h. ground (arith, foreign_lem now a w entry e n),
    λ h. foreign_lem now a w entry e n,
  )
]

-- A cancellation touches the control of the named entry and nothing else: no entry, and no other
-- conversation's control.
pub cancel_request_frame :
    (now : ℕ) (a : TrustedCancellationAction) (w : World)
    → ((cancel_request now a w).0.entries ≡ w.entries)
      × ((j : ℕ)
          → ((entry : Entry) → lookup a.request_id w.entries ≡ some entry → entry.control ≢ j)
          → get_elem? (cancel_request now a w).0.controls j ≡ get_elem? w.controls j)
unfolding cancel_request
cancel_request_frame now a w = elim (Option-cases (lookup a.request_id w.entries)) [
  | inl e ↦ (ground arith, λ j h. ground arith)
  | inr (entry, e) ↦ (
    ground arith,
    λ j h. elim (Option-cases (get_elem? w.controls entry.control)) [
      | inl f ↦ ground arith
      | inr (c, f) ↦
          ground (arith, get_elem?-set_ne w.controls entry.control j (cancel now c).0 (h entry e))
    ],
  )
]
