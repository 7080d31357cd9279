-- ===== src/Cancellation/Registry/Upkeep.antt =====
-- The registry in good order, and its whole life for one request.
use shookie.Prelude.{
  ℕ, String, ◌≡◌, refl, ◌≢◌, inl, inr, true, none, some, arith, eq_iff, Bool-cases, Option-cases,
  get_elem?,
}
use shookie.Prelude.Maps.{
  lookup, insert, erase, Distinct, lookup-insert, insert-Distinct, erase-Distinct, lookup-erase,
}
use shookie.Cancellation.Control.{Control, cancel}
use shookie.Cancellation.Registry.{
  CancellationOwner, TrustedCancellationAction, Entry, World, accepted, unavailable, ok, register,
  bind_message, cancel_request, remove, is_own,
}
use shookie.Cancellation.Registry.Requester.{cancel_request_iff, cancel_request_frame}

-- Every key is its owner's request id, and none stands twice.
pub record Inv (w : World) : Type 0 where
  pub distinct : Distinct w.entries
  pub keyed :
      (k : String) (entry : Entry) → lookup k w.entries ≡ some entry → entry.owner.request_id ≡ k

insert-Inv :
    (k : String) (x : Entry) (w : World)
    → x.owner.request_id ≡ k
    → Inv w
    → Inv (record w { entries = insert k x w.entries })
insert-Inv k x w e v = record {
  distinct = insert-Distinct k x w.entries v.distinct;
  keyed = λ j entry h. ground (arith, lookup-insert k j x w.entries, v.keyed j entry, eq_iff k j);
}

abbrev pub fresh_entry : CancellationOwner → ℕ → Entry
fresh_entry o i = record { owner = o; control = i; message_ts = none }

-- `register` succeeds only for a new request id, and then adds its entry, not yet bound.
pub register-eq-ok :
    (o : CancellationOwner) (i : ℕ) (w w' : World)
    → register o i w ≡ ok w'
    → (lookup o.request_id w.entries ≡ none)
      × (w' ≡ record w { entries = insert o.request_id (fresh_entry o i) w.entries })
unfolding register
register-eq-ok o i w w' h = ground arith

pub bind_message-eq-ok :
    (k ts : String) (i : ℕ) (w w' : World)
    → bind_message k i ts w ≡ ok w'
    → (entry : Entry) × (lookup k w.entries ≡ some entry)
      × (entry.control ≡ i)
      × (entry.message_ts ≡ none)
      × (w' ≡ record w { entries = insert k (record entry { message_ts = some ts }) w.entries })
unfolding bind_message
bind_message-eq-ok k ts i w w' h = elim (Option-cases (lookup k w.entries)) [
  | inl e ↦ absurd (ground arith)
  | inr (entry, e) ↦ (entry, e, ground arith, ground arith, ground arith)
]

erase-Inv : (k : String) (w : World) → Inv w → Inv (record w { entries = erase k w.entries })
erase-Inv k w v = record {
  distinct = erase-Distinct k w.entries v.distinct;
  keyed = λ j entry h. ground (arith, lookup-erase k j w.entries v.distinct, v.keyed j entry);
}

-- `register`, `bindMessage` and `remove` keep the registry well formed; `cancel` does too, since it
-- changes no entry.
pub registry-Inv :
    (w w' : World)
    → Inv w
    → ((o : CancellationOwner) (i : ℕ) → register o i w ≡ ok w' → Inv w')
      × ((k ts : String) (i : ℕ) → bind_message k i ts w ≡ ok w' → Inv w')
      × ((k : String) (i : ℕ) → Inv (remove k i w))
      × ((now : ℕ) (a : TrustedCancellationAction) → Inv (cancel_request now a w).0)
unfolding remove
registry-Inv w w' v = (
  λ o i h. rw (register-eq-ok o i w w' h).1 (insert-Inv o.request_id (fresh_entry o i) w refl v),
  λ k ts i h.
      let (entry, e, _, _, q) = bind_message-eq-ok k ts i w w' h in
      rw q (insert-Inv k (record entry { message_ts = some ts }) w (v.keyed k entry e) v),
  λ k i. elim (Bool-cases (is_own i (lookup k w.entries))) [
    | inl h ↦ rw h (erase-Inv k w v)
    | inr h ↦ rw h v
  ],
  λ now a.
      let (e, _) = cancel_request_frame now a w in
      record { distinct = rw e v.distinct; keyed = λ k entry h. v.keyed k entry (rw e at h) },
)

-- After `remove` by the control that registered a request nobody can cancel it any more; with a
-- control of another registration `remove` leaves the registry as it is.
pub remove_lem :
    (k : String) (i : ℕ) (w : World) (entry : Entry)
    → Inv w
    → lookup k w.entries ≡ some entry
    → (entry.control ≡ i
        → (now : ℕ) (a : TrustedCancellationAction) → a.request_id ≡ k
        → (cancel_request now a (remove k i w)).1 ≡ unavailable)
      × (entry.control ≢ i → remove k i w ≡ w)
unfolding remove cancel_request
remove_lem k i w entry v e = (
  λ h now a q. ground (arith, lookup-erase k k w.entries v.distinct, eq_iff k k),
  λ h. ground arith,
)

bound_entry :
    (o : CancellationOwner) (i : ℕ) (ts : String) (w w' w'' : World)
    → register o i w ≡ ok w'
    → bind_message o.request_id i ts w' ≡ ok w''
    → (lookup o.request_id w''.entries ≡ some (record (fresh_entry o i) { message_ts = some ts }))
      × (w''.controls ≡ w.controls)
bound_entry o i ts w w' w'' r b =
    let (_, q) = register-eq-ok o i w w' r in
    let (entry, e, _, _, q') = bind_message-eq-ok o.request_id ts i w' w'' b in
    ground (
      arith,
      lookup-insert o.request_id o.request_id (fresh_entry o i) w.entries,
      lookup-insert o.request_id o.request_id (record entry { message_ts = some ts }) w'.entries,
      eq_iff o.request_id o.request_id,
    )

-- The whole life of the cancel button: once a request is registered and its control message bound,
-- the requester's action stops the control that was registered, provided it can still be stopped.
pub register-bind-cancel :
    (o : CancellationOwner) (i now : ℕ) (ts : String) (w w' w'' : World) (c : Control)
    → register o i w ≡ ok w'
    → bind_message o.request_id i ts w' ≡ ok w''
    → get_elem? w.controls i ≡ some c
    → (cancel now c).1 ≡ true
    → (cancel_request now
        (record {
          request_id = o.request_id;
          user_id = o.user_id;
          team_id = o.team_id;
          channel = o.channel;
          message_ts = ts;
          thread_ts = some o.thread_ts;
        })
        w'').1
      ≡ accepted
register-bind-cancel o i now ts w w' w'' c r b g l =
    let (e, q) = bound_entry o i ts w w' w'' r b in
    (cancel_request_iff now _ w'' (record (fresh_entry o i) { message_ts = some ts }) c e
        (rw q g)).0.1
      (ground arith, l)
