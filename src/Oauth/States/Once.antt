-- ===== src/Oauth/States/Once.antt =====
-- shookie/src/slack/user-oauth/state-service.ts: a state is used once, in time, and as it was issued.
use shookie.Prelude.{
  ℕ, ◌+◌, ◌≤◌, ◌<◌, String, Bool, true, false, not, none, some, List, [], ◌∷◌, ◌≡◌, ◌≢◌, ◌⊎◌, subst,
  refl, sym, inl, inr, arith, Bool-cases, eq_iff, ltb, All, All-imp, All-select, if◌then◌else◌,
}
use shookie.Prelude.Value.{Value}
use shookie.Oauth.Tokens.{Identity}
use shookie.Oauth.States.{
  StateRecord, has_hash, create_state, is_live, find_live, consume_state, delete_expired, ttl_ms,
  Platform, store_state, create, consume, is_state_value,
}

abbrev pub Member : StateRecord → List StateRecord → Type 0
Member r [] = ⊥
Member r (q ∷ rows) = (q ≡ r) ⊎ Member r rows

module _ (P : StateRecord → Type 0) where
  store_state-All :
      (bad : Bool) (db_now : ℕ) (r : StateRecord) (state : String) (rows : List StateRecord)
      → P (record r { created_at = db_now })
      → All P rows
      → All P (store_state bad db_now r state rows).0
  unfolding create_state delete_expired
  store_state-All true db_now r state rows new old = old
  store_state-All false db_now r state rows new old =
      let left = delete_expired db_now rows in
      let kept : All P left = All-select P (λ q. ltb db_now q.expires_at) rows old in
      elim (Bool-cases (has_hash r.state_hash left)) [
        | inl taken ↦ rw taken kept
        | inr free ↦ rw free (new, kept)
      ]

  consume-All :
      (p : Platform) (now : ℕ) (value : String) (rows : List StateRecord)
      → All P rows
      → All P (consume p now value rows).0
  unfolding consume consume_state
  consume-All p now value rows old = elim (Bool-cases (is_state_value value)) [
    | inl fits ↦ rw fits (All-select P (λ r. not (is_live now (p.hash value) r)) rows old)
    | inr odd ↦ rw odd old
  ]

find_live-Spent :
    (now : ℕ) (hash : String) (rows : List StateRecord)
    → All (λ r. is_live now hash r ≡ false) rows
    → find_live now hash rows ≡ none
find_live-Spent now hash [] s = refl
find_live-Spent now hash (r ∷ rows) s = rw (s.0) (find_live-Spent now hash rows s.1)

find_live-All :
    (P : StateRecord → Type 0) (now : ℕ) (hash : String) (rows : List StateRecord) (r : StateRecord)
    → All P rows
    → find_live now hash rows ≡ some r
    → P r × (r.state_hash ≡ hash) × (now < r.expires_at)
find_live-All P now hash [] r a h = cc
find_live-All P now hash (q ∷ rows) r a h = elim (Bool-cases (is_live now hash q)) [
  | inl live ↦
      let same : some q ≡ some r =
        (subst (λ b. (if b then some q else find_live now hash rows) ≡ some r) live h) in
      let same' : q ≡ r = cc in
      subst (λ x. P x × (x.state_hash ≡ hash) × (now < x.expires_at)) same'
        (a.0, ground (arith, live, eq_iff q.state_hash hash), ground (arith, live))
  | inr dead ↦
      find_live-All P now hash rows r a.1
        (subst (λ b. (if b then some q else find_live now hash rows) ≡ some r) dead h)
]

select-Spent :
    (now : ℕ) (hash : String) (rows : List StateRecord)
    → All (λ r. is_live now hash r ≡ false) (consume_state now hash rows).0
unfolding consume_state
select-Spent now hash [] = tt
select-Spent now hash (r ∷ rows) = elim (Bool-cases (is_live now hash r)) [
  | inl live ↦ rw live (select-Spent now hash rows)
  | inr dead ↦ rw dead (dead, select-Spent now hash rows)
]

select-Spent_later :
    (now later : ℕ) (hash : String) (rows : List StateRecord)
    → now ≤ later
    → All (λ r. is_live later hash r ≡ false) (consume_state now hash rows).0
select-Spent_later now later hash rows h =
    All-imp (λ r. is_live now hash r ≡ false) (λ r. is_live later hash r ≡ false)
      (consume_state now hash rows).0 (λ r dead. ground (arith, dead, h))
      (select-Spent now hash rows)

module _ (p : Platform) where
  -- What happens to the table, while no state is issued that has the hash.
  pub data Later (hash : String) (rows : List StateRecord) : List StateRecord → Type 0 where
    here : Later hash rows rows
    issues :
        {rows' : List StateRecord} (now db_now : ℕ) (who : Identity) (context : Value)
        (state : String)
        → Later hash rows rows'
        → p.hash state ≢ hash
        → Later hash rows (create p now db_now who context state rows').0
    consumes :
        {rows' : List StateRecord} (now : ℕ) (value : String)
        → Later hash rows rows'
        → Later hash rows (consume p now value rows').0

  Later-Spent :
      (time : ℕ) (hash : String) {rows rows' : List StateRecord}
      → Later hash rows rows'
      → All (λ r. is_live time hash r ≡ false) rows
      → All (λ r. is_live time hash r ≡ false) rows'
  unfolding create
  Later-Spent time hash here s = s
  Later-Spent time hash (issues {rows'} now db_now who context state l n) s =
      store_state-All (λ r. is_live time hash r ≡ false) _ db_now
        (record {
          state_hash = p.hash state;
          who = who;
          context = context;
          expires_at = now + ttl_ms;
          created_at = db_now;
        })
        state rows' (ground (arith, n, eq_iff (p.hash state) hash)) (Later-Spent time hash l s)
  Later-Spent time hash (consumes {rows'} now value l) s =
      consume-All (λ r. is_live time hash r ≡ false) p now value rows' (Later-Spent time hash l s)

  -- Once a state was presented, in whatever way that ended, it is not accepted at any later time,
  -- unless a state of the same hash is issued in between.
  pub consume_once :
      (now later : ℕ) (value : String) (rows rows' : List StateRecord)
      → Later (p.hash value) (consume p now value rows).0 rows'
      → now ≤ later
      → (consume p later value rows').1 ≡ none
  unfolding consume consume_state
  consume_once now later value rows rows' l h = elim (Bool-cases (is_state_value value)) [
    | inl fits ↦
        let first : (consume p now value rows).0 ≡ (consume_state now (p.hash value) rows).0 =
          (rw fits refl) in
        let spent = Later-Spent later (p.hash value) l (
          subst (λ left. All (λ r. is_live later (p.hash value) r ≡ false) left) (sym first)
            (select-Spent_later now later (p.hash value) rows h)) in
        rw fits (find_live-Spent later (p.hash value) rows' spent)
    | inr odd ↦ rw odd refl
  ]

  -- The table with the records that the service has issued, the newest first.
  pub data Reach : List StateRecord → List StateRecord → Type 0 where
    start : Reach [] []
    issues :
        {issued rows : List StateRecord} (now db_now : ℕ) (who : Identity) (context : Value)
        (state : String)
        → Reach issued rows
        → Reach
            (record {
              state_hash = p.hash state;
              who = who;
              context = context;
              expires_at = now + ttl_ms;
              created_at = db_now;
            }
              ∷ issued)
            (create p now db_now who context state rows).0
    consumes :
        {issued rows : List StateRecord} (now : ℕ) (value : String)
        → Reach issued rows
        → Reach issued (consume p now value rows).0

  abbrev Issued : List StateRecord → StateRecord → Type 0
  Issued issued r = Member r issued

  Reach-Issued : {issued rows : List StateRecord} → Reach issued rows → All (Issued issued) rows
  unfolding create
  Reach-Issued start = tt
  Reach-Issued (issues {issued} {rows} now db_now who context state l) =
      let new : StateRecord = record {
        state_hash = p.hash state;
        who = who;
        context = context;
        expires_at = now + ttl_ms;
        created_at = db_now;
      } in
      store_state-All (Issued (new ∷ issued)) _ db_now new state rows (inl refl)
        (All-imp (Issued issued) (Issued (new ∷ issued)) rows (λ r m. inr m) (Reach-Issued l))
  Reach-Issued (consumes {issued} {rows} now value l) =
      consume-All (Issued issued) p now value rows (Reach-Issued l)

  -- A state that is accepted was issued, with the same hash, to the user and with the context that it
  -- is accepted for, and its time has not run out.
  pub consume-Issued :
      (now : ℕ) (value : String) (issued rows : List StateRecord) (r : StateRecord)
      → Reach issued rows
      → (consume p now value rows).1 ≡ some r
      → Issued issued r × (r.state_hash ≡ p.hash value) × (now < r.expires_at)
  unfolding consume consume_state
  consume-Issued now value issued rows r l h = elim (Bool-cases (is_state_value value)) [
    | inl fits ↦ find_live-All (Issued issued) now (p.hash value) rows r (Reach-Issued l) (
        subst (λ b. (if b then consume_state now (p.hash value) rows else (rows, none)).1 ≡ some r)
          fits h)
    | inr odd ↦ ground (arith, h, odd)
  ]
