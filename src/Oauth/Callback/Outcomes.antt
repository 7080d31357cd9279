-- ===== src/Oauth/Callback/Outcomes.antt =====
-- shookie/src/slack/user-oauth/controller.ts: what a callback leaves behind.
use shookie.Prelude.{
  ℕ, String, Bool, true, false, Option, none, some, List, [], ◌∷◌, ◌++◌, ◌≡◌, ◌≢◌, ◌⊎◌, refl, sym,
  ◌∙◌, subst, inl, inr, arith, ap, Option-cases, str_eq, eq_iff, if◌then◌else◌,
}
use shookie.Oauth.Tokens.{
  TokenError, unacknowledged, World, State, arrive, live_token, has_only_required_scope,
}
use shookie.Oauth.Tokens.Grants.{Grant, granted_token, save_grant}
use shookie.Oauth.Tokens.Saved.{save_grant_lem, Failed}
use shookie.Oauth.States.{StateRecord, Platform, consume}
use shookie.Oauth.Callback.{
  Callback, Outside, Site, Answer, answered, authorized, thrown, discard_grant, end_saved,
  follow_up, take_grant, with_exchange, with_state, process_callback, catch_callback,
  handle_callback, is_same_identity, is_refused, with_query, with_value,
}

abbrev pub is_authorized : Answer → Bool
is_authorized (authorized told) = true
is_authorized _ = false

-- A token, if there is one.
abbrev pub given_tokens : Option String → List String
given_tokens none = []
given_tokens (some t) = if str_eq t "" then [] else t ∷ []

discard_grant_remote :
    (g : Grant) (s : State)
    → (discard_grant g s).remote
      ≡ given_tokens g.refresh_token ++ given_tokens (some g.access_token) ++ s.remote
discard_grant_remote g s = elim (Option-cases g.refresh_token) [
  | inl absent ↦ rw absent (ground arith)
  | inr (token, found) ↦ rw found (ground arith)
]

discard_grant_table : (g : Grant) (s : State) → (discard_grant g s).table ≡ s.table
discard_grant_table g s = elim (Option-cases g.refresh_token) [
  | inl absent ↦ rw absent (ground arith)
  | inr (token, found) ↦ rw found (ground arith)
]

module _ (p : Platform) (w : World) (o : Outside) where
  -- The tokens before and after a callback that reports success for the state that it consumed: `saved`
  -- is what the follow-up finds.
  pub record Saved (r : StateRecord) (code : String) (before after : State) : Type 0 where
    pub grant : Grant
    pub saved : State
    pub exchanged : o.exchange_code code ≡ some grant
    pub same : (grant.who.team_id ≡ r.who.team_id) × (grant.who.user_id ≡ r.who.user_id)
    pub scoped : has_only_required_scope grant.scopes ≡ true
    pub stored : live_token grant.who saved ≡ some (granted_token w grant before.accesses)
    pub alone : o.on_authorized ≡ none → after ≡ saved
    pub followed :
        (act : StateRecord → State → State × Bool)
        → o.on_authorized ≡ some act
        → after ≡ (act r saved).0

  end_saved-authorized :
      (r : StateRecord) (g : Grant) (result : State × Option TokenError)
      → is_authorized (end_saved o r g result).1 ≡ true
      → (result.1 ≡ none) × ((end_saved o r g result).0 ≡ (follow_up o.on_authorized r result.0).0)
  end_saved-authorized r g (s, none) h = (refl, refl)
  end_saved-authorized r g (s, some e) h = cc

  take_grant-Saved :
      (same : Bool) (r : StateRecord) (code : String) (g : Grant) (s : State)
      → is_same_identity g.who r.who ≡ same
      → o.exchange_code code ≡ some g
      → is_authorized (take_grant p w o same r g s).1 ≡ true
      → Saved r code s (take_grant p w o same r g s).0
  take_grant-Saved false r code g s i e h = cc
  take_grant-Saved true r code g s i e h =
      let (done, kept) = end_saved-authorized r g (save_grant p.trim p.units w g s) h in
      let stored = (save_grant_lem p.trim p.units w g s).0 done in
      let saved = (save_grant p.trim p.units w g s).0 in
      record {
        grant = g;
        saved = saved;
        exchanged = e;
        same = (
          ground (arith, i, eq_iff g.who.team_id r.who.team_id),
          ground (arith, i, eq_iff g.who.user_id r.who.user_id),
        );
        scoped = stored.scoped;
        stored = stored.found;
        alone = λ n. kept ∙ ap (λ x. (follow_up x r saved).0) n;
        followed = λ act n. kept ∙ ap (λ x. (follow_up x r saved).0) n;
      }

  with_exchange-Saved :
      (r : StateRecord) (code : String) (found : Option Grant) (s : State)
      → o.exchange_code code ≡ found
      → is_authorized (with_exchange p w o r found s).1 ≡ true
      → Saved r code s (with_exchange p w o r found s).0
  with_exchange-Saved r code none s e h = cc
  with_exchange-Saved r code (some g) s e h =
      take_grant-Saved (is_same_identity g.who r.who) r code g s refl e h

  with_query-Saved :
      (refused : Bool) (r : StateRecord) (code : String) (s : State)
      → is_authorized (with_query p w o refused r code s).1 ≡ true
      → Saved r code s (with_query p w o refused r code s).0
  with_query-Saved true r code s h = cc
  with_query-Saved false r code s h = with_exchange-Saved r code (o.exchange_code code) s refl h

  with_state-Saved :
      (c : Callback) (found : Option StateRecord) (s : State)
      → is_authorized (with_state p w o c found s).1 ≡ true
      → (r : StateRecord) × (found ≡ some r) × Saved r c.code s (with_state p w o c found s).0
  with_state-Saved c none s h = cc
  with_state-Saved c (some r) s h = (r, refl, with_query-Saved (is_refused c) r c.code s h)

  catch_callback-authorized :
      (r : Site × Answer)
      → is_authorized (catch_callback p w o r).1 ≡ true
      → (is_authorized r.1 ≡ true) × ((catch_callback p w o r).0 ≡ r.0)
  catch_callback-authorized (site, answered n) h = cc
  catch_callback-authorized (site, authorized told) h = (refl, refl)
  catch_callback-authorized (site, thrown) h = cc

  with_value-Saved :
      (empty : Bool) (now : ℕ) (c : Callback) (site : Site)
      → is_authorized (with_value p w o empty now c site).1 ≡ true
      → (r : StateRecord) × ((consume p now c.state site.states).1 ≡ some r)
        × Saved r c.code site.tokens (with_value p w o empty now c site).0.tokens
  with_value-Saved true now c site h = cc
  with_value-Saved false now c site h =
      with_state-Saved c (consume p now c.state site.states).1 site.tokens h

  -- A callback that reports success has consumed a live state, the code was exchanged for a grant of the
  -- user for whom that state was issued, with just the required scope, and the grant's tokens were stored
  -- when the follow-up of the application began; without a follow-up they are stored in the end, and
  -- with one the end is what the follow-up makes of them.
  pub handle_callback-Saved :
      (now : ℕ) (c : Callback) (site : Site)
      → is_authorized (handle_callback p w o now c site).1 ≡ true
      → (r : StateRecord) × ((consume p now c.state site.states).1 ≡ some r)
        × Saved r c.code site.tokens (handle_callback p w o now c site).0.tokens
  unfolding handle_callback
  handle_callback-Saved now c site h =
      let (told, kept) = catch_callback-authorized (process_callback p w o now c site) h in
      let (r, found, saved) = with_value-Saved (str_eq c.state "") now c site told in
      (r, found, subst (λ x. Saved r c.code site.tokens x.tokens) (sym kept) saved)

  -- The grant's tokens were handed to Slack, and the table is as it was or as others have left it, unless
  -- a write that threw had been committed.
  abbrev Discarded : Grant → State → State → Type 0
  Discarded g before after =
      (after.remote
        ≡ given_tokens g.refresh_token ++ given_tokens (some g.access_token) ++ before.remote)
      × (w.writes before.accesses ≢ unacknowledged
          → (after.table ≡ before.table) ⊎ (after.table ≡ (arrive w before).table))

  Discarded-discard_grant :
      (g : Grant) (before s : State) → Failed w g before s → Discarded g before (discard_grant g s)
  Discarded-discard_grant g before s (remote, table) = (
    discard_grant_remote g s
        ∙ ap (λ x. given_tokens g.refresh_token ++ given_tokens (some g.access_token) ++ x) remote,
    λ n.
        subst (λ x. (x ≡ before.table) ⊎ (x ≡ (arrive w before).table))
          (sym (discard_grant_table g s)) (table n),
  )

  end_saved-Discarded :
      (r : StateRecord) (g : Grant) (s : State) (result : State × Option TokenError)
      → (result.1 ≢ none → Failed w g s result.0)
      → is_authorized (end_saved o r g result).1 ≡ false
      → Discarded g s (end_saved o r g result).0
  end_saved-Discarded r g s (s', none) k h = cc
  end_saved-Discarded r g s (s', some e) k h = Discarded-discard_grant g s s' (k (λ absent. cc))

  take_grant-Discarded :
      (same : Bool) (r : StateRecord) (g : Grant) (s : State)
      → is_authorized (take_grant p w o same r g s).1 ≡ false
      → Discarded g s (take_grant p w o same r g s).0
  take_grant-Discarded false r g s h = Discarded-discard_grant g s s (refl, λ n. inl refl)
  take_grant-Discarded true r g s h =
      end_saved-Discarded r g s (save_grant p.trim p.units w g s)
        (save_grant_lem p.trim p.units w g s).1 h

  with_exchange-Discarded :
      (r : StateRecord) (found : Option Grant) (g : Grant) (s : State)
      → found ≡ some g
      → is_authorized (with_exchange p w o r found s).1 ≡ false
      → Discarded g s (with_exchange p w o r found s).0
  with_exchange-Discarded r none g s e h = cc
  with_exchange-Discarded r (some g') g s e h =
      let same : g' ≡ g = cc in
      subst (λ x. Discarded x s (with_exchange p w o r (some g') s).0) same
        (take_grant-Discarded (is_same_identity g'.who r.who) r g' s h)

  with_state-Discarded :
      (c : Callback) (found : Option StateRecord) (r : StateRecord) (g : Grant) (s : State)
      → found ≡ some r
      → is_refused c ≡ false
      → o.exchange_code c.code ≡ some g
      → is_authorized (with_state p w o c found s).1 ≡ false
      → Discarded g s (with_state p w o c found s).0
  with_state-Discarded c none r g s f n e h = cc
  with_state-Discarded c (some q) r g s f n e h =
      let opened : with_state p w o c (some q) s
          ≡ with_exchange p w o q (o.exchange_code c.code) s =
        (rw n refl) in
      subst (λ x. Discarded g s x.0) (sym opened)
        (with_exchange-Discarded q (o.exchange_code c.code) g s e
          (sym (ap (λ x. is_authorized x.1) opened) ∙ h))

  catch_callback-tokens : (r : Site × Answer) → (catch_callback p w o r).0 ≡ r.0
  catch_callback-tokens (site, answered n) = refl
  catch_callback-tokens (site, authorized told) = refl
  catch_callback-tokens (site, thrown) = refl

  catch_callback-refused :
      (r : Site × Answer)
      → is_authorized (catch_callback p w o r).1 ≡ false
      → is_authorized r.1 ≡ false
  catch_callback-refused (site, answered n) h = refl
  catch_callback-refused (site, authorized told) h = cc
  catch_callback-refused (site, thrown) h = refl

  with_value-Discarded :
      (empty : Bool) (now : ℕ) (c : Callback) (site : Site) (r : StateRecord) (g : Grant)
      → empty ≡ false
      → (consume p now c.state site.states).1 ≡ some r
      → is_refused c ≡ false
      → o.exchange_code c.code ≡ some g
      → is_authorized (with_value p w o empty now c site).1 ≡ false
      → Discarded g site.tokens (with_value p w o empty now c site).0.tokens
  with_value-Discarded true now c site r g x f n e h = cc
  with_value-Discarded false now c site r g x f n e h =
      with_state-Discarded c (consume p now c.state site.states).1 r g site.tokens f n e h

  -- If a grant was obtained in a callback which does not report success, its access token and then its
  -- refresh token, as far as there are such, are handed back to Slack and nothing else is; the table of
  -- tokens stays as it was, or as others have left it, unless the write of the grant was committed
  -- although its call threw.
  pub handle_callback-discarded :
      (now : ℕ) (c : Callback) (site : Site) (r : StateRecord) (g : Grant)
      → str_eq c.state "" ≡ false
      → (consume p now c.state site.states).1 ≡ some r
      → is_refused c ≡ false
      → o.exchange_code c.code ≡ some g
      → is_authorized (handle_callback p w o now c site).1 ≡ false
      → let after = (handle_callback p w o now c site).0.tokens in
        (after.remote
          ≡ given_tokens g.refresh_token
            ++ given_tokens (some g.access_token)
            ++ site.tokens.remote)
        × (w.writes site.tokens.accesses ≢ unacknowledged
            → (after.table ≡ site.tokens.table) ⊎ (after.table ≡ (arrive w site.tokens).table))
  unfolding handle_callback
  handle_callback-discarded now c site r g x f n e h =
      let done = process_callback p w o now c site in
      subst (λ x. Discarded g site.tokens x.tokens) (sym (catch_callback-tokens done))
        (with_value-Discarded (str_eq c.state "") now c site r g x f n e
          (catch_callback-refused done h))
