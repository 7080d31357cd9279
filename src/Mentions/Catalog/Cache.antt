-- ===== src/Mentions/Catalog/Cache.antt =====
-- shookie/src/slack/mention-groups/radar-client.ts: the cache only moves forward, holds valid catalogs,
-- and is not served when its time is over.
use Prim.Native.String.{len}
use shookie.Prelude.{
  ℕ, ◌+◌, ◌≤◌, ◌<◌, String, Bool, true, false, Option, none, some, List, ◌≡◌, ◌≢◌, refl, sym, ◌∙◌,
  subst, inl, inr, arith, Bool-cases, eq_iff, ltb, ◌==◌,
}
use shookie.Mentions.Parser.{Group, build_index}
use shookie.Mentions.Catalog.{
  join_or_send, serve_fresh, Catalog, Cached, Client, ClientError, Result, ok, throw, Response,
  fails, responds, Codec, served, is_valid_catalog, max_response_bytes, serve_or_refresh,
  get_catalog, catalog_fingerprint, etag_of, is_equivalent_tag, not_modified, check_revision,
  new_catalog, keep_catalog, take_catalog, take_shape, take_json, take_body, take_response,
  end_refresh, failure_of, unexpected_not_modified, invalid_not_modified_etag, response_too_large,
  invalid_json, invalid_schema, invalid_etag, http,
}

module _ (codec : Codec) where
  -- A cached catalog is valid, and what is kept with it was made from it.
  pub record IsSound (held : Cached) : Type 0 where
    pub valid : is_valid_catalog held.catalog.groups ≡ true
    pub etag : held.catalog.etag ≡ etag_of codec held.catalog.revision
    pub index : held.catalog.by_handle ≡ build_index held.catalog.groups
    pub fingerprint : held.fingerprint ≡ catalog_fingerprint codec held.catalog.groups

  abbrev pub Sound : Option Cached → Type 0
  Sound none = Unit
  Sound (some held) = IsSound held

  -- The cache is kept or renewed, never with an older revision, nor with other groups of the same one.
  abbrev pub Newer : Option Cached → Option Cached → Type 0
  Newer none later = Unit
  Newer (some held) none = ⊥
  Newer (some held) (some held') =
      (held.catalog.revision ≤ held'.catalog.revision)
      × (held.catalog.revision ≡ held'.catalog.revision → held.fingerprint ≡ held'.fingerprint)

  Newer-refl : (cached : Option Cached) → Newer cached cached
  Newer-refl none = tt
  Newer-refl (some held) = (omega arith, λ h. refl)

  Newer-trans : (a b c : Option Cached) → Newer a b → Newer b c → Newer a c
  Newer-trans none b c p q = tt
  Newer-trans (some x) none c p q = absurd p
  Newer-trans (some x) (some y) none p q = absurd q
  Newer-trans (some x) (some y) (some z) p q = (
    omega (arith, p.0, q.0),
    λ h. p.1 (omega (arith, p.0, q.0, h)) ∙ q.1 (omega (arith, p.0, q.0, h)),
  )

  -- What a refresh tells of the cache after it: the catalog that it gives, for the time to live from
  -- now on, or with an error no change.
  abbrev pub Told : ℕ → Client → Client → Result Catalog → Type 0
  Told now c c' (throw e) = c'.cached ≡ c.cached
  Told now c c' (ok catalog) =
      (held : Cached) × (c'.cached ≡ some held)
      × (held.catalog ≡ catalog)
      × (held.expires_at ≡ now + c.cache_ttl_ms)

  abbrev Good : ℕ → Client → Client × Result Catalog → Type 0
  Good now c r = Sound r.0.cached × Newer c.cached r.0.cached × Told now c r.0 r.1

  throw-Good : (now : ℕ) (c : Client) (e : ClientError) → Sound c.cached → Good now c (c, throw e)
  throw-Good now c e s = (s, Newer-refl c.cached, refl)

  not_modified-Good :
      (now : ℕ) (c : Client) (tag : Option String) (cached : Option Cached)
      → c.cached ≡ cached
      → Sound c.cached
      → Good now c (not_modified codec now c tag cached)
  not_modified-Good now c tag none e s = throw-Good now c unexpected_not_modified s
  not_modified-Good now c tag (some held) e s =
      elim (Bool-cases (is_equivalent_tag tag held.catalog.etag)) [
        | inr other ↦ rw other (throw-Good now c invalid_not_modified_etag s)
        | inl same ↦
            let kept : IsSound held = subst Sound e s in
            rw same (
              record {
                valid = kept.valid;
                etag = kept.etag;
                index = kept.index;
                fingerprint = kept.fingerprint;
              },
              subst (λ x. Newer x (some (record held { expires_at = now + c.cache_ttl_ms })))
                  (sym e) (omega arith, λ h. refl),
              (record held { expires_at = now + c.cache_ttl_ms }, refl, refl, refl),
            )
      ]

  check_revision-Newer :
      (now revision : ℕ) (groups : List Group) (fingerprint : String) (expires : ℕ)
      (cached : Option Cached)
      → check_revision codec revision fingerprint cached ≡ none
      → Newer cached (
          some (record {
            catalog = new_catalog codec revision groups;
            fingerprint = fingerprint;
            expires_at = expires;
          }))
  check_revision-Newer now revision groups fingerprint expires none h = tt
  check_revision-Newer now revision groups fingerprint expires (some held) h =
      (ground (arith, h), λ e. ground (arith, h, e, eq_iff fingerprint held.fingerprint))

  keep_catalog-Good :
      (now revision : ℕ) (groups : List Group) (c : Client) (refused : Option ClientError)
      → check_revision codec revision (catalog_fingerprint codec groups) c.cached ≡ refused
      → is_valid_catalog groups ≡ true
      → Sound c.cached
      → Good now c (keep_catalog codec now revision groups c refused)
  keep_catalog-Good now revision groups c (some e) r v s = throw-Good now c e s
  keep_catalog-Good now revision groups c none r v s = (
    record { valid = v; etag = refl; index = refl; fingerprint = refl },
    check_revision-Newer now revision groups (catalog_fingerprint codec groups)
        (now + c.cache_ttl_ms) c.cached r,
    (_, refl, refl, refl),
  )

  take_catalog-Good :
      (now : ℕ) (tag : Option String) (revision : ℕ) (groups : List Group) (c : Client)
      → is_valid_catalog groups ≡ true
      → Sound c.cached
      → Good now c (take_catalog codec now tag revision groups c)
  take_catalog-Good now tag revision groups c v s =
      elim (Bool-cases (is_equivalent_tag tag (etag_of codec revision))) [
        | inl same ↦ rw same (
            keep_catalog-Good now revision groups c
              (check_revision codec revision (catalog_fingerprint codec groups) c.cached) refl v s)
        | inr other ↦ rw other (throw-Good now c invalid_etag s)
      ]

  take_shape-Good :
      (now : ℕ) (tag : Option String) (c : Client) (shape : Option (ℕ × List Group))
      → Sound c.cached
      → Good now c (take_shape codec now tag c shape)
  take_shape-Good now tag c none s = throw-Good now c invalid_schema s
  take_shape-Good now tag c (some (revision, groups)) s =
      elim (Bool-cases (is_valid_catalog groups)) [
        | inl valid ↦ rw valid (take_catalog-Good now tag revision groups c valid s)
        | inr odd ↦ rw odd (throw-Good now c invalid_schema s)
      ]

  take_json-Good :
      (now : ℕ) (tag : Option String) (c : Client) (raw : Option String)
      → Sound c.cached
      → Good now c (take_json codec now tag c raw)
  take_json-Good now tag c none s = throw-Good now c invalid_json s
  take_json-Good now tag c (some raw) s = take_shape-Good now tag c (codec.parse_shape raw) s

  take_body-Good :
      (now : ℕ) (tag : Option String) (c : Client) (body : Result String)
      → Sound c.cached
      → Good now c (take_body codec now tag c body)
  take_body-Good now tag c (throw e) s = throw-Good now c e s
  take_body-Good now tag c (ok body) s = elim (Bool-cases (ltb max_response_bytes (len body))) [
    | inl long ↦ rw long (throw-Good now c response_too_large s)
    | inr short ↦ rw short (take_json-Good now tag c (codec.parse_json body) s)
  ]

  take_response-Good :
      (now : ℕ) (response : Response) (c : Client)
      → Sound c.cached
      → Good now c (take_response codec now response c)
  take_response-Good now (fails timed_out) c s = throw-Good now c (failure_of timed_out) s
  take_response-Good now (responds status tag body) c s = elim (Bool-cases (status == 304)) [
    | inl kept ↦ rw kept (not_modified-Good now c tag c.cached refl s)
    | inr sent ↦ rw sent (elim (Bool-cases (status == 200)) [
      | inl fine ↦ rw fine (take_body-Good now tag c body s)
      | inr bad ↦ rw bad (throw-Good now c (http status) s)
    ])
  ]

  Told-refreshing :
      (now : ℕ) (c c' : Client) (result : Result Catalog)
      → Told now c c' result
      → Told now c (record c' { refreshing = false }) result
  Told-refreshing now c c' (ok catalog) t = t
  Told-refreshing now c c' (throw e) t = t

  -- Whatever Radar answers, the cache stays sound and does not go back to an older revision or to other
  -- groups of the same one; a refresh that fails leaves it as it was, and the catalog of one that
  -- succeeds is cached for the time to live.
  pub end_refresh-Good :
      (now : ℕ) (response : Response) (c : Client)
      → Sound c.cached
      → Sound (end_refresh codec now response c).0.cached
        × Newer c.cached (end_refresh codec now response c).0.cached
        × Told now c (end_refresh codec now response c).0 (end_refresh codec now response c).1
  unfolding end_refresh
  end_refresh-Good now response c s =
      let (sound, newer, told) = take_response-Good now response c s in
      let (c', result) = take_response codec now response c in
      (sound, newer, Told-refreshing now c c' result told)

  -- The calls of one client, each with its time; a refresh that was sent ends once.
  pub data Later (c : Client) : Client → Type 0 where
    here : Later c c
    asks : {c' : Client} (now : ℕ) → Later c c' → Later c (get_catalog now c').0
    ends :
        {c' : Client} (now : ℕ) (response : Response)
        → c'.refreshing ≡ true
        → Later c c'
        → Later c (end_refresh codec now response c').0

  join_or_send-cached : (b : Bool) (c : Client) → (join_or_send b c).0.cached ≡ c.cached
  join_or_send-cached true c = refl
  join_or_send-cached false c = refl

  serve_or_refresh-cached :
      (now : ℕ) (c : Client) (cached : Option Cached)
      → (serve_or_refresh now c cached).0.cached ≡ c.cached
  serve_or_refresh-cached now c none = join_or_send-cached c.refreshing c
  serve_or_refresh-cached now c (some held) = elim (Bool-cases (ltb now held.expires_at)) [
    | inl fresh ↦ rw fresh refl
    | inr stale ↦ rw stale (join_or_send-cached c.refreshing c)
  ]

  join_or_send_served :
      (b : Bool) (c : Client) (catalog : Catalog) → (join_or_send b c).1 ≢ served catalog
  join_or_send_served true c catalog h = cc
  join_or_send_served false c catalog h = cc

  serve_fresh-served :
      (fresh : Bool) (c : Client) (held : Cached) (catalog : Catalog)
      → (serve_fresh fresh c held).1 ≡ served catalog
      → (fresh ≡ true) × (held.catalog ≡ catalog)
  serve_fresh-served true c held catalog h = (refl, cc)
  serve_fresh-served false c held catalog h = absurd (join_or_send_served c.refreshing c catalog h)

  serve_or_refresh-served :
      (now : ℕ) (c : Client) (cached : Option Cached) (catalog : Catalog)
      → (serve_or_refresh now c cached).1 ≡ served catalog
      → (held : Cached) × (cached ≡ some held) × (held.catalog ≡ catalog) × (now < held.expires_at)
  serve_or_refresh-served now c none catalog h =
      absurd (join_or_send_served c.refreshing c catalog h)
  serve_or_refresh-served now c (some held) catalog h =
      let (fresh, same) = serve_fresh-served (ltb now held.expires_at) c held catalog h in
      (held, refl, same, ground (arith, fresh))

  Later-Good :
      {c c' : Client} → Later c c' → Sound c.cached → Sound c'.cached × Newer c.cached c'.cached
  unfolding get_catalog
  Later-Good {c} here s = (s, Newer-refl c.cached)
  Later-Good {c} (asks {c'} now l) s =
      subst (λ x. Sound x × Newer c.cached x) (sym (serve_or_refresh-cached now c' c'.cached))
        (Later-Good l s)
  Later-Good {c} (ends {c'} now response r l) s =
      let (sound, newer) = Later-Good l s in
      let after = end_refresh-Good now response c' sound in
      (
        after.0,
        Newer-trans c.cached c'.cached (end_refresh codec now response c').0.cached newer after.1,
      )

  -- In every order of calls and answers, a catalog that is served without a request is the one in the
  -- cache, whose time to live has not run out; it is valid and indexed, and it is not older than what
  -- was cached before, nor other groups of that revision.
  pub served-Sound :
      (now : ℕ) (c c' : Client) (before : Cached) (catalog : Catalog)
      → Later c c'
      → c.cached ≡ some before
      → IsSound before
      → (get_catalog now c').1 ≡ served catalog
      → (held : Cached) × (c'.cached ≡ some held)
        × (held.catalog ≡ catalog)
        × (now < held.expires_at)
        × IsSound held
        × Newer (some before) (some held)
  unfolding get_catalog
  served-Sound now c c' before catalog l e s h =
      let (sound, newer) = Later-Good l (subst Sound (sym e) s) in
      let (held, found, same, fresh) = serve_or_refresh-served now c' c'.cached catalog h in
      (
        held,
        found,
        same,
        fresh,
        subst Sound found sound,
        subst (λ x. Newer x (some held)) e (subst (Newer c.cached) found newer),
      )
