-- ===== src/Mentions/Catalog.antt =====
-- shookie/src/slack/mention-groups/radar-client.ts: `RadarMentionGroupsClient`, which keeps Radar's
-- catalog for a while. A refresh is split where it awaits Radar's answer; at most one is in flight, so
-- that nothing else changes the cache meanwhile. Diagnostics and logs are left out.
pub mod Cache
pub mod Names
use Prim.Native.String.{len, ◌++◌ as text_append}
use shookie.Prelude.{
  ℕ, ◌+◌, String, Bool, true, false, not, Option, none, some, List, [], ◌∷◌, ◌++◌, ltb, ◌==◌, ◌&&◌,
  ◌||◌, str_eq, map, is_some, if◌then◌else◌,
}
use shookie.Prelude.Maps.{lookup, insert}
use shookie.Mentions.Parser.{Group, has, build_index}

abbrev pub max_response_bytes : ℕ
max_response_bytes = 1048576

abbrev pub no_duplicates : List String → Bool
no_duplicates [] = true
no_duplicates (x ∷ xs) = not (has x xs) && no_duplicates xs

-- The refinement of `groupSchema`.
unfoldable pub is_valid_group : Group → Bool
is_valid_group g = no_duplicates (g.handle ∷ g.aliases) && no_duplicates g.member_user_ids

-- `owner && owner !== group.id`
abbrev pub collides : String → Option String → Bool
collides id none = false
collides id (some owner) = not (str_eq owner "") && not (str_eq owner id)

-- The loop over the handles of a group: no collision, and the owners after it.
abbrev pub own_handles :
    String → List String → List (String × String) → Bool × List (String × String)
own_handles id [] owners = (true, owners)
own_handles id (handle ∷ handles) owners =
    let rest = own_handles id handles (insert handle id owners) in
    (not (collides id (lookup handle owners)) && rest.0, rest.1)

abbrev pub have_owners : List Group → List (String × String) → Bool
have_owners [] owners = true
have_owners (g ∷ groups) owners =
    let (free, owners') = own_handles g.id (g.handle ∷ g.aliases) owners in
    free && have_owners groups owners'

abbrev pub id_of : Group → String
id_of g = g.id

abbrev pub all_valid : List Group → Bool
all_valid [] = true
all_valid (g ∷ groups) = is_valid_group g && all_valid groups

-- The refinements of `catalogSchema`.
unfoldable pub is_valid_catalog : List Group → Bool
is_valid_catalog groups =
    all_valid groups && no_duplicates (map id_of groups) && have_owners groups []

pub record Catalog : Type 0 where
  pub revision : ℕ
  pub etag : String
  pub groups : List Group
  pub by_handle : List (String × Group)

pub record Cached : Type 0 where
  pub catalog : Catalog
  pub fingerprint : String
  pub expires_at : ℕ

pub record Client : Type 0 where
  pub cached : Option Cached
  pub refreshing : Bool
  pub cache_ttl_ms : ℕ

pub data ClientError : Type 0 where
  timeout network_error unexpected_not_modified invalid_not_modified_etag response_too_large
        invalid_json invalid_schema invalid_etag revision_rollback revision_content_mismatch :
      ClientError
  http : ℕ → ClientError

pub data Result {ℓ} (A : Type ℓ) : Type ℓ where
  ok : A → Result A
  throw : ClientError → Result A

-- What `fetch` gives: an error, with whether the timeout has passed, or an answer whose body may fail.
pub data Response : Type 0 where
  fails : Bool → Response
  responds : ℕ → Option String → Result String → Response

-- JSON and the shape of the schema, digits, and the sorting and printing behind the fingerprint.
pub record Codec : Type 0 where
  pub parse_json : String → Option String
  pub parse_shape : String → Option (ℕ × List Group)
  pub digits : ℕ → String
  pub sort_texts : List String → List String
  pub sort_groups : List Group → List Group
  pub stringify : List Group → String

abbrev pub failure_of : Bool → ClientError
failure_of true = timeout
failure_of false = network_error

-- `isEquivalentEntityTag`
unfoldable pub is_equivalent_tag : Option String → String → Bool
is_equivalent_tag none expected = false
is_equivalent_tag (some actual) expected =
    str_eq actual expected || str_eq actual (text_append "W/" expected)

-- How `getCatalog` begins.
pub data Begun : Type 0 where
  served : Catalog → Begun
  joined sent : Begun

abbrev pub join_or_send : Bool → Client → Client × Begun
join_or_send true c = (c, joined)
join_or_send false c = (record c { refreshing = true }, sent)

abbrev pub serve_fresh : Bool → Client → Cached → Client × Begun
serve_fresh true c held = (c, served held.catalog)
serve_fresh false c held = join_or_send c.refreshing c

abbrev pub serve_or_refresh : ℕ → Client → Option Cached → Client × Begun
serve_or_refresh now c none = join_or_send c.refreshing c
serve_or_refresh now c (some held) = serve_fresh (ltb now held.expires_at) c held

-- `getCatalog`, up to the request or the refresh that it joins
unfoldable pub get_catalog : ℕ → Client → Client × Begun
get_catalog now c = serve_or_refresh now c c.cached

module _ (codec : Codec) where
  abbrev sorted_group : Group → Group
  sorted_group g = record g {
    aliases = codec.sort_texts g.aliases;
    member_user_ids = codec.sort_texts g.member_user_ids;
  }

  -- `catalogFingerprint`
  unfoldable pub catalog_fingerprint : List Group → String
  catalog_fingerprint groups = codec.stringify (codec.sort_groups (map sorted_group groups))

  unfoldable pub etag_of : ℕ → String
  etag_of revision = text_append "\"mention-groups-" (text_append (codec.digits revision) "\"")

  abbrev pub not_modified : ℕ → Client → Option String → Option Cached → Client × Result Catalog
  not_modified now c tag none = (c, throw unexpected_not_modified)
  not_modified now c tag (some held) =
      if is_equivalent_tag tag held.catalog.etag
      then (
        record c { cached = some (record held { expires_at = now + c.cache_ttl_ms }) },
        ok held.catalog,
      )
      else (c, throw invalid_not_modified_etag)

  -- The checks against what is cached.
  abbrev pub check_revision : ℕ → String → Option Cached → Option ClientError
  check_revision revision fingerprint none = none
  check_revision revision fingerprint (some held) =
      if ltb revision held.catalog.revision
      then some revision_rollback
      else if revision == held.catalog.revision && not (str_eq fingerprint held.fingerprint)
      then some revision_content_mismatch
      else none

  abbrev pub new_catalog : ℕ → List Group → Catalog
  new_catalog revision groups = record {
    revision = revision;
    etag = etag_of revision;
    groups = groups;
    by_handle = build_index groups;
  }

  abbrev keep_catalog : ℕ → ℕ → List Group → Client → Option ClientError → Client × Result Catalog
  keep_catalog now revision groups c (some e) = (c, throw e)
  keep_catalog now revision groups c none = (
    record c {
      cached = some (record {
        catalog = new_catalog revision groups;
        fingerprint = catalog_fingerprint groups;
        expires_at = now + c.cache_ttl_ms;
      });
    },
    ok (new_catalog revision groups),
  )

  abbrev take_catalog : ℕ → Option String → ℕ → List Group → Client → Client × Result Catalog
  take_catalog now tag revision groups c =
      if is_equivalent_tag tag (etag_of revision)
      then keep_catalog now revision groups c
          (check_revision revision (catalog_fingerprint groups) c.cached)
      else (c, throw invalid_etag)

  abbrev take_shape : ℕ → Option String → Client → Option (ℕ × List Group) → Client × Result Catalog
  take_shape now tag c none = (c, throw invalid_schema)
  take_shape now tag c (some (revision, groups)) =
      if is_valid_catalog groups
      then take_catalog now tag revision groups c
      else (c, throw invalid_schema)

  abbrev take_json : ℕ → Option String → Client → Option String → Client × Result Catalog
  take_json now tag c none = (c, throw invalid_json)
  take_json now tag c (some raw) = take_shape now tag c (codec.parse_shape raw)

  abbrev take_body : ℕ → Option String → Client → Result String → Client × Result Catalog
  take_body now tag c (throw e) = (c, throw e)
  take_body now tag c (ok body) =
      if ltb max_response_bytes (len body)
      then (c, throw response_too_large)
      else take_json now tag c (codec.parse_json body)

  abbrev take_response : ℕ → Response → Client → Client × Result Catalog
  take_response now (fails timed_out) c = (c, throw (failure_of timed_out))
  take_response now (responds status tag body) c =
      if status == 304
      then not_modified now c tag c.cached
      else if status == 200
      then take_body now tag c body
      else (c, throw (http status))

  -- The rest of `refresh`, when Radar has answered, at the time of the cache's clock; with `finally`.
  unfoldable pub end_refresh : ℕ → Response → Client → Client × Result Catalog
  end_refresh now response c =
      let (c', result) = take_response now response c in (record c' { refreshing = false }, result)
