-- ===== src/Examples/Catalogs.antt =====
-- A catalog of two groups, and a client that refreshes it.
use shookie.Prelude.{◌≡◌, ◌<◌, false, some, List, [], ◌∷◌, refl, inl}
use shookie.Prelude.Maps.{lookup, insert}
use shookie.Mentions.Parser.{Group, build_index}
use shookie.Mentions.Catalog.{
  Cached, Client, ok, responds, Codec, served, is_valid_catalog, is_valid_group,
  catalog_fingerprint, new_catalog, get_catalog, end_refresh,
}
use shookie.Mentions.Catalog.Cache.{
  Newer, Sound, Told, IsSound, Later, end_refresh-Good, served-Sound,
}
use shookie.Mentions.Catalog.Names.{lookup-build_index}

abbrev dev : Group
dev = record {
  id = "g-1";
  handle = "dev";
  aliases = "developers" ∷ [];
  member_user_ids = "U2" ∷ [];
}

abbrev ops : Group
ops = record { id = "g-2"; handle = "ops"; aliases = []; member_user_ids = [] }

abbrev both : List Group
both = dev ∷ ops ∷ []

abbrev codec : Codec
codec = record {
  parse_json = (λ body. some body);
  parse_shape = (λ raw. some (3, both));
  digits = (λ n. "3");
  sort_texts = (λ texts. texts);
  sort_groups = (λ groups. groups);
  stringify = (λ groups. "groups");
}

abbrev held_catalog : Cached
held_catalog = record {
  catalog = new_catalog codec 3 both;
  fingerprint = catalog_fingerprint codec both;
  expires_at = 1000;
}

held_catalog-IsSound : IsSound codec held_catalog
unfolding is_valid_catalog is_valid_group lookup insert
held_catalog-IsSound = record { valid = refl; etag = refl; index = refl; fingerprint = refl }

abbrev client : Client
client = record { cached = some held_catalog; refreshing = false; cache_ttl_ms = 60000 }

lookup-build_index_example : lookup "developers" (build_index both) ≡ some dev
unfolding is_valid_catalog is_valid_group lookup insert
lookup-build_index_example =
    lookup-build_index "developers" dev both refl (refl, (refl, tt)) (inl refl) refl

end_refresh-Good_example :
    Sound codec
      (end_refresh codec 2000
        (responds 200 (some "\"mention-groups-3\"") (ok "{}"))
        client).0.cached
    × Newer codec client.cached
        (end_refresh codec 2000
          (responds 200 (some "\"mention-groups-3\"") (ok "{}"))
          client).0.cached
    × Told codec 2000 client
        (end_refresh codec 2000 (responds 200 (some "\"mention-groups-3\"") (ok "{}")) client).0
        (end_refresh codec 2000 (responds 200 (some "\"mention-groups-3\"") (ok "{}")) client).1
end_refresh-Good_example =
    end_refresh-Good codec 2000 (responds 200 (some "\"mention-groups-3\"") (ok "{}")) client
      held_catalog-IsSound

is_served : (get_catalog 500 client).1 ≡ served held_catalog.catalog
unfolding get_catalog
is_served = refl

served-Sound_example :
    (held : Cached) × (client.cached ≡ some held)
    × (held.catalog ≡ held_catalog.catalog)
    × (500 < held.expires_at)
    × IsSound codec held
    × Newer codec (some held_catalog) (some held)
served-Sound_example =
    served-Sound codec 500 client client held_catalog held_catalog.catalog Later.here refl
      held_catalog-IsSound is_served
