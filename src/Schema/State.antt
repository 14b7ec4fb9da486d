-- ===== src/Schema/State.antt =====
-- The three managers of the schema and the database that they share. The managers are singletons of the
-- process, written by the state machine's thread alone: an operation is a step on the state.
use ea.Common.{◌≡◌, refl, ℕ, none, some, List, [], ◌∷◌, nat_eq, bytes, get_or}
use ea.Common.Bytes.{Bytes, bytes_eq}
use ea.Common.Eq.{KeyEq}
use ea.Common.Maps.{Map, find, assign, erase}
use ea.Common.Sets.{insert, remove}
use ea.Common.Words.{int64_bytes}
use ea.Api.{NameSpaceInfo, ZoneInfo, ServletInfo}
use ea.Rocks.{Rocks, Codec}
use ea.Schema.{make_zone_key, make_servlet_key}

pub record NamespaceManager : Type 0 where
  pub max_namespace_id : ℕ
  pub namespace_id_map : Map Bytes ℕ
  pub namespace_info_map : Map ℕ NameSpaceInfo
  pub zone_ids : Map ℕ (List ℕ)

pub record ZoneManager : Type 0 where
  pub max_zone_id : ℕ
  pub zone_id_map : Map Bytes ℕ
  pub zone_info_map : Map ℕ ZoneInfo
  pub servlet_ids : Map ℕ (List ℕ)

pub record ServletManager : Type 0 where
  pub max_servlet_id : ℕ
  pub servlet_id_map : Map Bytes ℕ
  pub servlet_info_map : Map ℕ ServletInfo

pub record SchemaState (rocks : Rocks) : Type 0 where
  pub namespaces : NamespaceManager
  pub zones : ZoneManager
  pub servlets : ServletManager
  pub db : rocks.Db

pub record Codecs : Type 0 where
  pub namespace_codec : Codec NameSpaceInfo
  pub zone_codec : Codec ZoneInfo
  pub servlet_codec : Codec ServletInfo

-- The value behind m[k]: the map's, or a fresh one.
unfoldable pub value_at : {V : Type 0} → Map ℕ V → ℕ → V → V
value_at m k fresh = get_or (find m k) fresh

-- What m[k] leaves of the map: a key that was missing has a fresh value.
unfoldable pub touch : {K V : Type 0} ⦃keys : KeyEq K⦄ → Map K V → K → V → Map K V
touch m k fresh = elim (find m k) [ none ↦ assign m k fresh | some v ↦ m ]

-- m[k].insert(id)
unfoldable pub add_id : Map ℕ (List ℕ) → ℕ → ℕ → Map ℕ (List ℕ)
unfolding value_at
add_id m k id = assign m k (insert (value_at m k []) id)

-- if (m.find(k) != m.end()) m[k].erase(id)
unfoldable pub delete_id : Map ℕ (List ℕ) → ℕ → ℕ → Map ℕ (List ℕ)
delete_id m k id = elim (find m k) [ none ↦ m | some s ↦ assign m k (remove s id) ]

-- get_namespace_id, get_zone_id and get_servlet_id
unfoldable pub id_or_zero : Map Bytes ℕ → Bytes → ℕ
id_or_zero m name = get_or (find m name) 0

unfoldable pub set_namespace_info : NamespaceManager → NameSpaceInfo → NamespaceManager
set_namespace_info m info = record m {
  namespace_id_map = assign m.namespace_id_map info.namespace_name info.namespace_id;
  namespace_info_map = assign m.namespace_info_map info.namespace_id info;
}

-- the name is there wherever it is called
unfoldable pub erase_namespace_info : NamespaceManager → Bytes → NamespaceManager
unfolding id_or_zero
erase_namespace_info m name =
    let id = id_or_zero m.namespace_id_map name in
    record m {
      namespace_id_map = erase m.namespace_id_map name;
      namespace_info_map = erase m.namespace_info_map id;
      zone_ids = erase m.zone_ids id;
    }

unfoldable pub set_zone_info : ZoneManager → ZoneInfo → ZoneManager
unfolding make_zone_key
set_zone_info m info = record m {
  zone_id_map = assign m.zone_id_map (make_zone_key info.namespace_name info.zone) info.zone_id;
  zone_info_map = assign m.zone_info_map info.zone_id info;
}

unfoldable pub erase_zone_info : ZoneManager → Bytes → ZoneManager
unfolding id_or_zero
erase_zone_info m name =
    let id = id_or_zero m.zone_id_map name in
    record m {
      zone_id_map = erase m.zone_id_map name;
      zone_info_map = erase m.zone_info_map id;
      servlet_ids = erase m.servlet_ids id;
    }

unfoldable pub set_servlet_info : ServletManager → ServletInfo → ServletManager
unfolding make_zone_key make_servlet_key
set_servlet_info m info =
    let name = make_servlet_key (make_zone_key info.namespace_name info.zone) info.servlet_name in
    record m {
      servlet_id_map = assign m.servlet_id_map name info.servlet_id;
      servlet_info_map = assign m.servlet_info_map info.servlet_id info;
    }

unfoldable pub erase_servlet_info : ServletManager → Bytes → ServletManager
unfolding id_or_zero
erase_servlet_info m name =
    let id = id_or_zero m.servlet_id_map name in
    record m {
      servlet_id_map = erase m.servlet_id_map name;
      servlet_info_map = erase m.servlet_info_map id;
    }

-- SCHEMA_IDENTIFY + NAMESPACE_SCHEMA_IDENTIFY + the id, and so on
unfoldable pub construct_namespace_key : ℕ → Bytes
construct_namespace_key id = 1 ∷ 2 ∷ int64_bytes id

unfoldable pub construct_zone_key : ℕ → Bytes
construct_zone_key id = 1 ∷ 9 ∷ int64_bytes id

unfoldable pub construct_servlet_key : ℕ → Bytes
construct_servlet_key id = 1 ∷ 10 ∷ int64_bytes id

unfoldable pub construct_max_namespace_id_key : Bytes
construct_max_namespace_id_key = 1 ∷ 1 ∷ bytes "max_namespace_id"

unfoldable pub construct_max_zone_id_key : Bytes
construct_max_zone_id_key = 1 ∷ 1 ∷ bytes "max_zone_id"

unfoldable pub construct_max_servlet_id_key : Bytes
construct_max_servlet_id_key = 1 ∷ 1 ∷ bytes "max_servlet_id"

-- m[k] where k is there
pub value_at-found :
    {V : Type 0} (m : Map ℕ V) (k : ℕ) (fresh v : V) → find m k ≡ some v → value_at m k fresh ≡ v
unfolding value_at
value_at-found m k fresh v e = rw e refl

pub touch-found :
    {V : Type 0} (m : Map ℕ V) (k : ℕ) (fresh v : V) → find m k ≡ some v → touch m k fresh ≡ m
unfolding touch
touch-found m k fresh v e = rw (touch, e) refl
