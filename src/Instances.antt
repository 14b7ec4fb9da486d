-- ===== src/Instances.antt =====
-- ea/discovery/instance_manager: the registry of the servlets' instances, in memory and in RocksDB.
pub mod Manager
pub mod Durable
pub mod Index
mod Named
pub mod Outcomes
pub mod Sound
mod Clock
mod Hidden
mod Tests
use ea.Common.{ℕ, ◌+◌, ◌-◌, ◌/◌, List, [], ◌∷◌, get_or, ltb, Bool, nat_eq}
use ea.Common.Bytes.{Bytes, bytes_eq}
use ea.Common.Maps.{Map, find, assign, erase}
use ea.Common.Sets.{insert}
use ea.Api.{ServletInstance, ManagerRequest}
use ea.Api.Absent.{no_instance_info, text_of}
use ea.Schema.{make_zone_key, make_servlet_key}
use ea.Schema.Namespaces.{or_kept}

-- The members of InstanceManager that are kept in memory. A TimeCost is the time it was made at, in
-- microseconds of the replica's clock.
pub record Registry : Type 0 where
  pub instance_info : Map Bytes ServletInstance
  pub removed_instance : Map Bytes ℕ
  pub namespace_instance : Map Bytes (List Bytes)
  pub zone_instance : Map Bytes (List Bytes)
  pub servlet_instance : Map Bytes (List Bytes)

-- request.instance_info()
unfoldable pub instance_of : ManagerRequest → ServletInstance
instance_of request = get_or request.instance_info no_instance_info

-- DISCOVERY_IDENTIFY + DISCOVERY_INSTANCE_IDENTIFY + address
unfoldable pub construct_instance_key : Bytes → Bytes
construct_instance_key address = 3 ∷ 3 ∷ address

unfoldable pub namespace_key_of : ServletInstance → Bytes
namespace_key_of info = text_of info.namespace_name

unfoldable pub zone_key_of : ServletInstance → Bytes
unfolding make_zone_key
zone_key_of info = make_zone_key (text_of info.namespace_name) (text_of info.zone_name)

unfoldable pub servlet_key_of : ServletInstance → Bytes
unfolding zone_key_of make_servlet_key
servlet_key_of info = make_servlet_key (zone_key_of info) (text_of info.servlet_name)

-- index[key].insert(address), with a fresh set where the key is missing
unfoldable pub add_address : Map Bytes (List Bytes) → Bytes → Bytes → Map Bytes (List Bytes)
add_address index key address = assign index key (insert (get_or (find index key) []) address)

unfoldable pub set_instance_info : Registry → ServletInstance → Registry
unfolding add_address namespace_key_of zone_key_of servlet_key_of
set_instance_info s info =
    let address = text_of info.address in
    record {
      instance_info = assign s.instance_info address info;
      removed_instance = erase s.removed_instance address;
      namespace_instance = add_address s.namespace_instance (namespace_key_of info) address;
      zone_instance = add_address s.zone_instance (zone_key_of info) address;
      servlet_instance = add_address s.servlet_instance (servlet_key_of info) address;
    }

-- The sets are erased whole, as in the source.
unfoldable pub remove_instance_info : Registry → Bytes → ℕ → Registry
unfolding namespace_key_of zone_key_of servlet_key_of
remove_instance_info s address now =
    let info = get_or (find s.instance_info address) no_instance_info in
    record {
      instance_info = erase s.instance_info address;
      removed_instance = assign s.removed_instance address now;
      namespace_instance = erase s.namespace_instance (namespace_key_of info);
      zone_instance = erase s.zone_instance (zone_key_of info);
      servlet_instance = erase s.servlet_instance (servlet_key_of info);
    }

-- it->second.get_time_s() < 3600, of a TimeCost made at `removed`
unfoldable pub is_recent : ℕ → ℕ → Bool
is_recent now removed = ltb ((now - removed) / 1000000) 3600

-- What update_instance makes of the instance in memory.
unfoldable pub updated_instance : ServletInstance → ServletInstance → ServletInstance
unfolding or_kept
updated_instance request info = record info {
  status = or_kept request.status info.status;
  color = or_kept request.color info.color;
  env = or_kept request.env info.env;
  weight = or_kept request.weight info.weight;
  version = info.version + 1;
}
