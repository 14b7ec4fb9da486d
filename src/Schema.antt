-- ===== src/Schema.antt =====
-- ea/discovery/schema_manager: the names of namespaces, zones and servlets. What the three managers
-- answer for a name is an interface here: SchemaIds.
pub mod State
pub mod Namespaces
pub mod Zones
pub mod Servlets
mod Index
pub mod Apply
pub mod WellFormed
mod Reachable
pub mod Logs
mod Misfiled
pub mod Reload
mod Tests
use ea.Common.{ℕ, Option, none, some, List, [], ◌∷◌, ◌++◌, ◌==◌, nat_eq, if◌then◌else◌}
use mathlib.Core.Option.{map as map_some}
use ea.Common.Bytes.{Bytes}
use ea.Api.{UserPrivilege, PrivilegeZone, PrivilegeServlet, ServletInstance}
use ea.Api.Absent.{text_of}

-- ZoneManager::make_zone_key
unfoldable pub make_zone_key : Bytes → Bytes → Bytes
make_zone_key namespace_name zone_name = namespace_name ++ (1 ∷ []) ++ zone_name

-- ServletManager::make_servlet_key of a zone's key
unfoldable pub make_servlet_key : Bytes → Bytes → Bytes
make_servlet_key zone_key servlet_name = zone_key ++ (1 ∷ []) ++ servlet_name

-- The managers' lookups: 0 where the name is not known.
pub record SchemaIds : Type 0 where
  pub get_namespace_id : Bytes → ℕ
  pub get_zone_id : Bytes → ℕ
  pub get_servlet_id : Bytes → ℕ

module _ (ids : SchemaIds) where
  -- the loop over privilege_zone
  unfoldable pub check_zones : Bytes → List PrivilegeZone → Option (List PrivilegeZone)
  unfolding make_zone_key
  check_zones namespace_name [] = some []
  check_zones namespace_name (pri_zone ∷ zones) =
      let rest = check_zones namespace_name zones in
      let zone_id = ids.get_zone_id (make_zone_key namespace_name pri_zone.zone) in
      if zone_id == 0 then none else map_some (λ l. record pri_zone { zone_id = zone_id } ∷ l) rest

  -- the loop over privilege_servlet
  unfoldable pub check_servlets : Bytes → List PrivilegeServlet → Option (List PrivilegeServlet)
  unfolding make_zone_key make_servlet_key
  check_servlets namespace_name [] = some []
  check_servlets namespace_name (pri_servlet ∷ servlets) =
      let rest = check_servlets namespace_name servlets in
      let base_name = make_zone_key namespace_name pri_servlet.zone in
      let zone_id = ids.get_zone_id base_name in
      let servlet_id = ids.get_servlet_id (make_servlet_key base_name pri_servlet.servlet_name) in
      if zone_id == 0
      then none
      else if servlet_id == 0
      then none
      else map_some (λ l. record pri_servlet { zone_id = zone_id; servlet_id = servlet_id } ∷ l)
          rest

  -- The request with its ids filled in, or none where the function returns -1.
  unfoldable pub check_and_get_for_privilege : UserPrivilege → Option UserPrivilege
  unfolding check_zones check_servlets
  check_and_get_for_privilege u =
      let namespace_id = ids.get_namespace_id u.namespace_name in
      if namespace_id == 0 then none else elim (check_zones u.namespace_name u.privilege_zone) [
        | none ↦ none
        | some zones ↦
            map_some
              (λ servlets. record u {
                namespace_id = namespace_id;
                privilege_zone = zones;
                privilege_servlet = servlets;
              })
              (check_servlets u.namespace_name u.privilege_servlet)
      ]

  -- The instance with its ids filled in, or none where the function returns -1.
  unfoldable pub check_and_get_for_instance : ServletInstance → Option ServletInstance
  unfolding make_zone_key make_servlet_key
  check_and_get_for_instance instance_info =
      let namespace_name = text_of instance_info.namespace_name in
      let namespace_id = ids.get_namespace_id namespace_name in
      let base_name = make_zone_key namespace_name (text_of instance_info.zone_name) in
      let zone_id = ids.get_zone_id base_name in
      let servlet_name = make_servlet_key base_name (text_of instance_info.servlet_name) in
      let servlet_id = ids.get_servlet_id servlet_name in
      if namespace_id == 0
      then none
      else if zone_id == 0
      then none
      else if servlet_id == 0
      then none
      else some (record instance_info {
        namespace_id = namespace_id;
        zone_id = zone_id;
        servlet_id = servlet_id;
      })
