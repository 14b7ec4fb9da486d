-- ===== src/Client/Requests.antt =====
-- ea/client/discovery.cc: the functions of DiscoveryClient that change data, as far as the request that they send
-- and the status that they return. Loader (JSON and files), turbo's StrSplit and SimpleAtoi, and the sender are
-- parameters; the text of a status is left out.
mod Reach
mod Tests
use ea.Common.{
  ℕ, Bool, true, false, not, Option, none, some, List, [], ◌∷◌, ◌⊎◌, inl, inr, ◌==◌, nat_eq,
  if◌then◌else◌, get_or, is_some, bytes,
}
use ea.Common.Bytes.{Bytes, bytes_eq}
use ea.Common.Int.{ℤ, pos, int_eq}
use ea.Api.{
  ErrCode, OpType, ManagerRequest, ManagerResponse, NameSpaceInfo, ZoneInfo, ServletInfo,
  ConfigInfo, ConfigVersion, op_create_config, op_remove_config, op_create_namespace,
  op_drop_namespace, op_modify_namespace, op_create_zone, op_drop_zone, op_modify_zone,
  op_create_servlet, op_drop_servlet,
}
use ea.Api.Absent.{no_request, no_namespace_info, no_zone_info, no_servlet_info, no_config_info}
use ea.Client.{check_valid_name_type}

pub data StatusCode : Type 0 where
  invalid_argument unavailable unknown_error data_loss file_error : StatusCode

-- turbo::Status
pub data Status : Type 0 where
  ok_status : Status
  error : StatusCode → Status

-- An early return, or the request that is handed to the sender.
abbrev pub Built : Type 0
Built = StatusCode ⊎ ManagerRequest

abbrev pub is_success : ErrCode → Bool
is_success ErrCode.success = true
is_success _ = false

unfoldable pub namespace_request : OpType → NameSpaceInfo → ManagerRequest
namespace_request op info = record no_request { op_type = op; namespace_info = some info }

unfoldable pub zone_request : OpType → ZoneInfo → ManagerRequest
zone_request op info = record no_request { op_type = op; zone_info = some info }

unfoldable pub servlet_request : OpType → ServletInfo → ManagerRequest
servlet_request op info = record no_request { op_type = op; servlet_info = some info }

unfoldable pub config_request : OpType → ConfigInfo → ManagerRequest
config_request op info = record no_request { op_type = op; config_info = some info }

-- if (quota != 0) set_quota(quota)
unfoldable pub quota_of : ℤ → Option ℤ
quota_of quota = if quota == pos 0 then none else some quota

-- What is loaded from JSON or from a file: the message, or the status that the loader returns.
abbrev pub Loaded : Type 0 → Type 0
Loaded A = StatusCode ⊎ A

unfoldable pub with_loaded : {A : Type 0} → Loaded A → (A → ManagerRequest) → Built
with_loaded (inl code) build = inl code
with_loaded (inr a) build = inr (build a)

-- create_namespace of a name and a quota
unfoldable pub create_namespace_named : Bytes → ℤ → Built
unfolding check_valid_name_type namespace_request quota_of
create_namespace_named ns quota =
    if is_some (check_valid_name_type ns)
    then inl invalid_argument
    else inr (
        namespace_request op_create_namespace
          (record no_namespace_info { namespace_name = ns; quota = quota_of quota }))

unfoldable pub remove_namespace_named : Bytes → Built
unfolding check_valid_name_type namespace_request
remove_namespace_named ns =
    if is_some (check_valid_name_type ns)
    then inl invalid_argument
    else inr
        (namespace_request op_drop_namespace (record no_namespace_info { namespace_name = ns }))

-- create_zone and remove_zone by names
unfoldable pub create_zone_named : Bytes → Bytes → ℤ → ManagerRequest
unfolding zone_request quota_of
create_zone_named ns zone quota =
    zone_request op_create_zone
      (record no_zone_info { namespace_name = ns; zone = zone; quota = quota_of quota })

unfoldable pub remove_zone_named : Bytes → Bytes → ManagerRequest
unfolding zone_request
remove_zone_named ns zone =
    zone_request op_drop_zone (record no_zone_info { namespace_name = ns; zone = zone })

unfoldable pub create_servlet_named : Bytes → Bytes → Bytes → ManagerRequest
unfolding servlet_request
create_servlet_named ns zone servlet =
    servlet_request op_create_servlet
      (record no_servlet_info { namespace_name = ns; zone = zone; servlet_name = servlet })

unfoldable pub remove_servlet_named : Bytes → Bytes → Bytes → ManagerRequest
unfolding servlet_request
remove_servlet_named ns zone servlet =
    servlet_request op_drop_servlet
      (record no_servlet_info { namespace_name = ns; zone = zone; servlet_name = servlet })

-- modify_servlet: the kind is that of a creation, as in the source.
unfoldable pub modify_servlet_request : ServletInfo → ManagerRequest
unfolding servlet_request
modify_servlet_request info = servlet_request op_create_servlet info

-- remove_config of a ModuleVersion: the minor version is set twice, as in the source.
unfoldable pub remove_config_module : Bytes → ConfigVersion → ManagerRequest
unfolding config_request
remove_config_module config_name version = config_request op_remove_config (record no_config_info {
  name = config_name;
  version = some (record { major = version.major; minor = version.patch; patch = 0 });
})

unfoldable pub remove_config_all_version : Bytes → ManagerRequest
unfolding config_request
remove_config_all_version config_name =
    config_request op_remove_config (record no_config_info { name = config_name })

-- create_config_by_file and create_config_by_json: no kind is set, as in the source. op_none stands for the field
-- that is not set; whether such a request is serialized is not modelled.
unfoldable pub create_config_loaded : Loaded ConfigInfo → Built
unfolding with_loaded
create_config_loaded loaded =
    with_loaded loaded (λ info. record no_request { config_info = some info })

module _ (str_split : Bytes → List Bytes) (simple_atoi : Bytes → Option ℕ) where
  -- The three numbers, where each is one.
  abbrev pub version_of_parts : Option ℕ → Option ℕ → Option ℕ → Option ConfigVersion
  version_of_parts (some a) (some b) (some c) = some (record { major = a; minor = b; patch = c })
  version_of_parts (some a) (some b) none = none
  version_of_parts (some a) none c = none
  version_of_parts none b c = none

  -- string_to_version: none is InvalidArgumentError
  unfoldable pub string_to_version : Bytes → Option ConfigVersion
  string_to_version text = elim (str_split text) [
    | a ∷ b ∷ c ∷ [] ↦ version_of_parts (simple_atoi a) (simple_atoi b) (simple_atoi c)
    | _ ↦ none
  ]

  -- ConfigInfoBuilder::build_from_content; `type_known` is that string_to_config_type has the type.
  unfoldable pub build_from_content : Bytes → Bytes → Bytes → Bool → Loaded ConfigInfo
  unfolding string_to_version
  build_from_content name content version type_known =
      if not type_known then inl invalid_argument else elim (string_to_version version) [
        | none ↦ inl invalid_argument
        | some v ↦ inr (record { name = name; version = some v; content = content })
      ]

  -- create_config of a name, a content, a version and a type
  unfoldable pub create_config_content : Bytes → Bytes → Bytes → Bool → Built
  unfolding build_from_content with_loaded config_request
  create_config_content config_name content version type_known =
      with_loaded (build_from_content config_name content version type_known)
        (λ info. config_request op_create_config info)

  -- remove_config of a version's text
  unfoldable pub remove_config_text : Bytes → Bytes → Built
  unfolding string_to_version config_request
  remove_config_text config_name version = elim (string_to_version version) [
    | none ↦ inl invalid_argument
    | some v ↦ inr (
        config_request op_remove_config
          (record no_config_info { name = config_name; version = some v }))
  ]
