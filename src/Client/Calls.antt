-- ===== src/Client/Calls.antt =====
-- ea/client/discovery.cc: the calls of DiscoveryClient that change data. The calls on configs look at the
-- answer's code; those on namespaces, zones and servlets return the sender's status as it is.
mod Hidden
mod Tests
use ea.Common.{
  ℕ, Bool, true, false, not, Option, none, some, List, [], ◌∷◌, ◌⊎◌, inl, inr, if◌then◌else◌,
  get_or,
}
use ea.Common.Bytes.{Bytes}
use ea.Common.Int.{ℤ}
use ea.Api.{
  ErrCode, ManagerRequest, ManagerResponse, NameSpaceInfo, ZoneInfo, ServletInfo, ConfigInfo,
  ConfigVersion, op_create_config, op_create_namespace, op_modify_namespace, op_create_zone,
  op_modify_zone, op_create_servlet,
}
use ea.Client.Requests.{
  StatusCode, unavailable, unknown_error, Status, ok_status, error, Built, Loaded, is_success,
  namespace_request, zone_request, servlet_request, config_request, with_loaded,
  create_namespace_named, remove_namespace_named, create_zone_named, remove_zone_named,
  create_servlet_named, remove_servlet_named, modify_servlet_request, remove_config_module,
  remove_config_all_version, create_config_loaded, create_config_content, remove_config_text,
}

-- `send` is the sender, `default_code` what errcode() returns where the response has none.
module _ (send : ManagerRequest → Status × ManagerResponse) (default_code : ErrCode) where
  -- `if (!rs.ok()) return rs; return OkStatus();`
  unfoldable pub unreported : Status × ManagerResponse → Status
  unreported (rs, response) = rs

  -- `if (!rs.ok()) return rs; if (response.errcode() != SUCCESS) return ...Error(...); return OkStatus();`
  unfoldable pub reported : StatusCode → Status × ManagerResponse → Status
  reported code (error e, response) = error e
  reported code (ok_status, response) =
      if not (is_success (get_or response.errcode default_code)) then error code else ok_status

  -- The early return, or the status after the call.
  unfoldable pub submit : (Status × ManagerResponse → Status) → Built → Status
  submit finish (inl code) = error code
  submit finish (inr request) = finish (send request)

  unfoldable pub create_namespace_info : NameSpaceInfo → Status
  unfolding submit unreported namespace_request
  create_namespace_info info = submit unreported (inr (namespace_request op_create_namespace info))

  unfoldable pub create_namespace_by_json : Loaded NameSpaceInfo → Status
  unfolding submit unreported namespace_request with_loaded
  create_namespace_by_json loaded =
      submit unreported (with_loaded loaded (λ info. namespace_request op_create_namespace info))

  unfoldable pub create_namespace_by_file : Loaded NameSpaceInfo → Status
  unfolding submit unreported namespace_request with_loaded
  create_namespace_by_file loaded =
      submit unreported (with_loaded loaded (λ info. namespace_request op_create_namespace info))

  unfoldable pub modify_namespace : NameSpaceInfo → Status
  unfolding submit unreported namespace_request
  modify_namespace info = submit unreported (inr (namespace_request op_modify_namespace info))

  unfoldable pub modify_namespace_by_json : Loaded NameSpaceInfo → Status
  unfolding submit unreported namespace_request with_loaded
  modify_namespace_by_json loaded =
      submit unreported (with_loaded loaded (λ info. namespace_request op_modify_namespace info))

  unfoldable pub modify_namespace_by_file : Loaded NameSpaceInfo → Status
  unfolding submit unreported namespace_request with_loaded
  modify_namespace_by_file loaded =
      submit unreported (with_loaded loaded (λ info. namespace_request op_modify_namespace info))

  unfoldable pub create_zone_info : ZoneInfo → Status
  unfolding submit unreported zone_request
  create_zone_info info = submit unreported (inr (zone_request op_create_zone info))

  unfoldable pub create_zone_by_json : Loaded ZoneInfo → Status
  unfolding submit unreported with_loaded zone_request
  create_zone_by_json loaded =
      submit unreported (with_loaded loaded (λ info. zone_request op_create_zone info))

  unfoldable pub create_zone_by_file : Loaded ZoneInfo → Status
  unfolding submit unreported with_loaded zone_request
  create_zone_by_file loaded =
      submit unreported (with_loaded loaded (λ info. zone_request op_create_zone info))

  unfoldable pub modify_zone : ZoneInfo → Status
  unfolding submit unreported zone_request
  modify_zone info = submit unreported (inr (zone_request op_modify_zone info))

  unfoldable pub modify_zone_by_json : Loaded ZoneInfo → Status
  unfolding submit unreported with_loaded zone_request
  modify_zone_by_json loaded =
      submit unreported (with_loaded loaded (λ info. zone_request op_modify_zone info))

  unfoldable pub modify_zone_by_file : Loaded ZoneInfo → Status
  unfolding submit unreported with_loaded zone_request
  modify_zone_by_file loaded =
      submit unreported (with_loaded loaded (λ info. zone_request op_modify_zone info))

  unfoldable pub create_servlet_info : ServletInfo → Status
  unfolding submit unreported servlet_request
  create_servlet_info info = submit unreported (inr (servlet_request op_create_servlet info))

  unfoldable pub create_servlet_by_json : Loaded ServletInfo → Status
  unfolding submit unreported servlet_request with_loaded
  create_servlet_by_json loaded =
      submit unreported (with_loaded loaded (λ info. servlet_request op_create_servlet info))

  unfoldable pub create_servlet_by_file : Loaded ServletInfo → Status
  unfolding submit unreported servlet_request with_loaded
  create_servlet_by_file loaded =
      submit unreported (with_loaded loaded (λ info. servlet_request op_create_servlet info))

  unfoldable pub create_namespace : Bytes → ℤ → Status
  unfolding submit unreported create_namespace_named
  create_namespace ns quota = submit unreported (create_namespace_named ns quota)

  unfoldable pub remove_namespace : Bytes → Status
  unfolding submit unreported remove_namespace_named
  remove_namespace ns = submit unreported (remove_namespace_named ns)

  unfoldable pub create_zone : Bytes → Bytes → ℤ → Status
  unfolding submit unreported create_zone_named
  create_zone ns zone quota = submit unreported (inr (create_zone_named ns zone quota))

  unfoldable pub remove_zone : Bytes → Bytes → Status
  unfolding submit unreported remove_zone_named
  remove_zone ns zone = submit unreported (inr (remove_zone_named ns zone))

  unfoldable pub create_servlet : Bytes → Bytes → Bytes → Status
  unfolding submit unreported create_servlet_named
  create_servlet ns zone servlet = submit unreported (inr (create_servlet_named ns zone servlet))

  unfoldable pub remove_servlet : Bytes → Bytes → Bytes → Status
  unfolding submit unreported remove_servlet_named
  remove_servlet ns zone servlet = submit unreported (inr (remove_servlet_named ns zone servlet))

  unfoldable pub modify_servlet : ServletInfo → Status
  unfolding submit unreported modify_servlet_request servlet_request
  modify_servlet info = submit unreported (inr (modify_servlet_request info))

  unfoldable pub modify_servlet_by_json : Loaded ServletInfo → Status
  unfolding submit unreported modify_servlet_request servlet_request with_loaded
  modify_servlet_by_json loaded =
      submit unreported (with_loaded loaded (λ info. modify_servlet_request info))

  unfoldable pub modify_servlet_by_file : Loaded ServletInfo → Status
  unfolding submit unreported modify_servlet_request servlet_request with_loaded
  modify_servlet_by_file loaded =
      submit unreported (with_loaded loaded (λ info. modify_servlet_request info))

  unfoldable pub create_config_info : ConfigInfo → Status
  unfolding submit reported config_request
  create_config_info info =
      submit (reported unavailable) (inr (config_request op_create_config info))

  unfoldable pub create_config_by_file : Loaded ConfigInfo → Status
  unfolding submit reported create_config_loaded
  create_config_by_file loaded = submit (reported unavailable) (create_config_loaded loaded)

  unfoldable pub create_config_by_json : Loaded ConfigInfo → Status
  unfolding submit reported create_config_loaded
  create_config_by_json loaded = submit (reported unavailable) (create_config_loaded loaded)

  unfoldable pub remove_config_of_module : Bytes → ConfigVersion → Status
  unfolding submit reported remove_config_module
  remove_config_of_module config_name version =
      submit (reported unknown_error) (inr (remove_config_module config_name version))

  unfoldable pub remove_config_all : Bytes → Status
  unfolding submit reported remove_config_all_version
  remove_config_all config_name =
      submit (reported unknown_error) (inr (remove_config_all_version config_name))

  module _ (str_split : Bytes → List Bytes) (simple_atoi : Bytes → Option ℕ) where
    unfoldable pub create_config : Bytes → Bytes → Bytes → Bool → Status
    unfolding submit reported create_config_content
    create_config config_name content version type_known =
        submit (reported unavailable)
          (create_config_content str_split simple_atoi config_name content version type_known)

    unfoldable pub remove_config : Bytes → Bytes → Status
    unfolding submit reported remove_config_text
    remove_config config_name version =
        submit (reported unknown_error)
          (remove_config_text str_split simple_atoi config_name version)
