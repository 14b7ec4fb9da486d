-- ===== src/Client/Calls/Hidden.antt =====
-- DiscoveryClient: what a caller learns of a refusal.
use ea.Common.{◌≡◌, refl, false, none, some, ap}
use ea.Common.Bytes.{Bytes}
use ea.Common.Int.{ℤ}
use ea.Api.{
  ErrCode, ManagerRequest, ManagerResponse, NameSpaceInfo, ZoneInfo, ServletInfo, ConfigInfo,
  ConfigVersion,
}
use ea.Client.{check_valid_name_type}
use ea.Client.Requests.{
  StatusCode, unavailable, unknown_error, Status, ok_status, error, is_success,
  create_namespace_named, remove_namespace_named,
}
use ea.Client.Calls.{
  unreported, reported, submit, create_namespace, remove_namespace, modify_namespace, create_zone,
  remove_zone, modify_zone, create_servlet, remove_servlet, modify_servlet, create_config_info,
  remove_config_of_module, remove_config_all,
}

module _ (send : ManagerRequest → Status × ManagerResponse) (default_code : ErrCode) where
  -- The request arrives, and the server refuses it.
  abbrev pub Refuses : Type 0
  Refuses =
      (q : ManagerRequest)
      → (code : ErrCode) × (r : ManagerResponse) × (send q ≡ (ok_status, r))
        × (r.errcode ≡ some code)
        × (is_success code ≡ false)

  sent_status : (q : ManagerRequest) → Refuses → unreported send default_code (send q) ≡ ok_status
  unfolding unreported
  sent_status q h = let (code, r, e, f, g) = h q in ap (λ x. x.0) e

  told :
      (q : ManagerRequest) (c : StatusCode)
      → Refuses
      → reported send default_code c (send q) ≡ error c
  unfolding reported
  told q c h = let (code, r, e, f, g) = h q in rw (e, f, g) refl

  -- The calls on namespaces, zones and servlets return ok, and those on configs an error.
  abbrev pub HidesRefusals :
      Bytes
      → Bytes
      → Bytes
      → ℤ
      → ConfigVersion
      → NameSpaceInfo
      → ZoneInfo
      → ServletInfo
      → ConfigInfo
      → Type 0
  HidesRefusals ns zone servlet quota v n z s c =
      (create_namespace send default_code ns quota ≡ ok_status)
      × (remove_namespace send default_code ns ≡ ok_status)
      × (modify_namespace send default_code n ≡ ok_status)
      × (create_zone send default_code ns zone quota ≡ ok_status)
      × (remove_zone send default_code ns zone ≡ ok_status)
      × (modify_zone send default_code z ≡ ok_status)
      × (create_servlet send default_code ns zone servlet ≡ ok_status)
      × (remove_servlet send default_code ns zone servlet ≡ ok_status)
      × (modify_servlet send default_code s ≡ ok_status)
      × (create_config_info send default_code c ≡ error unavailable)
      × (remove_config_of_module send default_code ns v ≡ error unknown_error)
      × (remove_config_all send default_code ns ≡ error unknown_error)

  -- Where the request arrives and the server refuses it, the calls on namespaces, zones and servlets return ok
  -- all the same; those on configs return an error.
  pub refusals_hidden :
      (ns zone servlet : Bytes) (quota : ℤ) (v : ConfigVersion) (n : NameSpaceInfo) (z : ZoneInfo)
      (s : ServletInfo) (c : ConfigInfo)
      → Refuses
      → check_valid_name_type ns ≡ none
      → HidesRefusals ns zone servlet quota v n z s c
  unfolding submit create_namespace remove_namespace modify_namespace create_zone remove_zone
      modify_zone create_servlet remove_servlet modify_servlet create_config_info
      remove_config_of_module remove_config_all create_namespace_named remove_namespace_named
  refusals_hidden ns zone servlet quota v n z s c h valid = (
    rw (create_namespace_named, valid) (sent_status _ h),
    rw (remove_namespace_named, valid) (sent_status _ h),
    sent_status _ h,
    sent_status _ h,
    sent_status _ h,
    sent_status _ h,
    sent_status _ h,
    sent_status _ h,
    sent_status _ h,
    told _ unavailable h,
    told _ unknown_error h,
    told _ unknown_error h,
  )
