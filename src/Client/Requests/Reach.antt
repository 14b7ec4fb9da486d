-- ===== src/Client/Requests/Reach.antt =====
-- DiscoveryClient and DiscoveryServer::discovery_manager: where the client's requests go.
use ea.Common.{
  ℕ, ◌≡◌, refl, subst, true, Bool, Option, List, inl, inr, is_some, Bool-cases, Option-cases,
}
use ea.Common.Bytes.{Bytes}
use ea.Common.Int.{ℤ}
use ea.Api.{
  ManagerRequest, ManagerResponse, NameSpaceInfo, ZoneInfo, ServletInfo, ConfigInfo, ConfigVersion,
  op_create_namespace, op_modify_namespace, op_create_zone, op_modify_zone, op_create_servlet,
  op_create_config,
}
use ea.Server.{Server, discovery_manager}
use ea.Server.Routing.{to_discovery, goal_of, Reaches, discovery_manager_routes}
use ea.Client.{check_valid_name_type}
use ea.Client.Requests.{
  Built, Loaded, namespace_request, zone_request, servlet_request, config_request, with_loaded,
  create_namespace_named, remove_namespace_named, create_zone_named, remove_zone_named,
  create_servlet_named, remove_servlet_named, modify_servlet_request, remove_config_module,
  remove_config_all_version, create_config_content, remove_config_text, string_to_version,
  build_from_content,
}

-- A server, and what protobuf does with a request there.
module _ (leader : Bytes) (serializes : ManagerRequest → Bool) (s : Server) (r : ManagerResponse)
    (str_split : Bytes → List Bytes) (simple_atoi : Bytes → Option ℕ) where
  -- The request that is sent, if one is, is proposed by discovery_manager to the raft group of the discovery data, as
  -- it came and with the response to fill.
  abbrev pub Lands : Built → Type 0
  Lands (inl code) = Unit
  Lands (inr q) = Reaches to_discovery q r (discovery_manager leader serializes true s q r)

  -- Each request lands: by names, by what is loaded, and for configs.
  abbrev pub AllLand :
      Bytes
      → Bytes
      → Bytes
      → Bytes
      → ℤ
      → ConfigVersion
      → Bool
      → Loaded NameSpaceInfo
      → Loaded ZoneInfo
      → Loaded ServletInfo
      → Loaded ConfigInfo
      → ServletInfo
      → Type 0
  AllLand ns zone servlet content quota v type_known n z t c info =
      Lands (create_namespace_named ns quota)
      × Lands (remove_namespace_named ns)
      × Lands (with_loaded n (namespace_request op_create_namespace))
      × Lands (with_loaded n (namespace_request op_modify_namespace))
      × Lands (inr (create_zone_named ns zone quota))
      × Lands (inr (remove_zone_named ns zone))
      × Lands (with_loaded z (zone_request op_create_zone))
      × Lands (with_loaded z (zone_request op_modify_zone))
      × Lands (inr (create_servlet_named ns zone servlet))
      × Lands (inr (remove_servlet_named ns zone servlet))
      × Lands (with_loaded t (servlet_request op_create_servlet))
      × Lands (inr (modify_servlet_request info))
      × Lands (with_loaded c (config_request op_create_config))
      × Lands (create_config_content str_split simple_atoi ns content zone type_known)
      × Lands (remove_config_text str_split simple_atoi ns content)
      × Lands (inr (remove_config_module ns v))
      × Lands (inr (remove_config_all_version ns))

  module _ (init : s.init_success ≡ true) (leads : s.discovery.is_leader ≡ true)
      (leads_ids : s.auto_incr.is_leader ≡ true)
      (whole : (q : ManagerRequest) → serializes q ≡ true) where
    routed : (q : ManagerRequest) → goal_of q.op_type q ≡ to_discovery → Lands (inr q)
    routed q e =
        subst (λ g. Reaches g q r (discovery_manager leader serializes true s q r)) e
          (discovery_manager_routes leader serializes s q r init leads leads_ids (whole q))

    Lands-with_loaded :
        {A : Type 0} (loaded : Loaded A) (build : A → ManagerRequest)
        → ((a : A) → goal_of (build a).op_type (build a) ≡ to_discovery)
        → Lands (with_loaded loaded build)
    unfolding with_loaded
    Lands-with_loaded (inl code) build h = tt
    Lands-with_loaded (inr a) build h = routed (build a) (h a)

    create_namespace-Lands : (ns : Bytes) (quota : ℤ) → Lands (create_namespace_named ns quota)
    unfolding create_namespace_named namespace_request
    create_namespace-Lands ns quota = elim (Bool-cases (is_some (check_valid_name_type ns))) [
      | inl e ↦ rw (create_namespace_named, e) tt
      | inr e ↦ rw (create_namespace_named, e) (routed _ refl)
    ]

    remove_namespace-Lands : (ns : Bytes) → Lands (remove_namespace_named ns)
    unfolding remove_namespace_named namespace_request
    remove_namespace-Lands ns = elim (Bool-cases (is_some (check_valid_name_type ns))) [
      | inl e ↦ rw (remove_namespace_named, e) tt
      | inr e ↦ rw (remove_namespace_named, e) (routed _ refl)
    ]

    create_config-Lands :
        (name content version : Bytes) (type_known : Bool)
        → Lands (create_config_content str_split simple_atoi name content version type_known)
    unfolding create_config_content config_request
    create_config-Lands name content version type_known =
        Lands-with_loaded (build_from_content str_split simple_atoi name content version type_known)
          _ (λ info. refl)

    remove_config-Lands :
        (name version : Bytes) → Lands (remove_config_text str_split simple_atoi name version)
    unfolding remove_config_text config_request
    remove_config-Lands name version =
        elim (Option-cases (string_to_version str_split simple_atoi version)) [
          | inl e ↦ rw (remove_config_text, e) tt
          | inr (v, e) ↦ rw (remove_config_text, e) (routed _ refl)
        ]

    -- On a server that is initialised and leads both raft groups, and where requests serialize: discovery_manager
    -- proposes each request that the client sends to change a namespace, a zone, a servlet or a config to the raft
    -- group of the discovery data, as it came; none is turned away for its kind or for a missing message. The
    -- two calls that set no kind, create_config_by_file and create_config_by_json, are left out.
    pub client_requests_reach :
        (ns zone servlet content : Bytes) (quota : ℤ) (v : ConfigVersion) (type_known : Bool)
        (n : Loaded NameSpaceInfo) (z : Loaded ZoneInfo) (t : Loaded ServletInfo)
        (c : Loaded ConfigInfo) (info : ServletInfo)
        → AllLand ns zone servlet content quota v type_known n z t c info
    unfolding namespace_request zone_request servlet_request config_request create_zone_named
        remove_zone_named create_servlet_named remove_servlet_named modify_servlet_request
        remove_config_module remove_config_all_version
    client_requests_reach ns zone servlet content quota v type_known n z t c info = (
      create_namespace-Lands ns quota,
      remove_namespace-Lands ns,
      Lands-with_loaded n _ (λ a. refl),
      Lands-with_loaded n _ (λ a. refl),
      routed _ refl,
      routed _ refl,
      Lands-with_loaded z _ (λ a. refl),
      Lands-with_loaded z _ (λ a. refl),
      routed _ refl,
      routed _ refl,
      Lands-with_loaded t _ (λ a. refl),
      routed _ refl,
      Lands-with_loaded c _ (λ a. refl),
      create_config-Lands ns content zone type_known,
      remove_config-Lands ns content,
      routed _ refl,
      routed _ refl,
    )
