-- ===== src/Api.antt =====
-- The messages of the discovery service, as far as the server reads and writes them. They are
-- generated from protocol files of another repository (eapi): an optional field is an Option, or a
-- value beside a `has_` flag where only the flag and the value read are used.
pub mod Absent
use ea.Common.{ℕ, String, Bool, Option, none, some, List, []}
use ea.Common.Bytes.{Bytes}
use ea.Common.Int.{ℤ}

pub data ErrCode : Type 0 where
  success input_param_error parse_from_pb_fail parse_to_pb_fail internal_error : ErrCode
  exec_fail not_leader retry_later unknown_req_type have_not_init : ErrCode

pub data OpType : Type 0 where
  op_create_user op_drop_user op_add_privilege op_drop_privilege : OpType
  op_create_namespace op_drop_namespace op_modify_namespace : OpType
  op_create_zone op_drop_zone op_modify_zone : OpType
  op_create_servlet op_drop_servlet op_modify_servlet : OpType
  op_create_config op_remove_config : OpType
  op_add_instance op_drop_instance op_update_instance : OpType
  op_modify_resource_tag op_update_main_logical_room : OpType
  op_add_id_for_auto_increment op_drop_id_for_auto_increment : OpType
  op_gen_id_for_auto_increment op_update_for_auto_increment : OpType
  op_gen_tso op_query_tso_info op_reset_tso op_update_tso op_none : OpType

pub record AutoIncrement : Type 0 where
  pub servlet_id : ℤ
  pub start_id : Option ℕ
  pub count : ℕ
  pub increment_id : Option ℕ
  pub force : Option Bool

pub record NameSpaceInfo : Type 0 where
  pub namespace_name : Bytes
  pub namespace_id : ℕ
  pub version : ℕ
  pub quota : Option ℤ
  pub resource_tag : Option Bytes
  pub byte_size_per_record : Option ℤ
  pub replica_num : Option ℤ
  pub region_split_lines : Option ℤ

pub record ZoneInfo : Type 0 where
  pub namespace_name : Bytes
  pub zone : Bytes
  pub namespace_id : ℕ
  pub zone_id : ℕ
  pub version : ℕ
  pub quota : Option ℤ
  pub resource_tag : Option Bytes
  pub byte_size_per_record : Option ℤ
  pub replica_num : Option ℤ
  pub region_split_lines : Option ℤ

pub record ServletInfo : Type 0 where
  pub namespace_name : Bytes
  pub zone : Bytes
  pub servlet_name : Bytes
  pub namespace_id : ℕ
  pub zone_id : ℕ
  pub servlet_id : ℕ
  pub version : ℕ
  pub resource_tag : Option Bytes

pub record PrivilegeZone : Type 0 where
  pub zone : Bytes
  pub zone_id : ℕ
  pub has_zone_rw : Bool
  pub zone_rw : ℕ
  pub force : Bool

pub record PrivilegeServlet : Type 0 where
  pub zone : Bytes
  pub servlet_name : Bytes
  pub zone_id : ℕ
  pub servlet_id : ℕ
  pub has_servlet_rw : Bool
  pub servlet_rw : ℕ
  pub force : Bool

pub record UserPrivilege : Type 0 where
  pub username : Bytes
  pub password : Option Bytes
  pub namespace_name : Bytes
  pub namespace_id : ℕ
  pub privilege_zone : List PrivilegeZone
  pub privilege_servlet : List PrivilegeServlet
  pub ip : List Bytes
  pub need_auth_addr : Option Bool
  pub resource_tag : Option Bytes
  pub version : ℕ

-- Version and ConfigInfo of a config
pub record ConfigVersion : Type 0 where
  pub major : ℕ
  pub minor : ℕ
  pub patch : ℕ

pub record ConfigInfo : Type 0 where
  pub name : Bytes
  pub version : Option ConfigVersion
  pub content : Bytes

pub record ServletInstance : Type 0 where
  pub namespace_name : Option Bytes
  pub zone_name : Option Bytes
  pub servlet_name : Option Bytes
  pub address : Option Bytes
  pub env : Option Bytes
  pub color : Option Bytes
  pub status : Option ℕ
  pub weight : Option ℤ
  pub namespace_id : ℕ
  pub zone_id : ℕ
  pub servlet_id : ℕ
  pub version : ℕ

-- DiscoveryManagerRequest
pub record ManagerRequest : Type 0 where
  pub op_type : OpType
  pub auto_increment : Option AutoIncrement
  pub user_privilege : Option UserPrivilege
  pub namespace_info : Option NameSpaceInfo
  pub zone_info : Option ZoneInfo
  pub servlet_info : Option ServletInfo
  pub config_info : Option ConfigInfo
  pub instance_info : Option ServletInstance

-- DiscoveryManagerResponse
pub record ManagerResponse : Type 0 where
  pub errcode : Option ErrCode
  pub errmsg : Option String
  pub op_type : Option OpType
  pub leader : Option Bytes
  pub start_id : Option ℕ
  pub end_id : Option ℕ
