-- ===== src/Query.antt =====
-- The messages of the queries (ea/discovery), which are generated from protocol files of another repository.
pub mod Managers
pub mod Instances
mod Newest
pub mod Privileges
pub mod Service
mod Tests
use ea.Common.{ℕ, String, Bool, Option, none, some, List, []}
use ea.Common.Bytes.{Bytes}
use ea.Api.{
  ErrCode, UserPrivilege, NameSpaceInfo, ZoneInfo, ServletInfo, ConfigInfo, ConfigVersion,
  ServletInstance,
}

pub data QueryOp : Type 0 where
  query_user_privilege query_namespace query_zone query_servlet query_get_config : QueryOp
  query_list_config query_list_config_version query_privilege_flatten : QueryOp
  query_instance_op query_instance_flatten_op query_other : QueryOp

pub record QueryRequest : Type 0 where
  pub op_type : QueryOp
  pub user_name : Option Bytes
  pub namespace_name : Option Bytes
  pub zone : Option Bytes
  pub servlet : Option Bytes
  pub config_name : Option Bytes
  pub config_version : Option ConfigVersion
  pub instance_address : Option Bytes

abbrev pub no_query : QueryRequest
no_query = record {
  op_type = QueryOp.query_other;
  user_name = none;
  namespace_name = none;
  zone = none;
  servlet = none;
  config_name = none;
  config_version = none;
  instance_address = none;
}

-- The text of an answer, or a format with the names that are put into it.
pub data Text : Type 0 where
  text : String → Text
  format : String → List Bytes → Text

-- QueryInstance
pub record QueryInstance : Type 0 where
  pub namespace_name : Bytes
  pub zone_name : Bytes
  pub servlet_name : Bytes
  pub env : Bytes
  pub color : Bytes
  pub version : ℕ
  pub status : ℕ
  pub address : Bytes

-- QueryUserPrivilege
pub record QueryUserPrivilege : Type 0 where
  pub username : Bytes
  pub namespace_name : Bytes
  pub servlet_rw : ℕ
  pub privilege : Bytes

-- DiscoveryQueryResponse; what is added to a list comes last.
pub record QueryResponse : Type 0 where
  pub errcode : Option ErrCode
  pub errmsg : Option Text
  pub user_privilege : List UserPrivilege
  pub namespace_infos : List NameSpaceInfo
  pub zone_infos : List ZoneInfo
  pub servlet_infos : List ServletInfo
  pub config_infos : List ConfigInfo
  pub instances : List ServletInstance
  pub flatten_instances : List QueryInstance
  pub flatten_privileges : List QueryUserPrivilege

abbrev pub no_answer : QueryResponse
no_answer = record {
  errcode = none;
  errmsg = none;
  user_privilege = [];
  namespace_infos = [];
  zone_infos = [];
  servlet_infos = [];
  config_infos = [];
  instances = [];
  flatten_instances = [];
  flatten_privileges = [];
}

-- set_errcode and set_errmsg
unfoldable pub answer : QueryResponse → ErrCode → Text → QueryResponse
answer r code msg = record r { errcode = some code; errmsg = some msg }
