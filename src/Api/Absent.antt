-- ===== src/Api/Absent.antt =====
-- The messages of the discovery service: what an accessor returns where a message does not carry the field, and
-- messages that carry nothing.
use ea.Common.{Option, none, some, []}
use ea.Common.Bytes.{Bytes}
use ea.Common.Int.{ℤ}
use ea.Api.{
  AutoIncrement, NameSpaceInfo, ZoneInfo, ServletInfo, UserPrivilege, ConfigInfo, ServletInstance,
  ManagerRequest, ManagerResponse, op_none,
}

-- What an accessor returns where the request does not carry the message.
abbrev pub no_auto_increment : AutoIncrement
no_auto_increment = record {
  servlet_id = ℤ.pos 0;
  start_id = none;
  count = 0;
  increment_id = none;
  force = none;
}

abbrev pub no_namespace_info : NameSpaceInfo
no_namespace_info = record {
  namespace_name = [];
  namespace_id = 0;
  version = 0;
  quota = none;
  resource_tag = none;
  byte_size_per_record = none;
  replica_num = none;
  region_split_lines = none;
}

abbrev pub no_zone_info : ZoneInfo
no_zone_info = record {
  namespace_name = [];
  zone = [];
  namespace_id = 0;
  zone_id = 0;
  version = 0;
  quota = none;
  resource_tag = none;
  byte_size_per_record = none;
  replica_num = none;
  region_split_lines = none;
}

abbrev pub no_servlet_info : ServletInfo
no_servlet_info = record {
  namespace_name = [];
  zone = [];
  servlet_name = [];
  namespace_id = 0;
  zone_id = 0;
  servlet_id = 0;
  version = 0;
  resource_tag = none;
}

abbrev pub no_user_privilege : UserPrivilege
no_user_privilege = record {
  username = [];
  password = none;
  namespace_name = [];
  namespace_id = 0;
  privilege_zone = [];
  privilege_servlet = [];
  ip = [];
  need_auth_addr = none;
  resource_tag = none;
  version = 0;
}

abbrev pub no_config_info : ConfigInfo
no_config_info = record { name = []; version = none; content = [] }

abbrev pub no_instance_info : ServletInstance
no_instance_info = record {
  namespace_name = none;
  zone_name = none;
  servlet_name = none;
  address = none;
  env = none;
  color = none;
  status = none;
  weight = none;
  namespace_id = 0;
  zone_id = 0;
  servlet_id = 0;
  version = 0;
}

-- The accessor of an optional string.
abbrev pub text_of : Option Bytes → Bytes
text_of none = []
text_of (some text) = text

-- A fresh response.
abbrev pub no_response : ManagerResponse
no_response = record {
  errcode = none;
  errmsg = none;
  op_type = none;
  leader = none;
  start_id = none;
  end_id = none;
}

-- A request that carries nothing.
abbrev pub no_request : ManagerRequest
no_request = record {
  op_type = op_none;
  auto_increment = none;
  user_privilege = none;
  namespace_info = none;
  zone_info = none;
  servlet_info = none;
  config_info = none;
  instance_info = none;
}
