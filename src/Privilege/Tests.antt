-- ===== src/Privilege/Tests.antt =====
-- Runs of PrivilegeManager, and its theorems at concrete inputs.
use ea.Common.{ℕ, ◌≡◌, refl, true, false, none, some, [], ◌∷◌, nat_eq, bytes}
use mathlib.Core.Option.{map as map_some}
use ea.Common.Bytes.{Bytes, bytes_eq}
use ea.Common.Eq.{pair_eq}
use ea.Common.Maps.{Map, assign, find}
use ea.Api.{
  UserPrivilege, PrivilegeZone, PrivilegeServlet, ManagerRequest, op_create_user, op_add_privilege,
}
use ea.Api.Absent.{no_user_privilege, no_request}
use ea.Rocks.{Codec}
use ea.Rocks.Store.{store}
use ea.Wires.{user_wire}
use ea.Rocks.Wire.{codec_of}
use ea.Rights.{insert_right}
use ea.Rights.Grant.{right_of}
use ea.Schema.{SchemaIds}
use ea.Privilege.{user_of}
use ea.Privilege.Manager.{
  add_privilege, create_user, PrivilegeManager, apply_user_privilege, load_snapshot,
}
use ea.Privilege.Users.{zone_right_of}
use ea.Privilege.Outcomes.{user_after, IsAsSpecified, apply_user_privilege_outcome}
use ea.Privilege.Durable.{IsDurable, apply_user_privilege-IsDurable}
use ea.Privilege.Recovery.{load_snapshot_recovers}

abbrev codec : Codec UserPrivilege
codec = codec_of user_wire

-- One namespace, one zone and one servlet are known, by any name that is not empty.
abbrev id_of : ℕ → Bytes → ℕ
id_of n [] = 0
id_of n (b ∷ name) = n

abbrev ids : SchemaIds
ids = record { get_namespace_id = id_of 1; get_zone_id = id_of 5; get_servlet_id = id_of 9 }

abbrev read_zone : PrivilegeZone
read_zone = record { zone = bytes "z"; zone_id = 5; has_zone_rw = true; zone_rw = 1; force = false }

abbrev write_zone : PrivilegeZone
write_zone = record read_zone { zone_rw = 2 }

abbrev read_servlet : PrivilegeServlet
read_servlet = record {
  zone = bytes "z";
  servlet_name = bytes "s";
  zone_id = 5;
  servlet_id = 9;
  has_servlet_rw = true;
  servlet_rw = 1;
  force = false;
}

abbrev user : UserPrivilege
user = record no_user_privilege {
  username = bytes "u";
  password = some (bytes "p");
  namespace_name = bytes "n";
  privilege_zone = read_zone ∷ [];
  ip = bytes "10.0.0.1" ∷ [];
}

abbrev more : UserPrivilege
more = record user {
  privilege_zone = write_zone ∷ [];
  privilege_servlet = read_servlet ∷ [];
  ip = bytes "10.0.0.2" ∷ [];
}

abbrev create : ManagerRequest
create = record no_request { op_type = op_create_user; user_privilege = some user }

abbrev add : ManagerRequest
add = record no_request { op_type = op_add_privilege; user_privilege = some more }

abbrev start : PrivilegeManager store codec ids
start = record { user_privilege = record { entries = [] }; db = (record { entries = [] }, tt) }

abbrev created : PrivilegeManager store codec ids
created = (apply_user_privilege store codec ids op_create_user start create none).0

abbrev added : PrivilegeManager store codec ids
added = (apply_user_privilege store codec ids op_add_privilege created add none).0

rights_added : map_some (zone_right_of 5) (find added.user_privilege (bytes "u")) ≡ some (some 2)
unfolding apply_user_privilege find add_privilege create_user assign right_of insert_right
rights_added = refl

start-IsDurable : IsDurable store codec ids start
unfolding find
start-IsDurable username = tt

apply_user_privilege_outcome_example :
    IsAsSpecified store codec ids created
      (bytes "u")
      (user_after ids op_add_privilege more (find created.user_privilege (bytes "u")))
      none
      (apply_user_privilege store codec ids op_add_privilege created add none)
unfolding user_of
apply_user_privilege_outcome_example =
    apply_user_privilege_outcome store codec ids op_add_privilege created add none refl

load_snapshot_recovers_example :
    (loaded : Map Bytes UserPrivilege) × (load_snapshot store codec ids created.db ≡ some loaded)
    × ((username : Bytes) → find loaded username ≡ find created.user_privilege username)
load_snapshot_recovers_example = load_snapshot_recovers store codec ids created (
    apply_user_privilege-IsDurable store codec ids op_create_user start create none start-IsDurable)
