-- ===== src/Instances/Tests.antt =====
-- Runs of InstanceManager, and its theorems at concrete inputs.
use ea.Common.{◌≡◌, ◌<◌, ◌≤◌, ◌+◌, refl, none, some, List, [], ◌∷◌, bytes, arith}
use mathlib.Core.Option.{none-ne-some}
use ea.Common.Bytes.{Bytes, bytes_eq}
use ea.Common.Maps.{Map, find, assign, erase, empty, Unique}
use ea.Common.Sets.{contains}
use ea.Api.{ServletInstance, ManagerRequest, op_add_instance, op_drop_instance}
use ea.Api.Absent.{no_instance_info, no_request}
use ea.Base.{if_done_set_response}
use ea.Rocks.{Op}
use ea.Rocks.Store.{store, apply_ops, apply_ops-Unique}
use ea.Wires.{instance_wire}
use ea.Rocks.Wire.{codec_of}
use ea.Schema.{SchemaIds, check_and_get_for_instance}
use ea.Instances.{Registry, set_instance_info, instance_of}
use ea.Instances.Index.{IsListed}
use ea.Instances.Manager.{
  InstanceManager, clear, add_instance, drop_instance, apply_instance, load_snapshot,
}
use ea.Instances.Sound.{IsSound, IsComplete, load_snapshot-IsComplete}
use ea.Instances.Durable.{IsDurable}
use ea.Instances.Clock.{add_instance_by_clock}
use ea.Instances.Hidden.{drop_instance_hides}

abbrev ids : SchemaIds
ids = record { get_namespace_id = λ name. 1; get_zone_id = λ name. 5; get_servlet_id = λ name. 9 }

-- an instance of the servlet n.z.s
abbrev instance_at : Bytes → ServletInstance
instance_at address = record no_instance_info {
  namespace_name = some (bytes "n");
  zone_name = some (bytes "z");
  servlet_name = some (bytes "s");
  address = some address;
  env = some (bytes "e");
}

abbrev add_at : Bytes → ManagerRequest
add_at address = record no_request {
  op_type = op_add_instance;
  instance_info = some (instance_at address);
}

abbrev start : InstanceManager store (codec_of instance_wire) ids
start = record { registry = clear; db = (record { entries = [] }, tt) }

abbrev one : InstanceManager store (codec_of instance_wire) ids
one =
    (apply_instance store (codec_of instance_wire) ids op_add_instance start (add_at (bytes "a")) 0
      none).0

abbrev two : InstanceManager store (codec_of instance_wire) ids
two =
    (apply_instance store (codec_of instance_wire) ids op_add_instance one (add_at (bytes "b")) 0
      none).0

start-IsSound : IsSound clear
unfolding clear find empty contains
start-IsSound = (
  λ k a h. ground arith,
  λ k a h. ground arith,
  λ k a h. ground arith,
  λ a i e. elim (none-ne-some i e) [ ],
)

start-IsDurable : IsDurable store (codec_of instance_wire) clear (record { entries = [] }, tt)
unfolding clear find empty
start-IsDurable = (λ a. tt, λ a i e. elim (none-ne-some i e) [ ])

abbrev registered : Bytes → ServletInstance
registered address = record (instance_at address) {
  namespace_id = 1;
  zone_id = 5;
  servlet_id = 9;
  version = 1;
}

abbrev loaded : Registry
loaded = set_instance_info clear (registered (bytes "a"))

load_snapshot-IsComplete_example : IsComplete loaded
unfolding load_snapshot find apply_instance add_instance assign
load_snapshot-IsComplete_example =
    load_snapshot-IsComplete store (codec_of instance_wire) ids one.db loaded refl

abbrev drop_a : ManagerRequest
drop_a = record no_request {
  op_type = op_drop_instance;
  instance_info = some (instance_at (bytes "a"));
}

abbrev dropped : List Op
dropped = Op.delete (3 ∷ 3 ∷ bytes "a") ∷ []

drop_instance_hides_example :
    (find
        (drop_instance store
          (codec_of instance_wire)
          ids
          two
          drop_a
          7
          none).0.registry.instance_info
        (bytes "b")
      ≡ some (registered (bytes "b")))
    × (IsListed
          (drop_instance store
            (codec_of instance_wire)
            ids
            two
            drop_a
            7
            none).0.registry.namespace_instance
          (bytes "n")
          (bytes "b")
        → ⊥)
unfolding find apply_instance add_instance clear assign erase
drop_instance_hides_example =
    drop_instance_hides store (codec_of instance_wire) ids two drop_a 7 none
      (registered (bytes "a")) (registered (bytes "b")) (bytes "b")
      (apply_ops two.db.0 dropped, apply_ops-Unique two.db.0 dropped two.db.1) refl refl refl refl
      refl

abbrev gone : InstanceManager store (codec_of instance_wire) ids
gone = (drop_instance store (codec_of instance_wire) ids one drop_a 7 none).0

abbrev value_a : Bytes
value_a = instance_wire.put (registered (bytes "a")) []

abbrev written : List Op
written = Op.put (3 ∷ 3 ∷ bytes "a") value_a ∷ []

abbrev written_db : (m : Map Bytes Bytes) × Unique m.entries
written_db = (apply_ops gone.db.0 written, apply_ops-Unique gone.db.0 written gone.db.1)

add_instance_by_clock_example :
    (60000000 < 7 + 3600000000
      → add_instance store (codec_of instance_wire) ids gone (add_at (bytes "a")) 60000000 none
        ≡ (gone, none))
    × (7 + 3600000000 ≤ 60000000
        → add_instance store (codec_of instance_wire) ids gone (add_at (bytes "a")) 60000000 none
          ≡ (
            record {
              registry = set_instance_info gone.registry (registered (bytes "a"));
              db = written_db;
            },
            none,
          ))
unfolding find check_and_get_for_instance instance_of apply_instance add_instance drop_instance
    clear assign erase if_done_set_response
add_instance_by_clock_example =
    add_instance_by_clock store (codec_of instance_wire) ids gone (add_at (bytes "a")) 60000000 7
      none (record (registered (bytes "a")) { version = 0 }) value_a written_db refl refl refl refl
      refl
