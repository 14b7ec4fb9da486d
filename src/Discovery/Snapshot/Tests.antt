-- ===== src/Discovery/Snapshot/Tests.antt =====
-- A snapshot of the discovery data at a concrete log, over the store in memory.
use ea.Common.{
  ℕ, ◌≡◌, ◌∙◌, refl, sym, ap, true, false, some, List, [], ◌∷◌, ◌++◌, inr, ◌==◌, nat_eq, bytes,
  if◌then◌else◌,
}
use mathlib.Core.List.{append-nil, append_assoc}
use ea.Common.Bytes.{Bytes, bytes_eq}
use ea.Common.Int.{pos}
use ea.Common.Sets.{is_empty}
use ea.Base.{BaseStateMachine}
use ea.Discovery.{DiscoveryState, on_apply}
use ea.Rocks.Store.{store, Stored}
use ea.Config.Triple.{versions, triple_eq}
use ea.Discovery.Consistent.{on_apply-IsConsistent}
use ea.Discovery.Sample.{codecs, start, start-IsConsistent, log}
use ea.Discovery.Snapshot.Restored.{LoadsDataOf, snapshot_restores}
use ea.Discovery.Snapshot.InMemory.{over, removed, tables}
use ea.Discovery.Snapshot.{on_snapshot_save, save_snapshot, put_entries, discovery_info_file}
use ea.Discovery.ParsePath.{Paths, back, index_of, parse_snapshot_index_from_path}

abbrev pieces : ℕ → Bytes → Bytes → List Bytes
pieces c cur [] = if is_empty cur then [] else cur ∷ []
pieces c cur (x ∷ s) = elim (x == c) [
  | true ↦ if is_empty cur then pieces c [] s else cur ∷ pieces c [] s
  | false ↦ pieces c (cur ++ x ∷ []) s
]

abbrev pub paths : Paths
paths = record {
  base_name = λ p. back (pieces 47 [] p);
  dir_name = λ p. [];
  str_split = λ s c. pieces c [] s;
}

abbrev path : Bytes
path = bytes "/d/snapshot_00000000000000000012"

index_of_path : parse_snapshot_index_from_path paths path false ≡ pos 12
unfolding parse_snapshot_index_from_path back index_of
index_of_path = refl

abbrev saved : DiscoveryState versions store codecs
saved = (on_apply versions store codecs start log).0

abbrev file : List (Bytes × Bytes)
file = saved.schema.db.0.entries

abbrev base : BaseStateMachine
base = record { is_leader = false; have_data = false }

abbrev db : Stored
db = over file (removed start.schema.db (1 ∷ []) (255 ∷ []))

puts_all : (w l : List (Bytes × Bytes)) → put_entries store tables w l ≡ some (w ++ l)
unfolding put_entries
puts_all w [] = ap some (sym (append-nil w))
puts_all w ((k, v) ∷ l) = puts_all (w ++ (k, v) ∷ []) l ∙ ap some (append_assoc w ((k, v) ∷ []) l)

save_runs :
    on_snapshot_save versions store codecs tables paths saved path ≡ inr (discovery_info_file, file)
unfolding on_snapshot_save save_snapshot
save_runs = rw (save_snapshot, puts_all [] file) refl

snapshot_restores_example :
    LoadsDataOf versions store codecs tables paths saved start base path
      ((discovery_info_file, file) ∷ [])
snapshot_restores_example =
    snapshot_restores versions store codecs tables paths saved start base path path
      discovery_info_file file (removed start.schema.db (1 ∷ []) (255 ∷ [])) db
      (on_apply-IsConsistent versions store codecs start log start-IsConsistent) save_runs refl refl
