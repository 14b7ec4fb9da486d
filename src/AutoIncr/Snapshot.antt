-- ===== src/AutoIncr/Snapshot.antt =====
-- AutoIncrStateMachine: snapshots. The JSON text is rapidjson's, a name is read back by
-- turbo::Atoi: both are parameters, with what the code relies on as their laws.
use ea.Common.{
  ℕ, ◌≡◌, refl, Bool, true, Option, none, some, List, [], ◌∷◌, ◌==◌, bytes, ap, if◌then◌else◌,
}
use ea.Common.Bytes.{Bytes, bytes_eq}
use ea.Common.Int.{ℤ, int_eq}
use ea.Common.Maps.{find, empty, assign, assign_all, assign_all-entries}
use ea.Base.{Entry}
use ea.AutoIncr.{AutoIncrementMap, on_apply}
use ea.AutoIncr.Replicas.{on_apply-Unique, empty-Unique}

pub record Json : Type 0 where
  -- the text of an object with these members, whose values are unsigned 64-bit numbers
  pub write : List (Bytes × ℕ) → Bytes
  -- its members, or none where the text is no JSON
  pub parse : Bytes → Option (List (Bytes × ℕ))
  -- std::to_string of an int64_t, and turbo::Atoi<int64_t>
  pub to_string : ℤ → Bytes
  pub atoi : Bytes → Option ℤ
  pub parse-write : (l : List (Bytes × ℕ)) → parse (write l) ≡ some l
  pub atoi-to_string : (n : ℤ) → atoi (to_string n) ≡ some n

pub record AutoIncrStateMachine : Type 0 where
  pub auto_increment_map : AutoIncrementMap
  pub have_data : Bool

-- What a load ends with: a return value of 0, one of -1, or a failed `.value()`.
pub data Load : Type 0 where
  loaded refused crashed : Load

module _ (json : Json) where
  -- save_auto_increment
  unfoldable pub members : List (ℤ × ℕ) → List (Bytes × ℕ)
  members [] = []
  members ((id, max_id) ∷ l) = (json.to_string id, max_id) ∷ members l

  unfoldable pub save_auto_increment : AutoIncrementMap → Bytes
  unfolding members
  save_auto_increment m = json.write (members m.entries)

  -- the loop of parse_json_string
  unfoldable pub load_members : AutoIncrementMap → List (Bytes × ℕ) → AutoIncrementMap × Load
  load_members m [] = (m, Load.loaded)
  load_members m ((name, max_id) ∷ l) = elim (json.atoi name) [
    | none ↦ (m, Load.crashed)
    | some id ↦ load_members (assign m id max_id) l
  ]

  unfoldable pub parse_json_string : AutoIncrementMap → Bytes → AutoIncrementMap × Load
  unfolding load_members
  parse_json_string m text = elim (json.parse text) [
    | none ↦ (m, Load.refused)
    | some l ↦ load_members m l
  ]

  -- `_auto_increment_map.clear()`, and the file's text parsed
  unfoldable pub load_auto_increment : AutoIncrementMap → Bytes → AutoIncrementMap × Load
  unfolding parse_json_string
  load_auto_increment m text = parse_json_string empty text

  -- on_snapshot_load over the files of the snapshot, each with its text: stops at a failed load,
  -- and sets `have_data` behind the last file.
  unfoldable pub on_snapshot_load :
      AutoIncrStateMachine → List (Bytes × Bytes) → AutoIncrStateMachine × Load
  unfolding load_auto_increment
  on_snapshot_load s [] = (record s { have_data = true }, Load.loaded)
  on_snapshot_load s ((file, text) ∷ files) =
      if file == bytes "/max_id.json"
      then (let (m, result) = load_auto_increment s.auto_increment_map text in
          let s' = record s { auto_increment_map = m } in
          let rest = on_snapshot_load s' files in
          elim result [
            | Load.loaded ↦ rest
            | Load.refused ↦ (s', Load.refused)
            | Load.crashed ↦ (s', Load.crashed)
          ])
      else (let rest = on_snapshot_load s files in rest)

  -- save_snapshot: the file that it adds.
  unfoldable pub snapshot_files : AutoIncrementMap → List (Bytes × Bytes)
  snapshot_files m = (bytes "/max_id.json", save_auto_increment m) ∷ []

  load_saved :
      (m : AutoIncrementMap) (l : List (ℤ × ℕ))
      → load_members m (members l) ≡ (assign_all m l, Load.loaded)
  unfolding members load_members assign_all
  load_saved m [] = refl
  load_saved m ((id, max_id) ∷ l) =
      rw (json.atoi-to_string id, load_members) (load_saved (assign m id max_id) l)

  reload :
      (m old : AutoIncrementMap)
      → load_auto_increment old (save_auto_increment m) ≡ (assign_all empty m.entries, Load.loaded)
  unfolding load_auto_increment save_auto_increment
  reload m old =
      rw (json.parse-write (members m.entries), parse_json_string) (load_saved empty m.entries)

  load_files :
      (m : AutoIncrementMap) (s : AutoIncrStateMachine)
      → on_snapshot_load s (snapshot_files m) ≡ (
        record { auto_increment_map = assign_all empty m.entries; have_data = true },
        Load.loaded,
      )
  unfolding on_snapshot_load snapshot_files
  load_files m s = rw (
    ap (λ (p : AutoIncrementMap × Load). p.1) (reload m s.auto_increment_map),
    ap (λ (p : AutoIncrementMap × Load). p.0) (reload m s.auto_increment_map),
  )

  -- The counters that any log leaves, saved and then loaded over any state, are all there again, no
  -- other is, and the state machine has data.
  pub snapshot_recovers :
      (log : List Entry) (s : AutoIncrStateMachine)
      → let files = snapshot_files (on_apply empty log).0 in
        ((on_snapshot_load s files).1 ≡ Load.loaded)
        × ((on_snapshot_load s files).0.have_data ≡ true)
        × ((id : ℤ)
            → find (on_snapshot_load s files).0.auto_increment_map id
              ≡ find (on_apply empty log).0 id)
  snapshot_recovers log s =
      let m = (on_apply empty log).0 in
      rw (load_files m s)
        (refl, refl, λ id. assign_all-entries m id (on_apply-Unique empty log empty-Unique))
