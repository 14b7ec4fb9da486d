-- ===== src/Tso/Snapshot.antt =====
-- TSOStateMachine: snapshots, which hold the saved time alone. std::to_string and std::stol are parameters, with the
-- law that a number's text reads back.
use ea.Common.{
  ◌≡◌, refl, true, Option, none, some, List, [], ◌∷◌, ◌==◌, bytes, ◌⊎◌, inl, inr, if◌then◌else◌,
  arith,
}
use ea.Common.Bytes.{Bytes, bytes_eq}
use ea.Common.Int.{ℤ, pos, ◌+ℤ◌, ◌<ℤ◌, ◌≤ℤ◌, int_laws}
use ea.Tso.Messages.{TsoDone}
use ea.Tso.{TsoObj, TsoStateMachine, init, apply_request}
use ea.Tso.Timer.{leader_request}
use ea.Tso.Clock.{InWindow, sync_applies}
use ea.Tso.Leader.{IsRenewed, leader_renews, leader_keeps}

pub record Decimal : Type 0 where
  pub to_string : ℤ → Bytes
  -- none where it throws
  pub stol : Bytes → Option ℤ
  pub stol-to_string : (n : ℤ) → stol (to_string n) ≡ some n

-- SNAPSHOT_TSO_FILE_WITH_SLASH
abbrev pub snapshot_tso_file : Bytes
snapshot_tso_file = bytes "/tso.file"

saved_or_not : (o : TsoObj) (now : ℤ) → IsRenewed o now ⊎ (¬ IsRenewed o now)
saved_or_not o now = ground arith

module _ (decimal : Decimal) where
  -- on_snapshot_save and save_snapshot: the file with its text.
  unfoldable pub tso_snapshot_files : TsoStateMachine → List (Bytes × Bytes)
  tso_snapshot_files s = (snapshot_tso_file, decimal.to_string s.tso_obj.last_save_physical) ∷ []

  -- load_tso: none is -1.
  unfoldable pub load_tso : TsoStateMachine → Bytes → Option TsoStateMachine
  load_tso s text = elim (decimal.stol text) [
    | none ↦ none
    | some n ↦ some (record s { tso_obj = record s.tso_obj { last_save_physical = n } })
  ]

  -- on_snapshot_load over the files with their texts; none is -1.
  unfoldable pub tso_snapshot_load : TsoStateMachine → List (Bytes × Bytes) → Option TsoStateMachine
  unfolding load_tso
  tso_snapshot_load s [] = some (record s { have_data = true })
  tso_snapshot_load s ((file, text) ∷ files) =
      let rest = tso_snapshot_load s files in
      if file == snapshot_tso_file
      then (elim (load_tso s text) [
        | none ↦ none
        | some s' ↦ some (record s' { have_data = true })
      ])
      else rest

  -- The oracle of a replica that has loaded a snapshot of `s`.
  abbrev pub loaded_from : TsoStateMachine → TsoStateMachine
  loaded_from s = record init {
    tso_obj = record init.tso_obj { last_save_physical = s.tso_obj.last_save_physical };
    have_data = true;
  }

  tso_snapshot_recovers :
      (s : TsoStateMachine) → tso_snapshot_load init (tso_snapshot_files s) ≡ some (loaded_from s)
  unfolding tso_snapshot_load tso_snapshot_files load_tso
  tso_snapshot_recovers s = rw (load_tso, decimal.stol-to_string s.tso_obj.last_save_physical) refl

  module _ (s : TsoStateMachine) (now : ℤ) (d : TsoDone) where
    takes_saved :
        InWindow s.tso_obj
        → pos 0 ≤ℤ s.tso_obj.current_timestamp.physical
        → IsRenewed s.tso_obj now
        → s.tso_obj.current_timestamp.physical
          <ℤ (apply_request
              (loaded_from s)
              (some (leader_request (loaded_from s).tso_obj now))
              d).0.tso_obj.current_timestamp.physical
    takes_saved window old h =
        let t = loaded_from s in
        rw
          (
            leader_renews t.tso_obj now h,
            sync_applies t
                (record { physical = s.tso_obj.last_save_physical +ℤ pos 1; logical = pos 0 })
                (now +ℤ pos 3000) d (omega (int_laws, h)) (omega (int_laws, window, old)),
          )
          (omega (int_laws, window))

    takes_clock :
        pos 0 ≤ℤ now
        → ¬ IsRenewed s.tso_obj now
        → (apply_request
            (loaded_from s)
            (some (leader_request (loaded_from s).tso_obj now))
            d).0.tso_obj.current_timestamp
          ≡ record { physical = now; logical = pos 0 }
    takes_clock clock h =
        let t = loaded_from s in
        rw
          (
            leader_keeps t.tso_obj now h,
            sync_applies t (record { physical = now; logical = pos 0 }) s.tso_obj.last_save_physical
                d (omega int_laws) clock,
          )
          refl

    -- A new replica that loads a snapshot of an oracle has its saved time, and no timestamp. As the leader it
    -- either starts above every time that the oracle gave out, where the saved time is less than 50 ms
    -- ahead of its clock, or starts at its clock, however far the oracle was ahead of that. The
    -- oracle's times are not negative and within its window, and the clock is not negative.
    pub snapshot_takeover :
        InWindow s.tso_obj
        → pos 0 ≤ℤ s.tso_obj.current_timestamp.physical
        → pos 0 ≤ℤ now
        → let o' =
            (apply_request
              (loaded_from s)
              (some (leader_request (loaded_from s).tso_obj now))
              d).0.tso_obj in
          (tso_snapshot_load init (tso_snapshot_files s) ≡ some (loaded_from s))
          × ((IsRenewed s.tso_obj now
                × (s.tso_obj.current_timestamp.physical <ℤ o'.current_timestamp.physical))
              ⊎ ((¬ IsRenewed s.tso_obj now)
                  × (o'.current_timestamp ≡ record { physical = now; logical = pos 0 })))
    snapshot_takeover window old clock = (
      tso_snapshot_recovers s,
      elim (saved_or_not s.tso_obj now) [
        | inl h ↦ inl (h, takes_saved window old h)
        | inr h ↦ inr (h, takes_clock clock h)
      ],
    )
