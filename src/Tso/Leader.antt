-- ===== src/Tso/Leader.antt =====
-- TSOStateMachine::on_leader_start: where a new leader puts the oracle.
use ea.Common.{◌≡◌, refl, ◌⊎◌, inl, inr, some, arith}
use ea.Common.Int.{ℤ, pos, ◌+ℤ◌, ◌-ℤ◌, ◌<ℤ◌, ◌≤ℤ◌, int_laws}
use ea.Tso.Messages.{TsoDone}
use ea.Tso.{TsoObj, TsoStateMachine, update_timestamp_interval_ms, apply_request}
use ea.Tso.Timer.{sync_request, leader_request}
use ea.Tso.Clock.{InWindow, sync_applies, sync_cases}

-- The saved time is less than 50 ms ahead of the clock.
abbrev pub IsRenewed : TsoObj → ℤ → Type 0
IsRenewed o now = o.last_save_physical -ℤ now <ℤ update_timestamp_interval_ms

pub leader_renews :
    (o : TsoObj) (now : ℤ)
    → IsRenewed o now
    → leader_request o now
      ≡ sync_request
          (record { physical = o.last_save_physical +ℤ pos 1; logical = pos 0 })
          (now +ℤ pos 3000)
unfolding leader_request
leader_renews o now h = ground arith

pub leader_keeps :
    (o : TsoObj) (now : ℤ)
    → ¬ IsRenewed o now
    → leader_request o now
      ≡ sync_request (record { physical = now; logical = pos 0 }) o.last_save_physical
unfolding leader_request
leader_keeps o now h = ground arith

renewed_window :
    (save now : ℤ)
    → save -ℤ now <ℤ pos 50
    → (save +ℤ pos 1 +ℤ pos 1 <ℤ now +ℤ pos 3000) × (save ≤ℤ now +ℤ pos 3000)
renewed_window save now h = omega int_laws

module _ (s : TsoStateMachine) (now : ℤ) (d : TsoDone) where
  -- With the saved time used up, or nearly, the new leader starts 1 ms above it: above every physical part
  -- that an oracle within its window ever had. The update is taken over, and the saved time is 3 s ahead
  -- of the clock.
  pub leader_start_above_saved :
      IsRenewed s.tso_obj now
      → InWindow s.tso_obj
      → let o' = (apply_request s (some (leader_request s.tso_obj now)) d).0.tso_obj in
        (s.tso_obj.last_save_physical <ℤ o'.current_timestamp.physical)
        × (s.tso_obj.current_timestamp.physical <ℤ o'.current_timestamp.physical)
        × (o'.last_save_physical ≡ now +ℤ pos 3000)
        × InWindow o'
  leader_start_above_saved h window =
      let w = renewed_window s.tso_obj.last_save_physical now h in
      let taken =
        sync_applies s
          (record { physical = s.tso_obj.last_save_physical +ℤ pos 1; logical = pos 0 })
          (now +ℤ pos 3000) d w.1 (omega (int_laws, window)) in
      rw (leader_renews s.tso_obj now h, taken)
        (omega int_laws, omega (int_laws, window), refl, w.0)

  -- Where the saved time is 50 ms or more ahead of its clock, a new leader starts at its clock, within the
  -- saved time, or, where the clock is behind the oracle, its update is refused and changes nothing.
  pub leader_start_at_clock :
      ¬ IsRenewed s.tso_obj now
      → InWindow s.tso_obj
      → let o' = (apply_request s (some (leader_request s.tso_obj now)) d).0.tso_obj in
        (o' ≡ s.tso_obj)
        ⊎ ((o' ≡ record {
          current_timestamp = record { physical = now; logical = pos 0 };
          last_save_physical = s.tso_obj.last_save_physical;
        })
            × InWindow o')
  leader_start_at_clock h window =
      rw (leader_keeps s.tso_obj now h)
        (elim (sync_cases s (record { physical = now; logical = pos 0 })
          s.tso_obj.last_save_physical d) [
            | inr kept ↦ inl kept
            | inl taken ↦ inr (taken, rw taken (omega (int_laws, h)))
          ])
