-- ===== src/Tso/Clock.antt =====
-- TSOStateMachine::update_timestamp and on_leader_start: the timer and a new leader move the oracle
-- through update_tso. Between the proposal and its entry in the log gen_tso may raise the logical part.
use ea.Common.{
  ◌≡◌, refl, ◌≢◌, ◌⊎◌, inl, inr, false, some, arith, Bool-cases, Option-cases, ◌==◌, ◌∙◌, ap, subst,
  sym,
}
use ea.Common.Int.{
  ℤ, pos, pos_part, neg_part, ◌+ℤ◌, ◌<ℤ◌, ◌≤ℤ◌, +ℤ_parts, -ℤ_parts, int_eq, int_beq_iff,
}
use ea.Tso.Gen.{moved}
use ea.Tso.Messages.{TsoTimestamp, TsoRequest, TsoDone}
use ea.Tso.{
  TsoObj, TsoStateMachine, half_max_logical, max_logical, gen_round, falls_back, update_tso,
  apply_request,
}
use ea.Tso.Timer.{sync_request, next_physical, next_save, update_timestamp}

-- The saved time is ahead of the physical part by more than the guard of 1 ms.
abbrev pub InWindow : TsoObj → Type 0
InWindow o = o.current_timestamp.physical +ℤ pos 1 <ℤ o.last_save_physical

-- What gen_tso may have changed between `o` and `o'`.
abbrev pub SamePhysical : TsoObj → TsoObj → Type 0
SamePhysical o o' =
    (o'.current_timestamp.physical ≡ o.current_timestamp.physical)
    × (o'.last_save_physical ≡ o.last_save_physical)

next_save_window :
    (save next : ℤ) → (next +ℤ pos 1 <ℤ next_save save next) × (save ≤ℤ next_save save next)
unfolding next_save
next_save_window save next =
    ground (arith, +ℤ_parts next (pos 1), +ℤ_parts next (pos 3000), -ℤ_parts save next)

-- The time that the timer proposes, if it proposes any.
next_physical_cases :
    (prev : TsoTimestamp) (now next : ℤ)
    → next_physical prev now ≡ some next
    → ((prev.physical <ℤ now) × (next ≡ now))
      ⊎ ((half_max_logical <ℤ prev.logical) × (next ≡ now +ℤ pos 1))
unfolding next_physical
next_physical_cases prev now next e = ground (arith, -ℤ_parts now prev.physical)

-- update_timestamp proposes a time of next_physical, and the save time that goes with it.
update_timestamp_inv :
    (s : TsoStateMachine) (now : ℤ) (r : TsoRequest)
    → update_timestamp s now ≡ some r
    → (next : ℤ) × (next_physical s.tso_obj.current_timestamp now ≡ some next)
      × (r
          ≡ sync_request
              (record { physical = next; logical = pos 0 })
              (next_save s.tso_obj.last_save_physical next))
unfolding update_timestamp
update_timestamp_inv s now r e =
    elim (Option-cases (next_physical s.tso_obj.current_timestamp now)) [
      | inl n ↦ absurd (ground arith)
      | inr (next, n) ↦ (next, n, ground arith)
    ]

-- An update that does not fall back takes effect.
pub sync_applies :
    (s : TsoStateMachine) (current : TsoTimestamp) (save : ℤ) (d : TsoDone)
    → s.tso_obj.last_save_physical ≤ℤ save
    → s.tso_obj.current_timestamp.physical ≤ℤ current.physical
    → (apply_request s (some (sync_request current save)) d).0.tso_obj
      ≡ record { current_timestamp = current; last_save_physical = save }
unfolding apply_request update_tso falls_back
sync_applies s current save d h k = ground arith

-- An update is either taken over or changes nothing.
pub sync_cases :
    (s : TsoStateMachine) (current : TsoTimestamp) (save : ℤ) (d : TsoDone)
    → let o' = (apply_request s (some (sync_request current save)) d).0.tso_obj in
      (o' ≡ record { current_timestamp = current; last_save_physical = save }) ⊎ (o' ≡ s.tso_obj)
unfolding apply_request update_tso
sync_cases s current save d = elim (Bool-cases (falls_back s.tso_obj save current)) [
  | inl b ↦ inr (rw (b, update_tso))
  | inr b ↦ inl (rw (b, update_tso))
]

abbrev pub at_zero : ℤ → ℤ → TsoObj
at_zero physical save = record {
  current_timestamp = record { physical = physical; logical = pos 0 };
  last_save_physical = save;
}

not_zero : (p : ℤ) → p ≢ pos 0 → (p == pos 0) ≡ false
not_zero p h = ground (arith, int_beq_iff p (pos 0))

grant_at_zero :
    (p save count : ℤ)
    → p ≢ pos 0
    → count <ℤ max_logical
    → gen_round (at_zero p save) count
      ≡ some (record { physical = p; logical = pos 0 }, moved (at_zero p save) count)
unfolding gen_round
grant_at_zero p save count h small = ground (arith, not_zero p h, +ℤ_parts (pos 0) count)

module _ (s s' : TsoStateMachine) (now : ℤ) (r : TsoRequest) (d : TsoDone) where
  -- A leader whose clock is not behind the oracle: whatever the timer proposes is taken over, moves the physical
  -- part strictly up and leaves the saved time ahead of it.
  pub update_timestamp_advances :
      update_timestamp s now ≡ some r
      → SamePhysical s.tso_obj s'.tso_obj
      → s.tso_obj.current_timestamp.physical ≤ℤ now
      → let o' = (apply_request s' (some r) d).0.tso_obj in
        (s.tso_obj.current_timestamp.physical <ℤ o'.current_timestamp.physical)
        × (o'.current_timestamp.logical ≡ pos 0)
        × InWindow o'
  update_timestamp_advances e same behind =
      let (next, n, shape) = update_timestamp_inv s now r e in
      let w = next_save_window s.tso_obj.last_save_physical next in
      let up : s.tso_obj.current_timestamp.physical <ℤ next =
        elim (next_physical_cases s.tso_obj.current_timestamp now next n) [
          | inl (before, now') ↦ rw now' before
          | inr (_, later) ↦ rw later (omega (arith, +ℤ_parts now (pos 1)))
        ] in
      let taken =
        sync_applies s' (record { physical = next; logical = pos 0 })
          (next_save s.tso_obj.last_save_physical next) d (rw same.1 w.1)
          (rw same.0 (omega (arith, up))) in
      rw (shape, taken) (up, refl, w.0)

  -- Whatever the clock says, an entry of the timer keeps the saved time ahead of the physical part.
  pub update_timestamp-InWindow :
      update_timestamp s now ≡ some r
      → InWindow s'.tso_obj
      → InWindow (apply_request s' (some r) d).0.tso_obj
  update_timestamp-InWindow e window =
      let (next, n, shape) = update_timestamp_inv s now r e in
      let w = next_save_window s.tso_obj.last_save_physical next in
      rw shape
        (elim (sync_cases s' (record { physical = next; logical = pos 0 })
          (next_save s.tso_obj.last_save_physical next) d) [
            | inl taken ↦ rw taken w.0
            | inr kept ↦ rw kept window
          ])

  -- The timer of a leader whose clock is 1 ms behind the oracle, with more than half of the logical range
  -- used: it proposes the physical part that the oracle has, the update passes, and the logical part is
  -- back at 0, so a round of gen_tso hands out the timestamps from (physical, 0) on once more.
  pub update_timestamp_repeats :
      update_timestamp s now ≡ some r
      → SamePhysical s.tso_obj s'.tso_obj
      → now +ℤ pos 1 ≡ s.tso_obj.current_timestamp.physical
      → s.tso_obj.current_timestamp.physical ≢ pos 0
      → (count : ℤ) → count <ℤ max_logical
      → let start : TsoTimestamp = record {
        physical = s.tso_obj.current_timestamp.physical;
        logical = pos 0;
      } in
        (o' : TsoObj) × (gen_round (apply_request s' (some r) d).0.tso_obj count ≡ some (start, o'))
  update_timestamp_repeats e same clock set count small =
      let (next, n, shape) = update_timestamp_inv s now r e in
      let w = next_save_window s.tso_obj.last_save_physical next in
      let same_next : next ≡ s.tso_obj.current_timestamp.physical =
        elim (next_physical_cases s.tso_obj.current_timestamp now next n) [
          | inl (before, _) ↦
              absurd (omega (arith, +ℤ_parts now (pos 1), ap pos_part clock, ap neg_part clock))
          | inr (_, later) ↦ later ∙ clock
        ] in
      let taken =
        sync_applies s' (record { physical = next; logical = pos 0 })
          (next_save s.tso_obj.last_save_physical next) d (rw same.1 w.1)
          (rw (same.0, same_next) (omega arith)) in
      rw (shape, taken)
        (subst
          (λ p.
            (o' : TsoObj) × (gen_round (at_zero next (next_save s.tso_obj.last_save_physical next))
                count
              ≡ some (record { physical = p; logical = pos 0 }, o')))
          same_next
          (
            moved (at_zero next (next_save s.tso_obj.last_save_physical next)) count,
            grant_at_zero next _ count (λ z. set (sym same_next ∙ z)) small,
          ))
