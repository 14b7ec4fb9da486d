-- ===== src/Tso/Tests.antt =====
-- The timestamp oracle at concrete inputs: tests, and the theorems applied.
use ea.Common.{
  ℕ, zero, suc, Option, ◌≡◌, refl, ◌⊎◌, inr, true, false, none, some, List, [], ◌∷◌, arith,
}
use ea.Common.Int.{ℤ, pos, ◌+ℤ◌, ◌-ℤ◌, ◌<ℤ◌, negsuc}
use ea.Api.{success, internal_error, exec_fail, op_gen_tso}
use ea.Tso.Messages.{TsoTimestamp, TsoRequest, no_tso_response, tso_error}
use ea.Common.Bytes.{Bytes}
use ea.Tso.{
  init, TsoObj, TsoStateMachine, TsoEntry, gen_round, gen_loop, gen_tso, falls_back, update_tso,
  apply_request, on_apply,
}
use ea.Tso.Timer.{sync_request, next_physical, next_save, update_timestamp, leader_request}
use ea.Tso.Update.{NotBack, on_apply-NotBack, update_tso_cases}
use ea.Tso.Run.{Event, gen, entry, Grant, run, step, Covers, no_timestamp_twice}
use ea.Tso.Clock.{
  InWindow, update_timestamp_advances, update_timestamp-InWindow, update_timestamp_repeats,
}
use ea.Tso.Leader.{IsRenewed}
use ea.Tso.Snapshot.{Decimal, tso_snapshot_load, tso_snapshot_files, loaded_from, snapshot_takeover}

abbrev stamp : ℕ → ℕ → TsoTimestamp
stamp physical logical = record { physical = pos physical; logical = pos logical }

abbrev oracle : ℕ → ℕ → ℕ → TsoStateMachine
oracle physical logical save = record {
  tso_obj = record { current_timestamp = stamp physical logical; last_save_physical = pos save };
  is_healty = true;
  is_leader = true;
  timer_started = true;
  have_data = true;
}

abbrev gen_request : ℤ → TsoRequest
gen_request count = record {
  op_type = op_gen_tso;
  count = count;
  current_timestamp = none;
  save_physical = none;
  force = false;
}

abbrev sync_entry : ℕ → ℕ → TsoEntry
sync_entry physical save = record {
  request = some (sync_request (stamp physical 0) (pos save));
  done = none;
}

-- Nobody else touches the oracle.
abbrev alone : ℕ → TsoObj → TsoObj
alone n o = o

grants_ten :
    (gen_tso alone (oracle 1000 5 4000) (gen_request (pos 10)) no_tso_response).1.start_timestamp
    ≡ some (stamp 1000 5)
unfolding gen_tso gen_loop gen_round ◌+ℤ◌
grants_ten = refl

-- The logical part is used up for all 50 rounds.
fails_full :
    (gen_tso alone (oracle 1000 262_140 4000) (gen_request (pos 10)) no_tso_response).1.errcode
    ≡ some exec_fail
unfolding gen_tso gen_loop gen_round ◌+ℤ◌
fails_full = refl

-- One grant, the timer's entry, another grant.
abbrev events : List Event
events = gen (pos 10) ∷ entry (sync_entry 1060 4000) ∷ gen (pos 3) ∷ []

abbrev first_grant : Grant
first_grant = record { start = stamp 1000 5; count = pos 10 }

abbrev second_grant : Grant
second_grant = record { start = stamp 1060 0; count = pos 3 }

run_grants : run (oracle 1000 5 4000) events ≡ first_grant ∷ second_grant ∷ []
unfolding run step gen_round apply_request update_tso falls_back ◌+ℤ◌
run_grants = refl

no_timestamp_twice_example : ¬ Covers second_grant (stamp 1000 9)
unfolding step gen_round apply_request update_tso falls_back ◌+ℤ◌
no_timestamp_twice_example =
    no_timestamp_twice (oracle 1000 5 4000) events [] [] [] first_grant second_grant (stamp 1000 9)
      (omega arith, (inr (omega arith), (omega arith, tt))) run_grants
      (refl, omega arith, omega arith)

-- The second entry would go back.
abbrev log : List TsoEntry
log = sync_entry 1060 4000 ∷ sync_entry 1050 4000 ∷ []

on_apply-NotBack_example :
    NotBack (oracle 1000 5 4000).tso_obj (on_apply (oracle 1000 5 4000) log).0.tso_obj
on_apply-NotBack_example = on_apply-NotBack (oracle 1000 5 4000) log (refl, (refl, tt))

update_tso_cases_example :
    let s = oracle 1000 5 4000 in
    let o' : TsoObj = record { current_timestamp = stamp 900 0; last_save_physical = pos 5000 } in
    ((update_tso s (sync_request (stamp 900 0) (pos 5000)) (some no_tso_response)
        ≡ (record s { tso_obj = o' }, some (tso_error no_tso_response success "SUCCESS")))
      × NotBack s.tso_obj o')
    ⊎ ((update_tso s (sync_request (stamp 900 0) (pos 5000)) (some no_tso_response)
          ≡ (s, some (tso_error no_tso_response internal_error "time can't fallback")))
        × (¬ NotBack s.tso_obj o'))
update_tso_cases_example =
    update_tso_cases (oracle 1000 5 4000) (stamp 900 0) (pos 5000)
      (sync_request (stamp 900 0) (pos 5000)) no_tso_response refl refl

-- At 1060 the timer moves the oracle from (1000, 5); meanwhile 20 more timestamps were granted.
timer_proposes :
    update_timestamp (oracle 1000 5 4000) (pos 1060) ≡ some (sync_request (stamp 1060 0) (pos 4000))
unfolding update_timestamp next_physical next_save ◌-ℤ◌
timer_proposes = refl

update_timestamp_advances_example :
    let o' =
      (apply_request
        (oracle 1000 25 4000)
        (some (sync_request (stamp 1060 0) (pos 4000)))
        none).0.tso_obj in
    (pos 1000 <ℤ o'.current_timestamp.physical)
    × (o'.current_timestamp.logical ≡ pos 0)
    × InWindow o'
update_timestamp_advances_example =
    update_timestamp_advances (oracle 1000 5 4000) (oracle 1000 25 4000) (pos 1060)
      (sync_request (stamp 1060 0) (pos 4000)) none timer_proposes (refl, refl) (omega arith)

update_timestamp-InWindow_example :
    InWindow
      (apply_request
        (oracle 1000 25 4000)
        (some (sync_request (stamp 1060 0) (pos 4000)))
        none).0.tso_obj
unfolding ◌+ℤ◌
update_timestamp-InWindow_example =
    update_timestamp-InWindow (oracle 1000 5 4000) (oracle 1000 25 4000) (pos 1060)
      (sync_request (stamp 1060 0) (pos 4000)) none timer_proposes (omega arith)

-- The clock is at 999, 1 ms behind the oracle, and 140000 timestamps are granted.
timer_goes_back :
    update_timestamp (oracle 1000 140_000 4000) (pos 999)
    ≡ some (sync_request (stamp 1000 0) (pos 4000))
unfolding update_timestamp next_physical next_save ◌-ℤ◌ ◌+ℤ◌
timer_goes_back = refl

update_timestamp_repeats_example :
    (o' : TsoObj) × (gen_round
        (apply_request
          (oracle 1000 140_000 4000)
          (some (sync_request (stamp 1000 0) (pos 4000)))
          none).0.tso_obj
        (pos 7)
      ≡ some (stamp 1000 0, o'))
unfolding ◌+ℤ◌
update_timestamp_repeats_example =
    update_timestamp_repeats (oracle 1000 140_000 4000) (oracle 1000 140_000 4000) (pos 999)
      (sync_request (stamp 1000 0) (pos 4000)) none timer_goes_back (refl, refl) refl (ground arith)
      (pos 7) (omega arith)

-- A text for numbers: the sign and the amount.
abbrev read_number : Bytes → Option ℤ
read_number (zero ∷ a ∷ []) = some (pos a)
read_number (suc b ∷ a ∷ []) = some (negsuc a)
read_number _ = none

abbrev write_number : ℤ → Bytes
write_number (pos a) = 0 ∷ a ∷ []
write_number (negsuc a) = 1 ∷ a ∷ []

read_written : (n : ℤ) → read_number (write_number n) ≡ some n
read_written (pos a) = refl
read_written (negsuc a) = refl

abbrev decimal : Decimal
decimal = record { to_string = write_number; stol = read_number; stol-to_string = read_written }

-- The oracle of the snapshot is at 1000, and the clock of the new leader at 900.
snapshot_takeover_example :
    let o' =
      (apply_request
        (loaded_from decimal (oracle 1000 5 4000))
        (some (leader_request (loaded_from decimal (oracle 1000 5 4000)).tso_obj (pos 900)))
        none).0.tso_obj in
    (tso_snapshot_load decimal init (tso_snapshot_files decimal (oracle 1000 5 4000))
      ≡ some (loaded_from decimal (oracle 1000 5 4000)))
    × ((IsRenewed (oracle 1000 5 4000).tso_obj (pos 900)
          × (pos 1000 <ℤ o'.current_timestamp.physical))
        ⊎ ((¬ IsRenewed (oracle 1000 5 4000).tso_obj (pos 900))
            × (o'.current_timestamp ≡ record { physical = pos 900; logical = pos 0 })))
unfolding ◌+ℤ◌ ◌-ℤ◌
snapshot_takeover_example =
    snapshot_takeover decimal (oracle 1000 5 4000) (pos 900) none (omega arith) (omega arith)
      (omega arith)
