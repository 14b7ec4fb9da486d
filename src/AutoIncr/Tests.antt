-- ===== src/AutoIncr/Tests.antt =====
-- AutoIncrStateMachine at concrete inputs: tests, and the theorems applied.
use mathlib.Core.List.{append_assoc, append-nil}
use ea.Common.{
  ℕ, zero, suc, ◌+◌, ◌≤◌, ◌≡◌, refl, true, false, Option, none, some, List, [], ◌∷◌, ◌++◌, arith,
  inr, ap, ◌∙◌,
}
use ea.Common.Bytes.{Bytes}
use ea.Common.Int.{ℤ, pos, negsuc, int_eq}
use ea.Common.Maps.{find, empty, assign, erase}
use ea.Api.{
  OpType, op_add_id_for_auto_increment, op_drop_id_for_auto_increment, op_gen_id_for_auto_increment,
  op_update_for_auto_increment, ManagerRequest,
}
use ea.Api.Absent.{no_request, no_response}
use ea.Base.{Entry}
use ea.AutoIncr.{
  AutoIncrementMap, increment_info, gen_id, on_apply, apply_request, add_servlet_id,
  drop_servlet_id, update, set_success,
}
use ea.AutoIncr.Forward.{At, on_apply_forward}
use ea.AutoIncr.Ranges.{range, gen_ranges_disjoint}
use ea.AutoIncr.Snapshot.{
  Json, Load, AutoIncrStateMachine, snapshot_files, on_snapshot_load, snapshot_recovers,
}

abbrev request : OpType → ℤ → Option ℕ → ℕ → Option ℕ → ManagerRequest
request op id start count increment = record no_request {
  op_type = op;
  auto_increment = some (record {
    servlet_id = id;
    start_id = start;
    count = count;
    increment_id = increment;
    force = none;
  });
}

abbrev entry : ManagerRequest → Entry
entry r = record { request = some r; done = some no_response }

-- Servlet 7 stands at 100.
abbrev counters : AutoIncrementMap
counters = record { entries = (pos 7, 100) ∷ [] }

abbrev gen_10 : ManagerRequest
gen_10 = request op_gen_id_for_auto_increment (pos 7) none 10 none

abbrev gen_past_200 : ManagerRequest
gen_past_200 = request op_gen_id_for_auto_increment (pos 7) (some 200) 5 none

-- Servlet 8 is added and dropped, and servlet 7 is moved up by 20.
abbrev between : List Entry
between =
    entry (request op_add_id_for_auto_increment (pos 8) (some 1) 0 none)
    ∷ entry (request op_drop_id_for_auto_increment (pos 8) none 0 none)
    ∷ entry (request op_update_for_auto_increment (pos 7) none 0 (some 20))
    ∷ []

gen_10_answers : range (gen_id counters gen_10 (some no_response)).1 ≡ some (100, 110)
unfolding gen_id increment_info find set_success
gen_10_answers = refl

gen_ranges_disjoint_example :
    (s₁ : ℕ) × (s₂ : ℕ) × (range (gen_id counters gen_10 (some no_response)).1 ≡ some (s₁, s₁ + 10))
    × (range
          (gen_id
            (on_apply (gen_id counters gen_10 (some no_response)).0 between).0
            gen_past_200
            (some no_response)).1
        ≡ some (s₂, s₂ + 5))
    × (s₁ + 10 ≤ s₂)
unfolding gen_id increment_info find assign erase on_apply apply_request add_servlet_id
    drop_servlet_id update
gen_ranges_disjoint_example =
    gen_ranges_disjoint counters gen_10 gen_past_200 no_response no_response between 100 refl refl
      (omega arith) (tt, (refl, (inr (omega arith, refl), tt))) (omega arith)

on_apply_forward_example :
    At (λ v. 100 ≤ v) (find (on_apply counters (entry gen_10 ∷ between)).0 (pos 7))
unfolding gen_id increment_info find assign erase on_apply apply_request add_servlet_id
    drop_servlet_id update
on_apply_forward_example =
    on_apply_forward counters (pos 7) 100 (entry gen_10 ∷ between) refl
      (inr (omega arith), (tt, (refl, (inr (omega arith, refl), tt))))

abbrev gen_unknown : ManagerRequest
gen_unknown = request op_gen_id_for_auto_increment (negsuc 0) none 10 none

-- A text for JSON: 1 and a byte of a name, 0 and a value.
abbrev write_name : Bytes → ℕ → Bytes → Bytes
write_name [] v rest = 0 ∷ v ∷ rest
write_name (b ∷ name) v rest = 1 ∷ b ∷ write_name name v rest

abbrev write_members : List (Bytes × ℕ) → Bytes
write_members [] = []
write_members ((name, v) ∷ l) = write_name name v (write_members l)

abbrev prepend : Bytes × ℕ → Option (List (Bytes × ℕ)) → Option (List (Bytes × ℕ))
prepend p none = none
prepend p (some l) = some (p ∷ l)

abbrev parse_members : Bytes → Bytes → Option (List (Bytes × ℕ))
parse_members name [] = some []
parse_members name (tag ∷ []) = none
parse_members name (zero ∷ v ∷ rest) = prepend (name, v) (parse_members [] rest)
parse_members name (suc tag ∷ b ∷ rest) = parse_members (name ++ b ∷ []) rest

parse-write_name :
    (name more : Bytes) (v : ℕ) (rest : Bytes)
    → parse_members name (write_name more v rest)
      ≡ prepend (name ++ more, v) (parse_members [] rest)
parse-write_name name [] v rest = rw (append-nil name)
parse-write_name name (b ∷ more) v rest =
    parse-write_name (name ++ b ∷ []) more v rest ∙ rw (append_assoc name (b ∷ []) more)

parse-write_members : (l : List (Bytes × ℕ)) → parse_members [] (write_members l) ≡ some l
parse-write_members [] = refl
parse-write_members ((name, v) ∷ l) =
    parse-write_name [] name v (write_members l) ∙ ap (prepend (name, v)) (parse-write_members l)

abbrev name_of : ℤ → Bytes
name_of (pos n) = 0 ∷ n ∷ []
name_of (negsuc n) = 1 ∷ n ∷ []

abbrev id_of : Bytes → Option ℤ
id_of (zero ∷ n ∷ []) = some (pos n)
id_of (suc s ∷ n ∷ []) = some (negsuc n)
id_of _ = none

id_of-name_of : (n : ℤ) → id_of (name_of n) ≡ some n
id_of-name_of (pos n) = refl
id_of-name_of (negsuc n) = refl

abbrev json : Json
json = record {
  write = write_members;
  parse = parse_members [];
  to_string = name_of;
  atoi = id_of;
  parse-write = parse-write_members;
  atoi-to_string = id_of-name_of;
}

abbrev fresh : AutoIncrStateMachine
fresh = record { auto_increment_map = counters; have_data = false }

-- Servlets 7 and 8 are added, and 7 gives out ten ids.
abbrev two_servlets : List Entry
two_servlets =
    entry (request op_add_id_for_auto_increment (pos 7) (some 100) 0 none)
    ∷ entry (request op_add_id_for_auto_increment (pos 8) (some 1) 0 none)
    ∷ entry gen_10
    ∷ []

two_servlets_counters :
    (on_apply empty two_servlets).0 ≡ record { entries = (pos 7, 110) ∷ (pos 8, 1) ∷ [] }
unfolding gen_id increment_info find assign on_apply apply_request add_servlet_id empty
two_servlets_counters = refl

snapshot_recovers_example :
    ((on_snapshot_load json fresh (snapshot_files json (on_apply empty two_servlets).0)).1
      ≡ Load.loaded)
    × ((on_snapshot_load json fresh
          (snapshot_files json (on_apply empty two_servlets).0)).0.have_data
        ≡ true)
    × ((id : ℤ)
        → find
            (on_snapshot_load json fresh
              (snapshot_files json (on_apply empty two_servlets).0)).0.auto_increment_map
            id
          ≡ find (on_apply empty two_servlets).0 id)
snapshot_recovers_example = snapshot_recovers json two_servlets fresh
