-- ===== src/Tso/Gen.antt =====
-- TSOStateMachine::gen_tso: what is granted, and what is answered where nothing is.
use ea.Common.{
  ℕ, zero, suc, ◌≡◌, refl, ◌≢◌, ◌⊎◌, inl, inr, true, false, none, some, arith, Option-cases,
  Bool-cases, ◌==◌,
}
use ea.Common.Int.{ℤ, pos, negsuc, +ℤ_parts, ◌+ℤ◌, ◌<ℤ◌, int_eq, int_beq_iff}
use ea.Api.{success, input_param_error, retry_later, exec_fail}
use ea.Tso.Messages.{TsoTimestamp, TsoRequest, TsoResponse}
use ea.Tso.{TsoObj, TsoStateMachine, max_logical, gen_round, gen_loop, gen_tso}

-- The state behind a grant of `count` timestamps.
abbrev pub moved : TsoObj → ℤ → TsoObj
moved o count = record o {
  current_timestamp = record o.current_timestamp { logical = o.current_timestamp.logical +ℤ count };
}

-- What a round that grants says of the state that it met.
pub record Granted (o : TsoObj) (count : ℤ) (t : TsoTimestamp) (o' : TsoObj) : Type 0 where
  pub from_current : t ≡ o.current_timestamp
  pub moves : o' ≡ moved o count
  pub clock_set : o.current_timestamp.physical ≢ pos 0
  pub below_max : o.current_timestamp.logical +ℤ count <ℤ max_logical

pub gen_round-Granted :
    (o : TsoObj) (count : ℤ) (t : TsoTimestamp) (o' : TsoObj)
    → gen_round o count ≡ some (t, o')
    → Granted o count t o'
unfolding gen_round
gen_round-Granted o count t o' e = record {
  from_current = ground arith;
  moves = ground arith;
  clock_set = λ z. ground (arith, int_beq_iff o.current_timestamp.physical (pos 0));
  below_max = ground arith;
}

-- The states that the loop meets, and what it does with them.
pub gen_loop_cases {ℓ} :
    (P : TsoObj → Type ℓ) (n : ℕ) (others : ℕ → TsoObj → TsoObj) (count : ℤ) (o : TsoObj)
    → ((i : ℕ) (x : TsoObj) → P x → P (others i x))
    → P o
    → ((t : TsoTimestamp) × (x : TsoObj) × P x
        × Granted x count t (gen_loop n others count o).1
        × ((gen_loop n others count o).0 ≡ some t))
      ⊎ (P (gen_loop n others count o).1 × ((gen_loop n others count o).0 ≡ none))
unfolding gen_loop
gen_loop_cases P zero others count o keep p = inr (p, refl)
gen_loop_cases P (suc n) others count o keep p = elim (Option-cases (gen_round o count)) [
  | inl e ↦ rw (e, gen_loop) (gen_loop_cases P n others count (others n o) keep (keep n o p))
  | inr ((t, o'), e) ↦ rw (e, gen_loop) (inl (t, o, p, gen_round-Granted o count t o' e, refl))
]

-- gen_tso on a healthy oracle, while the other threads keep `P`: either it answers SUCCESS with the count and
-- a start timestamp that was the oracle's own in a state with `P`, which it left moved by the count and
-- below the maximum; or it answers EXEC_FAIL. Its other answers, to a zero count and while the oracle is not
-- healthy, change nothing.
pub gen_tso_cases :
    (P : TsoObj → Type 0) (others : ℕ → TsoObj → TsoObj) (s : TsoStateMachine) (r : TsoRequest)
    (a : TsoResponse)
    → ((i : ℕ) (x : TsoObj) → P x → P (others i x))
    → P s.tso_obj
    → let s' = (gen_tso others s r a).0 in
      let answer = (gen_tso others s r a).1 in
      ((t : TsoTimestamp) × (x : TsoObj) × P x
        × Granted x r.count t s'.tso_obj
        × (answer.errcode ≡ some success)
        × (answer.start_timestamp ≡ some t)
        × (answer.count ≡ some r.count))
      ⊎ (answer.errcode ≡ some exec_fail) × P s'.tso_obj
      ⊎ (r.count ≡ pos 0) × (answer.errcode ≡ some input_param_error) × (s' ≡ s)
      ⊎ (s.is_healty ≡ false) × (answer.errcode ≡ some retry_later) × (s' ≡ s)
unfolding gen_tso
gen_tso_cases P others s r a keep p = elim (Bool-cases (r.count == pos 0)) [
  | inl z ↦ inr (inr (inl ((int_beq_iff r.count (pos 0)).1 z, rw (z, gen_tso), rw (z, gen_tso))))
  | inr nz ↦ elim (Bool-cases s.is_healty) [
    | inr sick ↦ inr (inr (inr (sick, rw (nz, sick, gen_tso), rw (nz, sick, gen_tso))))
    | inl well ↦ elim (gen_loop_cases P 50 others r.count s.tso_obj keep p) [
      | inl (t, x, px, g, e) ↦ inl (
        t,
        x,
        px,
        rw (nz, well, e, gen_tso) g,
        rw (nz, well, e, gen_tso),
        rw (nz, well, e, gen_tso),
        rw (nz, well, e, gen_tso),
      )
      | inr (p', e) ↦ inr (inl (rw (nz, well, e, gen_tso), rw (nz, well, e, gen_tso) p'))
    ]
  ]
]

gen_round_below :
    (o : TsoObj) (count : ℤ)
    → o.current_timestamp.physical ≢ pos 0
    → o.current_timestamp.logical +ℤ count <ℤ max_logical
    → gen_round o count ≡ some (o.current_timestamp, moved o count)
unfolding gen_round
gen_round_below o count set small = ground (arith, int_beq_iff o.current_timestamp.physical (pos 0))

gen_loop_first :
    (n : ℕ) (others : ℕ → TsoObj → TsoObj) (count : ℤ) (o : TsoObj) {t : TsoTimestamp} {o' : TsoObj}
    → gen_round o count ≡ some (t, o')
    → gen_loop (suc n) others count o ≡ (some t, o')
unfolding gen_loop
gen_loop_first n others count o e = rw (e, gen_loop)

-- A negative count passes gen_tso's only test of it: the answer is SUCCESS, and the logical part of the oracle
-- goes back, onto timestamps that it had granted.
pub negative_count_accepted :
    (others : ℕ → TsoObj → TsoObj) (s : TsoStateMachine) (r : TsoRequest) (a : TsoResponse) (n : ℕ)
    → r.count ≡ negsuc n
    → s.is_healty ≡ true
    → s.tso_obj.current_timestamp.physical ≢ pos 0
    → s.tso_obj.current_timestamp.logical <ℤ max_logical
    → ((gen_tso others s r a).1.errcode ≡ some success)
      × ((gen_tso others s r a).0.tso_obj.current_timestamp.logical
          <ℤ s.tso_obj.current_timestamp.logical)
unfolding gen_tso
negative_count_accepted others s r a n e well set small =
    let o = s.tso_obj in
    let first : gen_round o (negsuc n) ≡ some (o.current_timestamp, moved o (negsuc n)) =
      gen_round_below o (negsuc n) set
        (omega (arith, +ℤ_parts o.current_timestamp.logical (negsuc n))) in
    let lower = +ℤ_parts o.current_timestamp.logical (negsuc n) in
    let whole = gen_loop_first 49 others (negsuc n) o first in
    (rw (e, well, whole, gen_tso), rw (e, well, whole, gen_tso) (omega (arith, lower)))
