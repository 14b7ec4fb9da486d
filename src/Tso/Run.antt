-- ===== src/Tso/Run.antt =====
-- The timestamp oracle over time: rounds of gen_tso, by any threads, and entries of the raft log, in
-- any order. No timestamp is granted twice.
use ea.Common.{
  ◌≡◌, refl, ◌⊎◌, inl, inr, Option, none, some, List, [], ◌∷◌, ◌++◌, arith, Option-cases, subst,
  sym,
}
use ea.Common.Int.{ℤ, pos, ◌+ℤ◌, ◌<ℤ◌, ◌≤ℤ◌, int_laws}
use ea.Tso.Messages.{TsoTimestamp}
use ea.Tso.{TsoObj, TsoStateMachine, gen_round, TsoEntry, apply_request}
use ea.Tso.Gen.{gen_round-Granted}

pub data Event : Type 0 where
  gen : ℤ → Event
  entry : TsoEntry → Event

-- `count` timestamps from `start` on.
pub record Grant : Type 0 where
  pub start : TsoTimestamp
  pub count : ℤ

-- A round that grants changes the oracle; one that does not leaves it.
unfoldable pub after_round : TsoStateMachine → Option (TsoTimestamp × TsoObj) → TsoStateMachine
after_round s none = s
after_round s (some (t, o)) = record s { tso_obj = o }

abbrev pub grants_of : ℤ → Option (TsoTimestamp × TsoObj) → List Grant → List Grant
grants_of count none rest = rest
grants_of count (some (t, o)) rest = record { start = t; count = count } ∷ rest

unfoldable pub step : TsoStateMachine → Event → TsoStateMachine
unfolding after_round
step s (gen count) = after_round s (gen_round s.tso_obj count)
step s (entry e) = (apply_request s e.request e.done).0

unfoldable pub run : TsoStateMachine → List Event → List Grant
run s [] = []
run s (gen count ∷ events) =
    grants_of count (gen_round s.tso_obj count) (run (step s (gen count)) events)
run s (entry e ∷ events) = run (step s (entry e)) events

-- Counts are positive, and an entry leaves the oracle alone or moves its physical part strictly up.
abbrev pub IsOrderly : TsoStateMachine → Event → Type 0
IsOrderly s (gen count) = pos 0 <ℤ count
IsOrderly s (entry e) =
    let o' = (apply_request s e.request e.done).0.tso_obj in
    (o' ≡ s.tso_obj) ⊎ (s.tso_obj.current_timestamp.physical <ℤ o'.current_timestamp.physical)

abbrev pub IsOrderlyRun : TsoStateMachine → List Event → Type 0
IsOrderlyRun s [] = Unit
IsOrderlyRun s (e ∷ events) = IsOrderly s e × IsOrderlyRun (step s e) events

-- `t` is `u` or comes before it.
abbrev pub NotAfter : TsoTimestamp → TsoTimestamp → Type 0
NotAfter t u = (t.physical <ℤ u.physical) ⊎ ((t.physical ≡ u.physical) × (t.logical ≤ℤ u.logical))

abbrev pub end_of : Grant → TsoTimestamp
end_of g = record g.start { logical = g.start.logical +ℤ g.count }

-- Each grant begins at `t` or later, and at the end of the one before it or later.
abbrev pub Chain : TsoTimestamp → List Grant → Type 0
Chain t [] = Unit
Chain t (g ∷ gs) = NotAfter t g.start × (pos 0 <ℤ g.count) × Chain (end_of g) gs

abbrev pub Covers : Grant → TsoTimestamp → Type 0
Covers g t =
    (t.physical ≡ g.start.physical)
    × (g.start.logical ≤ℤ t.logical)
    × (t.logical <ℤ g.start.logical +ℤ g.count)

NotAfter-trans : (t u v : TsoTimestamp) → NotAfter t u → NotAfter u v → NotAfter t v
NotAfter-trans t u v h k = ground arith

Chain-weaken : (t u : TsoTimestamp) (gs : List Grant) → NotAfter t u → Chain u gs → Chain t gs
Chain-weaken t u [] h c = tt
Chain-weaken t u (g ∷ gs) h c = (NotAfter-trans t u g.start h c.0, c.1, c.2)

step-none :
    (s : TsoStateMachine) (count : ℤ) → gen_round s.tso_obj count ≡ none → step s (gen count) ≡ s
unfolding step
step-none s count e = rw (e, after_round)

step-some :
    (s : TsoStateMachine) (count : ℤ) (t : TsoTimestamp) (o : TsoObj)
    → gen_round s.tso_obj count ≡ some (t, o)
    → (step s (gen count)).tso_obj.current_timestamp ≡ end_of (record { start = t; count = count })
unfolding step
step-some s count t o e =
    let g = gen_round-Granted s.tso_obj count t o e in
    rw (e, after_round) (cc (g.moves, g.from_current))

-- An entry that is orderly does not move the oracle back.
orderly_entry :
    (s : TsoStateMachine) (e : TsoEntry)
    → IsOrderly s (entry e)
    → NotAfter s.tso_obj.current_timestamp (step s (entry e)).tso_obj.current_timestamp
unfolding step
orderly_entry s e (inl same) = inr (cc, rw same (omega arith))
orderly_entry s e (inr up) = inl up

run-Chain :
    (s : TsoStateMachine) (events : List Event)
    → IsOrderlyRun s events
    → Chain s.tso_obj.current_timestamp (run s events)
unfolding run
run-Chain s [] ok = tt
run-Chain s (gen count ∷ events) ok =
    let rest = run-Chain (step s (gen count)) events ok.1 in
    elim (Option-cases (gen_round s.tso_obj count)) [
      | inl e ↦ rw e (
          subst
            (λ (x : TsoStateMachine).
              Chain x.tso_obj.current_timestamp (run (step s (gen count)) events))
            (step-none s count e) rest)
      | inr ((t, o), e) ↦
          let g = gen_round-Granted s.tso_obj count t o e in
          rw e (
            inr (cc g.from_current, rw g.from_current (omega arith)),
            ok.0,
            subst (λ (u : TsoTimestamp). Chain u (run (step s (gen count)) events))
                (step-some s count t o e) rest,
          )
    ]
run-Chain s (entry e ∷ events) ok =
    Chain-weaken _ _ (run (step s (entry e)) events) (orderly_entry s e ok.0)
      (run-Chain (step s (entry e)) events ok.1)

-- In a chain from `t`, no grant covers what is before `t`.
Chain-Covers :
    (t : TsoTimestamp) (before : List Grant) (g : Grant) (after : List Grant) (u : TsoTimestamp)
    → Chain t (before ++ g ∷ after)
    → Covers g u
    → NotAfter t u
Chain-Covers t [] g after u c h = NotAfter-trans t g.start u c.0 (inr (sym h.0, h.1))
Chain-Covers t (x ∷ before) g after u c h =
    NotAfter-trans t (end_of x) u
      (NotAfter-trans t x.start (end_of x) c.0 (inr (refl, omega int_laws)))
      (Chain-Covers (end_of x) before g after u c.2 h)

Chain-once :
    (t : TsoTimestamp) (before between after : List Grant) (g h : Grant) (u : TsoTimestamp)
    → Chain t (before ++ g ∷ (between ++ h ∷ after))
    → Covers g u
    → ¬ Covers h u
Chain-once t [] between after g h u c cg =
    λ ch. ground (arith, Chain-Covers (end_of g) between h after u c.2 ch)
Chain-once t (x ∷ before) between after g h u c cg =
    Chain-once (end_of x) before between after g h u c.2 cg

-- Whatever rounds of gen_tso and log entries run, in any order: if the counts are positive and each entry
-- leaves the oracle alone or moves its physical part strictly up, then a timestamp of one grant is not a
-- timestamp of any later grant.
pub no_timestamp_twice :
    (s : TsoStateMachine) (events : List Event) (before between after : List Grant) (g h : Grant)
    (u : TsoTimestamp)
    → IsOrderlyRun s events
    → run s events ≡ before ++ g ∷ (between ++ h ∷ after)
    → Covers g u
    → ¬ Covers h u
no_timestamp_twice s events before between after g h u ok e cg =
    Chain-once s.tso_obj.current_timestamp before between after g h u
      (subst (Chain s.tso_obj.current_timestamp) e (run-Chain s events ok)) cg
