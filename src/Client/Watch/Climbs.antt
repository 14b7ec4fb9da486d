-- ===== src/Client/Watch/Climbs.antt =====
-- ConfigClient::period_check: the versions that the listener of one config is told of.
use ea.Common.{
  ◌≡◌, ◌∙◌, sym, subst, Bool, true, false, Option, none, some, List, [], ◌∷◌, ◌++◌, ◌==◌, if_cases,
  if◌then◌else◌, arith, inl, inr, Bool-cases,
}
use ea.Common.Bytes.{Bytes, bytes_eq}
use ea.Common.Eq.{KeyEq}
use ea.Common.Maps.{find, Unique}
use ea.Api.{ConfigInfo}
use ea.Config.{stored_version}
use ea.Config.Order.{IsBelow, IsBelow-trans}
use ea.Client.Cache.{CacheEnv}
use ea.Client.Watch.{Watch, Event, ConfigClient}
use ea.Client.Watch.Period.{is_newer, notice, period_check}
use ea.Client.Watch.Told.{about, told}
use ea.Client.Watch.Refined.{Round, AreFair, answers, watch_told}

module _ {V : Type 0} ⦃keys : KeyEq V⦄ (env : CacheEnv V) (zero : V) where
  -- The versions told are one above the other, the first above `v`.
  abbrev pub Climbs : V → List (Event V) → Type 0
  Climbs v [] = Unit
  Climbs v (e ∷ l) = IsBelow env.versions v e.new_version × Climbs e.new_version l

  -- The versions answered do not go down, nor below `v`, and are not zero.
  abbrev pub Rises : V → List (Option ConfigInfo) → Type 0
  Rises v [] = Unit
  Rises v (none ∷ l) = Rises v l
  Rises v (some info ∷ l) =
      (env.versions.leq v (stored_version env.versions info) ≡ true)
      × ((stored_version env.versions info == zero) ≡ false)
      × Rises (stored_version env.versions info) l

  Climbs-from :
      (v w : V) (l : List (Event V)) → env.versions.leq v w ≡ true → Climbs w l → Climbs v l
  Climbs-from v w [] e h = tt
  Climbs-from v w (x ∷ l) e h = elim (Bool-cases (v == w)) [
    | inl same ↦ subst (λ u. Climbs u (x ∷ l)) (sym ((keys.beq_iff v w).1 same)) h
    | inr other ↦ (IsBelow-trans env.versions v w x.new_version (e, other) h.0, h.1)
  ]

  -- A call where its callback is set, and no call where it is not.
  Climbs-call :
      (b : Bool) (v : V) (e : Event V) (l : List (Event V))
      → IsBelow env.versions v e.new_version
      → Climbs e.new_version l
      → Climbs v ((if b then e ∷ [] else []) ++ l)
  Climbs-call true v e l up h = (up, h)
  Climbs-call false v e l up h = Climbs-from v e.new_version l up.0 h

  newer_IsBelow : (v s : V) → is_newer env zero v s ≡ true → IsBelow env.versions v s
  unfolding is_newer
  newer_IsBelow v s e = ground (arith, e)

  first_IsBelow :
      (v s : V)
      → env.versions.leq v s ≡ true
      → (s == zero) ≡ false
      → (v == zero) ≡ true
      → IsBelow env.versions v s
  first_IsBelow v s up nonzero z = (
    up,
    elim (Bool-cases (v == s)) [
      | inr other ↦ other
      | inl same ↦
          same ∙ sym (subst (λ u. (u == zero) ≡ true) ((keys.beq_iff v s).1 same) z) ∙ nonzero
    ],
  )

  Climbs-notice :
      (w : Watch V) (info : ConfigInfo) (l : List (Event V))
      → env.versions.leq w.notice_version (stored_version env.versions info) ≡ true
      → (stored_version env.versions info == zero) ≡ false
      → Climbs (stored_version env.versions info) l
      → Climbs w.notice_version (notice env zero w info ++ l)
  unfolding notice
  Climbs-notice w info l up nonzero h =
      let v = w.notice_version in
      let s = stored_version env.versions info in
      if_cases (λ (calls : List (Event V)). Climbs v (calls ++ l)) (v == zero) _ _
        (λ z. Climbs-call w.listener.on_new_config v _ l (first_IsBelow v s up nonzero z) h)
        (λ _.
          if_cases (λ (calls : List (Event V)). Climbs v (calls ++ l)) (is_newer env zero v s) _ _
            (λ newer. Climbs-call w.listener.on_new_version v _ l (newer_IsBelow v s newer) h)
            (λ _. Climbs-from v s l up h))

  Climbs-told :
      (w : Watch V) (l : List (Option ConfigInfo))
      → Rises w.notice_version l
      → Climbs w.notice_version (told env zero w l)
  unfolding told
  Climbs-told w [] h = tt
  Climbs-told w (none ∷ l) h = Climbs-told w l h
  Climbs-told w (some info ∷ l) (up, nonzero, h) =
      Climbs-notice w info
        (told env zero (record w { notice_version = stored_version env.versions info }) l) up
        nonzero (Climbs-told (record w { notice_version = stored_version env.versions info }) l h)

  -- Where `name` is watched and the client runs, in any number of rounds in which the server answers a config with
  -- that config and the other threads leave the watch of `name` alone, and where the versions answered for it do not
  -- go down, nor below the version of the watch, and are not zero: each version that its listener is told is above
  -- the one that it was told before, and above the version of the watch.
  pub watch-Climbs :
      (name : Bytes) (rounds : List (Round env zero)) (c : ConfigClient env zero) (w : Watch V)
      → AreFair env zero name rounds
      → c.shutdown ≡ false
      → Unique c.watches.entries
      → find c.watches name ≡ some w
      → Rises w.notice_version (answers env zero name rounds)
      → Climbs w.notice_version (about name (period_check env zero c rounds).1)
  watch-Climbs name rounds c w fair run u e h =
      subst (Climbs w.notice_version) (sym (watch_told env zero name rounds c w fair run u e))
        (Climbs-told w (answers env zero name rounds) h)
