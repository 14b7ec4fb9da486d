-- ===== src/Config/Order.antt =====
-- The versions of a config stand in increasing order.
use ea.Common.{
  ◌≡◌, ◌∙◌, inl, inr, sym, subst, refl, Bool, true, false, List, [], ◌∷◌, ◌++◌, ◌==◌, arith,
  Bool-cases,
}
use ea.Common.Eq.{KeyEq}
use ea.Common.Maps.{erase_in}
use ea.Api.{ConfigInfo}
use ea.Config.{Versions, is_too_low, set_version}

not_both : {b : Bool} → b ≡ true → b ≡ false → ⊥
not_both t f = ground (arith, t, f)

module _ {V : Type 0} ⦃keys : KeyEq V⦄ (versions : Versions V) where
  abbrev pub IsBelow : V → V → Type 0
  IsBelow v w = (versions.leq v w ≡ true) × ((v == w) ≡ false)

  -- Every version of the list is above `v`.
  abbrev pub AllAbove : V → List (V × ConfigInfo) → Type 0
  AllAbove v [] = Unit
  AllAbove v ((w, info) ∷ l) = IsBelow v w × AllAbove v l

  abbrev pub AllBelow : List (V × ConfigInfo) → V → Type 0
  AllBelow [] w = Unit
  AllBelow ((v, info) ∷ l) w = IsBelow v w × AllBelow l w

  abbrev pub IsIncreasing : List (V × ConfigInfo) → Type 0
  IsIncreasing [] = Unit
  IsIncreasing ((v, info) ∷ l) = AllAbove v l × IsIncreasing l

  pub IsBelow-trans : (u v w : V) → IsBelow u v → IsBelow v w → IsBelow u w
  IsBelow-trans u v w h k = (
    versions.leq_trans u v w h.0 k.0,
    elim (Bool-cases (u == w)) [
      | inr other ↦ other
      | inl same ↦
          let back = subst (λ x. versions.leq v x ≡ true) (sym ((keys.beq_iff u w).1 same)) k.0 in
          let one = versions.leq_antisym u v h.0 back in
          same ∙ (sym ((keys.beq_iff u v).0 one) ∙ h.1)
    ],
  )

  not_above : (v w : V) → versions.leq w v ≡ false → IsBelow v w
  not_above v w e = (
    elim (versions.leq_total v w) [ inl below ↦ below | inr above ↦ elim (not_both above e) [ ] ],
    elim (Bool-cases (v == w)) [
      | inr other ↦ other
      | inl same ↦
          elim (not_both
            (subst (λ x. versions.leq w x ≡ true) (sym ((keys.beq_iff v w).1 same))
              (versions.leq_refl w))
            e) [ ]
    ],
  )

  above_last :
      (l : List (V × ConfigInfo)) (w : V)
      → IsIncreasing l
      → is_too_low versions l w ≡ false
      → AllBelow l w
  unfolding is_too_low
  above_last [] w h e = tt
  above_last ((v, info) ∷ []) w h e = (not_above v w e, tt)
  above_last ((u, info) ∷ (v, next) ∷ l) w h e =
      let rest = above_last ((v, next) ∷ l) w h.1 e in (IsBelow-trans u v w h.0.0 rest.0, rest)

  set_version-append :
      (l : List (V × ConfigInfo)) (w : V) (info : ConfigInfo)
      → AllBelow l w
      → set_version versions w info l ≡ l ++ ((w, info) ∷ [])
  unfolding set_version
  set_version-append [] w info h = refl
  set_version-append ((v, old) ∷ l) w info h =
      ground (arith, set_version-append l w info h.1, keys.beq_iff v w, versions.leq_antisym v w)

  append-AllAbove :
      (v w : V) (info : ConfigInfo) (l : List (V × ConfigInfo))
      → IsBelow v w
      → AllAbove v l
      → AllAbove v (l ++ ((w, info) ∷ []))
  append-AllAbove v w info [] b h = (b, tt)
  append-AllAbove v w info ((u, old) ∷ l) b h = (h.0, append-AllAbove v w info l b h.1)

  append-IsIncreasing :
      (l : List (V × ConfigInfo)) (w : V) (info : ConfigInfo)
      → IsIncreasing l
      → AllBelow l w
      → IsIncreasing (l ++ ((w, info) ∷ []))
  append-IsIncreasing [] w info h b = (tt, tt)
  append-IsIncreasing ((v, old) ∷ l) w info h b =
      (append-AllAbove v w info l b.0 h.0, append-IsIncreasing l w info h.1 b.1)

  erase_in-AllAbove :
      (v w : V) (l : List (V × ConfigInfo)) → AllAbove v l → AllAbove v (erase_in w l)
  unfolding erase_in
  erase_in-AllAbove v w [] h = tt
  erase_in-AllAbove v w ((u, old) ∷ l) h = ground (arith, erase_in-AllAbove v w l h.1)

  pub erase_in-IsIncreasing :
      (w : V) (l : List (V × ConfigInfo)) → IsIncreasing l → IsIncreasing (erase_in w l)
  unfolding erase_in
  erase_in-IsIncreasing w [] h = tt
  erase_in-IsIncreasing w ((u, old) ∷ l) h =
      ground (arith, erase_in-IsIncreasing w l h.1, erase_in-AllAbove u w l h.0)

  -- A version that the guard of create_config lets through goes to the end, above all the others.
  pub set_version_new :
      (l : List (V × ConfigInfo)) (w : V) (info : ConfigInfo)
      → IsIncreasing l
      → is_too_low versions l w ≡ false
      → (set_version versions w info l ≡ l ++ ((w, info) ∷ []))
        × AllBelow l w
        × IsIncreasing (set_version versions w info l)
  set_version_new l w info h e =
      let below = above_last l w h e in
      let appended = set_version-append l w info below in
      (appended, below, subst IsIncreasing (sym appended) (append-IsIncreasing l w info h below))

  AllAbove-below : (u v : V) (l : List (V × ConfigInfo)) → IsBelow u v → AllAbove v l → AllAbove u l
  AllAbove-below u v [] b h = tt
  AllAbove-below u v ((w, info) ∷ l) b h = (IsBelow-trans u v w b h.0, AllAbove-below u v l b h.1)

  set_version-AllAbove :
      (v w : V) (info : ConfigInfo) (l : List (V × ConfigInfo))
      → IsBelow v w
      → AllAbove v l
      → AllAbove v (set_version versions w info l)
  unfolding set_version
  set_version-AllAbove v w info [] b h = (b, tt)
  set_version-AllAbove v w info ((u, old) ∷ l) b h =
      ground (arith, set_version-AllAbove v w info l b h.1)

  -- A version that is set, wherever it goes, leaves the versions in increasing order.
  pub set_version-IsIncreasing :
      (w : V) (info : ConfigInfo) (l : List (V × ConfigInfo))
      → IsIncreasing l
      → IsIncreasing (set_version versions w info l)
  unfolding set_version
  set_version-IsIncreasing w info [] h = (tt, tt)
  set_version-IsIncreasing w info ((v, old) ∷ l) h = elim (Bool-cases (v == w)) [
    | inl e ↦ rw e (subst (λ x. AllAbove x l) ((keys.beq_iff v w).1 e) h.0, h.1)
    | inr e ↦ elim (Bool-cases (versions.leq w v)) [
      | inl f ↦
          let b : IsBelow w v = (f, ground (arith, e, keys.beq_iff v w, keys.beq_iff w v)) in
          rw (e, f) ((b, AllAbove-below w v l b h.0), h)
      | inr f ↦
          rw (e, f)
            (
              set_version-AllAbove v w info l (not_above v w f) h.0,
              set_version-IsIncreasing w info l h.1,
            )
    ]
  ]
