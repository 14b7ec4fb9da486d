-- ===== src/Query/Newest.antt =====
-- QueryConfigManager::get_config without a version.
use ea.Common.{
  ◌≡◌, refl, subst, true, false, none, some, [], ◌∷◌, ◌==◌, arith, eq_refl, if◌then◌else◌,
  Bool-cases, inl, inr,
}
use mathlib.Core.Option.{none-ne-some}
use ea.Common.Bytes.{Bytes, bytes_eq}
use ea.Common.Eq.{KeyEq}
use ea.Common.Maps.{Map, find, lookup_in}
use ea.Common.Sets.{is_empty}
use ea.Api.{ConfigInfo}
use ea.Config.{Versions, Listed}
use ea.Config.Order.{IsBelow, AllAbove, IsIncreasing}
use ea.Query.{QueryRequest, QueryResponse}
use ea.Query.Managers.{newest, asked_config, with_config, get_config}

module _ {V : Type 0} ⦃keys : KeyEq V⦄ (versions : Versions V) where
  -- No version of the list is above `v`.
  abbrev pub NoneAbove : V → Listed V → Type 0
  NoneAbove v [] = Unit
  NoneAbove v ((w, info) ∷ l) = (versions.leq w v ≡ true) × NoneAbove v l

  lookup_in-IsBelow :
      (v w : V) (info : ConfigInfo) (l : Listed V)
      → AllAbove versions v l
      → lookup_in w l ≡ some info
      → IsBelow versions v w
  unfolding lookup_in
  lookup_in-IsBelow v w info [] h e = elim (none-ne-some info e) [ ]
  lookup_in-IsBelow v w info ((u, i) ∷ l) h e = elim (Bool-cases (u == w)) [
    | inl f ↦ subst (λ x. IsBelow versions v x) ((keys.beq_iff u w).1 f) h.0
    | inr f ↦
        lookup_in-IsBelow v w info l h.1
          (subst (λ b. (if b then some i else lookup_in w l) ≡ some info) f e)
  ]

  -- The newest entry has the highest version of the list.
  pub newest-NoneAbove :
      (l : Listed V)
      → IsIncreasing versions l
      → is_empty l ≡ false
      → (v : V) × (info : ConfigInfo) × (newest versions l ≡ some info)
        × (lookup_in v l ≡ some info)
        × NoneAbove v l
  unfolding newest lookup_in
  newest-NoneAbove [] h e = ground arith
  newest-NoneAbove ((v, info) ∷ []) h e =
      (v, info, refl, rw (eq_refl v) refl, (versions.leq_refl v, tt))
  newest-NoneAbove ((v, info) ∷ next ∷ l) h e =
      let (w, i, same, there, above) = newest-NoneAbove (next ∷ l) h.1 refl in
      let below = lookup_in-IsBelow v w i (next ∷ l) h.0 there in
      (w, i, same, rw below.1 there, (below.0, above))

  -- A query for a config without a version is answered with SUCCESS and the entry of the highest version,
  -- where the config has versions and they are in increasing order.
  pub get_config_newest :
      (configs : Map Bytes (Listed V)) (q : QueryRequest) (r : QueryResponse) (name : Bytes)
      (listed : Listed V)
      → q.config_name ≡ some name
      → q.config_version ≡ none
      → find configs name ≡ some listed
      → IsIncreasing versions listed
      → is_empty listed ≡ false
      → (v : V) × (info : ConfigInfo) × (get_config versions configs q r ≡ with_config r info)
        × (lookup_in v listed ≡ some info)
        × NoneAbove v listed
  unfolding get_config asked_config
  get_config_newest configs q r name listed e f g h k =
      let (v, info, same, there, above) = newest-NoneAbove listed h k in
      (v, info, rw (get_config, e, f, g, same) refl, there, above)
