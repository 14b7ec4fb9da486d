-- ===== src/Client/Cache/Rows.antt =====
-- ConfigCache: what it holds under a name and a version, and what changes where one name's versions do.
use ea.Common.{
  ◌≡◌, ◌∙◌, refl, sym, ap, Bool, Option, none, some, [], inl, inr, if◌then◌else◌, ◌==◌, Bool-cases,
  arith,
}
use ea.Common.Bytes.{Bytes, bytes_eq}
use ea.Common.Eq.{KeyEq}
use ea.Common.Maps.{find, assign, erase, find-assign, find-erase, lookup_in, erase_in}
use ea.Api.{ConfigInfo}
use ea.Config.{Listed, without_version}
use ea.Client.Cache.{CacheEnv, ConfigCache, keep_left}
use ea.Client.Cache.Ordered.{versions_at}
use ea.Client.Cache.Kept.{keep_left-versions}

-- What a cache holds under a name and a version.
abbrev pub Held : Type 0 → Type 0
Held V = Bytes → V → Option ConfigInfo

module _ {V : Type 0} where
  -- `row` under the name, and all else as it was.
  abbrev pub with_row : Bytes → (V → Option ConfigInfo) → Held V → Held V
  with_row name row f = λ j u. if name == j then row u else f j u

-- Nothing is there, so nothing is lost.
pub none-then : (b : Bool) (o : Option ConfigInfo) → o ≡ none → o ≡ (if b then none else o)
none-then b o e = ground (arith, e)

pub then-none : (b : Bool) (o : Option ConfigInfo) → o ≡ none → o ≡ (if b then o else none)
then-none b o e = ground (arith, e)

module _ {V : Type 0} ⦃keys : KeyEq V⦄ (env : CacheEnv V) where
  abbrev pub held : ConfigCache env → Held V
  held c = λ name v. lookup_in v (versions_at env.versions c.cache_map name)

  -- The versions of one name changed.
  abbrev pub OneRow : (c c' : ConfigCache env) → Bytes → Listed V → Type 0
  OneRow c c' name left =
      (j : Bytes)
      → versions_at env.versions c'.cache_map j
        ≡ (if name == j then left else versions_at env.versions c.cache_map j)

  pub held-row :
      (c c' : ConfigCache env) (name : Bytes) (left : Listed V) (row : V → Option ConfigInfo)
      → OneRow c c' name left
      → ((u : V) → lookup_in u left ≡ row u)
      → (j : Bytes) (u : V) → held c' j u ≡ with_row name row (held c) j u
  held-row c c' name left row h k j u = elim (Bool-cases (name == j)) [
    | inl e ↦ rw (h j, e) (k u)
    | inr e ↦ rw (h j, e) refl
  ]

  -- The row of a name that is not touched.
  pub same_row :
      (c : ConfigCache env) (name : Bytes)
      → OneRow c c name (versions_at env.versions c.cache_map name)
  same_row c name j = elim (Bool-cases (name == j)) [
    | inl e ↦ rw e (ap (versions_at env.versions c.cache_map) (sym ((bytes_eq.beq_iff name j).1 e)))
    | inr e ↦ rw e refl
  ]

  -- A call that changes nothing, where the row says nothing new.
  pub held-unchanged :
      (c c' : ConfigCache env) (name : Bytes) (row : V → Option ConfigInfo)
      → c' ≡ c
      → ((u : V) → held c name u ≡ row u)
      → (j : Bytes) (u : V) → held c' j u ≡ with_row name row (held c) j u
  held-unchanged c c' name row same k j u =
      ap (λ d. held d j u) same
      ∙ held-row c c name (versions_at env.versions c.cache_map name) row (same_row c name) k j u

  pub missing-none :
      (c : ConfigCache env) (name : Bytes)
      → find c.cache_map name ≡ none
      → (u : V) → held c name u ≡ none
  unfolding lookup_in
  missing-none c name e u = rw e refl

  pub assign_row :
      (c : ConfigCache env) (name : Bytes) (left : Listed V)
      → (j : Bytes)
      → versions_at env.versions (assign c.cache_map name left) j
        ≡ (if name == j then left else versions_at env.versions c.cache_map j)
  assign_row c name left j = elim (Bool-cases (name == j)) [
    | inl e ↦ rw (find-assign c.cache_map name left j, e) refl
    | inr e ↦ rw (find-assign c.cache_map name left j, e) refl
  ]

  pub without_version-row :
      (c : ConfigCache env) (name : Bytes) (v : V) (listed : Listed V) (j : Bytes)
      → versions_at env.versions (without_version env.versions c.cache_map name v listed) j
        ≡ (if name == j then erase_in v listed else versions_at env.versions c.cache_map j)
  unfolding without_version keep_left
  without_version-row c name v listed j = keep_left-versions env c name (erase_in v listed) j

  pub erased-none :
      (v u : V) (l : Listed V)
      → lookup_in v l ≡ none
      → lookup_in u l ≡ (if v == u then none else lookup_in u l)
  erased-none v u l e = ground (arith, e, keys.beq_iff v u)

  pub found-held :
      (c : ConfigCache env) (name : Bytes) (listed : Listed V)
      → find c.cache_map name ≡ some listed
      → (u : V) → held c name u ≡ lookup_in u listed
  found-held c name listed e u = rw e refl

  pub erase_row :
      (c : ConfigCache env) (name : Bytes) (j : Bytes)
      → versions_at env.versions (erase c.cache_map name) j
        ≡ (if name == j then [] else versions_at env.versions c.cache_map j)
  erase_row c name j = elim (Bool-cases (name == j)) [
    | inl e ↦ rw (find-erase c.cache_map name j, e) refl
    | inr e ↦ rw (find-erase c.cache_map name j, e) refl
  ]
