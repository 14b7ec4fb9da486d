-- ===== src/Client/Watch/Noted.antt =====
-- The loop of ConfigClient::period_check over its updates, beside the loop over the watches that gathers them.
use ea.Common.{
  ◌≡◌, ◌∙◌, refl, sym, subst, ap, false, Option, none, some, List, [], ◌∷◌, ◌==◌, inl, inr,
  Bool-cases, Option-cases, eq_refl,
}
use mathlib.Core.Option.{none-ne-some}
use ea.Common.Bytes.{Bytes, bytes_eq, bytes_beq_iff}
use ea.Common.Eq.{KeyEq}
use ea.Common.Maps.{Map, find, assign, find-assign, lookup_in, Unique, assign-Unique}
use ea.Api.{ConfigInfo}
use ea.Config.{stored_version}
use ea.Client.Reads.{Read}
use ea.Client.Cache.{CacheEnv, ConfigCache, add_config}
use ea.Client.Watch.{Watch}
use ea.Client.Watch.Period.{check_all, set_notice, set_notices}
use ea.Client.Watch.Told.{AnswersByName, answered, Read-cases}

module _ {V : Type 0} ⦃keys : KeyEq V⦄ (env : CacheEnv V) (zero : V) where
  abbrev pub noted : Option (Watch V) → Option ConfigInfo → Option (Watch V) → Option (Watch V)
  noted none o now = now
  noted (some w) none now = now
  noted (some w) (some info) none = none
  noted (some w) (some info) (some now) =
      some (record now { notice_version = stored_version env.versions info })

  noted_rest :
      (o : Option (Watch V)) (a : Option ConfigInfo) (now : Option (Watch V))
      → o ≡ none
      → noted o a now ≡ now
  noted_rest none a now e = refl
  noted_rest (some w) a now e = elim (none-ne-some w (sym e)) [ ]

  set_notice-here :
      (m : Map Bytes (Watch V)) (w : Watch V) (info : ConfigInfo)
      → find (set_notice env zero m info.name (stored_version env.versions info)) info.name
        ≡ noted (some w) (some info) (find m info.name)
  unfolding set_notice
  set_notice-here m w info = elim (Option-cases (find m info.name)) [
    | inl e ↦ rw (set_notice, e) e
    | inr (now, e) ↦
        rw
          (
            set_notice,
            e,
            find-assign m info.name
                (record now { notice_version = stored_version env.versions info }) info.name,
            eq_refl info.name,
          )
          refl
  ]

  set_notice-there :
      (m : Map Bytes (Watch V)) (name other : Bytes) (v : V)
      → (name == other) ≡ false
      → find (set_notice env zero m name v) other ≡ find m other
  unfolding set_notice
  set_notice-there m name other v f = elim (Option-cases (find m name)) [
    | inl e ↦ rw (set_notice, e) refl
    | inr (now, e) ↦
        rw (set_notice, e, find-assign m name (record now { notice_version = v }) other, f) refl
  ]

  set_notices-here :
      (latest : Bytes → Read ConfigInfo) (k : Bytes) (w : Watch V) (cache : ConfigCache env)
      (l : List (Bytes × Watch V)) (m : Map Bytes (Watch V))
      → AnswersByName latest
      → ((c : ConfigCache env) (m' : Map Bytes (Watch V))
          → find (set_notices env zero m' (check_all env zero latest c l).2) k ≡ find m' k)
      → find (set_notices env zero m (check_all env zero latest cache ((k, w) ∷ l)).2) k
        ≡ noted (some w) (answered (latest k)) (find m k)
  unfolding check_all set_notices
  set_notices-here latest k w cache l m own rest = elim (Read-cases (latest k)) [
    | inl (code, e) ↦ rw (check_all, e) (rest cache m)
    | inr (info, e) ↦
        let v = stored_version env.versions info in
        rw (check_all, e)
          (rest (add_config env cache info).1 (set_notice env zero m info.name v)
            ∙ subst
                (λ j.
                  find (set_notice env zero m info.name v) j
                  ≡ noted (some w) (some info) (find m j))
                (own k info e) (set_notice-here m w info))
  ]

  set_notices-there :
      (latest : Bytes → Read ConfigInfo) (name k : Bytes) (w : Watch V) (cache : ConfigCache env)
      (l : List (Bytes × Watch V)) (m : Map Bytes (Watch V))
      → AnswersByName latest
      → (k == name) ≡ false
      → ((c : ConfigCache env) (m' : Map Bytes (Watch V))
          → find (set_notices env zero m' (check_all env zero latest c l).2) name
            ≡ noted (lookup_in name l) (answered (latest name)) (find m' name))
      → find (set_notices env zero m (check_all env zero latest cache ((k, w) ∷ l)).2) name
        ≡ noted (lookup_in name l) (answered (latest name)) (find m name)
  unfolding check_all set_notices
  set_notices-there latest name k w cache l m own f rest = elim (Read-cases (latest k)) [
    | inl (code, e) ↦ rw (check_all, e) (rest cache m)
    | inr (info, e) ↦
        let v = stored_version env.versions info in
        rw (check_all, e)
          (rest (add_config env cache info).1 (set_notice env zero m info.name v)
            ∙ ap (noted (lookup_in name l) (answered (latest name))) (
                set_notice-there m info.name name v
                  (subst (λ x. (x == name) ≡ false) (sym (own k info e)) f)))
  ]

  pub set_notices-find :
      (latest : Bytes → Read ConfigInfo) (name : Bytes) (l : List (Bytes × Watch V))
      → AnswersByName latest
      → Unique l
      → (cache : ConfigCache env) (m : Map Bytes (Watch V))
      → find (set_notices env zero m (check_all env zero latest cache l).2) name
        ≡ noted (lookup_in name l) (answered (latest name)) (find m name)
  unfolding check_all set_notices lookup_in
  set_notices-find latest name [] own u cache m = refl
  set_notices-find latest name ((k, w) ∷ l) own u cache m = elim (Bool-cases (k == name)) [
    | inl f ↦
        let p = (bytes_beq_iff k name).1 f in
        rw f (
          subst
            (λ j.
              find (set_notices env zero m (check_all env zero latest cache ((k, w) ∷ l)).2) j
              ≡ noted (some w) (answered (latest j)) (find m j))
            p
            (set_notices-here latest k w cache l m own (λ c m'.
              set_notices-find latest k l own u.1 c m'
              ∙ noted_rest (lookup_in k l) (answered (latest k)) (find m' k) u.0)))
    | inr f ↦
        rw f (
          set_notices-there latest name k w cache l m own f
            (set_notices-find latest name l own u.1))
  ]

  set_notice-none :
      (m : Map Bytes (Watch V)) (name : Bytes) (v : V)
      → find m name ≡ none
      → set_notice env zero m name v ≡ m
  unfolding set_notice
  set_notice-none m name v e = rw (set_notice, e) refl

  set_notice-some :
      (m : Map Bytes (Watch V)) (name : Bytes) (v : V) (now : Watch V)
      → find m name ≡ some now
      → set_notice env zero m name v ≡ assign m name (record now { notice_version = v })
  unfolding set_notice
  set_notice-some m name v now e = rw (set_notice, e) refl

  set_notice-Unique :
      (m : Map Bytes (Watch V)) (name : Bytes) (v : V)
      → Unique m.entries
      → Unique (set_notice env zero m name v).entries
  unfolding set_notice
  set_notice-Unique m name v u = elim (Option-cases (find m name)) [
    | inl e ↦ subst (λ n. Unique n.entries) (sym (set_notice-none m name v e)) u
    | inr (now, e) ↦
        subst (λ n. Unique n.entries) (sym (set_notice-some m name v now e))
          (assign-Unique m name (record now { notice_version = v }) u)
  ]

  pub set_notices-Unique :
      (ups : List (Bytes × V)) (m : Map Bytes (Watch V))
      → Unique m.entries
      → Unique (set_notices env zero m ups).entries
  unfolding set_notices
  set_notices-Unique [] m u = u
  set_notices-Unique ((name, v) ∷ l) m u =
      set_notices-Unique l (set_notice env zero m name v) (set_notice-Unique m name v u)
