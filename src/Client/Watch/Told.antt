-- ===== src/Client/Watch/Told.antt =====
-- ConfigClient::period_check: what the listener of one config is told, round after round.
use ea.Common.{
  ◌≡◌, ◌∙◌, refl, sym, subst, ap, false, Option, none, some, List, [], ◌∷◌, ◌++◌, ◌==◌, inl, inr,
  if◌then◌else◌, Bool-cases, arith, ◌⊎◌,
}
use mathlib.Core.List.{append-nil}
use mathlib.Core.Option.{none-ne-some}
use ea.Common.Bytes.{Bytes, bytes_eq, bytes_beq_iff}
use ea.Common.Eq.{KeyEq}
use ea.Common.Maps.{lookup_in, Unique}
use ea.Api.{ConfigInfo}
use ea.Config.{stored_version}
use ea.Client.Requests.{StatusCode}
use ea.Client.Reads.{Read}
use ea.Client.Cache.{CacheEnv, ConfigCache, add_config}
use ea.Client.Watch.{Watch, Event}
use ea.Client.Watch.Period.{notice, check_all}

-- The calls about one config.
unfoldable pub about : {V : Type 0} → Bytes → List (Event V) → List (Event V)
about name [] = []
about name (e ∷ l) = let rest = about name l in if e.config_name == name then e ∷ rest else rest

pub about-append :
    {V : Type 0} (name : Bytes) (l r : List (Event V))
    → about name (l ++ r) ≡ about name l ++ about name r
unfolding about
about-append name [] r = refl
about-append name (e ∷ l) r = elim (Bool-cases (e.config_name == name)) [
  | inl f ↦ rw f (ap (λ x. e ∷ x) (about-append name l r))
  | inr f ↦ rw f (about-append name l r)
]

-- The server answers for a config with that config.
abbrev pub AnswersByName : (Bytes → Read ConfigInfo) → Type 0
AnswersByName latest =
    (name : Bytes) (info : ConfigInfo) → latest name ≡ inr info → info.name ≡ name

abbrev pub answered : Read ConfigInfo → Option ConfigInfo
answered (inl code) = none
answered (inr info) = some info

pub Read-cases :
    {A : Type 0} (r : Read A) → ((code : StatusCode) × (r ≡ inl code)) ⊎ ((a : A) × (r ≡ inr a))
Read-cases (inl code) = inl (code, refl)
Read-cases (inr a) = inr (a, refl)

module _ {V : Type 0} ⦃keys : KeyEq V⦄ (env : CacheEnv V) (zero : V) where
  -- One watch alone: it is told of what the server answers, round after round.
  unfoldable pub told : Watch V → List (Option ConfigInfo) → List (Event V)
  unfolding notice stored_version
  told w [] = []
  told w (none ∷ l) = told w l
  told w (some info ∷ l) =
      notice env zero w info
      ++ told (record w { notice_version = stored_version env.versions info }) l

  abbrev pub told_once : Option (Watch V) → Option ConfigInfo → List (Event V)
  told_once none o = []
  told_once (some w) none = []
  told_once (some w) (some info) = notice env zero w info

  about-notice :
      (name : Bytes) (w : Watch V) (info : ConfigInfo)
      → about name (notice env zero w info)
        ≡ (if info.name == name then notice env zero w info else [])
  unfolding about notice
  about-notice name w info = ground arith

  -- `o` stands for what the rest of the watches have under the name.
  told_rest : (o : Option (Watch V)) (a : Option ConfigInfo) → o ≡ none → told_once o a ≡ []
  told_rest none a e = refl
  told_rest (some w) a e = elim (none-ne-some w (sym e)) [ ]

  check_all-here :
      (latest : Bytes → Read ConfigInfo) (k : Bytes) (w : Watch V) (cache : ConfigCache env)
      (l : List (Bytes × Watch V))
      → AnswersByName latest
      → ((c : ConfigCache env) → about k (check_all env zero latest c l).1 ≡ [])
      → about k (check_all env zero latest cache ((k, w) ∷ l)).1
        ≡ told_once (some w) (answered (latest k))
  unfolding check_all
  check_all-here latest k w cache l own rest = elim (Read-cases (latest k)) [
    | inl (code, e) ↦ rw (check_all, e) (rest cache)
    | inr (info, e) ↦
        let next = (add_config env cache info).1 in
        rw
          (
            check_all,
            e,
            about-append k (notice env zero w info) (check_all env zero latest next l).1,
            rest next,
            about-notice k w info,
            (bytes_beq_iff info.name k).0 (own k info e),
            append-nil (notice env zero w info),
          )
          refl
  ]

  check_all-there :
      (latest : Bytes → Read ConfigInfo) (name k : Bytes) (w : Watch V) (cache : ConfigCache env)
      (l : List (Bytes × Watch V)) (t : List (Event V))
      → AnswersByName latest
      → (k == name) ≡ false
      → ((c : ConfigCache env) → about name (check_all env zero latest c l).1 ≡ t)
      → about name (check_all env zero latest cache ((k, w) ∷ l)).1 ≡ t
  unfolding check_all
  check_all-there latest name k w cache l t own f rest = elim (Read-cases (latest k)) [
    | inl (code, e) ↦ rw (check_all, e) (rest cache)
    | inr (info, e) ↦
        let next = (add_config env cache info).1 in
        rw
          (
            check_all,
            e,
            about-append name (notice env zero w info) (check_all env zero latest next l).1,
            about-notice name w info,
            subst (λ x. (x == name) ≡ false) (sym (own k info e)) f,
          )
          (rest next)
  ]

  pub check_all-about :
      (latest : Bytes → Read ConfigInfo) (name : Bytes) (l : List (Bytes × Watch V))
      → AnswersByName latest
      → Unique l
      → (cache : ConfigCache env)
      → about name (check_all env zero latest cache l).1
        ≡ told_once (lookup_in name l) (answered (latest name))
  unfolding check_all about lookup_in
  check_all-about latest name [] own u cache = refl
  check_all-about latest name ((k, w) ∷ l) own u cache = elim (Bool-cases (k == name)) [
    | inl f ↦
        let p = (bytes_beq_iff k name).1 f in
        rw f (
          subst
            (λ j.
              about j (check_all env zero latest cache ((k, w) ∷ l)).1
              ≡ told_once (some w) (answered (latest j)))
            p
            (check_all-here latest k w cache l own (λ c.
              check_all-about latest k l own u.1 c
              ∙ told_rest (lookup_in k l) (answered (latest k)) u.0)))
    | inr f ↦ rw f (
        check_all-there latest name k w cache l
          (told_once (lookup_in name l) (answered (latest name))) own f
          (check_all-about latest name l own u.1))
  ]
