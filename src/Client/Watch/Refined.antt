-- ===== src/Client/Watch/Refined.antt =====
-- ConfigClient::period_check, round after round: what the listener of one config is told.
use ea.Common.{◌≡◌, ◌∙◌, refl, ap, if◌then◌else◌, false, Option, none, some, List, [], ◌∷◌, ◌++◌}
use ea.Common.Bytes.{Bytes, bytes_eq}
use ea.Common.Eq.{KeyEq}
use ea.Common.Maps.{find, Unique}
use ea.Api.{ConfigInfo}
use ea.Client.Reads.{Read}
use ea.Client.Cache.{CacheEnv}
use ea.Client.Watch.{Watch, Event, ConfigClient}
use ea.Client.Watch.Period.{notice, check_all, check_round, period_check}
use ea.Client.Watch.Told.{
  about, about-append, AnswersByName, answered, told, told_once, check_all-about,
}
use ea.Client.Watch.Noted.{noted, set_notices-find, set_notices-Unique}

module _ {V : Type 0} ⦃keys : KeyEq V⦄ (env : CacheEnv V) (zero : V) where
  abbrev pub Round : Type 0
  Round = (Bytes → Read ConfigInfo) × (ConfigClient env zero → ConfigClient env zero)

  -- The other threads leave the watch of `name` alone and do not stop the client.
  abbrev pub LeavesWatch : Bytes → (ConfigClient env zero → ConfigClient env zero) → Type 0
  LeavesWatch name others =
      (c : ConfigClient env zero)
      → ((others c).shutdown ≡ c.shutdown)
        × (find (others c).watches name ≡ find c.watches name)
        × (Unique c.watches.entries → Unique (others c).watches.entries)

  abbrev pub AreFair : Bytes → List Round → Type 0
  AreFair name [] = Unit
  AreFair name ((latest, others) ∷ l) =
      AnswersByName latest × LeavesWatch name others × AreFair name l

  -- What the server answers for one config, round after round.
  abbrev pub answers : Bytes → List Round → List (Option ConfigInfo)
  answers name [] = []
  answers name ((latest, others) ∷ l) = answered (latest name) ∷ answers name l

  period_check-about :
      (name : Bytes) (c : ConfigClient env zero) (latest : Bytes → Read ConfigInfo)
      (others : ConfigClient env zero → ConfigClient env zero) (l : List Round)
      → c.shutdown ≡ false
      → about name (period_check env zero c ((latest, others) ∷ l)).1
        ≡ about name (check_round env zero latest others c).1
          ++ about name (period_check env zero (check_round env zero latest others c).0 l).1
  unfolding period_check
  period_check-about name c latest others l e =
      let next = check_round env zero latest others c in
      let later = period_check env zero next.0 l in
      ap
        (λ b.
          about name
            (if◌then◌else◌ {A = ConfigClient env zero × List (Event V)} b (c, [])
              (later.0, next.1 ++ later.1)).1)
        e
      ∙ about-append name next.1 later.1

  check_round-told :
      (name : Bytes) (latest : Bytes → Read ConfigInfo)
      (others : ConfigClient env zero → ConfigClient env zero) (c : ConfigClient env zero)
      (w : Watch V)
      → AnswersByName latest
      → Unique c.watches.entries
      → find c.watches name ≡ some w
      → about name (check_round env zero latest others c).1
        ≡ told_once env zero (some w) (answered (latest name))
  unfolding check_round find
  check_round-told name latest others c w own u e =
      check_all-about env zero latest name c.watches.entries own u c.cache
      ∙ ap (λ o. told_once env zero o (answered (latest name))) e

  check_round-noted :
      (name : Bytes) (latest : Bytes → Read ConfigInfo)
      (others : ConfigClient env zero → ConfigClient env zero) (c : ConfigClient env zero)
      (w : Watch V)
      → AnswersByName latest
      → LeavesWatch name others
      → Unique c.watches.entries
      → find c.watches name ≡ some w
      → find (check_round env zero latest others c).0.watches name
        ≡ noted env zero (some w) (answered (latest name)) (some w)
  unfolding check_round find
  check_round-noted name latest others c w own leaves u e =
      let c' = record c { cache = (check_all env zero latest c.cache c.watches.entries).0 } in
      set_notices-find env zero latest name c.watches.entries own u c.cache (others c').watches
      ∙ ap (λ o. noted env zero o (answered (latest name)) (find (others c').watches name)) e
      ∙ ap (noted env zero (some w) (answered (latest name))) ((leaves c').1 ∙ e)

  check_round-Unique :
      (name : Bytes) (latest : Bytes → Read ConfigInfo)
      (others : ConfigClient env zero → ConfigClient env zero) (c : ConfigClient env zero)
      → LeavesWatch name others
      → Unique c.watches.entries
      → Unique (check_round env zero latest others c).0.watches.entries
  unfolding check_round
  check_round-Unique name latest others c leaves u =
      let c' = record c { cache = (check_all env zero latest c.cache c.watches.entries).0 } in
      set_notices-Unique env zero (check_all env zero latest c.cache c.watches.entries).2
        (others c').watches ((leaves c').2 u)

  check_round-shutdown :
      (name : Bytes) (latest : Bytes → Read ConfigInfo)
      (others : ConfigClient env zero → ConfigClient env zero) (c : ConfigClient env zero)
      → LeavesWatch name others
      → (check_round env zero latest others c).0.shutdown ≡ c.shutdown
  unfolding check_round
  check_round-shutdown name latest others c leaves =
      (leaves (record c { cache = (check_all env zero latest c.cache c.watches.entries).0 })).0

  told_step :
      (w : Watch V) (o : Option ConfigInfo) (l : List (Option ConfigInfo)) (now : Option (Watch V))
      (t : List (Event V))
      → now ≡ noted env zero (some w) o (some w)
      → ((v : Watch V) → now ≡ some v → t ≡ told env zero v l)
      → told_once env zero (some w) o ++ t ≡ told env zero w (o ∷ l)
  unfolding told
  told_step w none l now t e h = h w e
  told_step w (some info) l now t e h = ap (λ x. notice env zero w info ++ x) (h _ e)

  -- Where `name` is watched, with one entry for each name, and the client runs, in any number of rounds in which the
  -- server answers a config with that config, and the other threads leave the watch of `name` alone and do not stop
  -- the client, whatever else they do: the calls about `name` are those of that one watch alone, shown what the
  -- server answers for it.
  pub watch_told :
      (name : Bytes) (rounds : List Round) (c : ConfigClient env zero) (w : Watch V)
      → AreFair name rounds
      → c.shutdown ≡ false
      → Unique c.watches.entries
      → find c.watches name ≡ some w
      → about name (period_check env zero c rounds).1 ≡ told env zero w (answers name rounds)
  unfolding period_check about told
  watch_told name [] c w fair run u e = refl
  watch_told name ((latest, others) ∷ l) c w (own, leaves, fair) run u e =
      let next = (check_round env zero latest others c).0 in
      let rest : (v : Watch V)
          → find next.watches name ≡ some v
          → about name (period_check env zero next l).1 ≡ told env zero v (answers name l) =
        λ v f.
          watch_told name l next v fair (check_round-shutdown name latest others c leaves ∙ run)
            (check_round-Unique name latest others c leaves u) f in
      period_check-about name c latest others l run
      ∙ ap (λ x. x ++ about name (period_check env zero next l).1)
          (check_round-told name latest others c w own u e)
      ∙ told_step w (answered (latest name)) (answers name l) (find next.watches name)
          (about name (period_check env zero next l).1)
          (check_round-noted name latest others c w own leaves u e) rest
