-- ===== src/Client/Watch/Period.antt =====
-- ConfigClient::period_check: the loop that asks for the configs that are watched, and calls the listeners.
use ea.Common.{Bool, not, ◌&&◌, none, some, List, [], ◌∷◌, ◌++◌, ◌==◌, inl, inr, if◌then◌else◌}
use ea.Common.Bytes.{Bytes, bytes_eq}
use ea.Common.Eq.{KeyEq}
use ea.Common.Maps.{Map, find, assign}
use ea.Api.{ConfigInfo}
use ea.Config.{stored_version}
use ea.Client.Reads.{Read}
use ea.Client.Cache.{CacheEnv, ConfigCache, add_config}
use ea.Client.Watch.{
  Watch, Callback, new_config_callback, new_version_callback, Event, ConfigClient,
}

-- `zero` is ModuleVersion().
module _ {V : Type 0} ⦃keys : KeyEq V⦄ (env : CacheEnv V) (zero : V) where
  -- current_version < new_view
  unfoldable pub is_newer : V → V → Bool
  is_newer current new_view = env.versions.leq current new_view && not (current == new_view)

  -- One watch of a round, with what the server answers: the call, where one is made. The version in the
  -- data is zero in both, as in the source.
  unfoldable pub notice : Watch V → ConfigInfo → List (Event V)
  unfolding is_newer stored_version
  notice w info =
      let new_view = stored_version env.versions info in
      let call : Callback → List (Event V) = λ callback.
        record {
          callback = callback;
          config_name = info.name;
          current_version = zero;
          new_version = new_view;
          new_content = info.content;
        }
        ∷ [] in
      if w.notice_version == zero
      then (if w.listener.on_new_config then call new_config_callback else [])
      else if is_newer w.notice_version new_view
      then (if w.listener.on_new_version then call new_version_callback else [])
      else []

  -- The loop over the watches: the cache, the calls, and the updates.
  unfoldable pub check_all :
      (Bytes → Read ConfigInfo)
      → ConfigCache env
      → List (Bytes × Watch V)
      → ConfigCache env × List (Event V) × List (Bytes × V)
  unfolding notice stored_version add_config
  check_all latest cache [] = (cache, [], [])
  check_all latest cache ((name, w) ∷ l) = elim (latest name) [
    | inl code ↦ check_all latest cache l
    | inr info ↦
        let (cache', events, updates) = check_all latest (add_config env cache info).1 l in
        (cache', notice w info ++ events, (info.name, stored_version env.versions info) ∷ updates)
  ]

  -- The loop over the updates, and its body.
  unfoldable pub set_notice : Map Bytes (Watch V) → Bytes → V → Map Bytes (Watch V)
  set_notice m name version = elim (find m name) [
    | none ↦ m
    | some w ↦ assign m name (record w { notice_version = version })
  ]

  unfoldable pub set_notices : Map Bytes (Watch V) → List (Bytes × V) → Map Bytes (Watch V)
  unfolding set_notice
  set_notices m [] = m
  set_notices m ((name, version) ∷ l) = set_notices (set_notice m name version) l

  -- One round of period_check; `others` is what other threads do to the client while it runs.
  unfoldable pub check_round :
      (Bytes → Read ConfigInfo)
      → (ConfigClient env zero → ConfigClient env zero)
      → ConfigClient env zero
      → ConfigClient env zero × List (Event V)
  unfolding check_all set_notices
  check_round latest others c =
      let (cache, events, updates) = check_all latest c.cache c.watches.entries in
      let c' = others (record c { cache = cache }) in
      (record c' { watches = set_notices c'.watches updates }, events)

  -- period_check: the rounds until it is shut down, each with the server's answers and the other threads.
  unfoldable pub period_check :
      ConfigClient env zero
      → List ((Bytes → Read ConfigInfo) × (ConfigClient env zero → ConfigClient env zero))
      → ConfigClient env zero × List (Event V)
  unfolding check_round
  period_check c [] = (c, [])
  period_check c ((latest, others) ∷ l) =
      let (c', events) = check_round latest others c in
      let (c'', later) = period_check c' l in if c.shutdown then (c, []) else (c'', events ++ later)
