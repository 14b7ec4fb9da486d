-- ===== src/Client/Watch/Tests.antt =====
-- ConfigClient at concrete inputs.
use ea.Common.{ℕ, ◌≡◌, refl, sym, ap, true, false, some, List, [], ◌∷◌, inl, inr, map, bytes}
use mathlib.Core.Sum.{inl-ne-inr}
use ea.Common.Bytes.{Bytes, bytes_eq}
use ea.Common.Maps.{find, assign, lookup_in, Unique}
use ea.Api.{ConfigInfo, ConfigVersion}
use ea.Api.Absent.{no_config_info}
use ea.Config.{stored_version}
use ea.Config.Triple.{triple_eq}
use ea.Client.Requests.{unavailable}
use ea.Client.Reads.{Read}
use ea.Client.Cache.Sample.{env}
use ea.Client.Cache.{CacheEnv, CacheStatus, already_exists}
use ea.Client.Watch.{Watch, Event, Listener, Server, ConfigClient, get_config_newest_of}
use ea.Client.Watch.Period.{period_check, check_round, check_all, notice, set_notices, set_notice}
use ea.Client.Watch.Told.{about, told}
use ea.Client.Watch.Refined.{Round, AreFair, answers, watch_told}
use ea.Client.Watch.Climbs.{Climbs, watch-Climbs}
use ea.Client.Watch.Again.{newest_read_twice}

abbrev zero : ConfigVersion
zero = record { major = 0; minor = 0; patch = 0 }

abbrev both : Listener
both = record { on_new_config = true; on_new_version = true }

abbrev watch : Watch ConfigVersion
watch = record { notice_version = zero; listener = both }

abbrev client : ConfigClient env zero
client = record {
  cache = record {
    cache_map = record { entries = [] };
    cache_dir = [];
    is_init = true;
    dir = record { entries = [] };
  };
  watches = record { entries = (bytes "d", watch) ∷ (bytes "c", watch) ∷ [] };
  apply_version = record { entries = [] };
  client_init = true;
  shutdown = false;
}

abbrev info_of : ℕ → Bytes → ConfigInfo
info_of major name = record no_config_info {
  name = name;
  version = some (record { major = major; minor = 2; patch = 3 });
}

-- Two rounds with an answer for every config, and one between them without.
abbrev rounds : List (Round env zero)
rounds =
    ((λ name. inr (info_of 1 name)), λ c. c)
    ∷ ((λ name. inl unavailable), λ c. c)
    ∷ ((λ name. inr (info_of 4 name)), λ c. c)
    ∷ []

abbrev name_in : Read ConfigInfo → Bytes
name_in (inl code) = []
name_in (inr info) = info.name

rounds-AreFair : (name : Bytes) → AreFair env zero name rounds
rounds-AreFair name = (
  λ k info e. ap name_in (sym e),
  λ c. (refl, refl, λ u. u),
  (
    λ k info e. elim (inl-ne-inr e) [ ],
    λ c. (refl, refl, λ u. u),
    (λ k info e. ap name_in (sym e), λ c. (refl, refl, λ u. u), tt),
  ),
)

watched : find client.watches (bytes "c") ≡ some watch
unfolding find lookup_in
watched = refl

watches-Unique : Unique client.watches.entries
unfolding lookup_in
watches-Unique = (refl, (refl, tt))

watch_told_example :
    about (bytes "c") (period_check env zero client rounds).1
    ≡ told env zero watch (answers env zero (bytes "c") rounds)
watch_told_example =
    watch_told env zero (bytes "c") rounds client watch (rounds-AreFair (bytes "c")) refl
      watches-Unique watched

watch-Climbs_example :
    Climbs env zero zero (about (bytes "c") (period_check env zero client rounds).1)
unfolding stored_version
watch-Climbs_example =
    watch-Climbs env zero (bytes "c") rounds client watch (rounds-AreFair (bytes "c")) refl
      watches-Unique watched (refl, refl, (refl, refl, tt))

abbrev heard : Event ConfigVersion → Bytes × ℕ
heard e = (e.config_name, e.new_version.major)

-- Each config is told of once in each round that has an answer.
two_rounds :
    map heard (period_check env zero client rounds).1
    ≡ (bytes "d", 1) ∷ (bytes "c", 1) ∷ (bytes "d", 4) ∷ (bytes "c", 4) ∷ []
unfolding period_check check_round check_all notice set_notices set_notice find assign lookup_in
    ea.Client.Cache.add_config stored_version
two_rounds = refl

abbrev server : Server
server = record {
  get_version = λ name version. inl unavailable;
  get_latest = λ name. inr (info_of 4 name);
}

abbrev read_once : ConfigClient env zero
read_once = (get_config_newest_of env zero server client (bytes "c")).2

newest_read_twice_example :
    get_config_newest_of env zero server read_once (bytes "c")
    ≡ (already_exists, some [], read_once)
unfolding find
newest_read_twice_example =
    newest_read_twice env zero server client (bytes "c") (info_of 4 (bytes "c")) refl refl refl
