-- ===== src/Client/Requests/Tests.antt =====
-- The requests of the client at concrete inputs.
use ea.Common.{ℕ, refl, true, false, Option, none, some, List, [], ◌∷◌, inl, inr, bytes}
use ea.Common.Bytes.{Bytes}
use ea.Common.Int.{pos}
use ea.Api.{ConfigVersion}
use ea.Api.Absent.{no_response, no_namespace_info, no_servlet_info, no_config_info}
use ea.Client.Requests.{file_error}
use ea.Client.Requests.Reach.{AllLand, client_requests_reach}
use ea.Server.{Server}

-- One digit each, with a dot between.
abbrev split : Bytes → List Bytes
split (a ∷ d ∷ b ∷ e ∷ c ∷ []) = (a ∷ []) ∷ (b ∷ []) ∷ (c ∷ []) ∷ []
split _ = []

abbrev digit : Bytes → Option ℕ
digit (c ∷ []) = some c
digit _ = none

abbrev v1 : ConfigVersion
v1 = record { major = 1; minor = 2; patch = 3 }

abbrev server : Server
server = record {
  init_success = true;
  discovery = record { is_leader = true; have_data = true };
  auto_incr = record { is_leader = true; have_data = true };
  tso = record { is_leader = false; have_data = true };
}

client_requests_reach_example :
    AllLand
      (bytes "leader")
      (λ q. true)
      server
      no_response
      split
      digit
      (bytes "n")
      (bytes "z")
      (bytes "s")
      (bytes "1.2.3")
      (pos 9)
      v1
      true
      (inr no_namespace_info)
      (inl file_error)
      (inr no_servlet_info)
      (inr no_config_info)
      no_servlet_info
client_requests_reach_example =
    client_requests_reach (bytes "leader") (λ q. true) server no_response split digit refl refl refl
      (λ q. refl) (bytes "n") (bytes "z") (bytes "s") (bytes "1.2.3") (pos 9) v1 true
      (inr no_namespace_info) (inl file_error) (inr no_servlet_info) (inr no_config_info)
      no_servlet_info
