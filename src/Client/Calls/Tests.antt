-- ===== src/Client/Calls/Tests.antt =====
-- The calls of the client at concrete inputs.
use ea.Common.{refl, some, bytes}
use ea.Common.Int.{pos}
use ea.Api.{ErrCode, ManagerRequest, ManagerResponse}
use ea.Api.Absent.{no_response, no_namespace_info, no_zone_info, no_servlet_info, no_config_info}
use ea.Client.{check_valid_name_type, check_from, allow_char}
use ea.Common.Sets.{contains}
use ea.Client.Requests.{Status, ok_status}
use ea.Client.Calls.Hidden.{HidesRefusals, Refuses, refusals_hidden}

abbrev refusal : ManagerResponse
refusal = record no_response { errcode = some ErrCode.input_param_error }

abbrev send : ManagerRequest → Status × ManagerResponse
send q = (ok_status, refusal)

refuses : Refuses send ErrCode.success
refuses q = (ErrCode.input_param_error, refusal, refl, refl, refl)

refusals_hidden_example :
    HidesRefusals send ErrCode.success
      (bytes "n")
      (bytes "z")
      (bytes "s")
      (pos 9)
      (record { major = 1; minor = 2; patch = 3 })
      no_namespace_info
      no_zone_info
      no_servlet_info
      no_config_info
unfolding check_valid_name_type check_from allow_char contains
refusals_hidden_example =
    refusals_hidden send ErrCode.success (bytes "n") (bytes "z") (bytes "s") (pos 9)
      (record { major = 1; minor = 2; patch = 3 }) no_namespace_info no_zone_info no_servlet_info
      no_config_info refuses refl
