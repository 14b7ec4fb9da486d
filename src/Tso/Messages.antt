-- ===== src/Tso/Messages.antt =====
-- The messages of the timestamp service (eapi), and what the state machine writes into an answer.
use ea.Common.{String, Bool, Option, none, some}
use ea.Common.Bytes.{Bytes}
use ea.Common.Int.{ℤ, pos}
use ea.Api.{ErrCode, OpType}

pub record TsoTimestamp : Type 0 where
  pub physical : ℤ
  pub logical : ℤ

abbrev pub no_timestamp : TsoTimestamp
no_timestamp = record { physical = pos 0; logical = pos 0 }

pub record TsoRequest : Type 0 where
  pub op_type : OpType
  pub count : ℤ
  pub current_timestamp : Option TsoTimestamp
  pub save_physical : Option ℤ
  pub force : Bool

pub record TsoResponse : Type 0 where
  pub errcode : Option ErrCode
  pub errmsg : Option String
  pub op_type : Option OpType
  pub leader : Option Bytes
  pub system_time : Option ℤ
  pub save_physical : Option ℤ
  pub start_timestamp : Option TsoTimestamp
  pub count : Option ℤ

-- A fresh response.
abbrev pub no_tso_response : TsoResponse
no_tso_response = record {
  errcode = none;
  errmsg = none;
  op_type = none;
  leader = none;
  system_time = none;
  save_physical = none;
  start_timestamp = none;
  count = none;
}

-- `done && ((TsoClosure *) done)->response`
abbrev pub TsoDone : Type 0
TsoDone = Option TsoResponse

abbrev pub tso_error : TsoResponse → ErrCode → String → TsoResponse
tso_error r code msg = record r { errcode = some code; errmsg = some msg }

unfoldable pub set_tso_response : TsoDone → ErrCode → String → TsoDone
set_tso_response none code msg = none
set_tso_response (some r) code msg = some (tso_error r code msg)

unfoldable pub set_tso_timestamp : TsoDone → TsoTimestamp → ℤ → TsoDone
set_tso_timestamp none current save = none
set_tso_timestamp (some r) current save =
    some (record r { start_timestamp = some current; save_physical = some save })

unfoldable pub set_tso_op_type : TsoDone → OpType → TsoDone
set_tso_op_type none op = none
set_tso_op_type (some r) op = some (record r { op_type = some op })
