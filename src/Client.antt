-- ===== src/Client.antt =====
-- ea/client/utility: the check of a name that the client sends.
use ea.Common.{
  ℕ, ◌+◌, zero, suc, Bool, true, false, Option, none, some, List, [], ◌∷◌, nat_eq, bytes,
  if◌then◌else◌,
}
use ea.Common.Bytes.{Bytes}
use ea.Common.Sets.{contains}
pub mod Sender
pub mod Requests
pub mod Calls
pub mod Reads
pub mod Cache
pub mod Watch
mod Names
mod Tests

-- The initializer of the set: Q stands twice, and W is not there, as in the source.
unfoldable pub allow_char : Bytes
allow_char = bytes "abcdefghijklmnopqrstuvwxyz0123456789_ABCDEFGHIJKLMNOPQRSTUVQXYZ"

-- The loop from the index `i`: the index and the character of the error, or none where the status is ok.
unfoldable pub check_from : ℕ → Bytes → Option (ℕ × ℕ)
check_from i [] = none
check_from i (c ∷ ns) =
    let rest = check_from (i + 1) ns in if contains allow_char c then rest else some (i, c)

unfoldable pub check_valid_name_type : Bytes → Option (ℕ × ℕ)
unfolding check_from
check_valid_name_type ns = check_from 0 ns
