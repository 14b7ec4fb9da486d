-- ===== src/Client/Tests.antt =====
-- The client's check at concrete names.
use ea.Common.{nat_eq, ◌≡◌, refl, some, bytes}
use ea.Common.Sets.{contains}
use ea.Client.Names.{make_zone_key-injective}
use ea.Client.{check_valid_name_type, allow_char}

w_refused : check_valid_name_type (bytes "aW") ≡ some (1, 87)
unfolding check_valid_name_type allow_char contains
w_refused = refl

make_zone_key-injective_example : (bytes "n" ≡ bytes "n") × (bytes "z" ≡ bytes "z")
unfolding check_valid_name_type allow_char contains
make_zone_key-injective_example =
    make_zone_key-injective (bytes "n") (bytes "n") (bytes "z") (bytes "z") refl refl refl
