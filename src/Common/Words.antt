-- ===== src/Common/Words.antt =====
-- An int64_t that is not negative, as the 8 bytes that it has in memory on a little-endian machine.
use Prim.Native.Nat.{ℕ, zero, suc, ◌*◌, ◌+◌, ◌%◌, ◌/◌, ◌<◌}
use mathlib.Core.Path.{◌≡◌, sym, ap, ◌∙◌}
use mathlib.Core.List.{List, [], ◌∷◌}
use native.Mathlib.Omega.{arith}

unfoldable pub le_bytes : ℕ → ℕ → List ℕ
le_bytes zero n = []
le_bytes (suc k) n = n % 256 ∷ le_bytes k (n / 256)

unfoldable pub of_le_bytes : List ℕ → ℕ
of_le_bytes [] = 0
of_le_bytes (b ∷ l) = b + 256 * of_le_bytes l

-- 256 ^ k
abbrev pub bound : ℕ → ℕ
bound zero = 1
bound (suc k) = 256 * bound k

of_le_bytes-le_bytes : (k n : ℕ) → n < bound k → of_le_bytes (le_bytes k n) ≡ n
unfolding le_bytes of_le_bytes
of_le_bytes-le_bytes zero n h = omega (arith, h)
of_le_bytes-le_bytes (suc k) n h =
    let ih = of_le_bytes-le_bytes k (n / 256) (omega (arith, h)) in rw ih (omega arith)

-- (char *) &id, sizeof(int64_t)
unfoldable pub int64_bytes : ℕ → List ℕ
unfolding le_bytes
int64_bytes id = le_bytes 8 id

-- *(int64_t *) value
unfoldable pub of_int64_bytes : List ℕ → ℕ
unfolding of_le_bytes
of_int64_bytes value = of_le_bytes value

pub of_int64-int64 : (id : ℕ) → id < 9223372036854775808 → of_int64_bytes (int64_bytes id) ≡ id
unfolding of_int64_bytes int64_bytes
of_int64-int64 id h = of_le_bytes-le_bytes 8 id (omega (arith, h))

pub int64_bytes-injective :
    (a b : ℕ)
    → a < 9223372036854775808
    → b < 9223372036854775808
    → int64_bytes a ≡ int64_bytes b
    → a ≡ b
int64_bytes-injective a b ha hb e =
    sym (of_int64-int64 a ha) ∙ ap of_int64_bytes e ∙ of_int64-int64 b hb
