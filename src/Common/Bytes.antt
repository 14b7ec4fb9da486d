-- ===== src/Common/Bytes.antt =====
-- std::string as the list of its bytes.
use Prim.Native.Nat.{ℕ}
use Prim.Native.Char.{code}
use Prim.Native.String.{String}
use mathlib.Core.Path.{◌≡◌}
use mathlib.Core.Logic.{◌↔◌}
use mathlib.Core.Bool.{Bool, true, false, ◌&&◌}
use mathlib.Core.List.{List, [], ◌∷◌}
use native.Mathlib.Omega.{arith}
use ea.Common.Eq.{KeyEq, nat_beq}

abbrev pub Bytes : Type 0
Bytes = List ℕ

abbrev pub bytes_beq : Bytes → Bytes → Bool
bytes_beq [] [] = true
bytes_beq [] (c ∷ t) = false
bytes_beq (b ∷ s) [] = false
bytes_beq (b ∷ s) (c ∷ t) = nat_beq b c && bytes_beq s t

pub bytes_beq_iff : (s t : Bytes) → (s ≡ t) ↔ (bytes_beq s t ≡ true)
bytes_beq_iff [] [] = ground arith
bytes_beq_iff [] (c ∷ t) = ground arith
bytes_beq_iff (b ∷ s) [] = ground arith
bytes_beq_iff (b ∷ s) (c ∷ t) = ground (arith, bytes_beq_iff s t)

instance abbrev pub bytes_eq : KeyEq Bytes
bytes_eq = record { beq = bytes_beq; beq_iff = bytes_beq_iff }

-- A literal: the code points of an ASCII text.
abbrev pub bytes : String → Bytes
bytes String.[] = []
bytes (String.◌∷◌ c s) = code c ∷ bytes s

-- No byte of the text is `c`.
abbrev pub Without : ℕ → Bytes → Type 0
Without c [] = Unit
Without c (b ∷ s) = (nat_beq b c ≡ false) × Without c s
