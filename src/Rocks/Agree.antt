-- ===== src/Rocks/Agree.antt =====
-- A value of the database against the message that is kept in memory.
use ea.Common.{◌≡◌, Bool, true, false, Option, none, some, if◌then◌else◌}
use ea.Common.Bytes.{Bytes}
use ea.Rocks.{Codec}

module _ {A : Type 0} (codec : Codec A) where
  -- Both are missing, or the value is the message.
  abbrev pub Agree : Option Bytes → Option A → Type 0
  Agree none none = Unit
  Agree none (some a) = ⊥
  Agree (some value) none = ⊥
  Agree (some value) (some a) = codec.parse value ≡ some a

  pub Agree-put :
      (b : Bool) (value : Bytes) (a : A) (old : Option Bytes) (mem : Option A)
      → codec.parse value ≡ some a
      → Agree old mem
      → Agree (if b then some value else old) (if b then some a else mem)
  Agree-put true value a old mem e h = e
  Agree-put false value a old mem e h = h

  pub Agree-delete :
      (b : Bool) (old : Option Bytes) (mem : Option A)
      → Agree old mem
      → Agree (if b then none else old) (if b then none else mem)
  Agree-delete true old mem h = tt
  Agree-delete false old mem h = h
