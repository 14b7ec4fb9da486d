-- ===== src/Discovery/Readable.antt =====
-- What the loads of the managers need of the database: values that parse.
use ea.Common.{ℕ, zero, suc, ◌≡◌, ap, Bool, true, some, is_some, [], ◌∷◌, if◌then◌else◌}
use ea.Common.Bytes.{Bytes}
use ea.Api.{ServletInstance}
use ea.Rocks.{Codec}
use ea.Schema.State.{Codecs}
use ea.Schema.Reload.{starts_with}
use ea.Discovery.{AllCodecs}

-- The value parses, whatever the key.
abbrev pub Parses : {A : Type 0} → Codec A → Bytes → Bytes → Type 0
Parses codec key value = is_some (codec.parse value) ≡ true

pub serialized :
    {A : Type 0} (codec : Codec A) (a : A) (value : Bytes)
    → codec.serialize a ≡ some value
    → is_some (codec.parse value) ≡ true
serialized codec a value e = ap is_some (codec.parse-serialize a value e)

-- The value parses as the key says.
abbrev pub schema_parses : Codecs → Bytes → Bytes → Bool
schema_parses codecs key value =
    if starts_with (1 ∷ 9 ∷ []) key
    then is_some (codecs.zone_codec.parse value)
    else if starts_with (1 ∷ 10 ∷ []) key
    then is_some (codecs.servlet_codec.parse value)
    else if starts_with (1 ∷ 2 ∷ []) key
    then is_some (codecs.namespace_codec.parse value)
    else true

abbrev pub SchemaParses : Codecs → Bytes → Bytes → Type 0
SchemaParses codecs key value = schema_parses codecs key value ≡ true

-- The value parses, and the key is one of an instance.
abbrev pub InstanceParses : Codec ServletInstance → Bytes → Bytes → Type 0
InstanceParses codec key value = Parses codec key value × (starts_with (3 ∷ 3 ∷ []) key ≡ true)

-- By the first byte of the key.
abbrev pub ParsesAt : AllCodecs → ℕ → Bytes → Bytes → Type 0
ParsesAt codecs (suc zero) key value = SchemaParses codecs.schema_codecs key value
ParsesAt codecs (suc (suc zero)) key value = Parses codecs.user_codec key value
ParsesAt codecs (suc (suc (suc zero))) key value = InstanceParses codecs.instance_codec key value
ParsesAt codecs (suc (suc (suc (suc zero)))) key value = Parses codecs.config_codec key value
ParsesAt codecs _ key value = Unit
