-- ===== src/Rocks.antt =====
-- ea/discovery/discovery_rocksdb: the key-value store behind the discovery state machine.
-- RocksDB and the protobuf wire format are parameters, with what they document as laws.
pub mod Agree
pub mod Store
pub mod Wire
use ea.Common.{
  ℕ, ◌≡◌, Bool, true, false, Option, none, some, List, [], ◌∷◌, ◌++◌, ◌==◌, nat_eq, if◌then◌else◌,
}
use ea.Common.Bytes.{Bytes, bytes_eq}
use ea.Common.Maps.{lookup_in, Unique}

-- An operation of a rocksdb::WriteBatch on the meta column family.
pub data Op : Type 0 where
  put : Bytes → Bytes → Op
  delete : Bytes → Op

-- What a batch, applied in order, leaves at a key that held `old`.
abbrev pub applied : List Op → Bytes → Option Bytes → Option Bytes
applied [] k old = old
applied (Op.put j v ∷ ops) k old = applied ops k (if j == k then some v else old)
applied (Op.delete j ∷ ops) k old = applied ops k (if j == k then none else old)

abbrev pub begins_with : ℕ → Bytes → Bool
begins_with p [] = false
begins_with p (b ∷ k) = b == p

-- Every key of the list begins with the byte.
abbrev pub Prefixed : ℕ → List (Bytes × Bytes) → Type 0
Prefixed p [] = Unit
Prefixed p ((k, v) ∷ l) = (begins_with p k ≡ true) × Prefixed p l

pub record Rocks : Type 1 where
  pub Db : Type 0
  pub get : Db → Bytes → Option Bytes
  -- a batch is written whole, or the status is not ok and nothing is
  pub write : Db → List Op → Option Db
  -- the entries that an iterator gives after Seek(p): the column family's prefix is 1 byte long
  pub scan : Db → ℕ → List (Bytes × Bytes)
  pub get-write :
      (db db' : Db) (ops : List Op) (k : Bytes)
      → write db ops ≡ some db'
      → get db' k ≡ applied ops k (get db k)
  pub lookup-scan : (db : Db) (p : ℕ) (k : Bytes) → lookup_in (p ∷ k) (scan db p) ≡ get db (p ∷ k)
  pub scan-Prefixed : (db : Db) (p : ℕ) → Prefixed p (scan db p)
  pub scan-Unique : (db : Db) (p : ℕ) → Unique (scan db p)

-- SerializeToString and ParseFromString of a message
pub record Codec (A : Type 0) : Type 0 where
  pub serialize : A → Option Bytes
  pub parse : Bytes → Option A
  pub parse-serialize : (a : A) (b : Bytes) → serialize a ≡ some b → parse b ≡ some a

-- keys.size() == values.size()
unfoldable pub same_size : List Bytes → List Bytes → Bool
same_size [] [] = true
same_size [] (v ∷ vs) = false
same_size (k ∷ ks) [] = false
same_size (k ∷ ks) (v ∷ vs) = same_size ks vs

-- for (i < keys.size()) batch.Put(keys[i], values[i]): past the end of `values` there is no element
unfoldable pub puts : List Bytes → List Bytes → List Op
puts [] vs = []
puts (k ∷ ks) [] = []
puts (k ∷ ks) (v ∷ vs) = Op.put k v ∷ puts ks vs

unfoldable pub deletes : List Bytes → List Op
deletes [] = []
deletes (k ∷ ks) = Op.delete k ∷ deletes ks

-- Where the functions return -1 the result is none.
module _ (rocks : Rocks) where
  -- put_discovery_info of one key
  unfoldable pub put_discovery_info : rocks.Db → Bytes → Bytes → Option rocks.Db
  put_discovery_info db key value = rocks.write db (Op.put key value ∷ [])

  -- put_discovery_info of a vector of keys
  unfoldable pub put_discovery_infos : rocks.Db → List Bytes → List Bytes → Option rocks.Db
  unfolding same_size puts
  put_discovery_infos db keys values =
      if same_size keys values then rocks.write db (puts keys values) else none

  unfoldable pub get_discovery_info : rocks.Db → Bytes → Option Bytes
  get_discovery_info db key = rocks.get db key

  unfoldable pub remove_discovery_info : rocks.Db → List Bytes → Option rocks.Db
  unfolding deletes
  remove_discovery_info db keys = rocks.write db (deletes keys)

  unfoldable pub write_discovery_info :
      rocks.Db → List Bytes → List Bytes → List Bytes → Option rocks.Db
  unfolding same_size puts deletes
  write_discovery_info db put_keys put_values delete_keys =
      if same_size put_keys put_values
      then rocks.write db (puts put_keys put_values ++ deletes delete_keys)
      else none
