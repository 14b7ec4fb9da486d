-- ===== src/Rocks/Store.antt =====
-- A store in memory that keeps the laws of Rocks, for the examples.
use ea.Common.{
  ℕ, ◌≡◌, ◌∙◌, ap, sym, refl, true, Option, none, some, List, [], ◌∷◌, nat_eq, if◌then◌else◌, arith,
}
use mathlib.Core.Option.{some-injective}
use ea.Common.Bytes.{Bytes, bytes_eq, bytes_beq_iff}
use ea.Common.Maps.{
  Map, find, assign, erase, find-assign, find-erase, assign-Unique, erase-Unique, lookup_in, Unique,
}
use ea.Rocks.{Op, applied, begins_with, Prefixed, Rocks}

abbrev pub apply_op : Map Bytes Bytes → Op → Map Bytes Bytes
apply_op m (Op.put k v) = assign m k v
apply_op m (Op.delete k) = erase m k

abbrev pub apply_ops : Map Bytes Bytes → List Op → Map Bytes Bytes
apply_ops m [] = m
apply_ops m (op ∷ ops) = apply_ops (apply_op m op) ops

pub find-apply_ops :
    (m : Map Bytes Bytes) (ops : List Op) (k : Bytes)
    → find (apply_ops m ops) k ≡ applied ops k (find m k)
find-apply_ops m [] k = refl
find-apply_ops m (Op.put j v ∷ ops) k =
    find-apply_ops (assign m j v) ops k ∙ rw (find-assign m j v k) refl
find-apply_ops m (Op.delete j ∷ ops) k =
    find-apply_ops (erase m j) ops k ∙ rw (find-erase m j k) refl

pub apply_ops-Unique :
    (m : Map Bytes Bytes) (ops : List Op) → Unique m.entries → Unique (apply_ops m ops).entries
apply_ops-Unique m [] u = u
apply_ops-Unique m (Op.put j v ∷ ops) u =
    apply_ops-Unique (assign m j v) ops (assign-Unique m j v u)
apply_ops-Unique m (Op.delete j ∷ ops) u = apply_ops-Unique (erase m j) ops (erase-Unique m j u)

abbrev pub scanned : ℕ → List (Bytes × Bytes) → List (Bytes × Bytes)
scanned p [] = []
scanned p ((k, v) ∷ l) = let rest = scanned p l in if begins_with p k then (k, v) ∷ rest else rest

pub lookup-scanned :
    (p : ℕ) (k : Bytes) (l : List (Bytes × Bytes))
    → begins_with p k ≡ true
    → lookup_in k (scanned p l) ≡ lookup_in k l
unfolding lookup_in
lookup-scanned p k [] h = refl
lookup-scanned p k ((j, v) ∷ l) h = ground (arith, lookup-scanned p k l h, bytes_beq_iff j k)

fresh-scanned :
    (p : ℕ) (k : Bytes) (l : List (Bytes × Bytes))
    → lookup_in k l ≡ none
    → lookup_in k (scanned p l) ≡ none
unfolding lookup_in
fresh-scanned p k [] h = refl
fresh-scanned p k ((j, v) ∷ l) h = ground (arith, fresh-scanned p k l)

pub scanned-Prefixed : (p : ℕ) (l : List (Bytes × Bytes)) → Prefixed p (scanned p l)
scanned-Prefixed p [] = tt
scanned-Prefixed p ((j, v) ∷ l) = ground (arith, scanned-Prefixed p l)

pub scanned-Unique : (p : ℕ) (l : List (Bytes × Bytes)) → Unique l → Unique (scanned p l)
scanned-Unique p [] u = tt
scanned-Unique p ((j, v) ∷ l) u = ground (arith, scanned-Unique p l u.1, fresh-scanned p j l u.0)

abbrev pub Stored : Type 0
Stored = (m : Map Bytes Bytes) × Unique m.entries

pub begins_with_refl : (p : ℕ) (k : Bytes) → begins_with p (p ∷ k) ≡ true
begins_with_refl p k = ground arith

pub get-write :
    (db db' : Stored) (ops : List Op) (k : Bytes)
    → Path (Option Stored) (some (apply_ops db.0 ops, apply_ops-Unique db.0 ops db.1)) (some db')
    → find db'.0 k ≡ applied ops k (find db.0 k)
get-write db db' ops k e =
    ap (λ d. find d.0 k)
      (sym (some-injective (apply_ops db.0 ops, apply_ops-Unique db.0 ops db.1) db' e))
    ∙ find-apply_ops db.0 ops k

pub lookup-scan :
    (db : Stored) (p : ℕ) (k : Bytes)
    → lookup_in (p ∷ k) (scanned p db.0.entries) ≡ find db.0 (p ∷ k)
unfolding find
lookup-scan db p k = lookup-scanned p (p ∷ k) db.0.entries (begins_with_refl p k)

abbrev pub store : Rocks
store = record {
  Db = Stored;
  get = λ db k. find db.0 k;
  write = λ db ops. some (apply_ops db.0 ops, apply_ops-Unique db.0 ops db.1);
  scan = λ db p. scanned p db.0.entries;
  get-write = get-write;
  lookup-scan = lookup-scan;
  scan-Prefixed = λ db p. scanned-Prefixed p db.0.entries;
  scan-Unique = λ db p. scanned-Unique p db.0.entries db.1;
}
