-- ===== src/Discovery/Snapshot/InMemory.antt =====
-- Tables over the store in memory, for the examples.
use ea.Common.{
  ◌≡◌, ◌∙◌, refl, sym, ap, subst, eq_refl, Bool, true, Option, none, some, List, [], ◌∷◌, ◌++◌, inl,
  inr, ◌==◌, nat_eq, if◌then◌else◌, arith, Bool-cases,
}
use mathlib.Core.Option.{some-injective}
use ea.Common.Bytes.{Bytes, bytes_eq, bytes_beq_iff}
use ea.Common.Maps.{find, assign, find-assign, lookup_in, Unique, assign-Unique, or_else}
use ea.Rocks.Store.{store, Stored}
use ea.Config.Triple.{triple_eq}
use ea.Discovery.Snapshot.{in_range, Tables}

-- The entries whose key is not among `f`.
abbrev pub without : (Bytes → Bool) → List (Bytes × Bytes) → List (Bytes × Bytes)
without f [] = []
without f ((k, v) ∷ l) = let rest = without f l in if f k then rest else (k, v) ∷ rest

lookup-without :
    (f : Bytes → Bool) (l : List (Bytes × Bytes)) (k : Bytes)
    → lookup_in k (without f l) ≡ (if f k then none else lookup_in k l)
unfolding lookup_in
lookup-without f [] k = ground arith
lookup-without f ((j, v) ∷ l) k = elim (Bool-cases (j == k)) [
  | inl e ↦
      subst
        (λ i.
          lookup_in i (without f ((j, v) ∷ l)) ≡ (if f i then none else lookup_in i ((j, v) ∷ l)))
        ((bytes_beq_iff j k).1 e) (ground (arith, lookup-without f l j, eq_refl j))
  | inr e ↦ elim (Bool-cases (f j)) [
    | inl g ↦ rw (g, e) (lookup-without f l k)
    | inr g ↦ rw (g, e) (lookup-without f l k)
  ]
]

pub without-Unique : (f : Bytes → Bool) (l : List (Bytes × Bytes)) → Unique l → Unique (without f l)
without-Unique f [] u = tt
without-Unique f ((j, v) ∷ l) u = ground (arith, without-Unique f l u.1, lookup-without f l j, u.0)

abbrev pub over : List (Bytes × Bytes) → Stored → Stored
over [] db = db
over ((k, v) ∷ l) db = let rest = over l db in (assign rest.0 k v, assign-Unique rest.0 k v rest.1)

find-over :
    (l : List (Bytes × Bytes)) (db : Stored) (j : Bytes)
    → find (over l db).0 j ≡ or_else (lookup_in j l) (find db.0 j)
unfolding lookup_in
find-over [] db j = refl
find-over ((k, v) ∷ l) db j =
    find-assign (over l db).0 k v j
    ∙ (elim (Bool-cases (k == j)) [ inl e ↦ rw e refl | inr e ↦ rw e (find-over l db j) ])

abbrev pub removed : Stored → Bytes → Bytes → Stored
removed db begin end = (
  record { entries = without (in_range begin end) db.0.entries },
  without-Unique (in_range begin end) db.0.entries db.1,
)

pub scan_reads : (db : Stored) (k : Bytes) → lookup_in k db.0.entries ≡ find db.0 k
unfolding find
scan_reads db k = refl

pub range_reads :
    (db db' : Stored) (begin end k : Bytes)
    → Path (Option Stored) (some (removed db begin end)) (some db')
    → find db'.0 k ≡ (if in_range begin end k then none else find db.0 k)
unfolding find
range_reads db db' begin end k e =
    ap (λ d. find d.0 k) (sym (some-injective (removed db begin end) db' e))
    ∙ lookup-without (in_range begin end) db.0.entries k

pub ingest_reads :
    (db db' : Stored) (l : List (Bytes × Bytes)) (k : Bytes)
    → Path (Option Stored) (some (over l db)) (some db')
    → find db'.0 k ≡ or_else (lookup_in k l) (find db.0 k)
ingest_reads db db' l k e =
    ap (λ d. find d.0 k) (sym (some-injective (over l db) db' e)) ∙ find-over l db k

abbrev pub tables : Tables store
tables = record {
  Writer = List (Bytes × Bytes);
  entries = λ w. w;
  open_file = λ path. some [];
  put = λ w k v. some (w ++ (k, v) ∷ []);
  finish = λ w. some w;
  add_file = λ name. true;
  scan_all = λ db. db.0.entries;
  remove_range = λ db begin end. some (removed db begin end);
  ingest_external_file = λ db l. some (over l db);
  entries-open_file = λ path w e. sym (some-injective [] w e);
  entries-put = λ w w' k v e. sym (some-injective (w ++ (k, v) ∷ []) w' e);
  entries-finish = λ w w' e. sym (some-injective w w' e);
  lookup-scan_all = scan_reads;
  get-remove_range = range_reads;
  get-ingest = ingest_reads;
}
