-- ===== src/Instances/Index.antt =====
-- InstanceManager: one of the indexes, which lists addresses under the key of their instances.
use ea.Common.{
  ◌≡◌, ◌∙◌, refl, sym, subst, inl, inr, true, false, ◌||◌, ◌⊎◌, Option, none, some, List, [], ◌==◌,
  get_or, if◌then◌else◌, arith, eq_refl, Bool-cases, ap,
}
use mathlib.Core.Option.{some-injective}
use ea.Common.Bytes.{Bytes, bytes_eq, bytes_beq_iff}
use ea.Common.Maps.{Map, find, assign, erase, find-assign, find-erase, found-assign}
use ea.Common.Sets.{contains, insert, contains-insert}
use ea.Api.{ServletInstance}
use ea.Instances.{add_address}

-- The address stands in the set of the key.
abbrev pub IsListed : Map Bytes (List Bytes) → Bytes → Bytes → Type 0
IsListed index key address = contains (get_or (find index key) []) address ≡ true

contains-add_address :
    (index : Map Bytes (List Bytes)) (key address k a : Bytes)
    → contains (get_or (find (add_address index key address) k) []) a ≡ (
        if key == k
        then address == a || contains (get_or (find index k) []) a
        else contains (get_or (find index k) []) a)
unfolding add_address
contains-add_address index key address k a = elim (Bool-cases (key == k)) [
  | inl e ↦
      rw
        (
          find-assign index key (insert (get_or (find index key) []) address) k,
          e,
          (bytes_beq_iff key k).1 e,
        )
        (contains-insert (get_or (find index k) []) address a)
  | inr e ↦ rw (find-assign index key (insert (get_or (find index key) []) address) k, e) refl
]

IsListed-erase :
    (index : Map Bytes (List Bytes)) (key k a : Bytes)
    → IsListed (erase index key) k a
    → ((key == k) ≡ false) × IsListed index k a
unfolding contains
IsListed-erase index key k a h = ground (arith, find-erase index key k)

IsListed-here :
    (index : Map Bytes (List Bytes)) (key address : Bytes)
    → IsListed (add_address index key address) key address
IsListed-here index key address =
    ground (arith, contains-add_address index key address key address, eq_refl key, eq_refl address)

IsListed-kept :
    (index : Map Bytes (List Bytes)) (key address k a : Bytes)
    → IsListed index k a
    → IsListed (add_address index key address) k a
IsListed-kept index key address k a h = ground (arith, contains-add_address index key address k a)

IsListed-from :
    (index : Map Bytes (List Bytes)) (key address k a : Bytes)
    → IsListed (add_address index key address) k a
    → ((key ≡ k) × (address ≡ a)) ⊎ IsListed index k a
IsListed-from index key address k a h = ground (
  arith,
  contains-add_address index key address k a,
  bytes_beq_iff key k,
  bytes_beq_iff address a,
)

-- An address that is not registered, or is under the same key.
abbrev pub Keeps : (ServletInstance → Bytes) → Option ServletInstance → ServletInstance → Type 0
Keeps key_of none info = Unit
Keeps key_of (some old) info = key_of old ≡ key_of info

module _ (key_of : ServletInstance → Bytes) where
  -- Every address that is listed is that of a live instance with this key.
  abbrev pub Points : Map Bytes (List Bytes) → Map Bytes ServletInstance → Type 0
  Points index infos =
      (key address : Bytes)
      → IsListed index key address
      → (info : ServletInstance) × (find infos address ≡ some info) × (key_of info ≡ key)

  -- Every live instance is listed under its key.
  abbrev pub Lists : Map Bytes (List Bytes) → Map Bytes ServletInstance → Type 0
  Lists index infos =
      (address : Bytes) (info : ServletInstance)
      → find infos address ≡ some info
      → IsListed index (key_of info) address

  pub Lists-set :
      (index : Map Bytes (List Bytes)) (infos : Map Bytes ServletInstance) (address : Bytes)
      (info : ServletInstance)
      → Lists index infos
      → Lists (add_address index (key_of info) address) (assign infos address info)
  Lists-set index infos address info h a i e = elim (found-assign infos address info a i e) [
    | inl (same, eq) ↦
        subst (λ b. IsListed (add_address index (key_of info) address) (key_of i) b) same
          (subst (λ j. IsListed (add_address index (key_of info) address) (key_of j) address) eq
            (IsListed-here index (key_of info) address))
    | inr (other, there) ↦ IsListed-kept index (key_of info) address (key_of i) a (h a i there)
  ]

  Points-kept :
      (infos : Map Bytes ServletInstance) (address : Bytes) (info : ServletInstance) (key a : Bytes)
      (i : ServletInstance)
      → Keeps key_of (find infos address) info
      → find infos a ≡ some i
      → key_of i ≡ key
      → (j : ServletInstance) × (find (assign infos address info) a ≡ some j) × (key_of j ≡ key)
  Points-kept infos address info key a i kept e k = elim (Bool-cases (address == a)) [
    | inr f ↦ (i, rw (find-assign infos address info a, f) e, k)
    | inl f ↦ (
      info,
      rw (find-assign infos address info a, f) refl,
      sym (
            subst (λ o. Keeps key_of o info) (ap (find infos) ((bytes_beq_iff address a).1 f) ∙ e)
              kept)
          ∙ k,
    )
  ]

  pub Points-set :
      (index : Map Bytes (List Bytes)) (infos : Map Bytes ServletInstance) (address : Bytes)
      (info : ServletInstance)
      → Keeps key_of (find infos address) info
      → Points index infos
      → Points (add_address index (key_of info) address) (assign infos address info)
  Points-set index infos address info kept h key a listed =
      elim (IsListed-from index (key_of info) address key a listed) [
        | inl (same, eq) ↦
            (info, rw (find-assign infos address info a, sym eq, eq_refl address) refl, same)
        | inr before ↦
            let (i, e, k) = h key a before in Points-kept infos address info key a i kept e k
      ]

  -- An address is under one key.
  other_key :
      (infos : Map Bytes ServletInstance) (info i : ServletInstance) (key a address : Bytes)
      → find infos address ≡ some info
      → find infos a ≡ some i
      → key_of i ≡ key
      → address ≡ a
      → (key_of info == key) ≡ false
      → ⊥
  other_key infos info i key a address there e k same other =
      let eq = some-injective info i (sym there ∙ (ap (find infos) same ∙ e)) in
      ground (arith, other, (bytes_beq_iff (key_of info) key).0 (ap key_of eq ∙ k))

  pub Points-erase :
      (index : Map Bytes (List Bytes)) (infos : Map Bytes ServletInstance) (address : Bytes)
      (info : ServletInstance)
      → find infos address ≡ some info
      → Points index infos
      → Points (erase index (key_of info)) (erase infos address)
  Points-erase index infos address info there h key a listed =
      let (other, before) = IsListed-erase index (key_of info) key a listed in
      let (i, e, k) = h key a before in
      elim (Bool-cases (address == a)) [
        | inr f ↦ (i, rw (find-erase infos address a, f) e, k)
        | inl f ↦
            elim (other_key infos info i key a address there e k ((bytes_beq_iff address a).1 f)
              other) [ ]
      ]
