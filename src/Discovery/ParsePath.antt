-- ===== src/Discovery/ParsePath.antt =====
-- ea/discovery/parse_path.cc: the index of a snapshot, from the name of its directory. butil::FilePath and
-- turbo::StrSplit are parameters.
use ea.Common.{ℕ, ◌+◌, ◌-◌, ◌*◌, Bool, true, ◌&&◌, List, [], ◌∷◌, ◌==◌, nat_eq, leb, if◌then◌else◌}
use ea.Common.Bytes.{Bytes}
use ea.Common.Int.{ℤ, pos, negsuc}

-- butil::FilePath, and turbo::StrSplit with SkipEmpty
pub record Paths : Type 0 where
  pub base_name : Bytes → Bytes
  pub dir_name : Bytes → Bytes
  pub str_split : Bytes → ℕ → List Bytes

-- atoll
unfoldable pub is_space : ℕ → Bool
is_space c = if c == 32 then true else leb 9 c && leb c 13

unfoldable pub digits_of : ℕ → Bytes → ℕ
digits_of n [] = n
digits_of n (c ∷ s) =
    let rest = digits_of (n * 10 + (c - 48)) s in if leb 48 c && leb c 57 then rest else n

unfoldable pub negated : ℕ → ℤ
negated n = if n == 0 then pos 0 else negsuc (n - 1)

unfoldable pub atoll : Bytes → ℤ
unfolding is_space digits_of negated
atoll [] = pos 0
atoll (c ∷ s) =
    let rest = atoll s in
    if is_space c
    then rest
    else if c == 45
    then negated (digits_of 0 s)
    else if c == 43
    then pos (digits_of 0 s)
    else pos (digits_of 0 (c ∷ s))

-- split_vec.back(); the text is empty where there is no last one, where the source's is undefined.
unfoldable pub back : List Bytes → Bytes
back [] = []
back (x ∷ []) = x
back (x ∷ y ∷ l) = back (y ∷ l)

unfoldable pub index_of : List Bytes → ℤ
unfolding atoll
index_of (name ∷ index ∷ []) = atoll index
index_of _ = pos 0

unfoldable pub parse_snapshot_index_from_path : Paths → Bytes → Bool → ℤ
unfolding back index_of
parse_snapshot_index_from_path paths snapshot_path use_dirname =
    let tmp_path =
      if use_dirname
      then paths.base_name (paths.dir_name snapshot_path)
      else paths.base_name snapshot_path in
    index_of (paths.str_split (back (paths.str_split tmp_path 47)) 95)
