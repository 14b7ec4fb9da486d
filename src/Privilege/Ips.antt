-- ===== src/Privilege/Ips.antt =====
-- insert_ip and delete_ip: a user's addresses as a set.
use ea.Common.{◌≡◌, refl, ◌||◌, ◌&&◌, not, List, [], ◌∷◌, ◌++◌, ◌==◌, nat_eq, arith}
use ea.Common.Bytes.{Bytes, bytes_eq, bytes_beq_iff}
use ea.Rights.{for_each}
use ea.Privilege.{has_ip, insert_ip, delete_ip}

has_ip-append :
    (j ip : Bytes) (l : List Bytes) → has_ip j (l ++ (ip ∷ [])) ≡ (ip == j || has_ip j l)
unfolding has_ip
has_ip-append j ip [] = ground arith
has_ip-append j ip (a ∷ l) = ground (arith, has_ip-append j ip l)

has_ip-insert_ip :
    (j ip : Bytes) (l : List Bytes) → has_ip j (insert_ip ip l) ≡ (ip == j || has_ip j l)
unfolding insert_ip
has_ip-insert_ip j ip l = ground (arith, has_ip-append j ip l, bytes_beq_iff ip j)

has_ip-delete_ip :
    (j ip : Bytes) (l : List Bytes) → has_ip j (delete_ip ip l) ≡ (not (ip == j) && has_ip j l)
unfolding has_ip delete_ip
has_ip-delete_ip j ip [] = ground arith
has_ip-delete_ip j ip (a ∷ l) =
    ground
      (arith, has_ip-delete_ip j ip l, bytes_beq_iff a ip, bytes_beq_iff ip j, bytes_beq_iff a j)

pub has_ip-inserts :
    (j : Bytes) (ips l : List Bytes)
    → has_ip j (for_each insert_ip ips l) ≡ (has_ip j ips || has_ip j l)
unfolding for_each has_ip
has_ip-inserts j [] l = refl
has_ip-inserts j (ip ∷ ips) l =
    rw (has_ip-inserts j ips (insert_ip ip l), has_ip-insert_ip j ip l) (ground arith)

pub has_ip-deletes :
    (j : Bytes) (ips l : List Bytes)
    → has_ip j (for_each delete_ip ips l) ≡ (not (has_ip j ips) && has_ip j l)
unfolding for_each has_ip
has_ip-deletes j [] l = refl
has_ip-deletes j (ip ∷ ips) l =
    rw (has_ip-deletes j ips (delete_ip ip l), has_ip-delete_ip j ip l) (ground arith)
