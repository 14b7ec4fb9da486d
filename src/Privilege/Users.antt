-- ===== src/Privilege/Users.antt =====
-- add_privilege and drop_privilege: what they make of a user's rights and addresses.
use ea.Common.{ℕ, ◌≡◌, ◌+◌, ◌&&◌, refl, ◌||◌, not, Option, nat_eq}
use ea.Common.Bytes.{Bytes, bytes_eq}
use ea.Common.Eq.{pair_eq}
use ea.Api.{UserPrivilege}
use ea.Rights.{zone_right, servlet_right}
use ea.Rights.Grant.{right_of, Distinct}
use ea.Rights.Lists.{
  NotAbove, grants, revokes, Unforced, inserts-right_of, inserts-Distinct, deletes-right_of,
  deletes-Distinct, grants-NotAbove, revokes-NotAbove,
}
use ea.Privilege.Ips.{has_ip-inserts, has_ip-deletes}
use ea.Privilege.{
  has_ip, insert_zone_privilege, insert_servlet_privilege, delete_zone_privilege,
  delete_servlet_privilege, add_rights, drop_rights,
}

abbrev pub zone_right_of : ℕ → UserPrivilege → Option ℕ
zone_right_of zone_id u = right_of zone_right zone_id u.privilege_zone

abbrev pub servlet_right_of : ℕ × ℕ → UserPrivilege → Option ℕ
servlet_right_of ids u = right_of servlet_right ids u.privilege_servlet

-- A user has one entry for each zone and one for each servlet of a zone.
abbrev pub IsListed : UserPrivilege → Type 0
IsListed u = Distinct zone_right u.privilege_zone × Distinct servlet_right u.privilege_servlet

module _ (u mem : UserPrivilege) where
  -- After add_privilege a zone or servlet has the right that the request's entries for it give, one
  -- after the other: a forced entry sets it, another one raises it, and a right that no entry names
  -- stays. No address is lost and the request's are there, each user still has one entry for each
  -- zone and servlet where they had before, and the version is one up.
  pub add_rights_cases :
      ((zone_id : ℕ)
        → zone_right_of zone_id (add_rights u mem)
          ≡ grants zone_right zone_id u.privilege_zone (zone_right_of zone_id mem))
      × ((ids : ℕ × ℕ)
          → servlet_right_of ids (add_rights u mem)
            ≡ grants servlet_right ids u.privilege_servlet (servlet_right_of ids mem))
      × ((ip : Bytes) → has_ip ip (add_rights u mem).ip ≡ (has_ip ip u.ip || has_ip ip mem.ip))
      × (IsListed mem → IsListed (add_rights u mem))
      × ((add_rights u mem).version ≡ mem.version + 1)
  unfolding add_rights insert_zone_privilege insert_servlet_privilege
  add_rights_cases = (
    λ k. inserts-right_of zone_right u.privilege_zone mem.privilege_zone k,
    λ k. inserts-right_of servlet_right u.privilege_servlet mem.privilege_servlet k,
    λ ip. has_ip-inserts ip u.ip mem.ip,
    λ h. (
      inserts-Distinct zone_right u.privilege_zone mem.privilege_zone h.0,
      inserts-Distinct servlet_right u.privilege_servlet mem.privilege_servlet h.1,
    ),
    refl,
  )

  -- Without a forced entry for it, add_privilege lowers no right.
  pub add_rights_raise :
      (zone_id : ℕ) (ids : ℕ × ℕ)
      → Unforced zone_right zone_id u.privilege_zone
      → Unforced servlet_right ids u.privilege_servlet
      → NotAbove (zone_right_of zone_id mem) (zone_right_of zone_id (add_rights u mem))
        × NotAbove (servlet_right_of ids mem) (servlet_right_of ids (add_rights u mem))
  add_rights_raise zone_id ids z s =
      rw (add_rights_cases.0 zone_id, add_rights_cases.1 ids)
        (
          grants-NotAbove zone_right zone_id u.privilege_zone (zone_right_of zone_id mem) z,
          grants-NotAbove servlet_right ids u.privilege_servlet (servlet_right_of ids mem) s,
        )

  -- Where a user has one entry for each zone and servlet, drop_privilege leaves each with the right
  -- that the request's entries for it leave, one after the other: an entry with a lower right of its own
  -- lowers the right to that, any other one takes it away, and a right that no entry names stays. It
  -- raises no right. The request's addresses are gone, the others stay, each zone and servlet still has
  -- one entry, and the version is one up.
  pub drop_rights_cases :
      IsListed mem
      → ((zone_id : ℕ)
          → (zone_right_of zone_id (drop_rights u mem)
              ≡ revokes zone_right zone_id u.privilege_zone (zone_right_of zone_id mem))
            × NotAbove (zone_right_of zone_id (drop_rights u mem)) (zone_right_of zone_id mem))
        × ((ids : ℕ × ℕ)
            → (servlet_right_of ids (drop_rights u mem)
                ≡ revokes servlet_right ids u.privilege_servlet (servlet_right_of ids mem))
              × NotAbove (servlet_right_of ids (drop_rights u mem)) (servlet_right_of ids mem))
        × ((ip : Bytes)
            → has_ip ip (drop_rights u mem).ip ≡ (not (has_ip ip u.ip) && has_ip ip mem.ip))
        × IsListed (drop_rights u mem)
        × ((drop_rights u mem).version ≡ mem.version + 1)
  unfolding drop_rights delete_zone_privilege delete_servlet_privilege
  drop_rights_cases h = (
    λ k.
        rw (deletes-right_of zone_right u.privilege_zone mem.privilege_zone k h.0)
          (refl, revokes-NotAbove zone_right k u.privilege_zone (zone_right_of k mem)),
    λ k.
        rw (deletes-right_of servlet_right u.privilege_servlet mem.privilege_servlet k h.1)
          (refl, revokes-NotAbove servlet_right k u.privilege_servlet (servlet_right_of k mem)),
    λ ip. has_ip-deletes ip u.ip mem.ip,
    (
      deletes-Distinct zone_right u.privilege_zone mem.privilege_zone h.0,
      deletes-Distinct servlet_right u.privilege_servlet mem.privilege_servlet h.1,
    ),
    refl,
  )
