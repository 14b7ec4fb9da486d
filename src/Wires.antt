-- ===== src/Wires.antt =====
-- Wire formats of the messages that the database holds, for the examples.
pub mod Schemas
use ea.Common.{ℕ, refl, Option, List}
use ea.Common.Bytes.{Bytes}
use ea.Common.Int.{ℤ}
use ea.Api.{
  NameSpaceInfo, ZoneInfo, ServletInfo, PrivilegeZone, PrivilegeServlet, UserPrivilege,
  ConfigVersion, ConfigInfo, ServletInstance,
}
use ea.Rocks.Wire.{
  Wire, bytes_wire, nat_wire, bool_wire, int_wire, option_wire, list_wire, pair_wire, record_wire,
}

abbrev pub right_zone_wire : Wire PrivilegeZone
right_zone_wire =
    record_wire (λ z. (z.zone, (z.zone_id, (z.has_zone_rw, (z.zone_rw, z.force)))))
      (λ t. record {
        zone = t.0;
        zone_id = t.1.0;
        has_zone_rw = t.1.1.0;
        zone_rw = t.1.1.1.0;
        force = t.1.1.1.1;
      })
      (λ z. refl)
      (pair_wire bytes_wire
        (pair_wire nat_wire (pair_wire bool_wire (pair_wire nat_wire bool_wire))))

abbrev pub right_servlet_wire : Wire PrivilegeServlet
right_servlet_wire =
    record_wire
      (λ s. (
        s.zone,
        (s.servlet_name, (s.zone_id, (s.servlet_id, (s.has_servlet_rw, (s.servlet_rw, s.force))))),
      ))
      (λ t. record {
        zone = t.0;
        servlet_name = t.1.0;
        zone_id = t.1.1.0;
        servlet_id = t.1.1.1.0;
        has_servlet_rw = t.1.1.1.1.0;
        servlet_rw = t.1.1.1.1.1.0;
        force = t.1.1.1.1.1.1;
      })
      (λ s. refl)
      (pair_wire bytes_wire (
        pair_wire bytes_wire (
          pair_wire nat_wire
            (pair_wire nat_wire (pair_wire bool_wire (pair_wire nat_wire bool_wire))))))

abbrev pub rights_wire : Wire (List PrivilegeZone × (List PrivilegeServlet × List Bytes))
rights_wire =
    pair_wire (list_wire right_zone_wire)
      (pair_wire (list_wire right_servlet_wire) (list_wire bytes_wire))

abbrev pub user_wire : Wire UserPrivilege
user_wire =
    record_wire
      (λ u. (
        u.username,
        (
          u.password,
          (
            u.namespace_name,
            (
              u.namespace_id,
              (
                (u.privilege_zone, (u.privilege_servlet, u.ip)),
                (u.need_auth_addr, (u.resource_tag, u.version)),
              ),
            ),
          ),
        ),
      ))
      (λ t. record {
        username = t.0;
        password = t.1.0;
        namespace_name = t.1.1.0;
        namespace_id = t.1.1.1.0;
        privilege_zone = t.1.1.1.1.0.0;
        privilege_servlet = t.1.1.1.1.0.1.0;
        ip = t.1.1.1.1.0.1.1;
        need_auth_addr = t.1.1.1.1.1.0;
        resource_tag = t.1.1.1.1.1.1.0;
        version = t.1.1.1.1.1.1.1;
      })
      (λ u. refl)
      (pair_wire bytes_wire (
        pair_wire (option_wire bytes_wire) (
          pair_wire bytes_wire (
            pair_wire nat_wire (
              pair_wire rights_wire (
                pair_wire (option_wire bool_wire)
                  (pair_wire (option_wire bytes_wire) nat_wire)))))))

abbrev pub version_wire : Wire ConfigVersion
version_wire =
    record_wire (λ v. (v.major, (v.minor, v.patch)))
      (λ t. record { major = t.0; minor = t.1.0; patch = t.1.1 }) (λ v. refl)
      (pair_wire nat_wire (pair_wire nat_wire nat_wire))

abbrev pub config_wire : Wire ConfigInfo
config_wire =
    record_wire (λ c. (c.name, (c.version, c.content)))
      (λ t. record { name = t.0; version = t.1.0; content = t.1.1 }) (λ c. refl)
      (pair_wire bytes_wire (pair_wire (option_wire version_wire) bytes_wire))

abbrev pub text_wire : Wire (Option Bytes)
text_wire = option_wire bytes_wire

abbrev pub instance_wire : Wire ServletInstance
instance_wire =
    record_wire
      (λ i. (
        (i.namespace_name, (i.zone_name, (i.servlet_name, i.address))),
        (
          (i.env, (i.color, (i.status, i.weight))),
          (i.namespace_id, (i.zone_id, (i.servlet_id, i.version))),
        ),
      ))
      (λ t. record {
        namespace_name = t.0.0;
        zone_name = t.0.1.0;
        servlet_name = t.0.1.1.0;
        address = t.0.1.1.1;
        env = t.1.0.0;
        color = t.1.0.1.0;
        status = t.1.0.1.1.0;
        weight = t.1.0.1.1.1;
        namespace_id = t.1.1.0;
        zone_id = t.1.1.1.0;
        servlet_id = t.1.1.1.1.0;
        version = t.1.1.1.1.1;
      })
      (λ i. refl)
      (pair_wire (pair_wire text_wire (pair_wire text_wire (pair_wire text_wire text_wire))) (
        pair_wire
          (pair_wire text_wire
            (pair_wire text_wire (pair_wire (option_wire nat_wire) (option_wire int_wire))))
          (pair_wire nat_wire (pair_wire nat_wire (pair_wire nat_wire nat_wire)))))
