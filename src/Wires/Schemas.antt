-- ===== src/Wires/Schemas.antt =====
-- Wire formats of the messages of the schema that the database holds, for the examples.
use ea.Common.{refl, Option}
use ea.Common.Bytes.{Bytes}
use ea.Common.Int.{ℤ}
use ea.Api.{NameSpaceInfo, ZoneInfo, ServletInfo}
use ea.Rocks.Wire.{Wire, bytes_wire, nat_wire, int_wire, option_wire, pair_wire, record_wire}

-- quota, byte_size_per_record, replica_num, region_split_lines and resource_tag
abbrev pub limits_wire : Wire (Option ℤ × (Option ℤ × (Option ℤ × (Option ℤ × Option Bytes))))
limits_wire = pair_wire (option_wire int_wire) (
    pair_wire (option_wire int_wire) (
      pair_wire (option_wire int_wire) (pair_wire (option_wire int_wire) (option_wire bytes_wire))))

abbrev pub namespace_wire : Wire NameSpaceInfo
namespace_wire =
    record_wire
      (λ n. (
        n.namespace_name,
        (
          n.namespace_id,
          (
            n.version,
            (
              n.quota,
              (n.byte_size_per_record, (n.replica_num, (n.region_split_lines, n.resource_tag))),
            ),
          ),
        ),
      ))
      (λ t. record {
        namespace_name = t.0;
        namespace_id = t.1.0;
        version = t.1.1.0;
        quota = t.1.1.1.0;
        byte_size_per_record = t.1.1.1.1.0;
        replica_num = t.1.1.1.1.1.0;
        region_split_lines = t.1.1.1.1.1.1.0;
        resource_tag = t.1.1.1.1.1.1.1;
      })
      (λ n. refl) (pair_wire bytes_wire (pair_wire nat_wire (pair_wire nat_wire limits_wire)))

abbrev pub zone_wire : Wire ZoneInfo
zone_wire =
    record_wire
      (λ z. (
        z.namespace_name,
        (
          z.zone,
          (
            z.namespace_id,
            (
              z.zone_id,
              (
                z.version,
                (
                  z.quota,
                  (z.byte_size_per_record, (z.replica_num, (z.region_split_lines, z.resource_tag))),
                ),
              ),
            ),
          ),
        ),
      ))
      (λ t. record {
        namespace_name = t.0;
        zone = t.1.0;
        namespace_id = t.1.1.0;
        zone_id = t.1.1.1.0;
        version = t.1.1.1.1.0;
        quota = t.1.1.1.1.1.0;
        byte_size_per_record = t.1.1.1.1.1.1.0;
        replica_num = t.1.1.1.1.1.1.1.0;
        region_split_lines = t.1.1.1.1.1.1.1.1.0;
        resource_tag = t.1.1.1.1.1.1.1.1.1;
      })
      (λ z. refl)
      (pair_wire bytes_wire (
        pair_wire bytes_wire
          (pair_wire nat_wire (pair_wire nat_wire (pair_wire nat_wire limits_wire)))))

abbrev pub servlet_wire : Wire ServletInfo
servlet_wire =
    record_wire
      (λ s. (
        s.namespace_name,
        (
          s.zone,
          (
            s.servlet_name,
            (s.namespace_id, (s.zone_id, (s.servlet_id, (s.version, s.resource_tag)))),
          ),
        ),
      ))
      (λ t. record {
        namespace_name = t.0;
        zone = t.1.0;
        servlet_name = t.1.1.0;
        namespace_id = t.1.1.1.0;
        zone_id = t.1.1.1.1.0;
        servlet_id = t.1.1.1.1.1.0;
        version = t.1.1.1.1.1.1.0;
        resource_tag = t.1.1.1.1.1.1.1;
      })
      (λ s. refl)
      (pair_wire bytes_wire (
        pair_wire bytes_wire (
          pair_wire bytes_wire (
            pair_wire nat_wire (
              pair_wire nat_wire
                (pair_wire nat_wire (pair_wire nat_wire (option_wire bytes_wire))))))))
