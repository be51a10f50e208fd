-- ===== src/Address/Tests.antt =====
-- 10.1.2.3, port 80.
use vkccl.Prelude.{ℕ, ◌<◌, ◌≡◌, ◌==◌, if◌then◌else◌}
use vkccl.Address.{inet, SocketAddr, UniqueId, to_wire, set_addr, from_wire, get_addr}
use vkccl.Address.RoundTrip.{width, size_of, address_lem}

abbrev host : SocketAddr
host = record {
  family = inet;
  port = 20480;
  addr = λ i. if i == 0 then 10 else i;
  scope = 0;
  len = 16;
}

abbrev blank : UniqueId
blank = record { magic = 1; salt = 2; id_family = inet; id_port = 0; id_addr = λ i. 0 }

address_example :
    let sb = from_wire 16 28 (to_wire host) in
    (sb.family ≡ host.family)
    × (sb.port ≡ host.port)
    × ((i : ℕ) → i < width host.family → sb.addr i ≡ host.addr i)
    × (sb.scope ≡ 0)
    × (sb.len ≡ size_of 16 28 host.family)
    × (get_addr 16 28 (set_addr blank host) ≡ sb)
    × (to_wire sb ≡ to_wire host)
address_example = address_lem 16 28 blank host (λ e. cc)
