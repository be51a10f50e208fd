-- ===== src/Address.antt =====
-- src/util/socket.h and src/util/socket.cc: `SocketAddr`, `WireAddr`, `toWire`, `fromWire`,
-- `SocketAddr::port`; src/core/bootstrap.h and src/core/bootstrap.cc: `UniqueIdInternal::setAddr` and
-- `getAddr`. A port keeps the byte order of the network. The sizes of `sockaddr_in` and
-- `sockaddr_in6` are parameters.
pub mod RoundTrip
mod Tests
use vkccl.Prelude.{ℕ, ltb, ◌==◌, if◌then◌else◌}

-- `ss_family`
pub data Family : Type 0 where
  unspecified inet inet6 : Family

-- `SocketAddr`: the fields that its family reads; `addr` is 4 or 16 bytes. The flow and the scope of an
-- IPv6 address are one number.
pub record SocketAddr : Type 0 where
  pub family : Family
  pub port : ℕ
  pub addr : ℕ → ℕ
  pub scope : ℕ
  pub len : ℕ

-- `WireAddr`
pub record WireAddr : Type 0 where
  pub wire_family : ℕ
  pub wire_port : ℕ
  pub wire_addr : ℕ → ℕ

-- The address part of `UniqueIdInternal`
pub record UniqueId : Type 0 where
  pub magic : ℕ
  pub salt : ℕ
  pub id_family : Family
  pub id_port : ℕ
  pub id_addr : ℕ → ℕ

-- A field of zeros with the first bytes copied.
unfoldable pub first_bytes : ℕ → (ℕ → ℕ) → ℕ → ℕ
first_bytes n addr i = if ltb i n then addr i else 0

unfoldable pub to_wire : SocketAddr → WireAddr
to_wire sa = elim sa.family [
  | inet ↦ record { wire_family = 1; wire_port = sa.port; wire_addr = first_bytes 4 sa.addr }
  | _ ↦ record { wire_family = 2; wire_port = sa.port; wire_addr = first_bytes 16 sa.addr }
]

unfoldable pub set_addr : UniqueId → SocketAddr → UniqueId
set_addr id sa = elim sa.family [
  | inet ↦ record id { id_family = inet; id_port = sa.port; id_addr = first_bytes 4 sa.addr }
  | f ↦ record id { id_family = f; id_port = sa.port; id_addr = first_bytes 16 sa.addr }
]

module _ (in_size in6_size : ℕ) where
  inet_addr : ℕ → (ℕ → ℕ) → SocketAddr
  inet_addr p a = record {
    family = inet;
    port = p;
    addr = first_bytes 4 a;
    scope = 0;
    len = in_size;
  }

  inet6_addr : ℕ → (ℕ → ℕ) → SocketAddr
  inet6_addr p a = record {
    family = inet6;
    port = p;
    addr = first_bytes 16 a;
    scope = 0;
    len = in6_size;
  }

  unfoldable pub from_wire : WireAddr → SocketAddr
  unfolding inet_addr inet6_addr
  from_wire w =
      if w.wire_family == 1
      then inet_addr w.wire_port w.wire_addr
      else inet6_addr w.wire_port w.wire_addr

  unfoldable pub get_addr : UniqueId → SocketAddr
  unfolding inet_addr inet6_addr
  get_addr id = elim id.id_family [
    | inet ↦ inet_addr id.id_port id.id_addr
    | _ ↦ inet6_addr id.id_port id.id_addr
  ]
