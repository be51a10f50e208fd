-- ===== src/Address/RoundTrip.antt =====
-- What an address keeps on its way to another rank.
use vkccl.Prelude.{ap, ◌∙◌, ℕ, ◌<◌, ◌≡◌, fun_ext, refl, fun_ext, ◌≢◌, arith}
use vkccl.Address.{
  WireAddr, Family, unspecified, inet, inet6, SocketAddr, UniqueId, first_bytes, to_wire, set_addr,
  from_wire, get_addr,
}

-- The significant bytes of an address.
pub width : Family → ℕ
width inet = 4
width _ = 16

first_twice : (n : ℕ) (a : ℕ → ℕ) → first_bytes n (first_bytes n a) ≡ first_bytes n a
unfolding first_bytes
first_twice n a = fun_ext (λ i. ground arith)

-- The length of an address of a family: `sizeof(sockaddr_in)` or `sizeof(sockaddr_in6)`.
abbrev pub size_of : ℕ → ℕ → Family → ℕ
size_of in_size in6_size inet = in_size
size_of in_size in6_size _ = in6_size

-- An IPv4 or IPv6 address that goes through the wire form, or through a unique id, arrives with its
-- family, its port and its significant bytes, and with the length of its family; both ways give the
-- same address, and to send that on changes nothing. The flow and the scope of an IPv6 address do
-- not travel.
pub address_lem :
    (in_size in6_size : ℕ) (id : UniqueId) (sa : SocketAddr)
    → sa.family ≢ unspecified
    → let sb = from_wire in_size in6_size (to_wire sa) in
      (sb.family ≡ sa.family)
      × (sb.port ≡ sa.port)
      × ((i : ℕ) → i < width sa.family → sb.addr i ≡ sa.addr i)
      × (sb.scope ≡ 0)
      × (sb.len ≡ size_of in_size in6_size sa.family)
      × (get_addr in_size in6_size (set_addr id sa) ≡ sb)
      × (to_wire sb ≡ to_wire sa)
unfolding to_wire from_wire get_addr set_addr first_bytes width
address_lem in_size in6_size id sa h = by_family sa.family refl
  where
    thrice :
        (f n : ℕ)
        → ◌≡◌ {A = WireAddr}
            (record {
              wire_family = f;
              wire_port = sa.port;
              wire_addr = first_bytes n (first_bytes n (first_bytes n sa.addr));
            })
            (record { wire_family = f; wire_port = sa.port; wire_addr = first_bytes n sa.addr })
    thrice f n =
        ap (λ a. record { wire_family = f; wire_port = sa.port; wire_addr = a })
          (first_twice n (first_bytes n sa.addr) ∙ first_twice n sa.addr)

    by_family :
        (f : Family)
        → sa.family ≡ f
        → let sb = from_wire in_size in6_size (to_wire sa) in
          (sb.family ≡ sa.family)
          × (sb.port ≡ sa.port)
          × ((i : ℕ) → i < width sa.family → sb.addr i ≡ sa.addr i)
          × (sb.scope ≡ 0)
          × (sb.len ≡ size_of in_size in6_size sa.family)
          × (get_addr in_size in6_size (set_addr id sa) ≡ sb)
          × (to_wire sb ≡ to_wire sa)
    by_family unspecified e = absurd (h e)
    by_family inet e = rw e (refl, refl, (λ i l. ground arith), refl, refl, refl, thrice 1 4)
    by_family inet6 e = rw e (refl, refl, (λ i l. ground arith), refl, refl, refl, thrice 2 16)
