-- ===== src/Verbs/Device/Tests.antt =====
-- src/transport/verbs.cc: two devices, of which the first has no protection domain to give; the second
-- port of the other is active, with a GID that is link-local, one that is mapped and one that is zero.
use vkccl.Prelude.{true, false, none, some, [], ◌∷◌, ◌==◌, if◌then◌else◌, List}
use vkccl.Verbs.Device.{Gid, GidTable}
use vkccl.Verbs.Device.Open.{PortAttr, Candidate, open_device}
use vkccl.Verbs.Device.Open.Serving.{Searched, open_device_lem}

abbrev link_local : Gid
link_local = 254 ∷ 128 ∷ 0 ∷ 0 ∷ 0 ∷ 0 ∷ 0 ∷ 0 ∷ 0 ∷ 0 ∷ 0 ∷ 0 ∷ 0 ∷ 0 ∷ 0 ∷ 9 ∷ []

abbrev mapped : Gid
mapped = 0 ∷ 0 ∷ 0 ∷ 0 ∷ 0 ∷ 0 ∷ 0 ∷ 0 ∷ 0 ∷ 0 ∷ 255 ∷ 255 ∷ 10 ∷ 0 ∷ 0 ∷ 9 ∷ []

abbrev gids : GidTable
gids = record {
  len = 3;
  query = λ i. if i == 0 then some link_local else if i == 1 then some mapped else some (0 ∷ []);
  is_roce_v2 = λ i. true;
}

abbrev port : PortAttr
port = record { active = true; ethernet = true; lid = 0; active_mtu = 5; gids = gids }

abbrev devices : List Candidate
devices =
    record {
      wanted = true;
      opens = true;
      queried = true;
      phys_port_cnt = 1;
      ports = λ p. some port;
      pd = none;
    }
    ∷ record {
      wanted = true;
      opens = true;
      queried = true;
      phys_port_cnt = 2;
      ports = λ p. if p == 2 then some port else some (record port { active = false });
      pd = some 40;
    }
    ∷ []

open_device_example : Searched none 0 devices (open_device none devices)
open_device_example = open_device_lem none devices
