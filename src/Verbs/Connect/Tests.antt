-- ===== src/Verbs/Connect/Tests.antt =====
-- src/transport/verbs.cc: two ranks, of which the second has no inline data and an MTU of 4.
use vkccl.Prelude.{
  ℕ, zero, suc, ◌+◌, ◌*◌, ◌<◌, ◌≡◌, refl, true, none, some, [], ◌∷◌, ◌==◌, arith, if◌then◌else◌,
  false≢true,
}
use vkccl.Types.{Result, success, remote_error, is_success}
use vkccl.Bootstrap.Gather.{
  Answers, receive_slices, send_slices, then_send_slices, all_gather, Relayed,
}
use vkccl.Verbs.Connect.{
  Device, QpInfo, no_info, Responses, ask, answered, made_qp, with_qp, with_cq, create_qp,
  each_peer, local_info, rtr_attr, connect_qp, qp_info_swap, wire_row, own_table,
  exchange_and_connect, create,
}
use vkccl.Verbs.Connect.Job.{before_exchange, asks, endpoint, brought, create_job_lem}

abbrev device : ℕ → Device
device r = record {
  port = 1;
  lid = r + 7;
  active_mtu = if r == 1 then 4 else 5;
  gid_index = 3;
  gid = 254 ∷ r ∷ [];
  roce = true;
}

-- A host that keeps numbers in the order of the network.
abbrev in_order : ℕ → ℕ
in_order x = x

abbrev calls_with : Answers (ℕ → QpInfo) → ℕ → Responses
calls_with gathered r = record {
  making = λ p. record {
    cq = some p;
    inlined = if r == 0 then some (100 + p, 220) else none;
    plain = some (200 + p, 0);
  };
  modify = λ p m. true;
  draws = λ p. 16777216 + (r + 1) * 10;
  min_rnr_timer = none;
  gathered = gathered;
  met = record {
    from_client = λ r. (success, 0);
    to_client = λ r. success;
    to_root = success;
    from_root = (success, λ r. 0);
  };
}

abbrev silent : Answers (ℕ → QpInfo)
silent = record {
  from_client = λ r. (remote_error, λ p. no_info);
  to_client = λ r. success;
  to_root = success;
  from_root = (remote_error, λ r p. no_info);
}

-- What the rows are, which no answer of the exchange has a part in.
abbrev row : ℕ → ℕ → QpInfo
row r =
    wire_row in_order in_order (calls_with silent r) (device r) r
      (before_exchange in_order in_order (calls_with silent r) (device r) 2 r)

abbrev upload : ℕ → Result × (ℕ → QpInfo)
upload zero = (remote_error, λ p. no_info)
upload (suc zero) = (success, row 1)
upload (suc (suc r)) = (remote_error, λ p. no_info)

abbrev exchange : Answers (ℕ → QpInfo)
exchange = record {
  from_client = upload;
  to_client = λ r. success;
  to_root = success;
  from_root = (success, λ r. if r == 0 then row 0 else row 1);
}

abbrev both : ℕ → Responses
both r = calls_with exchange r

from_clients :
    (r : ℕ)
    → is_success (exchange.from_client r).0 ≡ true
    → (exchange.from_client r).1 ≡ brought in_order in_order both device 2 r r
unfolding own_table wire_row local_info each_peer create_qp with_cq with_qp made_qp ask answered
    all_gather then_send_slices receive_slices send_slices
from_clients zero ok = absurd (false≢true ok)
from_clients (suc zero) ok = refl
from_clients (suc (suc r)) ok = absurd (false≢true ok)

from_root :
    (q : ℕ)
    → q < 2
    → exchange.from_root.1 q
      ≡ (all_gather 2 0 exchange (brought in_order in_order both device 2 0)).1 q
unfolding own_table wire_row local_info each_peer create_qp with_cq with_qp made_qp ask answered
    all_gather then_send_slices receive_slices send_slices
from_root zero h = refl
from_root (suc zero) h = refl
from_root (suc (suc q)) h = absurd (omega (arith, h))

relayed : Relayed 2 (λ r. (both r).gathered) (brought in_order in_order both device 2)
relayed = record { up = from_clients; down = λ r q ok h. from_root q h }

all_succeed :
    (r : ℕ) → r < 2 → is_success (create in_order in_order (both r) (device r) 2 r).0 ≡ true
unfolding create exchange_and_connect connect_qp rtr_attr own_table wire_row local_info each_peer
    create_qp with_cq with_qp made_qp ask answered all_gather then_send_slices receive_slices
    send_slices qp_info_swap
all_succeed zero h = refl
all_succeed (suc zero) h = refl
all_succeed (suc (suc r)) h = absurd (omega (arith, h))

create_job_example :
    (a b : ℕ) × ((endpoint in_order in_order both device 2 0).qps 1 ≡ some a)
    × ((endpoint in_order in_order both device 2 1).qps 0 ≡ some b)
    × ((endpoint in_order in_order both device 2 0).asked 1
        ≡ asks in_order in_order both device 2 0 1 a b)
    × ((endpoint in_order in_order both device 2 1).asked 0
        ≡ asks in_order in_order both device 2 1 0 b a)
create_job_example =
    create_job_lem in_order in_order both device 2 (λ x. refl) (λ x. refl) relayed all_succeed 0 1
      (omega arith) (omega arith) (omega arith)
