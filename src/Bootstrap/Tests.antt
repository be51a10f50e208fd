-- ===== src/Bootstrap/Tests.antt =====
-- src/core/bootstrap.cc: a job of three ranks forms although two strays call in between.
use vkccl.Prelude.{ℕ, zero, suc, ◌<◌, ◌≡◌, refl, Option, none, some, List, [], ◌∷◌, map, arith}
use vkccl.Types.{success, system_error, invalid_usage}
use vkccl.Bootstrap.{
  Hello, JobId, Host, Root, find_listener, erase_listener, put_listener, vccl_magic, root_listener,
  root_init, client_hello, client_init,
}
use vkccl.Bootstrap.Forming.{accepted, Heard, Calls, root_init_lem}

abbrev here : Host
here = record { version = 100; marker = 1 }

abbrev job : JobId
job = record { magic = vccl_magic; salt = 7; place = 5 }

-- Rank 2, a client that drops in its `Hello`, one of another job, and rank 1.
abbrev callers : List (ℕ × Option Hello)
callers =
    (10, some (client_hello here job 3 2))
    ∷ (11, none)
    ∷ (12, some (client_hello here (record job { salt = 8 }) 3 1))
    ∷ (13, some (client_hello here job 3 1))
    ∷ []

callers-Calls : (r : ℕ) → 0 < r → r < 3 → Calls here job 3 r callers
callers-Calls zero l h = absurd (omega arith)
callers-Calls (suc zero) l h = (3, 13, refl)
callers-Calls (suc (suc zero)) l h = (0, 10, refl)
callers-Calls (suc (suc (suc r))) l h = absurd (omega arith)

found : root_listener job (system_error, 0) ((job, 4) ∷ []) ≡ (success, some 4, [])
unfolding root_listener find_listener erase_listener
found = refl

root_init_lem_example :
    (s : Root) × (root_init here job 3
        (system_error, 0)
        (map (accepted here job 3) callers)
        ((job, 4) ∷ [])
      ≡ some (success, s, []))
    × ((r : ℕ)
        → 0 < r
        → r < 3
        → (fd : ℕ) × (s.peer_fds r ≡ some fd) × Heard here job 3 callers r fd)
root_init_lem_example =
    root_init_lem here job 3 4 (system_error, 0) ((job, 4) ∷ []) [] callers refl found callers-Calls

-- A client that the root turns away fails; an id that is made again closes the old socket.
turned_away : client_init job success success success 0 ≡ invalid_usage
unfolding client_init
turned_away = refl

made_again : put_listener job 9 ((job, 4) ∷ []) ≡ ((job, 9) ∷ [], 4 ∷ [])
unfolding put_listener find_listener erase_listener
made_again = refl
