-- ===== src/Engine/Tests.antt =====
-- Concrete requests and completions.
use uring_fiber.Prelude.{◌≡◌, ◌↔◌, Option, none, some, [], ◌∷◌, pos, neg, update}
use uring_fiber.Engine.{
  normal, timeout, Timespec, Prep, Cqe, Engine, exec, enoent, blocked, wait_result,
}
use uring_fiber.Engine.Wait.{AllQuiet, wait_result-blocked}

-- The caller's `result` is number 3 and names task 77.
abbrev new_engine : Engine
new_engine = record {
  entries = λ _. none;
  datas = λ _. none;
  next_data = 100;
  results = λ _. record { user_data = pos 77; ret = pos 0 };
  submits = 0;
  seen = 0;
}

abbrev no_limit : Timespec
no_limit = record { tv_sec = 0; tv_nsec = 0 }

abbrev one_second : Timespec
one_second = record { tv_sec = 1; tv_nsec = 0 }

abbrev a_recv : Prep
a_recv = Prep.recv 5 0 64 0

abbrev timed_engine : Engine
timed_engine = (exec a_recv 3 one_second (some 0) (some 1) new_engine).0

-- A link timeout that did not fire, before the completion of another request.
abbrev after_timeout : Engine
after_timeout = record new_engine {
  datas =
      update (update (λ _. none) 101 (some (record { type = timeout; res = 3 }))) 102
        (some (record { type = normal; res = 4 }));
}

abbrev quiet_cqe : Option Cqe
quiet_cqe = some (record { user_data = 101; res = neg enoent })

abbrev other_cqe : Option Cqe
other_cqe = some (record { user_data = 102; res = pos 9 })

wait_result-blocked_example :
    ((wait_result (quiet_cqe ∷ []) after_timeout).1 ≡ blocked)
    ↔ AllQuiet after_timeout (quiet_cqe ∷ [])
wait_result-blocked_example = wait_result-blocked (quiet_cqe ∷ []) after_timeout
