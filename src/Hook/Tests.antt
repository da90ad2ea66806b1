-- ===== src/Hook/Tests.antt =====
-- The hooked calls on a table with one open socket.
use uring_fiber.Prelude.{
  ◌*◌, ◌<◌, ◌≡◌, refl, true, false, none, some, [], ◌∷◌, pos, negsuc, neg, update, arith,
}
use uring_fiber.Engine.{resumes, Prep, Engine, wait_result, eagain, etime, ecanceled}
use uring_fiber.Engine.Completion.{request_done, timeout_done}
use uring_fiber.Hook.Fds.{t_socket, FdDesc, so_rcvtimeo, make_desc, set_socket_attr, Fds, get}
use uring_fiber.Hook.Calls.{close, dup2, f_setfl, fcntl, setsockopt}
use uring_fiber.Hook.Io.{uring, recv}
use uring_fiber.Hook.Aliases.{dup2-shares}
use uring_fiber.Hook.Timeouts.{setsockopt-recv, setsockopt-overflow}
use uring_fiber.Balance.{Worker}
use uring_fiber.Scheduler.IoWait.{WaitState, going, wait_round}
use uring_fiber.Scheduler.IoWait.Delivered.{Listed}
use uring_fiber.Hook.Resumed.{requested, recv-requeues}
use uring_fiber.Hook.Whole.{Setting, returned, go_on, timed_request, Served, recv-timed_out}

abbrev stream_socket : FdDesc
stream_socket = set_socket_attr (pos 2) (pos 1) (make_desc (pos 3) t_socket false)

-- Descriptor 3 is a socket with the record 0; descriptor 4 is not open.
abbrev one_socket : Fds
one_socket = record {
  descs = λ _. stream_socket;
  next = 1;
  table = update (λ _. none) 3 (some 0);
  size = 1024;
}

dup2-shares_example :
    (g h k : Fds) × (dup2 (pos 3) (pos 5) (pos 5) one_socket ≡ some (pos 5, g))
    × (fcntl (pos 5) (f_setfl 2050) (pos 0) g ≡ some (pos 0, h))
    × (close (pos 5) (pos 0) h ≡ some (pos 0, k))
    × (get (pos 3) h ≡ some (some 0))
    × (get (pos 5) h ≡ some (some 0))
    × ((h.descs 0).is_non_blocking ≡ true)
    × (get (pos 3) k ≡ some (some 0))
    × (get (pos 5) k ≡ some none)
dup2-shares_example =
    dup2-shares 3 5 0 2050 (pos 0) (pos 0) one_socket (omega arith) (omega arith) (omega arith) refl

setsockopt-recv_example :
    (g : Fds) × (setsockopt (pos 3) so_rcvtimeo (pos 2) (pos 500000) (pos 0) one_socket
      ≡ some (pos 0, g))
    × (recv true (pos 3) 8 64 0 g
        ≡ uring (Prep.recv 3 8 64 0) (some (record { tv_sec = 2; tv_nsec = 500000000 })))
    × (500000 * 1000 < 1000000000)
    × ((g.descs 0).send_timeout ≡ pos 0)
    × ((g.descs 0).is_non_blocking ≡ false)
unfolding get
setsockopt-recv_example =
    setsockopt-recv 3 0 2 500000 8 64 one_socket refl refl refl (omega arith) (omega arith)

-- An hour.
setsockopt-overflow_example :
    (g : Fds) × (setsockopt (pos 3) so_rcvtimeo (pos 3600) (pos 0) (pos 0) one_socket
      ≡ some (pos 0, g))
    × (recv true (pos 3) 8 64 0 g ≡ uring (Prep.recv 3 8 64 0) none)
unfolding get
setsockopt-overflow_example =
    setsockopt-overflow 3 0 3600 0 8 64 one_socket refl refl refl (omega arith) (omega arith)

abbrev idle_engine : Engine
idle_engine = record {
  entries = λ _. none;
  datas = λ _. none;
  next_data = 100;
  results = λ _. record { user_data = pos 0; ret = pos 0 };
  submits = 0;
  seen = 0;
}

-- The connection was reset.
abbrev a_call : Setting
a_call = record {
  task = pos 77;
  res = 3;
  uninitialised = pos 5;
  first = some 0;
  second = some 1;
  completions = request_done idle_engine (neg (pos 104)) ∷ [];
  engine = idle_engine;
}

one_socket-Served : Served (pos 3) 0 0 one_socket
unfolding get
one_socket-Served = record {
  place = 0;
  known = refl;
  socket = refl;
  blocking = refl;
  waits = refl;
  timeout_us = refl;
}

-- Its receive timeout is 2.5 s.
abbrev patient_socket : Fds
patient_socket = record one_socket {
  descs = λ _. record stream_socket { recv_timeout = pos 2500000 };
}

patient_socket-Served : Served (pos 3) 0 2500000 patient_socket
unfolding get
patient_socket-Served = record {
  place = 0;
  known = refl;
  socket = refl;
  blocking = refl;
  waits = refl;
  timeout_us = refl;
}

recv-timed_out_example :
    let p = Prep.recv 3 8 64 0 in
    let w1 =
      wait_result
        (request_done idle_engine (neg ecanceled) ∷ [])
        (timed_request a_call p 2500000 0 1) in
    let w2 = wait_result (timeout_done idle_engine (neg etime) ∷ []) w1.0 in
    (recv true (pos 3) 8 64 0 patient_socket
      ≡ uring p (some (record { tv_sec = 2; tv_nsec = 500000000 })))
    × (go_on 3 w1.0 w1.1 ≡ returned w1.0 (pos 77) (negsuc 0) (some ecanceled))
    × (go_on 3 w2.0 w2.1 ≡ returned w2.0 (pos 77) eagain none)
recv-timed_out_example =
    recv-timed_out a_call (pos 3) 8 64 0 2500000 0 1 patient_socket patient_socket-Served
      (omega arith)

abbrev idle_worker : Worker
idle_worker = record { runnable_queue = []; waiting = true }

abbrev two_workers : WaitState
two_workers = record {
  engine = idle_engine;
  processers = idle_worker ∷ idle_worker ∷ [];
  list_idx = 3;
}

recv-requeues_example :
    (recv true (pos 3) 8 64 0 one_socket
      ≡ uring (Prep.recv 3 8 64 0) (some (record { tv_sec = 0; tv_nsec = 0 })))
    × ((t : WaitState) × (wait_round
            (record { stop = false; answers = request_done idle_engine (neg (pos 104)) ∷ [] })
            (requested a_call (Prep.recv 3 8 64 0) 0 two_workers)
          ≡ (t, going))
        × Listed (77 ∷ []) (record two_workers { engine = t.engine }) t
        × (go_on 3 t.engine (resumes (pos 77))
            ≡ returned t.engine (pos 77) (negsuc 0) (some (pos 104))))
recv-requeues_example =
    recv-requeues a_call 77 (pos 3) 8 64 0 0 one_socket (neg (pos 104)) [] two_workers
      one_socket-Served refl (omega arith) refl (omega arith)
