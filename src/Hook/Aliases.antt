-- ===== src/Hook/Aliases.antt =====
-- Two descriptors of one open file: what is done through one is seen through the other.
use uring_fiber.Prelude.{ℕ, ◌<◌, ◌≡◌, ◌≢◌, none, some, ℤ, pos, update, arith}
use uring_fiber.Hook.Fds.{set_non_blocking, Fds, get, modify}
use uring_fiber.Hook.Calls.{has_bit, o_nonblock, close, dup2, f_setfl, fcntl}

-- Let descriptor `o` have the record `p`, and let `dup2(o, n)` succeed, with `o` and `n` different and
-- inside the table. Then `fcntl(n, F_SETFL, flags)` sets the one record that both have, also if the C
-- library's call fails; and after `close(n)` the table has no record for `n` and still `p` for `o`.
pub dup2-shares :
    (o n p flags : ℕ) (r ret : ℤ) (f : Fds)
    → o ≢ n
    → o < f.size
    → n < f.size
    → f.table o ≡ some p
    → (g h k : Fds) × (dup2 (pos o) (pos n) (pos n) f ≡ some (pos n, g))
      × (fcntl (pos n) (f_setfl flags) r g ≡ some (r, h))
      × (close (pos n) (pos 0) h ≡ some (pos 0, k))
      × (get (pos o) h ≡ some (some p))
      × (get (pos n) h ≡ some (some p))
      × ((h.descs p).is_non_blocking ≡ has_bit o_nonblock flags)
      × (get (pos o) k ≡ some (some p))
      × (get (pos n) k ≡ some none)
unfolding dup2 fcntl close
dup2-shares o n p flags r ret f ne ho hn at =
    let g : Fds = record f { table = update f.table n (some p) } in
    let h : Fds = modify p (set_non_blocking (has_bit o_nonblock flags)) g in
    let k : Fds = record h { table = update h.table n none } in
    (
      g,
      h,
      k,
      ground arith,
      ground arith,
      ground arith,
      ground arith,
      ground arith,
      ground arith,
      ground arith,
      ground arith,
    )
