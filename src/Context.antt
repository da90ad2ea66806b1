-- ===== src/Context.antt =====
-- context/stack.{hpp,cpp} and context/context.{hpp,cpp}: the stack of a coroutine and its context. Addresses
-- and sizes are 64-bit patterns. What the system calls answer are arguments.
mod Masks
pub mod Layout
pub mod Pages
mod Tests
use Prim.Native.Nat.{bit_and}
use uring_fiber.Prelude.{
  ℕ, zero, suc, ◌+◌, ◌-◌, ◌*◌, ◌/◌, ◌%◌, ◌^◌, Bool, true, false, not, ◌&&◌, Option, none, some,
  ◌==◌, if◌then◌else◌, ℤ, pos, negsuc,
}

-- The fields of `Stack`.
pub record Stack : Type 0 where
  pub alloc_ptr : ℕ
  pub alloc_size : ℕ
  pub stack_ptr : ℕ
  pub stack_size : ℕ

abbrev pub empty_stack : Stack
empty_stack = record { alloc_ptr = 0; alloc_size = 0; stack_ptr = 0; stack_size = 0 }

-- `MAP_FAILED`
abbrev pub map_failed : ℕ
map_failed = 2 ^ 64 - 1

-- `(size + pagesize - 1) & ~(pagesize - 1)`: the complement is an `int`, and keeps its sign in 64 bits.
unfoldable pub page_rounded : ℕ → ℕ → ℕ
page_rounded pagesize size = bit_and ((size + pagesize + 2 ^ 64 - 1) % 2 ^ 64) (2 ^ 64 - pagesize)

-- `Stack::init`, where `mmap` returns `mapped`, `none` being `MAP_FAILED`, and `mprotect` succeeds or not.
unfoldable pub init : (pagesize size : ℕ) → Option ℕ → Bool → Stack → Bool × Stack
unfolding page_rounded
init pagesize size mapped protected s =
    let rounded = page_rounded pagesize size in
    let s1 = record s { stack_size = rounded; alloc_size = (rounded + pagesize) % 2 ^ 64 } in
    elim mapped [
      | none ↦ (false, record s1 { alloc_ptr = map_failed })
      | some p ↦ (protected, record s1 { alloc_ptr = p; stack_ptr = (p + pagesize) % 2 ^ 64 })
    ]

-- What `~Stack` gives to `munmap`, if it calls it.
unfoldable pub unmapped : Stack → Option (ℕ × ℕ)
unmapped s = if s.alloc_ptr == 0 then none else some (s.alloc_ptr, s.alloc_size)

-- `is_page_in_memory`
unfoldable pub is_page_in_memory : ℕ → Bool
is_page_in_memory b = not (bit_and b 1 == 0)

-- `Stack::check_stack_used`, where `mincore` fills `vec` for the pages from the address that it is given, or
-- fails, and `past` is what stands behind the `num+1` elements of `vec`.
unfoldable pub check_stack_used : (ℕ → ℕ → Option (ℕ → ℕ)) → (past pagesize num : ℕ) → Stack → Bool
unfolding is_page_in_memory
check_stack_used mincore past pagesize num s =
    let size = pagesize * (num + 1) % 2 ^ 64 in
    let start = (s.stack_ptr + s.stack_size + 2 ^ 64 - size) % 2 ^ 64 in
    elim (mincore start size) [
      | none ↦ false
      | some vec ↦ if is_page_in_memory (vec 0) && not (is_page_in_memory past) then true else false
    ]

-- What `makecontext` and `swapcontext` use of a `ucontext_t`. `uc_link` is the address of another.
pub record Ucontext : Type 0 where
  pub ss_sp : ℕ
  pub ss_size : ℕ
  pub uc_link : Option ℕ
  pub func : ℕ
  pub arg : ℕ

-- A `Context`: `ctx_` and `stk_`.
pub record Context : Type 0 where
  pub ctx : Ucontext
  pub stk : Stack

pub data Built : Type 0 where
  aborted : Built  -- `assert(stack_size > 0)`
  threw : Built  -- "stack init failed"
  built : Context → Built

-- `if (next_ctx) ctx_.uc_link=&(next_ctx->ctx_)`, where `next` is the address of the `ctx_` of the
-- parameter, which lives until the call returns.
abbrev pub linked : Option ℕ → Ucontext → Ucontext
linked none c = c
linked (some next) c = record c { uc_link = some next }

-- `Context::Context` on an `int`, which becomes a `size_t` for `init`; `got` is what `getcontext` fills in.
unfoldable pub construct :
    (pagesize : ℕ) (mapped : Option ℕ) (protected : Bool) (got : Ucontext) (func arg : ℕ)
    → Option ℕ
    → ℤ
    → Built
unfolding init
construct pagesize mapped protected got func arg next (negsuc n) = aborted
construct pagesize mapped protected got func arg next (pos stack_size) =
    let (ok, stk) = init pagesize stack_size mapped protected empty_stack in
    let ctx : Ucontext = record got { ss_sp = stk.stack_ptr; ss_size = stk.stack_size } in
    if stack_size == 0
    then aborted
    else (if ok
        then built (record { ctx = record (linked next ctx) { func = func; arg = arg }; stk = stk })
        else threw)

-- `Context::Reset`
unfoldable pub reset : (func arg : ℕ) → Option ℕ → Context → Context
reset func arg next c = record c { ctx = record (linked next c.ctx) { func = func; arg = arg } }
