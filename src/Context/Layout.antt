-- ===== src/Context/Layout.antt =====
-- Where the stack of a coroutine lies: whole pages, above a page that nothing may touch.
use native.Mathlib.Nat.{mod-lt, mod-add-div', one-le-pow, div-eq_of_lt}
use uring_fiber.Prelude.{
  ℕ, ◌+◌, ◌-◌, ◌*◌, ◌/◌, ◌%◌, ◌^◌, ◌≤◌, ◌<◌, ◌≡◌, refl, ap, ◌∙◌, Bool, true, false, Option, none,
  some, pos, negsuc, arith,
}
use uring_fiber.Context.{
  Stack, page_rounded, init, unmapped, construct, built, linked, Context, Ucontext, threw, aborted,
  empty_stack,
}
use uring_fiber.Context.Masks.{bit_and_page}

le_multiple : (a b : ℕ) → 1 ≤ a → b ≤ a * b
le_multiple a b h = grind arith

multiple_mod : (q p : ℕ) → 0 < p → q * p % p ≡ 0
multiple_mod q p h = grind arith

-- A page is `2 ^ k` bytes, and there are `2 ^ m` of them in 64 bits.
module _ (k m : ℕ) (whole : 2 ^ m * 2 ^ k ≡ 2 ^ 64) where
  page_le : 2 ^ k ≤ 2 ^ 64
  page_le = omega (arith, le_multiple (2 ^ m) (2 ^ k) (one-le-pow m 2 (omega arith)), whole)

  page_rounded_small :
      (size : ℕ)
      → size + 2 ^ k ≤ 2 ^ 64
      → page_rounded (2 ^ k) size ≡ (size + 2 ^ k - 1) / 2 ^ k * 2 ^ k
  unfolding page_rounded
  page_rounded_small size h =
      let some_bytes = one-le-pow k 2 (omega arith) in
      bit_and_page k m ((size + 2 ^ k + 2 ^ 64 - 1) % 2 ^ 64) whole (omega arith)
      ∙ ap (λ (t : ℕ). t / 2 ^ k * 2 ^ k) (omega (arith, some_bytes, h))

  page_rounded_large :
      (size : ℕ) → size < 2 ^ 64 → 2 ^ 64 < size + 2 ^ k → page_rounded (2 ^ k) size ≡ 0
  unfolding page_rounded
  page_rounded_large size h over =
      let r : (size + 2 ^ k + 2 ^ 64 - 1) % 2 ^ 64 < 2 ^ k = omega (arith, h, over, page_le) in
      bit_and_page k m ((size + 2 ^ k + 2 ^ 64 - 1) % 2 ^ 64) whole (omega arith)
      ∙ ap (λ (t : ℕ). t * 2 ^ k) (div-eq_of_lt r)
      ∙ omega arith

  -- The least multiple of the page size that is not below `size`.
  rounded_bounds :
      (size : ℕ)
      → size + 2 ^ k ≤ 2 ^ 64
      → (size ≤ page_rounded (2 ^ k) size)
        × (page_rounded (2 ^ k) size < size + 2 ^ k)
        × (page_rounded (2 ^ k) size % 2 ^ k ≡ 0)
  rounded_bounds size h =
      let some_bytes : 0 < 2 ^ k = omega (arith, one-le-pow k 2 (omega arith)) in
      let n = size + 2 ^ k - 1 in
      let e = page_rounded_small size h in
      let split = mod-add-div' n (2 ^ k) in
      let rest = mod-lt n some_bytes in
      (
        omega (arith, e, split, rest, some_bytes),
        omega (arith, e, split, rest, some_bytes),
        ap (λ (t : ℕ). t % 2 ^ k) e ∙ multiple_mod (n / 2 ^ k) (2 ^ k) some_bytes,
      )

-- The stack is whole pages, no more than are needed for `size` bytes, ends where the mapping ends, and
-- lies above the one page that is protected, the first of the mapping. `~Stack` unmaps all of it.
pub record Laid (page size : ℕ) (s : Stack) : Type 0 where
  pub enough : size ≤ s.stack_size
  pub tight : s.stack_size < size + page
  pub pages : s.stack_size % page ≡ 0
  pub guard : s.stack_ptr ≡ s.alloc_ptr + page
  pub ends : s.stack_ptr + s.stack_size ≡ s.alloc_ptr + s.alloc_size
  pub freed : unmapped s ≡ some (s.alloc_ptr, s.alloc_size)

-- Let a page be `2 ^ k` bytes, a divisor of `2 ^ 64`, and let `mmap` return an address that is not null, with
-- room for `size` bytes and two pages below `2 ^ 64`, and `mprotect` succeed. Then `init` returns true,
-- and the stack is laid out as it should be.
pub init-Laid :
    (k m : ℕ)
    → 2 ^ m * 2 ^ k ≡ 2 ^ 64
    → (size p : ℕ) (s : Stack) → 0 < p
    → p + size + 2 * 2 ^ k ≤ 2 ^ 64
    → ((init (2 ^ k) size (some p) true s).0 ≡ true)
      × Laid (2 ^ k) size (init (2 ^ k) size (some p) true s).1
unfolding init unmapped
init-Laid k m whole size p s some_address room =
    let (big, tight, pages) = rounded_bounds k m whole size (omega (arith, room)) in
    (
      refl,
      record {
        enough = big;
        tight = tight;
        pages = pages;
        guard = omega (arith, room, big, tight, some_address);
        ends = omega (arith, room, big, tight, some_address);
        freed = ground (arith, some_address);
      },
    )

-- A size less than a page below `2 ^ 64` wraps around: `init` returns true with a stack of no bytes.
pub init-wraps :
    (k m : ℕ)
    → 2 ^ m * 2 ^ k ≡ 2 ^ 64
    → (size p : ℕ) (s : Stack) → size < 2 ^ 64
    → 2 ^ 64 < size + 2 ^ k
    → ((init (2 ^ k) size (some p) true s).0 ≡ true)
      × ((init (2 ^ k) size (some p) true s).1.stack_size ≡ 0)
unfolding init
init-wraps k m whole size p s h over = (refl, page_rounded_large k m whole size h over)

-- A context that uses the stack as it is laid out, and runs the function asked for.
pub record Uses (page size func arg : ℕ) (next : Option ℕ) (got : Ucontext) (c : Context)
    : Type 0 where
  pub laid : Laid page size c.stk
  pub pointer : c.ctx.ss_sp ≡ c.stk.stack_ptr
  pub whole : c.ctx.ss_size ≡ c.stk.stack_size
  pub runs : (c.ctx.func ≡ func) × (c.ctx.arg ≡ arg)
  pub link : c.ctx.uc_link ≡ (elim next [ none ↦ got.uc_link | some n ↦ some n ])

linked-link :
    (next : Option ℕ) (c : Ucontext)
    → ((linked next c).uc_link ≡ (elim next [ none ↦ c.uc_link | some n ↦ some n ]))
      × ((linked next c).ss_sp ≡ c.ss_sp)
      × ((linked next c).ss_size ≡ c.ss_size)
linked-link none c = (refl, refl, refl)
linked-link (some n) c = (refl, refl, refl)

-- The constructor of `Context` on every branch, for a page of `2 ^ k` bytes: its assertion fails on a size of
-- zero or less; on any other it throws if `mmap` or `mprotect` fails; and if they succeed, with an address that is not
-- null and has room, the context uses a stack that is laid out as it should be, and links to the
-- address of its parameter if there is one.
pub construct-Uses :
    (k m : ℕ)
    → 2 ^ m * 2 ^ k ≡ 2 ^ 64
    → (size p func arg : ℕ) (next : Option ℕ) (got : Ucontext) → 0 < size
    → 0 < p
    → p + size + 2 * 2 ^ k ≤ 2 ^ 64
    → ((a : Option ℕ) (b : Bool) → construct (2 ^ k) a b got func arg next (pos 0) ≡ aborted)
      × ((a : Option ℕ) (b : Bool) (n : ℕ)
          → construct (2 ^ k) a b got func arg next (negsuc n) ≡ aborted)
      × ((b : Bool) → construct (2 ^ k) none b got func arg next (pos size) ≡ threw)
      × (construct (2 ^ k) (some p) false got func arg next (pos size) ≡ threw)
      × ((c : Context) × (construct (2 ^ k) (some p) true got func arg next (pos size) ≡ built c)
          × Uses (2 ^ k) size func arg next got c)
unfolding construct init
construct-Uses k m whole size p func arg next got some_size some_address room =
    let stk = (init (2 ^ k) size (some p) true empty_stack).1 in
    let ctx : Ucontext = record got { ss_sp = stk.stack_ptr; ss_size = stk.stack_size } in
    let parts = linked-link next ctx in
    (
      λ a b. refl,
      λ a b n. refl,
      λ b. ground (arith, some_size),
      ground (arith, some_size),
      (
        record { ctx = record (linked next ctx) { func = func; arg = arg }; stk = stk },
        ground (arith, some_size),
        record {
          laid = (init-Laid k m whole size p empty_stack some_address room).1;
          pointer = parts.1;
          whole = parts.2;
          runs = (refl, refl);
          link = parts.0;
        },
      ),
    )
