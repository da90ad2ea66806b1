-- ===== src/Context/Pages.antt =====
-- `check_stack_used`: which page it looks at.
use uring_fiber.Prelude.{
  ℕ, ◌+◌, ◌-◌, ◌*◌, ◌/◌, ◌%◌, ◌^◌, ◌≤◌, ◌<◌, ◌≡◌, ap, ap₂, ◌∙◌, Bool, true, false, Option, some,
  arith, ltb, if◌then◌else◌,
}
use uring_fiber.Context.{Stack, check_stack_used, is_page_in_memory}
use uring_fiber.Context.Masks.{bit_and-one}

-- `mincore(start, size, vec)` as documented, for pages from number `first` up to `last`, which are mapped:
-- the lowest bit of `vec[i]` says whether the page `i` pages above `start` is in memory.
pub record Documented (page first last : ℕ) (resident : ℕ → Bool) (mincore : ℕ → ℕ → Option (ℕ → ℕ))
    : Type 0 where
  pub answers :
      (start pages : ℕ)
      → first ≤ start
      → start + pages ≤ last
      → (vec : ℕ → ℕ) × (mincore (start * page) (page * pages) ≡ some vec)
        × ((i : ℕ) → i < pages → vec i % 2 ≡ (if resident (start + i) then 1 else 0))

in_memory_lem : (b : ℕ) (r : Bool) → b % 2 ≡ (if r then 1 else 0) → is_page_in_memory b ≡ r
unfolding is_page_in_memory
in_memory_lem b true e = ground (arith, bit_and-one b, e)
in_memory_lem b false e = ground (arith, bit_and-one b, e)

product_div : (d p : ℕ) → 0 < p → d * p / p ≡ d
product_div d p h = grind arith

e_parts : (page d num e : ℕ) → e ≡ (d + (num + 1)) * page → e ≡ d * page + page * (num + 1)
e_parts page d num e at = grind (arith, at)

-- The address that `mincore` is asked about: `num+1` pages below the end of the stack.
start_lem :
    (page d num e : ℕ)
    → e ≡ (d + (num + 1)) * page
    → e < 2 ^ 64
    → (e + 2 ^ 64 - page * (num + 1) % 2 ^ 64) % 2 ^ 64 ≡ d * page
start_lem page d num e at small = omega (arith, e_parts page d num e at, small)

-- Let the stack end on the page boundary number `d + num + 1`, let `mincore` behave as documented on the `num + 1` pages below, and let
-- exactly the `used` highest of its pages be in memory. If `check_stack_used` answers true for `num`, then
-- more than `num` pages are in memory: it looks at the page that the comment wants to be untouched.
pub check_stack_used-over :
    (mincore : ℕ → ℕ → Option (ℕ → ℕ)) (resident : ℕ → Bool) (past page num d used : ℕ) (s : Stack)
    → Documented page d (d + (num + 1)) resident mincore
    → s.stack_ptr + s.stack_size ≡ (d + (num + 1)) * page
    → s.stack_ptr + s.stack_size < 2 ^ 64
    → ((j : ℕ) → j ≤ num → resident (d + num - j) ≡ ltb j used)
    → check_stack_used mincore past page num s ≡ true
    → num < used
unfolding check_stack_used
check_stack_used-over mincore resident past page num d used s doc at small top yes_used =
    let e = s.stack_ptr + s.stack_size in
    let (vec, filled, bits) = doc.answers d (num + 1) (omega arith) (omega arith) in
    let first : is_page_in_memory (vec 0) ≡ resident d =
      in_memory_lem (vec 0) (resident d)
        (bits 0 (omega arith) ∙ ap (λ (n : ℕ). if resident n then 1 else 0) (omega arith)) in
    let lowest : resident d ≡ ltb num used = ap resident (omega arith) ∙ top num (omega arith) in
    let size : page * (num + 1) % 2 ^ 64 ≡ page * (num + 1) =
      omega (arith, small, e_parts page d num e at) in
    let asked : mincore ((e + 2 ^ 64 - page * (num + 1) % 2 ^ 64) % 2 ^ 64)
          (page * (num + 1) % 2 ^ 64)
        ≡ some vec =
      ap₂ mincore (start_lem page d num e at small) size ∙ filled in
    ground (arith, asked, first, lowest, yes_used)
