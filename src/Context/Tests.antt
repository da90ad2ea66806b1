-- ===== src/Context/Tests.antt =====
-- The theorems on stacks and contexts, for pages of 4096 bytes.
use uring_fiber.Prelude.{
  pos, negsuc, ℕ, ◌+◌, ◌-◌, ◌*◌, ◌/◌, ◌^◌, ◌<◌, ◌≡◌, refl, Bool, true, false, Option, none, some,
  arith, ltb, if◌then◌else◌,
}
use uring_fiber.Context.{
  Stack, page_rounded, Ucontext, Context, construct, built, threw, aborted, check_stack_used,
  is_page_in_memory,
}
use uring_fiber.Context.Layout.{construct-Uses, Uses}
use uring_fiber.Context.Pages.{Documented, check_stack_used-over}

rounds_up : page_rounded 4096 10_000 ≡ 12_288
unfolding page_rounded
rounds_up = refl

abbrev zeroed : Ucontext
zeroed = record { ss_sp = 0; ss_size = 0; uc_link = none; func = 0; arg = 0 }

construct-Uses_example :
    ((a : Option ℕ) (b : Bool) → construct (2 ^ 12) a b zeroed 7 8 none (pos 0) ≡ aborted)
    × ((a : Option ℕ) (b : Bool) (n : ℕ)
        → construct (2 ^ 12) a b zeroed 7 8 none (negsuc n) ≡ aborted)
    × ((b : Bool) → construct (2 ^ 12) none b zeroed 7 8 none (pos 10_000) ≡ threw)
    × (construct (2 ^ 12) (some 409_600) false zeroed 7 8 none (pos 10_000) ≡ threw)
    × ((c : Context) × (construct (2 ^ 12) (some 409_600) true zeroed 7 8 none (pos 10_000)
          ≡ built c)
        × Uses (2 ^ 12) 10_000 7 8 none zeroed c)
construct-Uses_example =
    construct-Uses 12 52 refl 10_000 409_600 7 8 none zeroed (omega arith) (omega arith)
      (omega arith)

-- A stack of four pages, the pages 100 to 103, of which the three highest are in memory.
abbrev four_pages : Stack
four_pages = record {
  alloc_ptr = 405_504;
  alloc_size = 20_480;
  stack_ptr = 409_600;
  stack_size = 16_384;
}

abbrev resident : ℕ → Bool
resident n = ltb (103 - n) 3

abbrev answered : ℕ → ℕ → Option (ℕ → ℕ)
answered start size = some (λ i. if resident (start / 4096 + i) then 1 else 0)

answered-Documented : Documented 4096 101 104 resident answered
answered-Documented = record {
  answers = λ start pages low high.
      (λ i. if resident (start * 4096 / 4096 + i) then 1 else 0, refl, λ i h. ground arith);
}

uses_three : check_stack_used answered 0 4096 2 four_pages ≡ true
unfolding check_stack_used is_page_in_memory
uses_three = refl

check_stack_used-over_example : 2 < 3
check_stack_used-over_example =
    check_stack_used-over answered resident 0 4096 2 101 3 four_pages answered-Documented refl
      (omega arith) (λ j h. ground arith) uses_three
