-- ===== src/Prelude/Lists.antt =====
-- Lists measured by native numbers, and families indexed by a number.
use Prim.Native.Nat.{ℕ, zero, suc, ◌+◌}
use mathlib.Core.Path.{◌≡◌, refl, ap}
use mathlib.Core.Bool.{Bool, true, false}
use mathlib.Core.List.{List, [], ◌∷◌, ◌++◌, map}
use mathlib.Core.Option.{Option, none, some}
use native.Mathlib.Omega.{arith}
use uring_fiber.Prelude.Tests.{◌==◌, ==_iff, if◌then◌else◌}

-- A function changed at one number.
abbrev pub update {ℓ} : {A : Type ℓ} → (ℕ → A) → ℕ → A → ℕ → A
update f i a j = if i == j then a else f j

pub update-same {ℓ} : {A : Type ℓ} (f : ℕ → A) (i : ℕ) (a : A) → update f i a i ≡ a
update-same f i a = rw ((==_iff i i).1 refl) refl

module _ {ℓ} {A : Type ℓ} where
  abbrev pub length : List A → ℕ
  length [] = 0
  length (x ∷ xs) = suc (length xs)

  abbrev pub get_elem? : List A → ℕ → Option A
  get_elem? [] i = none
  get_elem? (x ∷ xs) zero = some x
  get_elem? (x ∷ xs) (suc i) = get_elem? xs i

  -- A write out of bounds changes nothing.
  abbrev pub set : List A → ℕ → A → List A
  set [] i v = []
  set (x ∷ xs) zero v = v ∷ xs
  set (x ∷ xs) (suc i) v = x ∷ set xs i v

  abbrev pub take : ℕ → List A → List A
  take zero xs = []
  take (suc n) [] = []
  take (suc n) (x ∷ xs) = x ∷ take n xs

  abbrev pub drop : ℕ → List A → List A
  drop zero xs = xs
  drop (suc n) [] = []
  drop (suc n) (x ∷ xs) = drop n xs

  pub take-drop : (n : ℕ) (xs : List A) → take n xs ++ drop n xs ≡ xs
  take-drop zero xs = refl
  take-drop (suc n) [] = refl
  take-drop (suc n) (x ∷ xs) = ap (◌∷◌ x) (take-drop n xs)

  abbrev pub is_empty : List A → Bool
  is_empty [] = true
  is_empty (x ∷ xs) = false

  pub length-append : (xs ys : List A) → length (xs ++ ys) ≡ length xs + length ys
  length-append [] ys = omega arith
  length-append (x ∷ xs) ys = omega (arith, length-append xs ys)

  pub length-set : (xs : List A) (i : ℕ) (v : A) → length (set xs i v) ≡ length xs
  length-set [] i v = refl
  length-set (x ∷ xs) zero v = refl
  length-set (x ∷ xs) (suc i) v = ap suc (length-set xs i v)

-- How often a number stands in a list.
abbrev pub count : ℕ → List ℕ → ℕ
count a [] = 0
count a (x ∷ xs) = (if x == a then 1 else 0) + count a xs

pub count-append : (t : ℕ) (q r : List ℕ) → count t (q ++ r) ≡ count t q + count t r
count-append t [] r = omega arith
count-append t (tk ∷ q) r = let rest = count-append t q r in omega (arith, rest)

-- A list without its `n`th element, and that element alone; a list that is shorter is left as it is.
abbrev pub drop_nth : ℕ → List ℕ → List ℕ
drop_nth n [] = []
drop_nth zero (x ∷ xs) = xs
drop_nth (suc n) (x ∷ xs) = x ∷ drop_nth n xs

abbrev pub only_nth : ℕ → List ℕ → List ℕ
only_nth n [] = []
only_nth zero (x ∷ xs) = x ∷ []
only_nth (suc n) (x ∷ xs) = only_nth n xs

pub count-drop_nth :
    (t n : ℕ) (xs : List ℕ) → count t xs ≡ count t (drop_nth n xs) + count t (only_nth n xs)
count-drop_nth t n [] = refl
count-drop_nth t zero (x ∷ xs) = omega arith
count-drop_nth t (suc n) (x ∷ xs) = let rest = count-drop_nth t n xs in omega (arith, rest)

module _ {ℓ} {A : Type ℓ} where
  pub length-map {κ} : {B : Type κ} (xs : List A) (f : A → B) → length (map f xs) ≡ length xs
  length-map [] f = refl
  length-map (x ∷ xs) f = ap suc (length-map xs f)
