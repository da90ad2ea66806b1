-- ===== src/LfQueue/Packed.antt =====
-- `counted_node_ptr`: a 64-bit word with a node's address in the low 48 bits and a count in the high 16.
use Prim.Native.Nat.{bit_or}
use uring_fiber.Prelude.{ℕ, ◌+◌, ◌*◌, ◌/◌, ◌%◌, ◌^◌, ◌<◌, ◌≡◌, ap, ◌∙◌, arith}
use uring_fiber.LfQueue.Bits.{bit_or_disjoint, bit_or_disjoint_above}

-- `cnp&=-1L<<48; cnp|=(uint64_t)(p);`
unfoldable pub set_ptr : ℕ → ℕ → ℕ
set_ptr cnp p = bit_or (cnp / 2 ^ 48 % 2 ^ 16 * 2 ^ 48) p

-- `cnp&~(-1L<<48)`
unfoldable pub get_ptr : ℕ → ℕ
get_ptr cnp = cnp % 2 ^ 48

-- `cnp&=~(-1L<<48); cnp|=(uint64_t)(c)<<48;`
unfoldable pub set_count : ℕ → ℕ → ℕ
set_count cnp c = bit_or (cnp % 2 ^ 48) (c * 2 ^ 48 % 2 ^ 64)

-- `((uint64_t)cnp)>>48`
unfoldable pub get_count : ℕ → ℕ
get_count cnp = cnp / 2 ^ 48 % 2 ^ 16

-- The word with the address `p` and the count `c`.
pub pack : ℕ → ℕ → ℕ
pack p c = c * 2 ^ 48 + p

count_shift : (c : ℕ) → c * 2 ^ 48 % 2 ^ 64 ≡ c % 2 ^ 16 * 2 ^ 48
count_shift c = omega arith

-- `SET_PTR` writes an address of 48 bits into any word and keeps its count.
pub set_ptr_lem : (cnp p : ℕ) → p < 2 ^ 48 → set_ptr cnp p ≡ pack p (get_count cnp)
unfolding set_ptr pack get_count
set_ptr_lem cnp p h = bit_or_disjoint_above 48 (cnp / 2 ^ 48 % 2 ^ 16) p h

-- `SET_COUNT` writes the low 16 bits of a count into any word and keeps its address.
pub set_count_lem : (cnp c : ℕ) → set_count cnp c ≡ pack (get_ptr cnp) (c % 2 ^ 16)
unfolding set_count pack get_ptr
set_count_lem cnp c =
    ap (bit_or (cnp % 2 ^ 48)) (count_shift c)
    ∙ bit_or_disjoint 48 (c % 2 ^ 16) (cnp % 2 ^ 48) (omega arith)

pub get_ptr-pack : (p c : ℕ) → p < 2 ^ 48 → get_ptr (pack p c) ≡ p
unfolding get_ptr pack
get_ptr-pack p c h = omega arith

pub get_count-pack : (p c : ℕ) → p < 2 ^ 48 → c < 2 ^ 16 → get_count (pack p c) ≡ c
unfolding get_count pack
get_count-pack p c h k = omega arith

-- Reading after writing: `SET_PTR` then `GET_PTR` gives the address and `GET_COUNT` the old count;
-- `SET_COUNT` then `GET_COUNT` gives the count modulo 2^16 and `GET_PTR` the old address.
pub packed_roundtrip :
    (cnp p c : ℕ)
    → p < 2 ^ 48
    → (get_ptr (set_ptr cnp p) ≡ p)
      × (get_count (set_ptr cnp p) ≡ get_count cnp)
      × (get_count (set_count cnp c) ≡ c % 2 ^ 16)
      × (get_ptr (set_count cnp c) ≡ get_ptr cnp)
packed_roundtrip cnp p c h = (
  ap get_ptr (set_ptr_lem cnp p h) ∙ get_ptr-pack p (get_count cnp) h,
  ap get_count (set_ptr_lem cnp p h)
      ∙ get_count-pack p (get_count cnp) h (unfold get_count in omega arith),
  ap get_count (set_count_lem cnp c)
      ∙ get_count-pack (get_ptr cnp) (c % 2 ^ 16) (unfold get_ptr in omega arith) (omega arith),
  ap get_ptr (set_count_lem cnp c)
      ∙ get_ptr-pack (get_ptr cnp) (c % 2 ^ 16) (unfold get_ptr in omega arith),
)
