-- ===== src/LfQueue/Chain.antt =====
-- The memory of a queue at rest as a list of values.
use uring_fiber.Prelude.{
  ℕ, ◌+◌, ◌%◌, ◌^◌, ◌<◌, ◌≡◌, ◌≢◌, refl, sym, ap, Option, none, some, List, [], ◌∷◌, ◌++◌, map,
  length, update, arith,
}
use uring_fiber.LfQueue.Packed.{pack}
use uring_fiber.LfQueue.Node.{Node, Memory}

-- The cells in front of the last node: their addresses and values, oldest first.
abbrev pub Cells : Type 0
Cells = List (ℕ × ℕ)

abbrev pub values : Cells → List ℕ
values = map (λ c. c.1)

-- The address of the first node, `t` being that of the last one.
abbrev pub first : Cells → ℕ → ℕ
first [] t = t
first ((p, x) ∷ cs) t = p

-- A node that holds a value, with its place as an old tail given up.
abbrev pub full : ℕ → ℕ → Node
full x next = record { item = x; count = record { internal = 0; external = 1 }; next = pack next 1 }

-- The last node: nothing in it yet.
abbrev pub hollow : Node
hollow = record { item = 0; count = record { internal = 0; external = 2 }; next = 0 }

abbrev pub IsAddress : ℕ → Type 0
IsAddress p = (0 < p) × (p < 2 ^ 48)

-- From the first cell on, the nodes link to the last node `t`.
abbrev pub Chain : (ℕ → Option Node) → Cells → ℕ → Type 0
Chain nodes [] t = Unit {0}
Chain nodes ((p, x) ∷ cs) t =
    (nodes p ≡ some (full x (first cs t))) × (0 < x) × IsAddress p × Chain nodes cs t

abbrev pub Apart : ℕ → Cells → Type 0
Apart q [] = Unit {0}
Apart q ((p, x) ∷ cs) = (p ≢ q) × Apart q cs

abbrev pub Distinct : Cells → Type 0
Distinct [] = Unit {0}
Distinct ((p, x) ∷ cs) = Apart p cs × Distinct cs

-- The memory `m` of a queue that no thread works on: it holds the values of `cs`, and `t` is its tail.
pub record AtRest (m : Memory) (cs : Cells) (t : ℕ) : Type 0 where
  pub head : m.head ≡ pack (first cs t) 1
  pub tail : m.tail ≡ pack t 1
  pub chain : Chain m.nodes cs t
  pub last : m.nodes t ≡ some hollow
  pub address : IsAddress t
  pub apart : Apart t cs
  pub distinct : Distinct cs
  pub size : m.size ≡ length cs % 2 ^ 32

pub Chain-update :
    (nodes : ℕ → Option Node) (cs : Cells) (t q : ℕ) (n : Option Node)
    → Apart q cs
    → Chain nodes cs t
    → Chain (update nodes q n) cs t
Chain-update nodes [] t q n a c = tt
Chain-update nodes ((p, x) ∷ cs) t q n a c =
    (ground arith, c.1, c.2, Chain-update nodes cs t q n a.1 c.3)

pub first-snoc : (cs : Cells) (t t' x : ℕ) → first (cs ++ (t, x) ∷ []) t' ≡ first cs t
first-snoc [] t t' x = refl
first-snoc ((p, y) ∷ cs) t t' x = refl

pub Chain-snoc :
    (nodes : ℕ → Option Node) (cs : Cells) (t t' x : ℕ)
    → nodes t ≡ some (full x t')
    → 0 < x
    → IsAddress t
    → Chain nodes cs t
    → Chain nodes (cs ++ (t, x) ∷ []) t'
Chain-snoc nodes [] t t' x e v a c = (e, v, a, tt)
Chain-snoc nodes ((p, y) ∷ cs) t t' x e v a c =
    (rw (first-snoc cs t t' x) c.0, c.1, c.2, Chain-snoc nodes cs t t' x e v a c.3)

pub Apart-snoc : (q : ℕ) (cs : Cells) (t x : ℕ) → t ≢ q → Apart q cs → Apart q (cs ++ (t, x) ∷ [])
Apart-snoc q [] t x ne a = (ne, tt)
Apart-snoc q ((p, y) ∷ cs) t x ne a = (a.0, Apart-snoc q cs t x ne a.1)

pub Distinct-snoc : (cs : Cells) (t x : ℕ) → Apart t cs → Distinct cs → Distinct (cs ++ (t, x) ∷ [])
Distinct-snoc [] t x a d = (tt, tt)
Distinct-snoc ((p, y) ∷ cs) t x a d =
    (Apart-snoc p cs t x (λ e. a.0 (sym e)) d.0, Distinct-snoc cs t x a.1 d.1)

-- A node that is not allocated is none of the chain.
pub Apart-of_none :
    (nodes : ℕ → Option Node) (cs : Cells) (t q : ℕ)
    → nodes q ≡ none
    → Chain nodes cs t
    → Apart q cs
Apart-of_none nodes [] t q e c = tt
Apart-of_none nodes ((p, x) ∷ cs) t q e c =
    (λ h. cc (c.0, ap nodes h, e), Apart-of_none nodes cs t q e c.3)

pub length-snoc : (cs : Cells) (c : ℕ × ℕ) → length (cs ++ c ∷ []) ≡ length cs + 1
length-snoc [] c = refl
length-snoc (d ∷ cs) c = omega (arith, length-snoc cs c)
