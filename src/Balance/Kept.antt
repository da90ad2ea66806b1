-- ===== src/Balance/Kept.antt =====
-- `LoadBalance` moves tasks, and neither loses nor doubles one.
use uring_fiber.Prelude.{
  inl, inr, ◌<◌, length-set, ℕ, zero, suc, ◌+◌, ◌≡◌, refl, ap, sym, ◌∙◌, subst, true, none, some,
  List, [], ◌∷◌, if_cases, length, get_elem?, set, take, drop, take-drop, count, count-append,
  is_empty, Option-cases, arith,
}
use uring_fiber.Balance.{
  Floats, Worker, steal, add_tasks, size_at, move_tasks, steal_num, average, overloaded,
  underloaded, balance_from, balance_all, load_balance, is_over, is_under,
}

-- How often task `t` is queued, over all processors.
abbrev pub queued : ℕ → List Worker → ℕ
queued t [] = 0
queued t (w ∷ ws) = count t w.runnable_queue + queued t ws

pub queued-set :
    (t i : ℕ) (ws : List Worker) (w v : Worker)
    → get_elem? ws i ≡ some w
    → queued t (set ws i v) + count t w.runnable_queue ≡ queued t ws + count t v.runnable_queue
queued-set t i [] w v e = cc
queued-set t zero (x ∷ ws) w v e = ground (arith, e)
queued-set t (suc i) (x ∷ ws) w v e = omega (arith, queued-set t i ws w v e)

pub get_elem?-of_lt :
    (ws : List Worker) (i : ℕ) → i < length ws → (w : Worker) × (get_elem? ws i ≡ some w)
get_elem?-of_lt [] i h = absurd (omega arith)
get_elem?-of_lt (x ∷ ws) zero h = (x, refl)
get_elem?-of_lt (x ∷ ws) (suc i) h = get_elem?-of_lt ws i (omega (arith, h))

is_empty-nil : (t : ℕ) (xs : List ℕ) → is_empty xs ≡ true → count t xs ≡ 0
is_empty-nil t [] e = refl
is_empty-nil t (x ∷ xs) e = cc

added-queued :
    (t dst : ℕ) (ts : List ℕ) (ws : List Worker)
    → dst < length ws
    → queued t (elim (get_elem? ws dst) [ none ↦ ws | some d ↦ set ws dst (add_tasks ts d) ])
      ≡ queued t ws + count t ts
unfolding add_tasks
added-queued t dst ts ws h =
    let (d, e) = get_elem?-of_lt ws dst h in
    rw e
      (omega (arith, queued-set t dst ws d (add_tasks ts d) e, count-append t d.runnable_queue ts))

length-added :
    (dst : ℕ) (ts : List ℕ) (ws : List Worker)
    → length (elim (get_elem? ws dst) [ none ↦ ws | some d ↦ set ws dst (add_tasks ts d) ])
      ≡ length ws
length-added dst ts ws = elim (Option-cases (get_elem? ws dst)) [
  | inl e ↦ rw e refl
  | inr (d, e) ↦ rw e (length-set ws dst (add_tasks ts d))
]

-- A move keeps the number of processors, and how often each task is queued.
length-move_tasks :
    (num src dst : ℕ) (ws : List Worker) → length (move_tasks num src dst ws) ≡ length ws
unfolding move_tasks steal
length-move_tasks num src dst ws = elim (Option-cases (get_elem? ws src)) [
  | inl e ↦ rw (e, move_tasks) refl
  | inr (w, e) ↦
      let ws' = set ws src (steal num w).1 in
      let same : length ws' ≡ length ws = length-set ws src (steal num w).1 in
      rw (e, move_tasks)
        (if_cases (λ (vs : List Worker). length vs ≡ length ws) (is_empty (steal num w).0)
          (λ _. same) (λ _. length-added dst (steal num w).0 ws' ∙ same))
]

move_tasks-queued :
    (t num src dst : ℕ) (ws : List Worker)
    → dst < length ws
    → queued t (move_tasks num src dst ws) ≡ queued t ws
unfolding move_tasks steal
move_tasks-queued t num src dst ws h = elim (Option-cases (get_elem? ws src)) [
  | inl e ↦ rw (e, move_tasks) refl
  | inr (w, e) ↦
      let ws' = set ws src (steal num w).1 in
      let parts : count t (steal num w).0 + count t (steal num w).1.runnable_queue
          ≡ count t w.runnable_queue =
        sym (count-append t (take num w.runnable_queue) (drop num w.runnable_queue))
        ∙ ap (count t) (take-drop num w.runnable_queue) in
      rw (e, move_tasks)
        (if_cases (λ vs. queued t vs ≡ queued t ws) (is_empty (steal num w).0)
          (λ none_stolen. omega (
            arith,
            parts,
            is_empty-nil t (steal num w).0 none_stolen,
            queued-set t src ws w (steal num w).1 e,
          ))
          (λ _. omega (
            arith,
            parts,
            queued-set t src ws w (steal num w).1 e,
            added-queued t dst (steal num w).0 ws'
                (omega (arith, h, length-set ws src (steal num w).1)),
          )))
]

abbrev pub AllBelow : ℕ → List ℕ → Type 0
AllBelow n [] = Unit
AllBelow n (x ∷ xs) = (x < n) × AllBelow n xs

module _ {ℓ} {W : Type ℓ} ⦃f : Floats W⦄ where
  length-balance_from :
      (avg : W) (dst : ℕ) (srcs : List ℕ) (ws : List Worker)
      → length (balance_from avg dst srcs ws) ≡ length ws
  unfolding balance_from
  length-balance_from avg dst [] ws = refl
  length-balance_from avg dst (src ∷ srcs) ws =
      let num = steal_num avg (size_at ws src) in
      ground (
        arith,
        length-balance_from avg dst srcs ws,
        length-balance_from avg dst srcs (move_tasks num src dst ws),
        length-move_tasks num src dst ws,
      )

  balance_from-queued :
      (t : ℕ) (avg : W) (dst : ℕ) (srcs : List ℕ) (ws : List Worker)
      → dst < length ws
      → queued t (balance_from avg dst srcs ws) ≡ queued t ws
  unfolding balance_from
  balance_from-queued t avg dst [] ws h = refl
  balance_from-queued t avg dst (src ∷ srcs) ws h =
      let num = steal_num avg (size_at ws src) in
      let below : dst < length (move_tasks num src dst ws) =
        omega (arith, h, length-move_tasks num src dst ws) in
      ground (
        arith,
        balance_from-queued t avg dst srcs ws h,
        balance_from-queued t avg dst srcs (move_tasks num src dst ws) below,
        move_tasks-queued t num src dst ws h,
      )

  balance_all-queued :
      (t : ℕ) (avg : W) (dsts srcs : List ℕ) (ws : List Worker)
      → AllBelow (length ws) dsts
      → queued t (balance_all avg dsts srcs ws) ≡ queued t ws
  unfolding balance_all
  balance_all-queued t avg [] srcs ws h = refl
  balance_all-queued t avg (dst ∷ dsts) srcs ws h =
      balance_all-queued t avg dsts srcs (balance_from avg dst srcs ws)
        (subst (λ n. AllBelow n dsts) (sym (length-balance_from avg dst srcs ws)) h.1)
      ∙ balance_from-queued t avg dst srcs ws h.0

  underloaded-AllBelow :
      (avg : W) (i n : ℕ) (ws : List Worker) → i + length ws ≡ n → AllBelow n (underloaded avg i ws)
  unfolding underloaded
  underloaded-AllBelow avg i n [] e = tt
  underloaded-AllBelow avg i n (w ∷ ws) e =
      let rest = underloaded-AllBelow avg (suc i) n ws (omega (arith, e)) in
      let here : i < n = omega (arith, e) in
      if_cases (AllBelow n) (is_over avg (length w.runnable_queue)) (λ _. rest)
        (λ _.
          if_cases (AllBelow n) (is_under avg (length w.runnable_queue)) (λ _. (here, rest))
            (λ _. rest))

module _ {ℓ} (W : Type ℓ) ⦃f : Floats W⦄ where
  -- `LoadBalance` queues each task as often afterwards as before, over all processors: whatever `float`
  -- computes, no task is lost and none is doubled.
  pub load_balance-queued : (t : ℕ) (ws : List Worker) → queued t (load_balance W ws) ≡ queued t ws
  unfolding load_balance
  load_balance-queued t ws =
      let avg : W = average ws in
      if_cases (λ vs. queued t vs ≡ queued t ws) (is_empty ws) {x = ws}
        {y = balance_all avg (underloaded avg 0 ws) (overloaded avg 0 ws) ws} (λ _. refl)
        (λ _.
          balance_all-queued t avg (underloaded avg 0 ws) (overloaded avg 0 ws) ws
            (underloaded-AllBelow avg 0 (length ws) ws (omega arith)))
