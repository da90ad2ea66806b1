-- ===== src/Engine/Wait.antt =====
-- Which completions `WaitResult` passes over, and when it comes back.
use uring_fiber.Prelude.{
  ℕ, ◌+◌, ◌≡◌, ◌≢◌, refl, sym, ap, ◌∙◌, inl, inr, ◌↔◌, Bool-cases, Bool, true, false, ◌||◌, Option,
  none, some, List, [], ◌∷◌, ◌++◌, ◌==ℤ◌, neg, length, arith,
}
use uring_fiber.Engine.{
  normal, timeout, Cqe, Engine, enoent, ecanceled, Waited, blocked, complete, wait_result,
}

-- A completion of a link timeout that did not fire: its request was over first, or was cancelled.
unfoldable pub is_quiet : Engine → Option Cqe → Bool
is_quiet e none = false
is_quiet e (some c) = elim (e.datas c.user_data) [
  | none ↦ false
  | some d ↦ elim d.type [
    | timeout ↦ c.res ==ℤ neg enoent || c.res ==ℤ neg ecanceled
    | normal ↦ false
  ]
]

abbrev pub AllQuiet : Engine → List (Option Cqe) → Type 0
AllQuiet e [] = Unit {0}
AllQuiet e (c ∷ cs) = (is_quiet e c ≡ true) × AllQuiet e cs

abbrev pub seen_more : ℕ → Engine → Engine
seen_more n e = record e { seen = e.seen + n }

AllQuiet-seen :
    (qs : List (Option Cqe)) (e : Engine) (n : ℕ) → AllQuiet e qs → AllQuiet (seen_more n e) qs
unfolding is_quiet
AllQuiet-seen [] e n h = h
AllQuiet-seen (none ∷ qs) e n h = (h.0, AllQuiet-seen qs e n h.1)
AllQuiet-seen (some c ∷ qs) e n h = (h.0, AllQuiet-seen qs e n h.1)

AllQuiet-seen_back :
    (qs : List (Option Cqe)) (e : Engine) (n : ℕ) → AllQuiet (seen_more n e) qs → AllQuiet e qs
unfolding is_quiet
AllQuiet-seen_back [] e n h = h
AllQuiet-seen_back (none ∷ qs) e n h = (h.0, AllQuiet-seen_back qs e n h.1)
AllQuiet-seen_back (some c ∷ qs) e n h = (h.0, AllQuiet-seen_back qs e n h.1)

complete-quiet :
    (e : Engine) (c : Cqe) (rest : Engine × Waited)
    → is_quiet e (some c) ≡ true
    → complete c (e.datas c.user_data) (record e { seen = e.seen + 1 }) rest ≡ rest
unfolding complete is_quiet
complete-quiet e c rest h = ground arith

-- `WaitResult` passes over any number of quiet completions, and leaves all as it was but for the count
-- of completions seen: their `ring_data` stays on the heap.
pub wait_result-skip :
    (qs cs : List (Option Cqe)) (e : Engine)
    → AllQuiet e qs
    → wait_result (qs ++ cs) e ≡ wait_result cs (seen_more (length qs) e)
unfolding wait_result is_quiet
wait_result-skip [] cs e h = ap (wait_result cs) (ground arith)
wait_result-skip (none ∷ qs) cs e h = absurd (cc h.0)
wait_result-skip (some c ∷ qs) cs e h =
    complete-quiet e c _ h.0
    ∙ (wait_result-skip qs cs (seen_more 1 e) (AllQuiet-seen qs e 1 h.1)
        ∙ ap (wait_result cs) (ground arith))

complete-loud :
    (e : Engine) (c : Cqe) (rest rest' : Engine × Waited)
    → is_quiet e (some c) ≡ false
    → (complete c (e.datas c.user_data) (record e { seen = e.seen + 1 }) rest
        ≡ complete c (e.datas c.user_data) (record e { seen = e.seen + 1 }) rest')
      × ((complete c (e.datas c.user_data) (record e { seen = e.seen + 1 }) rest).1 ≢ blocked)
unfolding complete is_quiet
complete-loud e c rest rest' h = (ground arith, λ b. ground arith)

-- A call of `WaitResult` waits for ever exactly if all completions that come are quiet; it comes back at
-- the first other one, whatever follows it.
pub wait_result-blocked :
    (cs : List (Option Cqe)) (e : Engine) → ((wait_result cs e).1 ≡ blocked) ↔ AllQuiet e cs
unfolding wait_result is_quiet
wait_result-blocked [] e = (λ h. tt, λ h. refl)
wait_result-blocked (none ∷ cs) e = (λ h. absurd (cc h), λ h. absurd (cc h.0))
wait_result-blocked (some c ∷ cs) e = elim (Bool-cases (is_quiet e (some c))) [
  | inl q ↦
      let rest = wait_result cs (seen_more 1 e) in
      let same = complete-quiet e c rest q in
      (
        λ h. (
          q,
          AllQuiet-seen_back cs e 1 (
              (wait_result-blocked cs (seen_more 1 e)).0
                (ap (λ (r : Engine × Waited). r.1) (sym same) ∙ h)),
        ),
        λ h.
            ap (λ (r : Engine × Waited). r.1) same
            ∙ (wait_result-blocked cs (seen_more 1 e)).1 (AllQuiet-seen cs e 1 h.1),
      )
  | inr l ↦
      let never = (complete-loud e c (wait_result cs (seen_more 1 e)) (e, blocked) l).1 in
      (λ h. absurd (never h), λ h. absurd (cc (l, h.0)))
]
