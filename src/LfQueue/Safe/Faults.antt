-- ===== src/LfQueue/Safe/Faults.antt =====
-- No thread of `LFQueue` accesses a node that is not there: one that has been deleted, or none at all.
use uring_fiber.Prelude.{
  ℕ, ◌^◌, ◌<◌, ◌≡◌, ◌≢◌, refl, sym, subst, true, none, update, ◌==◌, Bool-cases, inl, inr,
}
use uring_fiber.LfQueue.Node.{Memory}
use uring_fiber.LfQueue.Machine.{
  Choice, Pc, push_new, push_load, push_inc, push_data, next_won, next_lost, lost_new, tail_cas,
  free_load, free_cas, release_load, release_cas, push_counted, push_sized, pop_first, pop_second,
  pop_load, pop_inc, pop_tail, pop_next, pop_head, pop_take, pop_counted, pop_sized, pushed, popped,
  fault, step,
}
use uring_fiber.LfQueue.Threads.{Threads, begin, is_outside, after_step}
use uring_fiber.LfQueue.Safe.{away, Ranks}
use uring_fiber.LfQueue.Safe.Sound.{Safe}
use uring_fiber.LfQueue.Safe.Views.{view, role, Told, map_update}
use uring_fiber.LfQueue.Safe.Kept.{Kept, same-Kept}
use uring_fiber.LfQueue.Safe.Accesses.{step-Kept}
use uring_fiber.LfQueue.Safe.Start.{make-Safe}

-- One of `n` threads calls `push` or `pop`, or has its next access. `new` returns an address of 48 bits that
-- no node is at, perhaps one whose node has been deleted; what the memory there holds is open.
pub data Turn (n : ℕ) (s : Threads) : Threads → Type 0 where
  push_called :
      (i v : ℕ)
      → i < n
      → is_outside (s.pc i) ≡ true
      → Turn n s (record s { pc = update s.pc i (push_new v) })
  pop_called :
      (i : ℕ)
      → i < n
      → is_outside (s.pc i) ≡ true
      → Turn n s (record s { pc = update s.pc i pop_first })
  has_access :
      (i : ℕ) (c : Choice)
      → i < n
      → s.memory.nodes c.address ≡ none
      → c.address ≢ 0
      → c.address < 2 ^ 48
      → Turn n s (after_step s i (step c s.memory (s.pc i)))

pub data Run (n : ℕ) (s : Threads) : Threads → Type 0 where
  starts : Run n s s
  then_turn : {t u : Threads} → Run n s t → Turn n t u → Run n s u

-- The references are sound, and no thread has met a pointer to no node.
record Steady (n : ℕ) (s : Threads) : Type 0 where
  ranks : Ranks
  safe : Safe n (view s.memory) ranks (λ j. role (s.pc j))
  told : (j : ℕ) → Told (s.pc j)

Kept-Steady :
    (n i : ℕ) (s : Threads) (x : Memory × Pc)
    → ((j : ℕ) → Told (s.pc j))
    → Kept n i (λ j. role (s.pc j)) x
    → Steady n (after_step s i x)
Kept-Steady n i s (m, p) told k = record {
  ranks = k.ranks;
  safe = subst (Safe n (view m) k.ranks) (sym (map_update role s.pc i p)) k.safe;
  told = λ j. elim (Bool-cases (i == j)) [ inl e ↦ rw e k.told | inr e ↦ rw e (told j) ];
}

outside_away : (p : Pc) → is_outside p ≡ true → role p ≡ away
outside_away (push_new v) e = refl
outside_away (push_load v nn) e = cc e
outside_away (push_inc v nn ot) e = cc e
outside_away (push_data v nn ot) e = cc e
outside_away (next_won nn ot) e = cc e
outside_away (next_lost v nn ot) e = cc e
outside_away (lost_new v nn ot) e = cc e
outside_away (tail_cas after ot new current) e = cc e
outside_away (free_load k cnp) e = cc e
outside_away (free_cas k cnp old) e = cc e
outside_away (release_load k p) e = cc e
outside_away (release_cas k p old) e = cc e
outside_away push_counted e = refl
outside_away push_sized e = refl
outside_away pop_first e = refl
outside_away (pop_second h) e = refl
outside_away pop_load e = refl
outside_away (pop_inc oh) e = refl
outside_away (pop_tail oh) e = cc e
outside_away (pop_next oh) e = cc e
outside_away (pop_head oh next) e = cc e
outside_away (pop_take oh) e = cc e
outside_away (pop_counted res) e = refl
outside_away (pop_sized res) e = refl
outside_away pushed e = refl
outside_away (popped res) e = refl
outside_away fault e = refl

Turn-Steady : (n : ℕ) {s t : Threads} → n < 2 ^ 16 → Steady n s → Turn n s t → Steady n t
Turn-Steady n {s} many st (push_called i v few out) =
    Kept-Steady n i s (s.memory, push_new v) st.told
      (same-Kept n s.memory st.ranks (λ j. role (s.pc j)) i few st.safe s.memory (push_new v) refl
        (sym (outside_away (s.pc i) out)) tt)
Turn-Steady n {s} many st (pop_called i few out) =
    Kept-Steady n i s (s.memory, pop_first) st.told
      (same-Kept n s.memory st.ranks (λ j. role (s.pc j)) i few st.safe s.memory pop_first refl
        (sym (outside_away (s.pc i) out)) tt)
Turn-Steady n {s} many st (has_access i c few fresh some_address fits) =
    Kept-Steady n i s (step c s.memory (s.pc i)) st.told (
      step-Kept n c s.memory st.ranks (λ j. role (s.pc j)) i few many fresh some_address fits
        st.safe (s.pc i) refl (st.told i))

Run-Steady : (n : ℕ) {s t : Threads} → n < 2 ^ 16 → Steady n s → Run n s t → Steady n t
Run-Steady n many st starts = st
Run-Steady n many st (then_turn r turn) = Turn-Steady n many (Run-Steady n many st r) turn

begin-Steady : (n : ℕ) (c : Choice) → c.address ≢ 0 → c.address < 2 ^ 48 → Steady n (begin c)
begin-Steady n c some_address fits =
    let (k, safe) = make-Safe n c some_address fits in
    record { ranks = k; safe = safe; told = λ _. tt }

-- Whatever fewer than 2^16 threads do with a queue that was made, each calling `push` and `pop` as often as it
-- likes, with their accesses in any order, with `new` returning any address of 48 bits, not null, that no node
-- is at, a deleted node's too, and with `compare_exchange_weak` failing at will: no thread ever accesses a node through
-- a pointer to a node that has been deleted, or to none.
pub never_faults :
    (n : ℕ) (c : Choice)
    → n < 2 ^ 16
    → c.address ≢ 0
    → c.address < 2 ^ 48
    → (t : Threads) → Run n (begin c) t
    → (i : ℕ) → t.pc i ≢ fault
never_faults n c many some_address fits t r i z =
    subst Told z ((Run-Steady n many (begin-Steady n c some_address fits) r).told i)
